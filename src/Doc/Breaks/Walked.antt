-- ===== src/Doc/Breaks/Walked.antt =====
-- doc/print.go: what the traversal of `propagateBreaks` does to the flags, the stack and the groups visited,
-- part by part.
use thrift_ls.Common.{
  ℕ, ◌≡◌, refl, sym, ap, subst, ◌∙◌, Bool, true, false, not, ◌&&◌, ◌||◌, List, [], ◌∷◌, ◌++◌, ◌==◌,
  if◌then◌else◌, if_elim, arith, Bool-cases, inl, inr,
}
use thrift_ls.Doc.Breaks.{
  Flags, Walk, set_flag, break_parent_group, break_parent_of, pop_stack, enter_group, exit_group,
}
use thrift_ls.Doc.Breaks.Groups.{mem, distinct, mem-append, distinct-append}

unfoldable pub top_marked : List ℕ → Flags → Bool
top_marked [] flags = true
top_marked (r ∷ rs) flags = flags r

unfoldable pub Grows : Flags → Flags → Type 0
Grows a b = (r : ℕ) → a r ≡ true → b r ≡ true

-- What walking over a part of the document does.
pub record Walked (xs : List ℕ) (force : Bool) (mark : Flags → Bool) (v w : Walk) : Type 0 where
  pub stack : w.stack ≡ v.stack
  pub grows : Grows v.flags w.flags
  pub visited : (r : ℕ) → w.visited r ≡ v.visited r || mem r xs
  pub top : force ≡ true → top_marked v.stack w.flags ≡ true
  pub mark_top : mark w.flags ≡ true
  pub keeps : (a b : Flags) → Grows a b → mark a ≡ true → mark b ≡ true

-- The groups of a part are new and occur once.
unfoldable pub New : List ℕ → Walk → Type 0
New xs w = ((r : ℕ) → mem r xs ≡ true → w.visited r ≡ false) × (distinct xs ≡ true)

top-Grows :
    (rs : List ℕ) (a b : Flags) → Grows a b → top_marked rs a ≡ true → top_marked rs b ≡ true
unfolding top_marked Grows
top-Grows [] a b g h = h
top-Grows (r ∷ rs) a b g h = g r h

pub stay : (w : Walk) → Walked [] false (λ _. true) w w
unfolding Grows mem
stay w = record {
  stack = refl;
  grows = λ r h. h;
  visited = λ r. ground arith;
  top = λ h. ground arith;
  mark_top = refl;
  keeps = λ a b g h. h;
}

pub next :
    {xs ys : List ℕ} {f g : Bool} {m n : Flags → Bool} {u v w : Walk}
    → Walked xs f m u v
    → Walked ys g n v w
    → Walked (xs ++ ys) (f || g) (λ flags. m flags && n flags) u w
unfolding Grows
next {xs} {ys} {f} {g} {m} {n} {u} {v} {w} a b = record {
  stack = b.stack ∙ a.stack;
  grows = λ r h. b.grows r (a.grows r h);
  visited =
      λ r. b.visited r ∙ ap (λ t. t || mem r ys) (a.visited r) ∙ ground (arith, mem-append r xs ys);
  top = λ h. elim (Bool-cases f) [
    | inl e ↦ top-Grows u.stack v.flags w.flags b.grows (a.top e)
    | inr e ↦ subst (λ st. top_marked st w.flags ≡ true) a.stack (b.top (ground arith))
  ];
  mark_top =
      let k : m w.flags ≡ true = a.keeps v.flags w.flags b.grows a.mark_top in
      let l : n w.flags ≡ true = b.mark_top in ground arith;
  keeps = λ p q z h.
      let k : m q ≡ true = a.keeps p q z (ground arith) in
      let l : n q ≡ true = b.keeps p q z (ground arith) in ground arith;
}

pub New-first : (xs ys : List ℕ) (w : Walk) → New (xs ++ ys) w → New xs w
unfolding New
New-first xs ys w (h, d) =
    (λ r k. h r (ground (arith, mem-append r xs ys)), (distinct-append xs ys d).0)

pub New-second :
    {f : Bool} {m : Flags → Bool} (xs ys : List ℕ) (v w : Walk)
    → New (xs ++ ys) v
    → Walked xs f m v w
    → New ys w
unfolding New
New-second xs ys v w (h, d) a =
    let (dx, dy, c) = distinct-append xs ys d in
    (
      λ r k.
          let p : v.visited r ≡ false = h r (ground (arith, mem-append r xs ys)) in
          let q : mem r xs ≡ false = c r k in
          let t : w.visited r ≡ v.visited r || mem r xs = a.visited r in ground arith,
      dy,
    )

set_flag-Grows : (ref : ℕ) (flags : Flags) → Grows flags (set_flag ref flags)
unfolding Grows set_flag
set_flag-Grows ref flags r h = if_elim (λ b. b ≡ true) (r == ref) (λ _. refl) (λ _. h)

break-Grows : (st : List ℕ) (flags : Flags) → Grows flags (break_parent_group st flags)
unfolding Grows break_parent_group
break-Grows [] flags r h = h
break-Grows (x ∷ xs) flags r h = set_flag-Grows x flags r h

break-top : (st : List ℕ) (flags : Flags) → top_marked st (break_parent_group st flags) ≡ true
unfolding top_marked break_parent_group set_flag
break-top [] flags = refl
break-top (x ∷ xs) flags = ground arith

pub break_walk : (w : Walk) → Walked [] true (λ _. true) w (break_parent_of w)
unfolding break_parent_of mem Grows
break_walk w = record {
  stack = refl;
  grows = break-Grows w.stack w.flags;
  visited = λ r. ground arith;
  top = λ h. break-top w.stack w.flags;
  mark_top = refl;
  keeps = λ a b g h. h;
}

pub false≢true : false ≡ true → ⊥
false≢true h = ground arith

seen_case : (t x y : Bool) → (if t then true else x) || y ≡ x || (t || y)
seen_case true true y = refl
seen_case true false y = refl
seen_case false x y = refl

both : (x y : Bool) → x ≡ true → y ≡ true → x && y ≡ true
both x y h k = ground arith

first_of : (x y : Bool) → x && y ≡ true → x ≡ true
first_of x y h = ground arith

second_of : (x y : Bool) → x && y ≡ true → y ≡ true
second_of x y h = ground arith

implies : (f p q : Bool) → (p ≡ true → q ≡ true) → not f || p ≡ true → not f || q ≡ true
implies true p q z h = z h
implies false p q z h = refl

pub holds_if : (f p : Bool) → (f ≡ true → p ≡ true) → not f || p ≡ true
holds_if true p h = h refl
holds_if false p h = refl

-- A group that is new, from what the walk over its contents does.
pub group_walk :
    {xs : List ℕ} {f : Bool} {m : Flags → Bool} (ref : ℕ) (v w : Walk)
    → Walked xs f m (enter_group ref v) w
    → Walked (ref ∷ xs) f (λ flags. (not f || flags ref) && m flags) v (exit_group ref w)
unfolding enter_group exit_group break_parent_of set_flag Grows mem top_marked
group_walk {xs} {f} {m} ref v w a =
    let st : pop_stack w.stack ≡ v.stack = ap pop_stack a.stack in
    let seen : (r : ℕ) → w.visited r ≡ v.visited r || mem r (ref ∷ xs) =
      λ r. a.visited r ∙ seen_case (r == ref) (v.visited r) (mem r xs) in
    let kept : (p q : Flags)
        → Grows p q
        → (not f || p ref) && m p ≡ true
        → (not f || q ref) && m q ≡ true =
      λ p q z h.
        both (not f || q ref) (m q)
          (implies f (p ref) (q ref) (z ref) (first_of (not f || p ref) (m p) h))
          (a.keeps p q z (second_of (not f || p ref) (m p) h)) in
    if_elim (Walked (ref ∷ xs) f (λ flags. (not f || flags ref) && m flags) v) (w.flags ref)
      (λ e. record {
        stack = st;
        grows = λ r h. break-Grows (pop_stack w.stack) w.flags r (a.grows r h);
        visited = seen;
        top = λ h.
            subst (λ s. top_marked s (break_parent_group (pop_stack w.stack) w.flags) ≡ true) st
              (break-top (pop_stack w.stack) w.flags);
        mark_top =
            kept w.flags (break_parent_group (pop_stack w.stack) w.flags)
              (break-Grows (pop_stack w.stack) w.flags)
              (both (not f || w.flags ref) (m w.flags) (holds_if f (w.flags ref) a.top) a.mark_top);
        keeps = kept;
      })
      (λ e. record {
        stack = st;
        grows = a.grows;
        visited = seen;
        top = λ h. absurd (false≢true (sym e ∙ a.top h));
        mark_top =
            both (not f || w.flags ref) (m w.flags) (holds_if f (w.flags ref) a.top) a.mark_top;
        keeps = kept;
      })

pub enter_New : (ref : ℕ) (xs : List ℕ) (w : Walk) → New (ref ∷ xs) w → New xs (enter_group ref w)
unfolding New mem distinct enter_group set_flag
enter_New ref xs w (h, d) = (
  λ r k.
      if_elim (λ b. b ≡ false) (r == ref)
        (λ e.
          let q : r ≡ ref = ground arith in
          let y : mem r xs ≡ mem ref xs = ap (λ t. mem t xs) q in absurd (ground arith))
        (λ _. h r (ground arith)),
  ground arith,
)
