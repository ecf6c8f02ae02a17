-- ===== src/Store/Graph/Reach.antt =====
-- store/view.go: files that depend on a file, and what a round of `Dependents` adds to those seen.
use thrift_ls.Common.{
  bytes_eq_refl, bytes_eq→≡, bytes_eq_sym, ℕ, suc, ◌+◌, ◌≤◌, ◌≡◌, refl, sym, subst, ◌∙◌, ◌⊎◌, inl,
  inr, Bool, true, false, ◌||◌, List, [], ◌∷◌, ◌++◌, bytes_eq, if◌then◌else◌, Bool-cases, arith,
  length, append_assoc, append-nil,
}
use thrift_ls.Store.Graph.{Uri, Edges, find, has, fresh}
use thrift_ls.Store.Graph.Keys.{has-append}

-- `es` says who includes a file: `Depends es file x` says that `x` includes `file`, directly or through
-- other files.
pub data Depends (es : Edges) (file : Uri) : Uri → Type 0 where
  direct : {x : Uri} → has (find file es) x ≡ true → Depends es file x
  further : {u x : Uri} → Depends es file u → has (find u es) x ≡ true → Depends es file x

pub has-fresh : (ds deps : List Uri) (x : Uri) → has (fresh ds deps) x ≡ true → has ds x ≡ true
unfolding has fresh
has-fresh [] deps x h = h
has-fresh (d ∷ ds) deps x h =
    let skipped = has-fresh ds deps x in let taken = has-fresh ds (deps ++ d ∷ []) x in ground arith

-- Behind the round all of the dependents are seen.
pub has-append-fresh :
    (ds deps : List Uri) (x : Uri) → has ds x ≡ true → has (deps ++ fresh ds deps) x ≡ true
unfolding has fresh
has-append-fresh [] deps x h = absurd (cc)
has-append-fresh (d ∷ ds) deps x h = elim (Bool-cases (has deps d)) [
  | inl y ↦
      let seen : bytes_eq d x ≡ true → has deps x ≡ true =
        λ e. subst (λ z. has deps z ≡ true) (bytes_eq→≡ d x e) y in
      let both = has-append deps (fresh ds deps) x in
      let later = has-append-fresh ds deps x in
      let all : has (deps ++ fresh ds deps) x ≡ true = ground arith in rw y all
  | inr n ↦
      let one = has-append deps (d ∷ []) x in
      let both = has-append (deps ++ d ∷ []) (fresh ds (deps ++ d ∷ [])) x in
      let later = has-append-fresh ds (deps ++ d ∷ []) x in
      let all : has ((deps ++ d ∷ []) ++ fresh ds (deps ++ d ∷ [])) x ≡ true = ground arith in
      rw n
        (subst (λ l. has l x ≡ true) (append_assoc deps (d ∷ []) (fresh ds (deps ++ d ∷ []))) all)
]

pub or_right : (a : Bool) {b : Bool} → b ≡ true → (a || b) ≡ true
or_right true h = refl
or_right false h = h

pub or_left : (a b : Bool) → a ≡ true → (a || b) ≡ true
or_left a b h = ground arith

pub or_elim : (a b : Bool) → (a || b) ≡ true → (a ≡ true) ⊎ (b ≡ true)
or_elim true b h = inl refl
or_elim false b h = inr h

-- The edges whose files are not seen.
unfoldable pub unseen : List Uri → List Uri → ℕ
unfolding has
unseen [] deps = 0
unseen (t ∷ ts) deps = let later = unseen ts deps in if has deps t then later else suc later

pub unseen_le : (ts deps : List Uri) → unseen ts deps ≤ length ts
unfolding unseen
unseen_le [] deps = omega arith
unseen_le (t ∷ ts) deps = let later = unseen_le ts deps in ground arith

unseen-le : (ts deps : List Uri) (d : Uri) → unseen ts (deps ++ d ∷ []) ≤ unseen ts deps
unfolding unseen has
unseen-le [] deps d = omega arith
unseen-le (t ∷ ts) deps d =
    let later = unseen-le ts deps d in let seen = has-append deps (d ∷ []) t in ground arith

unseen-lt :
    (ts deps : List Uri) (d : Uri)
    → has ts d ≡ true
    → has deps d ≡ false
    → unseen ts (deps ++ d ∷ []) + 1 ≤ unseen ts deps
unfolding unseen has
unseen-lt [] deps d h n = absurd (cc)
unseen-lt (t ∷ ts) deps d h n =
    let less = unseen-le ts deps d in
    let seen = has-append deps (d ∷ []) t in
    let same : bytes_eq t d ≡ true → has deps t ≡ false =
      λ e. subst (λ z. has deps z ≡ false) (sym (bytes_eq→≡ t d e)) n in
    let back : bytes_eq t d ≡ true → bytes_eq d t ≡ true = λ e. bytes_eq_sym d t ∙ e in
    let later : has ts d ≡ true → unseen ts (deps ++ d ∷ []) + 1 ≤ unseen ts deps =
      λ e. unseen-lt ts deps d e n in
    ground arith

-- A round makes as many files seen as it adds to the queue.
pub unseen-fresh :
    (ts ds deps : List Uri)
    → ((x : Uri) → has ds x ≡ true → has ts x ≡ true)
    → unseen ts (deps ++ fresh ds deps) + length (fresh ds deps) ≤ unseen ts deps
unfolding fresh has
unseen-fresh ts [] deps h = rw (append-nil deps) (omega arith)
unseen-fresh ts (d ∷ ds) deps h =
    let rest : (x : Uri) → has ds x ≡ true → has ts x ≡ true =
      λ x e. h x (or_right (bytes_eq d x) e) in
    elim (Bool-cases (has deps d)) [
      | inl y ↦ rw y (unseen-fresh ts ds deps rest)
      | inr n ↦
          let taken = unseen-lt ts deps d (h d (or_left _ _ (bytes_eq_refl d))) n in
          let later = unseen-fresh ts ds (deps ++ d ∷ []) rest in
          let same = append_assoc deps (d ∷ []) (fresh ds (deps ++ d ∷ [])) in
          rw n (
            subst (λ l. unseen ts l + suc (length (fresh ds (deps ++ d ∷ []))) ≤ unseen ts deps)
              same (omega arith))
    ]
