-- ===== src/Syntax/Parser/Errors.antt =====
-- syntax/parser.go: `Parse` puts the errors of the lexer and of the parser in the order of their offsets.
use thrift_ls.Common.{
  ℕ, ◌+◌, ◌≤◌, ◌<◌, ◌≡◌, refl, ap, sym, ◌∙◌, Bool, true, false, List, [], ◌∷◌, ◌++◌, Bool-cases,
  ◌==◌, ltb, if◌then◌else◌, append-nil, append_assoc, arith, inl, inr,
}
use thrift_ls.Syntax.Parser.State.Sealed.{failures}
use thrift_ls.Syntax.Parser.{insert_error, sort_errors}
use thrift_ls.Syntax.Token.{Error}

-- The offsets rise from `lo` on.
unfoldable pub Rising : ℕ → List Error → Type 0
Rising lo [] = Unit {0}
Rising lo (e ∷ es) = (lo ≤ e.offset) × Rising e.offset es

-- The errors at an offset, in their order.
unfoldable pub at_offset : ℕ → List Error → List Error
at_offset o [] = []
at_offset o (e ∷ es) = let later = at_offset o es in if e.offset == o then e ∷ later else later

Rising-insert_error :
    (e : Error) (lo : ℕ) (es : List Error)
    → lo ≤ e.offset
    → Rising lo es
    → Rising lo (insert_error e es)
unfolding Rising insert_error
Rising-insert_error e lo [] h r = (h, tt)
Rising-insert_error e lo (d ∷ es) h (l, r) = elim (Bool-cases (ltb e.offset d.offset)) [
  | inl y ↦ rw y (h, ((ground arith), r))
  | inr n ↦ rw n (l, Rising-insert_error e d.offset es (ground arith) r)
]

at_offset-Rising : (o lo : ℕ) (es : List Error) → o < lo → Rising lo es → at_offset o es ≡ []
unfolding Rising at_offset
at_offset-Rising o lo [] h r = refl
at_offset-Rising o lo (e ∷ es) h (l, r) =
    let later = at_offset-Rising o e.offset es (omega arith) r in ground arith

-- One more element behind the others, or in front of none.
snoc_if :
    {A : Type 0} (b : Bool) (x : A) (xs : List A)
    → (b ≡ true → xs ≡ [])
    → (if b then x ∷ xs else xs) ≡ xs ++ (if b then x ∷ [] else [])
snoc_if true x xs h = rw (h refl)
snoc_if false x xs h = sym (append-nil xs)

keep_if :
    {A : Type 0} (b : Bool) (x : A) (xs ys zs : List A)
    → xs ≡ ys ++ zs
    → (if b then x ∷ xs else xs) ≡ (if b then x ∷ ys else ys) ++ zs
keep_if true x xs ys zs h = ap (◌∷◌ x) h
keep_if false x xs ys zs h = h

at_offset-insert_error :
    (o : ℕ) (e : Error) (lo : ℕ) (es : List Error)
    → Rising lo es
    → at_offset o (insert_error e es) ≡ at_offset o es ++ at_offset o (e ∷ [])
unfolding Rising at_offset insert_error
at_offset-insert_error o e lo [] r = refl
at_offset-insert_error o e lo (d ∷ es) (l, r) = elim (Bool-cases (ltb e.offset d.offset)) [
  | inl y ↦ rw y (
      snoc_if (e.offset == o) e (at_offset o (d ∷ es))
        (λ q. at_offset-Rising o d.offset (d ∷ es) (ground arith) ((omega arith), r)))
  | inr n ↦ rw n (keep_if (d.offset == o) d _ _ _ (at_offset-insert_error o e d.offset es r))
]

pub sort_errors-Rising :
    (sorted es : List Error) → Rising 0 sorted → Rising 0 (sort_errors sorted es)
unfolding sort_errors
sort_errors-Rising sorted [] r = r
sort_errors-Rising sorted (e ∷ es) r =
    sort_errors-Rising (insert_error e sorted) es (Rising-insert_error e 0 sorted (omega arith) r)

pub at_offset-append :
    (o : ℕ) (es ds : List Error) → at_offset o (es ++ ds) ≡ at_offset o es ++ at_offset o ds
unfolding at_offset
at_offset-append o [] ds = refl
at_offset-append o (e ∷ es) ds = keep_if (e.offset == o) e _ _ _ (at_offset-append o es ds)

pub at_offset-sort_errors :
    (o : ℕ) (sorted es : List Error)
    → Rising 0 sorted
    → at_offset o (sort_errors sorted es) ≡ at_offset o sorted ++ at_offset o es
unfolding sort_errors at_offset
at_offset-sort_errors o sorted [] r = sym (append-nil (at_offset o sorted))
at_offset-sort_errors o sorted (e ∷ es) r =
    at_offset-sort_errors o (insert_error e sorted) es
      (Rising-insert_error e 0 sorted (omega arith) r)
    ∙ ap (λ x. x ++ at_offset o es) (at_offset-insert_error o e 0 sorted r)
    ∙ append_assoc (at_offset o sorted) (at_offset o (e ∷ [])) (at_offset o es)
    ∙ ap (◌++◌ (at_offset o sorted)) (sym (at_offset-append o (e ∷ []) es))

failures-insert_error :
    (e : Error) (es : List Error) → failures (insert_error e es) ≡ failures (e ∷ es)
unfolding failures insert_error
failures-insert_error e [] = refl
failures-insert_error e (d ∷ es) = let later = failures-insert_error e es in ground arith

pub failures-sort_errors :
    (sorted es : List Error) → failures (sort_errors sorted es) ≡ failures sorted + failures es
unfolding failures sort_errors
failures-sort_errors sorted [] = omega arith
failures-sort_errors sorted (e ∷ es) =
    let later = failures-sort_errors (insert_error e sorted) es in
    let first = failures-insert_error e sorted in ground arith
