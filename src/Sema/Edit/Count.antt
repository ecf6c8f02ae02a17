-- ===== src/Sema/Edit/Count.antt =====
-- How many elements of a list a test accepts: lists with the same counts hold the same elements, in
-- whatever order.
use thrift_ls.Common.{ℕ, ◌+◌, ◌≡◌, refl, Bool, List, [], ◌∷◌, ◌++◌, if◌then◌else◌, arith, if_elim}
use thrift_ls.Sema.Edit.{Piece, insert_by, sort_by}

module _ {ℓ} {A : Type ℓ} where
  unfoldable pub count : (A → Bool) → List A → ℕ
  count P [] = 0
  count P (x ∷ xs) = (if P x then 1 else 0) + count P xs

  pub count-append : (P : A → Bool) (xs ys : List A) → count P (xs ++ ys) ≡ count P xs + count P ys
  unfolding count
  count-append P [] ys = omega arith
  count-append P (x ∷ xs) ys = omega (arith, count-append P xs ys)

count-insert_by :
    (P : Piece → Bool) (le : Piece → Piece → Bool) (p : Piece) (ps : List Piece)
    → count P (insert_by le p ps) ≡ count P (p ∷ ps)
unfolding count insert_by
count-insert_by P le p [] = refl
count-insert_by P le p (q ∷ qs) =
    if_elim (λ rs. count P rs ≡ count P (p ∷ q ∷ qs)) (le p q) (λ _. refl)
      (λ _. omega (arith, count-insert_by P le p qs))

pub count-sort_by :
    (P : Piece → Bool) (le : Piece → Piece → Bool) (ps : List Piece)
    → count P (sort_by le ps) ≡ count P ps
unfolding count sort_by
count-sort_by P le [] = refl
count-sort_by P le (p ∷ ps) =
    omega (arith, count-insert_by P le p (sort_by le ps), count-sort_by P le ps)
