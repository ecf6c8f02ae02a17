-- ===== src/Common/Sort.antt =====
-- A stable sort, and what its result depends on: two lists that hold the same elements in the same order
-- wherever the sort cannot tell them apart are sorted to one list.
use thrift_ls.Common.Lists.{All, All-map}
use thrift_ls.Common.Tests.{if◌then◌else◌, Bool-cases, if_elim}
use mathlib.Core.Bool.{Bool, true, false, ◌&&◌}
use mathlib.Core.List.{List, [], ◌∷◌, ◌++◌}
use mathlib.Core.Logic.{inl, inr}
use mathlib.Core.Path.{◌≡◌, refl, sym, subst, ◌∙◌}
use native.Mathlib.Omega.{arith}

module _ {ℓ} {A : Type ℓ} (le : A → A → Bool) where
  -- `slices.SortStableFunc`: an element goes in front of those that it does not come after.
  unfoldable pub stable_insert : A → List A → List A
  stable_insert x [] = x ∷ []
  stable_insert x (y ∷ ys) =
      let later = stable_insert x ys in if le x y then x ∷ y ∷ ys else y ∷ later

  unfoldable pub stable_sort : List A → List A
  unfolding stable_insert
  stable_sort [] = []
  stable_sort (x ∷ xs) = stable_insert x (stable_sort xs)

-- The elements with a property, in their order.
unfoldable pub select {ℓ} : {A : Type ℓ} → (A → Bool) → List A → List A
select p [] = []
select p (x ∷ xs) = if p x then x ∷ select p xs else select p xs

pub select-append {ℓ} :
    {A : Type ℓ} (p : A → Bool) (xs ys : List A) → select p (xs ++ ys) ≡ select p xs ++ select p ys
unfolding select
select-append p [] ys = refl
select-append p (x ∷ xs) ys = ground (arith, select-append p xs ys)

module _ {ℓ} {A : Type ℓ} (le : A → A → Bool)
    (le-total : (x y : A) → le x y ≡ false → le y x ≡ true)
    (le-trans : (x y z : A) → le x y ≡ true → le y z ≡ true → le x z ≡ true) where
  -- The sort cannot tell the two apart.
  abbrev pub same : A → A → Bool
  same x y = le x y && le y x

  abbrev Sorted : List A → Type ℓ
  Sorted [] = Unit
  Sorted (x ∷ xs) = All (λ y. le x y ≡ true) xs × Sorted xs

  All-stable_insert :
      (a x : A) (ys : List A)
      → le a x ≡ true
      → All (λ y. le a y ≡ true) ys
      → All (λ y. le a y ≡ true) (stable_insert le x ys)
  unfolding stable_insert
  All-stable_insert a x [] h all = (h, tt)
  All-stable_insert a x (y ∷ ys) h (hy, all) =
      if_elim (All (λ z. le a z ≡ true)) (le x y) (λ _. (h, (hy, all)))
        (λ _. (hy, All-stable_insert a x ys h all))

  stable_insert-Sorted : (x : A) (ys : List A) → Sorted ys → Sorted (stable_insert le x ys)
  unfolding stable_insert
  stable_insert-Sorted x [] s = (tt, tt)
  stable_insert-Sorted x (y ∷ ys) (below, s) =
      if_elim Sorted (le x y)
        (λ h. (
          (h, All-map (λ z. le y z ≡ true) (λ z. le x z ≡ true) ys (λ z. le-trans x y z h) below),
          (below, s),
        ))
        (λ h. (All-stable_insert y x ys (le-total x y h) below, stable_insert-Sorted x ys s))

  stable_sort-Sorted : (xs : List A) → Sorted (stable_sort le xs)
  unfolding stable_sort
  stable_sort-Sorted [] = tt
  stable_sort-Sorted (x ∷ xs) = stable_insert-Sorted x _ (stable_sort-Sorted xs)

  select-stable_insert :
      (k x : A) (ys : List A) → select (same k) (stable_insert le x ys) ≡ select (same k) (x ∷ ys)
  unfolding stable_insert select
  select-stable_insert k x [] = refl
  select-stable_insert k x (y ∷ ys) = ground (arith, select-stable_insert k x ys, le-trans x k y)

  -- The sort is stable.
  select-stable_sort :
      (k : A) (xs : List A) → select (same k) (stable_sort le xs) ≡ select (same k) xs
  unfolding stable_sort select
  select-stable_sort k [] = refl
  select-stable_sort k (x ∷ xs) =
      select-stable_insert k x _ ∙ ground (arith, select-stable_sort k xs)

  le_self : (x : A) → le x x ≡ true
  le_self x = elim (Bool-cases (le x x)) [ inl h ↦ h | inr h ↦ le-total x x h ]

  same_self : (x : A) → same x x ≡ true
  same_self x = rw (le_self x) refl

  All-select {κ} : (Q : A → Type κ) (p : A → Bool) (xs : List A) → All Q xs → All Q (select p xs)
  unfolding select
  All-select Q p [] all = tt
  All-select Q p (x ∷ xs) (q, all) =
      if_elim (All Q) (p x) (λ _. (q, All-select Q p xs all)) (λ _. All-select Q p xs all)

  select_self : (x : A) (xs : List A) → select (same x) (x ∷ xs) ≡ x ∷ select (same x) xs
  unfolding select
  select_self x xs = rw (same_self x) refl

  -- An element of which the sorted list behind `y` holds a copy does not come before `y`.
  le_of_select :
      (x y : A) (ys l : List A) → Sorted (y ∷ ys) → select (same x) (y ∷ ys) ≡ x ∷ l → le y x ≡ true
  le_of_select x y ys l (below, s) e =
      (subst (All (λ z. le y z ≡ true)) e
        (All-select (λ z. le y z ≡ true) (same x) (y ∷ ys) (le_self y, below))).0

  cons_inj : {x y : A} {xs ys : List A} → x ∷ xs ≡ y ∷ ys → (x ≡ y) × (xs ≡ ys)
  cons_inj e = (cc, cc)

  select-tail :
      (k x : A) (xs ys : List A)
      → select (same k) (x ∷ xs) ≡ select (same k) (x ∷ ys)
      → select (same k) xs ≡ select (same k) ys
  unfolding select
  select-tail k x xs ys e = elim (Bool-cases (same k x)) [
    | inl h ↦ (cons_inj (rw h at e)).1
    | inr h ↦ rw h at e
  ]

  select-nil : (p : A → Bool) (y : A) (l : List A) → select p [] ≡ y ∷ l → ⊥
  unfolding select
  select-nil p y l h = cc

  select_head :
      (x y : A) (ys l : List A)
      → le x y ≡ true
      → le y x ≡ true
      → select (same x) (y ∷ ys) ≡ x ∷ l
      → x ≡ y
  unfolding select
  select_head x y ys l xy yx e = ground arith

  Sorted-unique :
      (xs ys : List A)
      → Sorted xs
      → Sorted ys
      → ((k : A) → select (same k) xs ≡ select (same k) ys)
      → xs ≡ ys
  Sorted-unique [] [] s t e = refl
  Sorted-unique [] (y ∷ ys) s t e = absurd (select-nil (same y) y _ (e y ∙ select_self y ys))
  Sorted-unique (x ∷ xs) [] s t e = absurd (select-nil (same x) x _ (sym (e x) ∙ select_self x xs))
  Sorted-unique (x ∷ xs) (y ∷ ys) s t e =
      let yx = le_of_select x y ys _ t (sym (e x) ∙ select_self x xs) in
      let xy = le_of_select y x xs _ s (e y ∙ select_self y ys) in
      let eq = select_head x y ys _ xy yx (sym (e x) ∙ select_self x xs) in
      let tails = Sorted-unique xs ys s.1 t.1 λ k.
        select-tail k y xs ys
          (subst (λ z. select (same k) (z ∷ xs) ≡ select (same k) (y ∷ ys)) eq (e k)) in
      cc

  -- Lists with the same elements in the same order, of each kind that the sort cannot tell apart, are
  -- sorted to one list.
  pub stable_sort-eq :
      (xs ys : List A)
      → ((k : A) → select (same k) xs ≡ select (same k) ys)
      → stable_sort le xs ≡ stable_sort le ys
  stable_sort-eq xs ys e =
      Sorted-unique _ _ (stable_sort-Sorted xs) (stable_sort-Sorted ys)
        (λ k. select-stable_sort k xs ∙ (e k ∙ sym (select-stable_sort k ys)))
