-- ===== src/Common/Results.antt =====
-- A loop on fuel returns an `Option`: `none` says that the fuel ran out, which has no counterpart in
-- the program. `Returns P r` says that `r` is a result and has the property `P`.
use mathlib.Core.Path.{◌≡◌, refl, subst}
use mathlib.Core.Bool.{Bool, true, false}
use mathlib.Core.Option.{Option, none, some}
use thrift_ls.Common.Tests.{if◌then◌else◌}

infixl 5 ◌>>=◌
abbrev pub ◌>>=◌ {ℓ κ} : {A : Type ℓ} {B : Type κ} → Option A → (A → Option B) → Option B
none >>= f = none
some a >>= f = f a

pub data Returns {ℓ κ} {A : Type ℓ} (P : A → Type κ) : Option A → Type (ℓ ⊔ κ) where
  returns : {a : A} → P a → Returns P (some a)

module _ {ℓ κ} {A : Type ℓ} {P : A → Type κ} where
  pub Returns-bind {ℓ' κ'} :
      {B : Type ℓ'} {Q : B → Type κ'} {r : Option A} {f : A → Option B}
      → Returns P r
      → ((a : A) → P a → Returns Q (f a))
      → Returns Q (r >>= f)
  Returns-bind (returns {a} h) k = k a h

  pub Returns-mono {κ'} :
      {Q : A → Type κ'} {r : Option A} → Returns P r → ((a : A) → P a → Q a) → Returns Q r
  Returns-mono (returns {a} h) k = returns (k a h)

  pub Returns-if :
      (b : Bool) {x y : Option A}
      → (b ≡ true → Returns P x)
      → (b ≡ false → Returns P y)
      → Returns P (if b then x else y)
  Returns-if true hx hy = hx refl
  Returns-if false hx hy = hy refl

  pub Returns-elim {ℓ'} :
      {B : Type ℓ'} {n : Option A} {s : B → Option A} (o : Option B)
      → (o ≡ none → Returns P n)
      → ((b : B) → o ≡ some b → Returns P (s b))
      → Returns P (elim o [ none ↦ n | some b ↦ s b ])
  Returns-elim none g h = g refl
  Returns-elim (some b) g h = h b refl

  pub Returns-result : {r : Option A} → Returns P r → (a : A) × (r ≡ some a) × P a
  Returns-result (returns {a} h) = (a, refl, h)

  pub Returns-some : {r : Option A} {a : A} → Returns P r → r ≡ some a → P a
  Returns-some (returns h) e = subst P (cc) h

pub Returns-and {ℓ κ κ'} :
    {A : Type ℓ} {P : A → Type κ} {Q : A → Type κ'} {r : Option A}
    → Returns P r
    → Returns Q r
    → Returns (λ a. P a × Q a) r
Returns-and (returns h) q = returns (h, Returns-some q refl)
