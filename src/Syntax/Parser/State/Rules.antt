-- ===== src/Syntax/Parser/State/Rules.antt =====
-- syntax/parser.go: what holds behind a part, whether the part is there or missing.
use thrift_ls.Common.{
  ℕ, suc, Bool, true, false, List, Option, none, some, if◌then◌else◌, Returns, returns,
  Returns-bind, Returns-mono, arith,
}
use thrift_ls.Syntax.Parser.State.{Parser, need, need_true}
use thrift_ls.Syntax.Parser.State.Moves.{Moved, Moved-le, Moved-trans, slack, pardon}
use thrift_ls.Syntax.Token.{TokenKind}
use thrift_ls.Syntax.Parser.State.Steps.{
  Checked, Goes, Kept, Outcome, Passed, Tried, after, synchronize_to-Moved,
}

-- A part that the rest of the construct needs.
module _ {p₀ : Parser} {k l e : ℕ} {A B : Type 0} {Q : Option B × Parser → Type 0}
    (kinds : List TokenKind) (f : A → Parser → Option (Option B × Parser))
    (missing : (q : Parser) → Moved p₀ k (suc e) q → Q (none, q))
    (there : (a : A) (q : Parser) → Moved p₀ l e q → Returns Q (f a q)) where
  needed :
      (x : Option A) (q : Parser) → Outcome p₀ k l e (x, q) → Returns Q (need kinds (some (x, q)) f)
  unfolding need
  needed none q j = Returns-bind (synchronize_to-Moved kinds j) (λ r i. returns (missing r i))
  needed (some a) q j = there a q j

  pub need-Returns :
      (m : Option (Option A × Parser)) → Returns (Outcome p₀ k l e) m → Returns Q (need kinds m f)
  unfolding need
  need-Returns m (returns {a} j) = needed a.0 a.1 j

module _ {p₀ : Parser} {k l e : ℕ} {B : Type 0} {Q : Option B × Parser → Type 0}
    (kinds : List TokenKind) (f : Parser → Option (Option B × Parser))
    (missing : (q : Parser) → Moved p₀ k (suc e) q → Q (none, q))
    (there : (q : Parser) → Moved p₀ l e q → Returns Q (f q)) where
  true_needed :
      (ok : Bool) (q : Parser)
      → Checked p₀ k l e (ok, q)
      → Returns Q (need_true kinds (some (ok, q)) f)
  unfolding need_true
  true_needed false q j = Returns-bind (synchronize_to-Moved kinds j) (λ r i. returns (missing r i))
  true_needed true q j = there q j

  pub need_true-Returns :
      (m : Option (Bool × Parser)) → Returns (Checked p₀ k l e) m → Returns Q (need_true kinds m f)
  unfolding need_true
  need_true-Returns m (returns {a} j) = true_needed a.0 a.1 j

-- The two ways behind a part that may be missing.
pub Outcome-elim :
    {p₀ : Parser} {k l e : ℕ} {A C : Type 0} {Q : C → Type 0} {n : Option C} {s : A → Option C}
    {q : Parser} (x : Option A)
    → Outcome p₀ k l e (x, q)
    → (Moved p₀ k (suc e) q → Returns Q n)
    → ((a : A) → Moved p₀ l e q → Returns Q (s a))
    → Returns Q (elim x [ none ↦ n | some a ↦ s a ])
Outcome-elim none j g h = g j
Outcome-elim (some a) j g h = h a j

pub Checked-if :
    {p₀ : Parser} {k l e : ℕ} {C : Type 0} {Q : C → Type 0} {n s : Option C} {q : Parser}
    (ok : Bool)
    → Checked p₀ k l e (ok, q)
    → (Moved p₀ k (suc e) q → Returns Q n)
    → (Moved p₀ l e q → Returns Q s)
    → Returns Q (if ok then s else n)
Checked-if false j g h = g j
Checked-if true j g h = h j

pub Passed-forget : {p₀ q : Parser} {k e : ℕ} (ok : Bool) → Passed p₀ k e (ok, q) → Moved p₀ k e q
Passed-forget false j = Moved-le (omega arith) (omega arith) j
Passed-forget true j = Moved-le (omega arith) (omega arith) j

pub Tried-forget :
    {p₀ q : Parser} {k e : ℕ} {A : Type 0} (x : Option A) → Tried p₀ k e (x, q) → Moved p₀ k e q
Tried-forget none j = pardon j
Tried-forget (some a) j = slack j

-- What is measured from `p` is measured from an earlier place.
pub Goes-after :
    {p₀ p : Parser} {k e : ℕ} {A : Type 0} {m : Option (A × Parser)}
    → Moved p₀ k e p
    → Returns (Goes p 0 0) m
    → Returns (Goes p₀ k e) m
Goes-after m r = Returns-mono r (λ (x, q) j. after m j)

Tried-after' :
    {p₀ p : Parser} {k e : ℕ} {A : Type 0}
    → Moved p₀ k e p
    → (q : Parser) (x : Option A) → Tried p 0 0 (x, q)
    → Tried p₀ k e (x, q)
Tried-after' m q none j = Moved-le (omega arith) (omega arith) (Moved-trans m j)
Tried-after' m q (some a) j = Moved-le (omega arith) (omega arith) (Moved-trans m j)

pub Tried-after :
    {p₀ p : Parser} {k e : ℕ} {A : Type 0} {m : Option (Option A × Parser)}
    → Moved p₀ k e p
    → Returns (Tried p 0 0) m
    → Returns (Tried p₀ k e) m
Tried-after {p₀} {k = k} {e = e} m r = Returns-mono r (λ (x, q) j. Tried-after' m q x j)

Kept-Tried' :
    (p₀ : Parser) (k e : ℕ) {A : Type 0} (q : Parser) (x : Option A)
    → Kept p₀ (suc k) e (x, q)
    → Tried p₀ k e (x, q)
Kept-Tried' p₀ k e q none j = slack j
Kept-Tried' p₀ k e q (some a) j = j

-- Behind a token, a part that takes none.
pub Kept-Tried :
    {p₀ : Parser} {k e : ℕ} {A : Type 0} {m : Option (Option A × Parser)}
    → Returns (Kept p₀ (suc k) e) m
    → Returns (Tried p₀ k e) m
Kept-Tried r = Returns-mono r (λ (x, q) j. Kept-Tried' _ _ _ q x j)
