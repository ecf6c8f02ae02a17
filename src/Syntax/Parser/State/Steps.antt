-- ===== src/Syntax/Parser/State/Steps.antt =====
-- syntax/parser.go: what the helpers return, measured from a place `p₀` as in Moves.
use Prim.Native.String.{String}
use thrift_ls.Common.{
  ℕ, zero, suc, ◌<◌, ◌≡◌, refl, Bool, true, false, List, [], ◌∷◌, Option, none, some, length,
  Returns, returns, Returns-bind, Returns-if, Returns-mono, arith, not, ◌&&◌, ◌||◌,
}
use thrift_ls.Syntax.Parser.State.{
  Parser, cur, at, advance, accept, expect, synchronize, synchronize_to, recover_entry, contains,
  accept_separator, identifier, expect_identifier,
}
use thrift_ls.Syntax.Parser.State.Moves.{
  Moved, Moved-le, Moved-trans, Moved-refl, step-Moved, error_expected-Moved, turned-Moved,
}
use thrift_ls.Syntax.Token.{TokenKind, is_kind, kind_code}

-- A part that is always there, or that may be missing without an error.
abbrev pub Goes : Parser → ℕ → ℕ → {A : Type 0} → A × Parser → Type 0
Goes p₀ k e (x, q) = Moved p₀ k e q

-- A part that is there, with `l` tokens then taken, or that is missing with an error.
abbrev pub Outcome : Parser → ℕ → ℕ → ℕ → {A : Type 0} → Option A × Parser → Type 0
Outcome p₀ k l e (none, q) = Moved p₀ k (suc e) q
Outcome p₀ k l e (some x, q) = Moved p₀ l e q

-- A part that takes a token, and one that may take none.
abbrev pub Tried : Parser → ℕ → ℕ → {A : Type 0} → Option A × Parser → Type 0
Tried p₀ k e r = Outcome p₀ k (suc k) e r

abbrev pub Kept : Parser → ℕ → ℕ → {A : Type 0} → Option A × Parser → Type 0
Kept p₀ k e r = Outcome p₀ k k e r

-- The same for a test.
abbrev pub Checked : Parser → ℕ → ℕ → ℕ → Bool × Parser → Type 0
Checked p₀ k l e (false, q) = Moved p₀ k (suc e) q
Checked p₀ k l e (true, q) = Moved p₀ l e q

abbrev pub Passed : Parser → ℕ → ℕ → Bool × Parser → Type 0
Passed p₀ k e r = Checked p₀ k (suc k) e r

-- The current token is one of these or the last.
abbrev pub stops : List TokenKind → TokenKind → Bool
stops kinds k = is_kind k TokenKind.eof || contains kinds k

module _ {p₀ p : Parser} {k e : ℕ} (m : Moved p₀ k e p) where
  pub advance-Goes :
      (l : TokenKind)
      → at p l ≡ true
      → is_kind l TokenKind.eof ≡ false
      → Returns (Goes p₀ (suc k) e) (advance p)
  unfolding at is_kind
  advance-Goes l h n = step-Moved m (ground arith)

  pub accept-Goes :
      (l : TokenKind) → is_kind l TokenKind.eof ≡ false → Returns (Goes p₀ k e) (accept l p)
  unfolding accept
  accept-Goes l n =
      Returns-if (at p l)
        (λ h.
          Returns-bind (advance-Goes l h n)
            (λ (t, q) j. returns (Moved-le (omega arith) (omega arith) j)))
        (λ h. returns m)

  pub expect-Passed :
      (l : TokenKind) (what : String)
      → is_kind l TokenKind.eof ≡ false
      → Returns (Passed p₀ k e) (expect l what p)
  unfolding expect
  expect-Passed l what n =
      Returns-if (at p l) (λ h. Returns-bind (advance-Goes l h n) (λ (t, q) j. returns j))
        (λ h. returns (error_expected-Moved what m))

  pub accept_separator-Goes : Returns (Goes p₀ k e) (accept_separator p)
  unfolding accept_separator at is_kind
  accept_separator-Goes =
      Returns-if (at p TokenKind.comma || at p TokenKind.semicolon)
        (λ h.
          Returns-bind (step-Moved m (ground arith))
            (λ (t, q) j. returns (Moved-le (omega arith) (omega arith) j)))
        (λ h. returns m)

  pub identifier-Goes :
      (l : TokenKind)
      → at p l ≡ true
      → is_kind l TokenKind.eof ≡ false
      → Returns (Goes p₀ (suc k) e) (identifier p)
  unfolding identifier
  identifier-Goes l h n = Returns-bind (advance-Goes l h n) (λ (t, q) j. returns j)

  pub expect_identifier-Tried : (what : String) → Returns (Tried p₀ k e) (expect_identifier what p)
  unfolding expect_identifier is_kind kind_code
  expect_identifier-Tried what =
      Returns-if (at p TokenKind.identifier)
        (λ h. Returns-bind (identifier-Goes TokenKind.identifier h refl) (λ (t, q) j. returns j))
        (λ h. returns (error_expected-Moved what m))

-- A way from `p` behind a way to `p`.
pub after : {p₀ p q : Parser} {k e l d : ℕ} → Moved p₀ k e p → Moved p l d q → Moved p₀ k e q
after m n = Moved-le (omega arith) (omega arith) (Moved-trans m n)

synchronize-Returns :
    {p₀ : Parser} {k e : ℕ} (f : ℕ) (kinds : List TokenKind) (p : Parser)
    → Moved p₀ k e p
    → length p.rest < f
    → Returns (λ q. Moved p₀ k e q × (stops kinds (cur q).kind ≡ true)) (synchronize f kinds p)
unfolding synchronize at
synchronize-Returns zero kinds p m h = absurd (omega arith)
synchronize-Returns (suc f) kinds p m h =
    Returns-if (at p TokenKind.eof) (λ y. returns (m, rw y))
      (λ n.
        Returns-if (contains kinds (cur p).kind) (λ y. returns (m, ground arith))
          (λ z.
            Returns-bind (step-Moved (Moved-refl m.sealed) n)
              (λ (t, q) j. synchronize-Returns f kinds q (after m j) (omega (arith, j.taken, h)))))

pub synchronize_to-Stops :
    {p₀ p : Parser} {k e : ℕ} (kinds : List TokenKind)
    → Moved p₀ k e p
    → Returns (λ q. Moved p₀ k e q × (stops kinds (cur q).kind ≡ true)) (synchronize_to kinds p)
unfolding synchronize_to
synchronize_to-Stops {p₀} {p} kinds m =
    synchronize-Returns (suc (length p.rest)) kinds p m (omega arith)

pub synchronize_to-Moved :
    {p₀ p : Parser} {k e : ℕ} (kinds : List TokenKind)
    → Moved p₀ k e p
    → Returns (λ q. Moved p₀ k e q) (synchronize_to kinds p)
synchronize_to-Moved kinds m = Returns-mono (synchronize_to-Stops kinds m) (λ q (n, s). n)

-- The terminators of the lists.
abbrev pub IsTerm : TokenKind → Type 0
IsTerm term = is_kind term TokenKind.eof ≡ false

-- An entry that starts at no terminator ends behind its start.
pub recover_entry-Takes :
    {p₀ p : Parser} {k e : ℕ} (term : TokenKind)
    → (at p₀ term || at p₀ TokenKind.eof) ≡ false
    → Moved p₀ k e p
    → Returns (λ q. Moved p₀ 1 0 q) (recover_entry term p)
unfolding recover_entry at
recover_entry-Takes {p₀} term n m =
    Returns-bind (synchronize_to-Moved (TokenKind.comma ∷ TokenKind.semicolon ∷ term ∷ []) m)
      (λ q j.
        Returns-if (not (at q term) && not (at q TokenKind.eof))
          (λ h.
            Returns-bind (step-Moved j (ground arith))
              (λ (t, r) i. returns (Moved-le (omega arith) (omega arith) i)))
          (λ h. returns (
            Moved-le (omega arith) (omega arith)
              (turned-Moved j (λ l. is_kind l term || is_kind l TokenKind.eof) n (ground arith)))))

-- `p.synchronizeTo(kinds)` from an entry that starts at none of the kinds.
pub synchronize_to-Takes :
    {p₀ p : Parser} {k e : ℕ} (kinds : List TokenKind)
    → stops kinds (cur p₀).kind ≡ false
    → Moved p₀ k e p
    → Returns (λ q. Moved p₀ 1 e q) (synchronize_to kinds p)
synchronize_to-Takes kinds n m =
    Returns-mono (synchronize_to-Stops kinds m) (λ q (j, s). turned-Moved j (stops kinds) n s)
