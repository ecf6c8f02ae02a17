-- ===== src/Syntax/Parser/Definitions/Ends.antt =====
-- syntax/parser.go: the parts of the definitions end.
use Prim.Native.String.{String}
use thrift_ls.Common.{
  ℕ, zero, suc, ◌<◌, ◌≡◌, refl, false, List, [], ◌∷◌, Option, length, Returns, returns,
  Returns-bind, Returns-if, arith, not, ◌&&◌, ◌||◌, Returns-elim,
}
use thrift_ls.Syntax.Parser.State.{Parser, at, contains}
use thrift_ls.Syntax.Parser.State.Moves.{
  Moved, Moved-le, Moved-refl, step-Moved, error_expected-Moved, slack, pardon, turned-Moved,
}
use thrift_ls.Syntax.Parser.State.Sealed.{Sealed}
use thrift_ls.Syntax.Parser.State.Steps.{
  Goes, Tried, Kept, advance-Goes, accept-Goes, expect-Passed, accept_separator-Goes,
  identifier-Goes, expect_identifier-Tried, synchronize_to-Moved, synchronize_to-Takes,
  synchronize_to-Stops,
}
use thrift_ls.Syntax.Parser.State.Rules.{Outcome-elim, Passed-forget, Goes-after}
use thrift_ls.Syntax.Parser.Annotations.Ends.{parse_annotations_if_present-Goes}
use thrift_ls.Syntax.Parser.Fields.Ends.{parse_function-Tried}
use thrift_ls.Syntax.Parser.Definitions.{
  parse_scope, parse_enum_number, parse_enum_value, enum_loop, enum_values, parse_body,
  skip_function, function_loop, functions, skip_to_body, parse_extends,
}
use thrift_ls.Syntax.Token.{TokenKind, is_kind, kind_code}

module _ {p₀ p : Parser} {k e : ℕ} (m : Moved p₀ k e p) where
  pub parse_scope-Tried : Returns (Tried p₀ k e) (parse_scope p)
  unfolding parse_scope at is_kind kind_code
  parse_scope-Tried =
      Returns-if (not (at p TokenKind.identifier) && not (at p TokenKind.star))
        (λ y. returns (error_expected-Moved _ m))
        (λ n. Returns-bind (step-Moved m (ground arith)) (λ (t, q) i. returns i))

  parse_enum_number-Goes : Returns (Goes p₀ k e) (parse_enum_number p)
  unfolding parse_enum_number
  parse_enum_number-Goes =
      Returns-if (at p TokenKind.equal)
        (λ y. Returns-bind (advance-Goes m TokenKind.equal y refl) (λ (t, q) i.
          Returns-if (not (at q TokenKind.int_constant))
            (λ z. returns (slack (pardon (error_expected-Moved _ i))))
            (λ z.
              Returns-bind (advance-Goes i TokenKind.int_constant (ground arith) refl)
                (λ (u, r) j. returns (slack (slack j))))))
        (λ n. returns m)

module _ {p₀ p : Parser} {k e : ℕ} (m : Moved p₀ k e p) where
  parse_enum_value-Tried : Returns (Tried p₀ k e) (parse_enum_value p)
  unfolding parse_enum_value
  parse_enum_value-Tried =
      Returns-if (not (at p TokenKind.identifier)) (λ y. returns (error_expected-Moved _ m))
        (λ n.
          Returns-bind (identifier-Goes m TokenKind.identifier (ground arith) refl) (λ (name, a) ma.
            Returns-bind (parse_enum_number-Goes ma) (λ (value, b) mb.
              Returns-bind (parse_annotations_if_present-Goes mb) (λ (annotations, c) mc.
                Returns-bind (accept_separator-Goes mc) (λ (sep, q) mq. returns mq)))))

  pub parse_body-Goes :
      {A : Type 0} (members : Parser → Option (List A × Parser)) (close start : String)
      → ((q : Parser) → Moved p₀ k e q → Returns (Goes p₀ k e) (members q))
      → Returns (Goes p₀ k e) (parse_body members close start p)
  unfolding parse_body
  parse_body-Goes members close start h =
      Returns-bind (accept-Goes m TokenKind.lbrace refl) (λ (brace, q) i.
        Returns-elim brace (λ _. returns (pardon (error_expected-Moved _ i)))
          (λ t _. Returns-bind (h q i) (λ (ms, r) j.
            Returns-bind (expect-Passed j TokenKind.rbrace _ refl)
              (λ (ok, u) l. returns (Passed-forget ok l)))))

skip_to_body-Kept :
    {p₀ p : Parser} {k e : ℕ} → Moved p₀ k (suc e) p → Returns (Kept p₀ k e) (skip_to_body p)
unfolding skip_to_body
skip_to_body-Kept m =
    Returns-bind (synchronize_to-Moved (TokenKind.lbrace ∷ TokenKind.eof ∷ []) m)
      (λ q i. Returns-if (not (at q TokenKind.lbrace)) (λ y. returns i) (λ n. returns (pardon i)))

pub parse_extends-Kept :
    {p₀ p : Parser} {k e : ℕ} → Moved p₀ k e p → Returns (Kept p₀ k e) (parse_extends p)
unfolding parse_extends
parse_extends-Kept {p = p} m =
    Returns-if (at p TokenKind.extends)
      (λ y. Returns-bind (advance-Goes m TokenKind.extends y refl) (λ (t, q) i.
        Returns-bind (expect_identifier-Tried (slack i) _)
          (λ (x, r) j. Outcome-elim x j (λ l. skip_to_body-Kept l) (λ name l. returns (slack l)))))
      (λ n. returns m)

enum_loop-Goes :
    (f : ℕ) (p : Parser) → Sealed p.rest → length p.rest < f → Returns (Goes p 0 0) (enum_loop f p)
unfolding enum_loop at contains
enum_loop-Goes zero p s n = absurd (omega arith)
enum_loop-Goes (suc f) p s n =
    let more : (q : Parser) → Moved p 1 0 q → Returns (Goes p 0 0) (enum_loop f q) =
      λ q m. Goes-after (slack m) (enum_loop-Goes f q m.sealed (omega (arith, n, m.taken))) in
    Returns-if (at p TokenKind.rbrace || at p TokenKind.eof) (λ y. returns (Moved-refl s))
      (λ z. Returns-bind (parse_enum_value-Tried (Moved-refl s)) (λ (x, q) i.
        Outcome-elim x i
          (λ j.
            Returns-bind (synchronize_to-Takes (TokenKind.rbrace ∷ []) (ground arith) j)
              (λ r l. more r (pardon l)))
          (λ a j. Returns-bind (more q j) (λ (later, r) l. returns l))))

pub enum_values-Goes :
    {p₀ p : Parser} {k e : ℕ} → Moved p₀ k e p → Returns (Goes p₀ k e) (enum_values p)
unfolding enum_values
enum_values-Goes {p = p} m =
    Goes-after m (enum_loop-Goes (suc (length p.rest)) p m.sealed (omega arith))

-- A function that could not be parsed is left behind.
skip_function-Takes :
    {p₀ p : Parser} {k e : ℕ}
    → (at p₀ TokenKind.rbrace || at p₀ TokenKind.eof) ≡ false
    → Moved p₀ k e p
    → Returns (λ q. Moved p₀ 1 0 q) (skip_function p)
unfolding skip_function at contains is_kind
skip_function-Takes n m =
    Returns-bind (synchronize_to-Stops (TokenKind.rparen ∷ TokenKind.rbrace ∷ []) m) (λ q (j, stop).
      Returns-if (at q TokenKind.rparen)
        (λ y.
          Returns-bind (advance-Goes j TokenKind.rparen y refl)
            (λ (t, r) i. returns (Moved-le (omega arith) (omega arith) i)))
        (λ z. returns (
          Moved-le (omega arith) (omega arith) (
            turned-Moved j (λ l. is_kind l TokenKind.rbrace || is_kind l TokenKind.eof) n
              (ground arith)))))

function_loop-Goes :
    (f : ℕ) (p : Parser)
    → Sealed p.rest
    → length p.rest < f
    → Returns (Goes p 0 0) (function_loop f p)
unfolding function_loop
function_loop-Goes zero p s n = absurd (omega arith)
function_loop-Goes (suc f) p s n =
    let more : (q : Parser) → Moved p 1 0 q → Returns (Goes p 0 0) (function_loop f q) =
      λ q m. Goes-after (slack m) (function_loop-Goes f q m.sealed (omega (arith, n, m.taken))) in
    Returns-if (at p TokenKind.rbrace || at p TokenKind.eof) (λ y. returns (Moved-refl s))
      (λ z. Returns-bind (parse_function-Tried p s) (λ (x, q) i.
        Outcome-elim x i (λ j. Returns-bind (skip_function-Takes z j) (λ r l. more r l))
          (λ a j. Returns-bind (more q j) (λ (later, r) l. returns l))))

pub functions-Goes :
    {p₀ p : Parser} {k e : ℕ} → Moved p₀ k e p → Returns (Goes p₀ k e) (functions p)
unfolding functions
functions-Goes {p = p} m =
    Goes-after m (function_loop-Goes (suc (length p.rest)) p m.sealed (omega arith))
