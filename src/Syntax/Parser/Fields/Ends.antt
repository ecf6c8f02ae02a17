-- ===== src/Syntax/Parser/Fields/Ends.antt =====
-- syntax/parser.go: fields, field lists and functions end.
use thrift_ls.Common.{
  ℕ, zero, suc, ◌<◌, ◌≡◌, refl, Bool, true, false, List, [], ◌∷◌, Option, none, some, if◌then◌else◌,
  length, Returns, returns, Returns-bind, Returns-if, arith, ◌&&◌, ◌||◌,
}
use thrift_ls.Syntax.Parser.State.{Parser, cur, at, peek_after, identifier}
use thrift_ls.Syntax.Parser.State.Moves.{
  Moved, Moved-refl, step-Moved, error_expected-Moved, warn-Moved, slack,
}
use thrift_ls.Syntax.Parser.State.Sealed.{Sealed}
use thrift_ls.Syntax.Parser.State.Steps.{
  Goes, Tried, Passed, Kept, advance-Goes, accept-Goes, expect-Passed, recover_entry-Takes,
  accept_separator-Goes, expect_identifier-Tried,
}
use thrift_ls.Syntax.Parser.State.Rules.{
  Outcome-elim, Passed-forget, Goes-after, Kept-Tried, need_true-Returns, need-Returns,
}
use thrift_ls.Syntax.Parser.Annotations.Ends.{
  parse_structured_annotations-Goes, parse_annotations_if_present-Goes,
}
use thrift_ls.Syntax.Parser.Types.{entry_ends}
use thrift_ls.Syntax.Parser.Types.Ends.{parse_field_type-Tried}
use thrift_ls.Syntax.Parser.Values.Ends.{parse_const_value-Tried}
use thrift_ls.Syntax.Parser.Fields.{
  parse_field_id, parse_req, parse_field_name, parse_field_value, parse_field, field_loop,
  parse_field_list, parse_oneway, parse_result, parse_throws, parse_signature, parse_function,
}
use thrift_ls.Syntax.Token.{Token, TokenKind, is_kind, is_keyword, kind_code, in_table}
use thrift_ls.Syntax.Tree.{Field, Function, Throws, Annotations}

name_not_eof :
    (k : TokenKind)
    → (is_kind k TokenKind.identifier || is_keyword k) ≡ true
    → is_kind k TokenKind.eof ≡ false
unfolding is_keyword in_table is_kind kind_code
name_not_eof k h = ground arith

id-Kept :
    (p₀ q : Parser) (k e : ℕ) (t : Token) (ok : Bool)
    → Passed p₀ (suc k) e (ok, q)
    → Kept p₀ k e (if ok then some (some t) else none, q)
id-Kept p₀ q k e t false j = slack j
id-Kept p₀ q k e t true j = slack (slack j)

module _ {p₀ p : Parser} {k e : ℕ} (m : Moved p₀ k e p) where
  parse_field_id-Kept : Returns (Kept p₀ k e) (parse_field_id p)
  unfolding parse_field_id
  parse_field_id-Kept =
      Returns-if (at p TokenKind.int_constant && is_kind (peek_after p) TokenKind.colon)
        (λ y. Returns-bind (advance-Goes m TokenKind.int_constant (ground arith) refl) (λ (t, q) i.
          Returns-bind (expect-Passed i TokenKind.colon _ refl)
            (λ (ok, r) j. returns (id-Kept _ _ _ _ t ok j))))
        (λ n. returns m)

  parse_req-Goes : Returns (Goes p₀ k e) (parse_req p)
  unfolding parse_req at is_kind kind_code
  parse_req-Goes =
      Returns-if (at p TokenKind.required || at p TokenKind.optional)
        (λ y. Returns-bind (step-Moved m (ground arith)) (λ (t, q) i. returns (slack i)))
        (λ n. returns m)

  parse_field_name-Tried : Returns (Tried p₀ k e) (parse_field_name p)
  unfolding parse_field_name identifier at
  parse_field_name-Tried =
      Returns-if (at p TokenKind.identifier || is_keyword (cur p).kind)
        (λ y.
          Returns-bind
            (Returns-bind (step-Moved m (name_not_eof (cur p).kind y)) (λ (t, q) i. returns i))
            (λ (n, q) i. returns i))
        (λ n. returns (error_expected-Moved _ m))

  parse_field_value-Kept : Returns (Kept p₀ k e) (parse_field_value p)
  unfolding parse_field_value
  parse_field_value-Kept =
      Returns-if (at p TokenKind.equal)
        (λ y. Returns-bind (advance-Goes m TokenKind.equal y refl) (λ (t, q) i.
          Returns-bind (parse_const_value-Tried i) (λ (x, r) j.
            Outcome-elim x j (λ l. returns (slack l)) (λ a l. returns (slack (slack l))))))
        (λ n. returns m)

-- A field.
pub parse_field-Tried : (p : Parser) → Sealed p.rest → Returns (Tried p 0 0) (parse_field p)
unfolding parse_field
parse_field-Tried p s =
    Returns-bind (parse_structured_annotations-Goes (Moved-refl s)) (λ (annos, a) ma.
      need-Returns entry_ends _ (λ q j. j)
        (λ id c mc. Returns-bind (parse_req-Goes mc) (λ (req, d) md.
          need-Returns entry_ends _ (λ q j. j)
            (λ type g mg. Returns-bind (accept-Goes mg TokenKind.amp refl) (λ (amp, h) mh.
              need-Returns entry_ends _ (λ q j. slack j)
                (λ name i mi.
                  need-Returns entry_ends _ (λ q j. slack (slack j))
                    (λ value j mj.
                      Returns-bind (parse_annotations_if_present-Goes (slack mj))
                        (λ (annotations, l) ml.
                          Returns-bind (accept_separator-Goes ml) (λ (sep, q) mq. returns mq)))
                    _ (parse_field_value-Kept mi))
                _ (parse_field_name-Tried mh)))
            _ (parse_field_type-Tried md)))
        _ (parse_field_id-Kept ma))

field_loop-Goes :
    (f : ℕ) (term : TokenKind) (p : Parser)
    → Sealed p.rest
    → length p.rest < f
    → Returns (Goes p 0 0) (field_loop f term p)
unfolding field_loop
field_loop-Goes zero term p s n = absurd (omega arith)
field_loop-Goes (suc f) term p s n =
    let more : (q : Parser) → Moved p 1 0 q → Returns (Goes p 0 0) (field_loop f term q) =
      λ q m. Goes-after (slack m) (field_loop-Goes f term q m.sealed (omega (arith, n, m.taken))) in
    Returns-if (at p term || at p TokenKind.eof) (λ y. returns (Moved-refl s))
      (λ z. Returns-bind (parse_field-Tried p s) (λ (x, q) i.
        Outcome-elim x i (λ j. Returns-bind (recover_entry-Takes term z j) (λ r l. more r l))
          (λ a j. Returns-bind (more q j) (λ (later, r) l. returns l))))

pub parse_field_list-Goes :
    {p₀ p : Parser} {k e : ℕ} (term : TokenKind)
    → Moved p₀ k e p
    → Returns (Goes p₀ k e) (parse_field_list term p)
unfolding parse_field_list
parse_field_list-Goes {p = p} term m =
    Goes-after m (field_loop-Goes (suc (length p.rest)) term p m.sealed (omega arith))

module _ {p₀ p : Parser} {k e : ℕ} (m : Moved p₀ k e p) where
  parse_oneway-Goes : Returns (Goes p₀ k e) (parse_oneway p)
  unfolding parse_oneway
  parse_oneway-Goes =
      Returns-if (at p TokenKind.oneway)
        (λ y. Returns-bind (advance-Goes m TokenKind.oneway y refl) (λ (t, q) i. returns (slack i)))
        (λ n.
          Returns-if (at p TokenKind.async)
            (λ y.
              Returns-bind (advance-Goes m TokenKind.async y refl)
                (λ (t, q) i. returns (warn-Moved t _ (slack i))))
            (λ z. returns m))

  parse_result-Tried : Returns (Tried p₀ k e) (parse_result p)
  unfolding parse_result
  parse_result-Tried =
      Returns-if (at p TokenKind.void)
        (λ y. Returns-bind (advance-Goes m TokenKind.void y refl) (λ (t, q) i. returns i))
        (λ n.
          Returns-bind (parse_field_type-Tried m)
            (λ (x, q) i. Outcome-elim x i (λ j. returns j) (λ a j. returns j)))

  parse_throws-Kept : Returns (Kept p₀ k e) (parse_throws p)
  unfolding parse_throws
  parse_throws-Kept =
      Returns-if (at p TokenKind.throws)
        (λ y. Returns-bind (advance-Goes m TokenKind.throws y refl) (λ (t, q) i.
          need_true-Returns (TokenKind.eof ∷ []) _ (λ r j. slack j)
            (λ r j. Returns-bind (parse_field_list-Goes TokenKind.rparen j) (λ (fields, u) l.
              Returns-bind (expect-Passed l TokenKind.rparen _ refl)
                (λ (ok, v) o. returns (slack (slack (Passed-forget ok o))))))
            _ (expect-Passed i TokenKind.lparen _ refl)))
        (λ n. returns m)

module _ {p₀ p : Parser} {k e : ℕ} (m : Moved p₀ k e p) where
  parse_signature-Kept :
      (make : List Field → Option Throws → Option Annotations → TokenKind → Parser → Function)
      → Returns (Kept p₀ k e) (parse_signature make p)
  unfolding parse_signature
  parse_signature-Kept make =
      Returns-bind (parse_field_list-Goes TokenKind.rparen m) (λ (args, q) i.
        Returns-bind (expect-Passed i TokenKind.rparen _ refl) (λ (ok, r) j.
          Returns-bind (parse_throws-Kept (Passed-forget ok j)) (λ (x, u) l.
            Outcome-elim x l (λ o. returns o)
              (λ throws o. Returns-bind (parse_annotations_if_present-Goes o) (λ (annotations, v) g.
                Returns-bind (accept_separator-Goes g) (λ (sep, w) h. returns h))))))

-- A function.
pub parse_function-Tried : (p : Parser) → Sealed p.rest → Returns (Tried p 0 0) (parse_function p)
unfolding parse_function
parse_function-Tried p s =
    Returns-bind (parse_structured_annotations-Goes (Moved-refl s)) (λ (annos, a) ma.
      Returns-bind (parse_oneway-Goes ma) (λ (oneway, b) mb.
        need-Returns (TokenKind.lparen ∷ TokenKind.eof ∷ []) _ (λ q j. j)
          (λ result c mc.
            need-Returns (TokenKind.lparen ∷ TokenKind.eof ∷ []) _ (λ q j. slack j)
              (λ name d md.
                need_true-Returns (TokenKind.eof ∷ []) _ (λ q j. slack (slack j))
                  (λ g mg. Kept-Tried (parse_signature-Kept (slack (slack mg)) _)) _
                  (expect-Passed md TokenKind.lparen _ refl))
              _ (expect_identifier-Tried mc _))
          _ (parse_result-Tried mb)))
