-- ===== src/Syntax/Parser/Definitions/Built.antt =====
-- syntax/parser.go: the functions of the definitions return, and the range of the node that they build.
use Prim.Native.String.{String}
use thrift_ls.Common.{
  suc, ◌≡◌, refl, true, false, Option, none, some, Returns, returns, Returns-bind, Returns-if,
  arith, not,
}
use thrift_ls.Syntax.Parser.State.{Parser, at, error_expected, next_real}
use thrift_ls.Syntax.Parser.State.Moves.{Moved, Moved-refl, step-Moved, error_expected-Moved, slack}
use thrift_ls.Syntax.Parser.State.Sealed.{Sealed}
use thrift_ls.Syntax.Parser.State.Steps.{
  advance-Goes, expect-Passed, accept_separator-Goes, expect_identifier-Tried,
}
use thrift_ls.Syntax.Parser.State.Rules.{Outcome-elim, need_true-Returns, need-Returns}
use thrift_ls.Syntax.Parser.Annotations.Ends.{parse_annotations_if_present-Goes}
use thrift_ls.Syntax.Parser.Types.Ends.{parse_field_type-Tried}
use thrift_ls.Syntax.Parser.Values.Ends.{parse_const_value-Tried}
use thrift_ls.Syntax.Parser.Fields.{parse_field_list}
use thrift_ls.Syntax.Parser.Fields.Ends.{parse_field_list-Goes}
use thrift_ls.Syntax.Parser.Definitions.{
  to_eof, node, parse_path, parse_include, parse_cpp_include, parse_namespace, parse_const,
  parse_typedef, enum_values, parse_enum, parse_struct, functions, parse_service,
}
use thrift_ls.Syntax.Parser.Definitions.Ends.{
  parse_scope-Tried, parse_body-Goes, parse_extends-Kept, enum_values-Goes, functions-Goes,
}
use thrift_ls.Syntax.Token.{Token, TokenKind, is_kind}
use thrift_ls.Syntax.Tree.{Node, Definition}

-- Either an error, or a node that starts at the current token and ends in front of the new place.
unfoldable pub Built : Parser → Option Node × Parser → Type 0
Built p (none, q) = Moved p 1 1 q
Built p (some n, q) = Moved p 1 0 q × (n.base.first ≡ next_real p) × (suc n.base.last ≡ q.pos)

node-Built : {p q : Parser} (d : Definition) → Moved p 1 0 q → Returns (Built p) (node p q d)
unfolding Built
node-Built d m = returns (m, refl, let h = m.past in ground arith)

parse_path-Built :
    (make : Token → Definition) (what : String) (l : TokenKind) (p : Parser)
    → Sealed p.rest
    → at p l ≡ true
    → is_kind l TokenKind.eof ≡ false
    → Returns (Built p) (parse_path make what p)
unfolding parse_path Built
parse_path-Built make what l p s y n = Returns-bind (advance-Goes (Moved-refl s) l y n) (λ (t, q) i.
    let j = error_expected-Moved what i in
    Returns-if (not (at q TokenKind.string_literal))
      (λ _.
        Returns-if (not (at (error_expected what q) TokenKind.eof))
          (λ e. Returns-bind (step-Moved j (ground arith)) (λ (u, r) o. returns (slack o)))
          (λ e. returns j))
      (λ e.
        Returns-bind (advance-Goes i TokenKind.string_literal (ground arith) refl)
          (λ (u, r) o. node-Built _ (slack o))))

pub parse_include-Built :
    (p : Parser)
    → Sealed p.rest
    → at p TokenKind.include ≡ true
    → Returns (Built p) (parse_include p)
unfolding parse_include
parse_include-Built p s y = parse_path-Built _ _ TokenKind.include p s y refl

pub parse_cpp_include-Built :
    (p : Parser)
    → Sealed p.rest
    → at p TokenKind.cpp_include ≡ true
    → Returns (Built p) (parse_cpp_include p)
unfolding parse_cpp_include
parse_cpp_include-Built p s y = parse_path-Built _ _ TokenKind.cpp_include p s y refl

-- The definitions start at their keywords, which are not the last token.
module _ (p : Parser) (s : Sealed p.rest) (y : at p TokenKind.eof ≡ false) where
  pub parse_namespace-Built : Returns (Built p) (parse_namespace p)
  unfolding parse_namespace Built
  parse_namespace-Built = Returns-bind (step-Moved (Moved-refl s) y) (λ (t, a) ma.
      need-Returns to_eof _ (λ q j. j)
        (λ scope b mb.
          need-Returns to_eof _ (λ q j. slack j)
            (λ name c mc.
              Returns-bind (parse_annotations_if_present-Goes mc)
                (λ (annotations, q) mq. node-Built _ (slack (slack mq))))
            _ (expect_identifier-Tried mb _))
        _ (parse_scope-Tried ma))

  pub parse_const-Built : Returns (Built p) (parse_const p)
  unfolding parse_const Built
  parse_const-Built = Returns-bind (step-Moved (Moved-refl s) y) (λ (t, a) ma.
      need-Returns to_eof _ (λ q j. j)
        (λ type b mb.
          need-Returns to_eof _ (λ q j. slack j)
            (λ name c mc.
              need_true-Returns to_eof _ (λ q j. slack (slack j))
                (λ d md.
                  need-Returns to_eof _ (λ q j. j)
                    (λ value g mg.
                      Returns-bind (accept_separator-Goes mg)
                        (λ (sep, q) mq. node-Built _ (slack mq)))
                    _ (parse_const_value-Tried (slack (slack (slack md)))))
                _ (expect-Passed mc TokenKind.equal _ refl))
            _ (expect_identifier-Tried mb _))
        _ (parse_field_type-Tried ma))

  pub parse_typedef-Built : Returns (Built p) (parse_typedef p)
  unfolding parse_typedef Built
  parse_typedef-Built = Returns-bind (step-Moved (Moved-refl s) y) (λ (t, a) ma.
      need-Returns to_eof _ (λ q j. j)
        (λ type b mb.
          need-Returns to_eof _ (λ q j. slack j)
            (λ name c mc.
              Returns-bind (parse_annotations_if_present-Goes mc) (λ (annotations, d) md.
                Returns-bind (accept_separator-Goes md)
                  (λ (sep, q) mq. node-Built _ (slack (slack mq)))))
            _ (expect_identifier-Tried mb _))
        _ (parse_field_type-Tried ma))

  pub parse_enum-Built : Returns (Built p) (parse_enum p)
  unfolding parse_enum Built
  parse_enum-Built = Returns-bind (step-Moved (Moved-refl s) y) (λ (t, a) ma.
      need-Returns to_eof _ (λ q j. j)
        (λ name b mb.
          Returns-bind (parse_body-Goes mb enum_values _ _ (λ q j. enum_values-Goes j))
            (λ (values, c) mc.
              Returns-bind (parse_annotations_if_present-Goes mc)
                (λ (annotations, q) mq. node-Built _ (slack mq))))
        _ (expect_identifier-Tried ma _))

  pub parse_struct-Built : Returns (Built p) (parse_struct p)
  unfolding parse_struct Built
  parse_struct-Built = Returns-bind (step-Moved (Moved-refl s) y) (λ (t, a) ma.
      need-Returns to_eof _ (λ q j. j)
        (λ name b mb.
          Returns-bind
            (parse_body-Goes mb (parse_field_list TokenKind.rbrace) _ _
              (λ q j. parse_field_list-Goes TokenKind.rbrace j))
            (λ (fields, c) mc.
              Returns-bind (parse_annotations_if_present-Goes mc)
                (λ (annotations, q) mq. node-Built _ (slack mq))))
        _ (expect_identifier-Tried ma _))

  pub parse_service-Built : Returns (Built p) (parse_service p)
  unfolding parse_service Built
  parse_service-Built = Returns-bind (step-Moved (Moved-refl s) y) (λ (t, a) ma.
      need-Returns to_eof _ (λ q j. j)
        (λ name b mb. Returns-bind (parse_extends-Kept (slack mb)) (λ (x, c) mc.
          Outcome-elim x mc (λ j. returns j)
            (λ base md.
              Returns-bind (parse_body-Goes md functions _ _ (λ q j. functions-Goes j))
                (λ (fs, g) mg.
                  Returns-bind (parse_annotations_if_present-Goes mg)
                    (λ (annotations, q) mq. node-Built _ mq)))))
        _ (expect_identifier-Tried ma _))
