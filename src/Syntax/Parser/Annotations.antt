-- ===== src/Syntax/Parser/Annotations.antt =====
-- syntax/parser.go: `parseStructuredAnnotations`, `parseAnnotationsIfPresent` and `parseAnnotations`.
pub mod Ends
use thrift_ls.Common.{
  ℕ, zero, suc, ◌+◌, ◌-◌, Bool, true, false, not, ◌||◌, List, [], ◌∷◌, ◌++◌, Option, none, some,
  if◌then◌else◌, length, ◌>>=◌,
}
use thrift_ls.Syntax.Parser.State.{
  Parser, at, cur, next_real, advance, expect, recover_entry, synchronize_to, accept_separator,
  identifier, expect_identifier, error_expected, error_cur, error_tok, range,
}
use thrift_ls.Syntax.Parser.Values.{parse_const_value}
use thrift_ls.Syntax.Token.{Token, TokenKind, Message, expected_value_after, not_scalar}
use thrift_ls.Syntax.Tree.{
  NodeBase, Identifier, ConstValue, scalar, value_list, value_map, Annotation, Annotations,
  StructuredAnnotation,
}

unfoldable pub is_scalar : ConstValue → Bool
is_scalar (scalar b k t) = true
is_scalar _ = false

-- `t` is the first token of the value in parentheses.
unfoldable pub check_scalar : Token → Option ConstValue → Parser → Parser
unfolding error_tok is_scalar
check_scalar t none p = p
check_scalar t (some v) p = if is_scalar v then p else error_tok t not_scalar p

-- The value in parentheses, behind `(`.
unfoldable pub parse_scalar_value : Parser → Option (Option ConstValue × Parser)
unfolding parse_const_value expect check_scalar cur
parse_scalar_value p = parse_const_value p >>= λ (x, q).
    expect TokenKind.rparen "')' to close annotation value" q >>= λ (ok, r).
    some (x, check_scalar (cur p) x r)

-- The `switch` on the value of an annotation.
unfoldable pub parse_annotation_value : Identifier → Parser → Option (Option ConstValue × Parser)
unfolding at advance parse_const_value parse_scalar_value error_cur cur
parse_annotation_value name p =
    let in_parens = advance p >>= λ (t, q). parse_scalar_value q in
    if at p TokenKind.lbrace || at p TokenKind.lbracket
    then parse_const_value p
    else if at p TokenKind.lparen
    then in_parens
    else some (none, error_cur (expected_value_after name.text (cur p).text) p)

-- The loop of `parseStructuredAnnotations`.
unfoldable pub structured_loop : ℕ → Parser → Option (List StructuredAnnotation × Parser)
unfolding at advance expect_identifier parse_annotation_value
structured_loop zero p = none
structured_loop (suc f) p =
    let more = advance p >>= λ (t, q). expect_identifier "annotation name" q >>= λ (name, r).
    elim name [
      | none ↦ some ([], r)
      | some n ↦ parse_annotation_value n r >>= λ (x, s). structured_loop f s >>= λ (later, u).
          some (record { base = range p s; name = n; value = x } ∷ later, u)
    ] in
    if at p TokenKind.at then more else some ([], p)

-- `parseStructuredAnnotations`
unfoldable pub parse_structured_annotations : Parser → Option (List StructuredAnnotation × Parser)
unfolding structured_loop
parse_structured_annotations p = structured_loop (suc (length p.rest)) p

-- Where an annotation without its literal is skipped to.
abbrev pub literal_ends : List TokenKind
literal_ends = TokenKind.comma ∷ TokenKind.semicolon ∷ TokenKind.rparen ∷ []

-- `[= "value"]` of an annotation
unfoldable pub annotation_literal : Parser → Option (Option Token × Parser)
unfolding at advance synchronize_to error_expected
annotation_literal p =
    let literal = λ (q : Parser). advance q >>= λ (t, r). some (some t, r) in
    let missing = λ (q : Parser).
      synchronize_to literal_ends (error_expected "string literal annotation value" q) >>= λ r.
      some (none, r) in
    let given =
      advance p >>= λ (t, q). if at q TokenKind.string_literal then literal q else missing q in
    if at p TokenKind.equal then given else some (none, p)

-- One annotation, at an identifier.
unfoldable pub parse_annotation : Parser → Option (Annotation × Parser)
unfolding identifier annotation_literal accept_separator
parse_annotation p = identifier p >>= λ (n, q). annotation_literal q >>= λ (x, r).
    accept_separator r >>= λ (k, s).
    some (record { base = range p s; name = n; value = x; sep = k }, s)

-- The loop of `parseAnnotations`.
unfoldable pub annotation_items : ℕ → Parser → Option (List Annotation × Parser)
unfolding at parse_annotation recover_entry error_expected
annotation_items zero p = none
annotation_items (suc f) p =
    let item =
      parse_annotation p >>= λ (a, q). annotation_items f q >>= λ (later, r). some (a ∷ later, r) in
    let bad = recover_entry TokenKind.rparen (error_expected "annotation name" p) >>= λ q.
    annotation_items f q in
    if at p TokenKind.rparen || at p TokenKind.eof
    then some ([], p)
    else if not (at p TokenKind.identifier)
    then bad
    else item

-- `parseAnnotations`
unfoldable pub parse_annotations : Parser → Option (Annotations × Parser)
unfolding advance annotation_items expect
parse_annotations p = advance p >>= λ (t, q).
    annotation_items (suc (length q.rest)) q >>= λ (list, r).
    expect TokenKind.rparen "')' to close annotations" r >>= λ (ok, s).
    some (record { base = range p s; items = list }, s)

-- `parseAnnotationsIfPresent`
unfoldable pub parse_annotations_if_present : Parser → Option (Option Annotations × Parser)
unfolding at parse_annotations
parse_annotations_if_present p =
    let group = parse_annotations p >>= λ (a, q). some (some a, q) in
    if not (at p TokenKind.lparen) then some (none, p) else group
