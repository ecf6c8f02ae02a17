-- ===== src/Syntax/Parser/Definitions.antt =====
-- syntax/parser.go: the functions of the definitions of a document.
pub mod Ends
pub mod Built
use Prim.Native.String.{String}
use thrift_ls.Common.{
  ℕ, zero, suc, ◌+◌, ◌-◌, Bool, true, false, not, ◌&&◌, ◌||◌, List, [], ◌∷◌, Option, none, some,
  if◌then◌else◌, length, ◌>>=◌,
}
use thrift_ls.Syntax.Parser.Annotations.{parse_annotations_if_present}
use thrift_ls.Syntax.Parser.Fields.{parse_field_list, parse_function}
use thrift_ls.Syntax.Parser.State.{
  Parser, at, cur, range, advance, accept, expect, synchronize_to, accept_separator, identifier,
  expect_identifier, error_expected, need, need_true,
}
use thrift_ls.Syntax.Parser.Types.{parse_field_type}
use thrift_ls.Syntax.Parser.Values.{parse_const_value}
use thrift_ls.Syntax.Token.{Token, TokenKind}
use thrift_ls.Syntax.Tree.{
  NodeBase, Identifier, Field, Function, EnumValue, Annotations, Definition, Node, include,
  cpp_include, namespace, const, typedef, enum, struct, service,
}

-- `p.synchronizeTo(TokenEOF)`
abbrev pub to_eof : List TokenKind
to_eof = TokenKind.eof ∷ []

-- The node from the place of `p` to the token in front of `q`.
abbrev pub node : Parser → Parser → Definition → Option (Option Node × Parser)
node p q d = some (some (record { base = range p q; structured = []; definition = d }), q)

-- `parseInclude` and `parseCPPInclude`, which differ in the node and the text of the error
unfoldable pub parse_path : (Token → Definition) → String → Parser → Option (Option Node × Parser)
unfolding at advance error_expected
parse_path make what p = advance p >>= λ (t, q).
    let e = error_expected what q in
    let skipped = advance e >>= λ (s, r). some (none, r) in
    let path = advance q >>= λ (s, r). node p r (make s) in
    if not (at q TokenKind.string_literal)
    then (if not (at e TokenKind.eof) then skipped else some (none, e))
    else path

unfoldable pub parse_include : Parser → Option (Option Node × Parser)
unfolding parse_path
parse_include p = parse_path include "include path string" p

unfoldable pub parse_cpp_include : Parser → Option (Option Node × Parser)
unfolding parse_path
parse_cpp_include p = parse_path cpp_include "cpp_include path string" p

-- The scope of a namespace: a name or `*`.
unfoldable pub parse_scope : Parser → Option (Option Token × Parser)
unfolding at advance error_expected
parse_scope p =
    let scope = advance p >>= λ (t, q). some (some t, q) in
    if not (at p TokenKind.identifier) && not (at p TokenKind.star)
    then some (none, error_expected "namespace scope" p)
    else scope

-- `parseNamespace`
unfoldable pub parse_namespace : Parser → Option (Option Node × Parser)
unfolding advance parse_scope expect_identifier parse_annotations_if_present need
parse_namespace p = advance p >>= λ (t, a). need to_eof (parse_scope a) λ scope b.
    need to_eof (expect_identifier "namespace name" b) λ name c.
      parse_annotations_if_present c >>= λ (annotations, q).
      node p q (namespace scope name annotations)

-- `parseConst`
unfoldable pub parse_const : Parser → Option (Option Node × Parser)
unfolding advance parse_field_type expect_identifier expect parse_const_value accept_separator need
    need_true
parse_const p = advance p >>= λ (t, a). need to_eof (parse_field_type a) λ type b.
    need to_eof (expect_identifier "constant name" b) λ name c.
      need_true to_eof (expect TokenKind.equal "'='" c) λ d.
        need to_eof (parse_const_value d)
          λ value e. accept_separator e >>= λ (sep, q). node p q (const type name value sep)

-- `parseTypedef`
unfoldable pub parse_typedef : Parser → Option (Option Node × Parser)
unfolding advance parse_field_type expect_identifier parse_annotations_if_present accept_separator
    need
parse_typedef p = advance p >>= λ (t, a). need to_eof (parse_field_type a) λ type b.
    need to_eof (expect_identifier "typedef name" b) λ name c.
      parse_annotations_if_present c >>= λ (annotations, d).
      accept_separator d >>= λ (sep, q). node p q (typedef type name annotations sep)

-- `[= int]` of an enum value
unfoldable pub parse_enum_number : Parser → Option (Option Token × Parser)
unfolding at advance error_expected
parse_enum_number p =
    let given = advance p >>= λ (t, q).
    let number = advance q >>= λ (n, r). some (some n, r) in
    if not (at q TokenKind.int_constant)
    then some (none, error_expected "integer enum value" q)
    else number in
    if at p TokenKind.equal then given else some (none, p)

-- `parseEnumValue`
unfoldable pub parse_enum_value : Parser → Option (Option EnumValue × Parser)
unfolding at identifier parse_enum_number parse_annotations_if_present accept_separator
    error_expected
parse_enum_value p =
    let given = identifier p >>= λ (name, a). parse_enum_number a >>= λ (value, b).
    parse_annotations_if_present b >>= λ (annotations, c). accept_separator c >>= λ (sep, q). some (
      some (record {
        base = range p q;
        name = name;
        value = value;
        annotations = annotations;
        sep = sep;
      }),
      q,
    ) in
    if not (at p TokenKind.identifier)
    then some (none, error_expected "enum value name" p)
    else given

-- The loop of `parseEnum`.
unfoldable pub enum_loop : ℕ → Parser → Option (List EnumValue × Parser)
unfolding at parse_enum_value synchronize_to
enum_loop zero p = none
enum_loop (suc f) p =
    let item = parse_enum_value p >>= λ (x, q). elim x [
      | none ↦ synchronize_to (TokenKind.rbrace ∷ []) q >>= λ r. enum_loop f r
      | some v ↦ enum_loop f q >>= λ (later, r). some (v ∷ later, r)
    ] in
    if at p TokenKind.rbrace || at p TokenKind.eof then some ([], p) else item

unfoldable pub enum_values : Parser → Option (List EnumValue × Parser)
unfolding enum_loop
enum_values p = enum_loop (suc (length p.rest)) p

-- `{`, the members and `}`, or an error
unfoldable pub parse_body :
    {A : Type 0}
    → (Parser → Option (List A × Parser))
    → String
    → String
    → Parser
    → Option (List A × Parser)
unfolding accept expect error_expected
parse_body members close start p = accept TokenKind.lbrace p >>= λ (brace, q). elim brace [
  | none ↦ some ([], error_expected start q)
  | some t ↦ members q >>= λ (ms, r). expect TokenKind.rbrace close r >>= λ (ok, s). some (ms, s)
]

-- `parseEnum`
unfoldable pub parse_enum : Parser → Option (Option Node × Parser)
unfolding advance expect_identifier enum_values parse_body parse_annotations_if_present need
parse_enum p = advance p >>= λ (t, a). need to_eof (expect_identifier "enum name" a) λ name b.
    parse_body enum_values "'}' to close enum" "'{' after enum name" b >>= λ (values, c).
    parse_annotations_if_present c >>= λ (annotations, q). node p q (enum name values annotations)

-- `parseStruct`, which is also for unions and exceptions
unfoldable pub parse_struct : Parser → Option (Option Node × Parser)
unfolding advance cur expect_identifier parse_field_list parse_body parse_annotations_if_present
    need
parse_struct p = advance p >>= λ (t, a). need to_eof (expect_identifier "struct name" a) λ name b.
    parse_body (parse_field_list TokenKind.rbrace) "'}' to close struct" "'{' after struct name" b
    >>= λ (fields, c). parse_annotations_if_present c >>= λ (annotations, q).
        node p q (struct (cur p).kind name fields annotations)

-- Past the parameters of a function that could not be parsed.
unfoldable pub skip_function : Parser → Option Parser
unfolding synchronize_to at advance
skip_function p = synchronize_to (TokenKind.rparen ∷ TokenKind.rbrace ∷ []) p >>= λ q.
    let past = advance q >>= λ (t, r). some r in if at q TokenKind.rparen then past else some q

-- The loop of `parseService`.
unfoldable pub function_loop : ℕ → Parser → Option (List Function × Parser)
unfolding at parse_function skip_function
function_loop zero p = none
function_loop (suc f) p =
    let item = parse_function p >>= λ (x, q). elim x [
      | none ↦ skip_function q >>= λ r. function_loop f r
      | some a ↦ function_loop f q >>= λ (later, r). some (a ∷ later, r)
    ] in
    if at p TokenKind.rbrace || at p TokenKind.eof then some ([], p) else item

unfoldable pub functions : Parser → Option (List Function × Parser)
unfolding function_loop
functions p = function_loop (suc (length p.rest)) p

-- Behind `extends` without a name: to the body, if there is one.
unfoldable pub skip_to_body : Parser → Option (Option (Option Identifier) × Parser)
unfolding synchronize_to at
skip_to_body p = synchronize_to (TokenKind.lbrace ∷ TokenKind.eof ∷ []) p >>= λ q.
    if not (at q TokenKind.lbrace) then some (none, q) else some (some none, q)

-- `[extends name]`; `none` is a missing name with no body behind it
unfoldable pub parse_extends : Parser → Option (Option (Option Identifier) × Parser)
unfolding at advance expect_identifier skip_to_body
parse_extends p =
    let given = advance p >>= λ (t, q). expect_identifier "base service name" q >>= λ (x, r).
    elim x [ none ↦ skip_to_body r | some name ↦ some (some (some name), r) ] in
    if at p TokenKind.extends then given else some (some none, p)

-- `parseService`
unfoldable pub parse_service : Parser → Option (Option Node × Parser)
unfolding advance expect_identifier parse_extends functions parse_body parse_annotations_if_present
    need
parse_service p = advance p >>= λ (t, a). need to_eof (expect_identifier "service name" a) λ name b.
    parse_extends b >>= λ (x, c). elim x [
      | none ↦ some (none, c)
      | some base ↦
          parse_body functions "'}' to close service" "'{' after service name" c >>= λ (fs, d).
          parse_annotations_if_present d >>= λ (annotations, q).
          node p q (service name base fs annotations)
    ]
