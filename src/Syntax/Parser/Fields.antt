-- ===== src/Syntax/Parser/Fields.antt =====
-- syntax/parser.go: `parseField`, `parseFieldList` and `parseFunction`. A part of a function that the
-- source writes inside a branch is a function of its own.
pub mod Ends
use thrift_ls.Common.{
  ℕ, zero, suc, ◌+◌, ◌-◌, Bool, true, false, not, ◌&&◌, ◌||◌, List, [], ◌∷◌, ◌++◌, Option, none,
  some, if◌then◌else◌, length, ◌>>=◌,
}
use thrift_ls.Syntax.Parser.Annotations.{parse_structured_annotations, parse_annotations_if_present}
use thrift_ls.Syntax.Parser.State.{
  Parser, at, cur, next_real, peek_after, advance, accept, expect, recover_entry, synchronize_to,
  accept_separator, identifier, expect_identifier, error_expected, warn, need, need_true,
}
use thrift_ls.Syntax.Parser.Types.{parse_field_type, entry_ends}
use thrift_ls.Syntax.Parser.Values.{parse_const_value}
use thrift_ls.Syntax.Token.{Token, TokenKind, is_keyword, is_kind}
use thrift_ls.Syntax.Tree.{
  NodeBase, Identifier, ConstValue, FieldType, Field, Throws, Function, StructuredAnnotation,
  Annotations,
}

-- The first token of a field or function: its first annotation's, else the one at the place of `p`.
unfoldable pub first_token : List StructuredAnnotation → Parser → ℕ
unfolding next_real
first_token [] p = next_real p
first_token (a ∷ annos) p = a.base.first

-- `[id:]`; `none` is an id without its colon
unfoldable pub parse_field_id : Parser → Option (Option (Option Token) × Parser)
unfolding at peek_after advance expect is_kind
parse_field_id p =
    let given = advance p >>= λ (t, q). expect TokenKind.colon "':' after field id" q >>= λ (ok, r).
    some (if ok then some (some t) else none, r) in
    if at p TokenKind.int_constant && is_kind (peek_after p) TokenKind.colon
    then given
    else some (some none, p)

-- `required` or `optional`
unfoldable pub parse_req : Parser → Option (Option Token × Parser)
unfolding at advance
parse_req p =
    let given = advance p >>= λ (t, q). some (some t, q) in
    if at p TokenKind.required || at p TokenKind.optional then given else some (none, p)

-- The name, which may be a keyword.
unfoldable pub parse_field_name : Parser → Option (Option Identifier × Parser)
unfolding at cur is_keyword identifier error_expected
parse_field_name p =
    let given = identifier p >>= λ (i, q). some (some i, q) in
    if at p TokenKind.identifier || is_keyword (cur p).kind
    then given
    else some (none, error_expected "field name" p)

-- `[= value]`; the result says whether a value is missing behind the sign
unfoldable pub parse_field_value : Parser → Option (Option (Option ConstValue) × Parser)
unfolding at advance parse_const_value
parse_field_value p =
    let given = advance p >>= λ (t, q). parse_const_value q >>= λ (x, r). elim x [
      | none ↦ some (none, r)
      | some v ↦ some (some (some v), r)
    ] in
    if at p TokenKind.equal then given else some (some none, p)

-- `parseField`; `none` is a field that is not ok
unfoldable pub parse_field : Parser → Option (Option Field × Parser)
unfolding parse_structured_annotations first_token parse_field_id parse_req parse_field_type accept
    parse_field_name parse_field_value need need_true parse_annotations_if_present accept_separator
parse_field p = parse_structured_annotations p >>= λ (annos, a).
    need entry_ends (parse_field_id a) λ id c. parse_req c >>= λ (req, d).
    need entry_ends (parse_field_type d) λ type e. accept TokenKind.amp e >>= λ (amp, g).
    need entry_ends (parse_field_name g) λ name h. need entry_ends (parse_field_value h) λ value i.
      parse_annotations_if_present i >>= λ (annotations, j). accept_separator j >>= λ (sep, q).
      some (
        some (record {
          base = record { first = first_token annos a; last = q.pos - 1 };
          field_id = id;
          req = req;
          type = type;
          reference = elim amp [ some t ↦ true | none ↦ false ];
          name = name;
          value = value;
          annotations = annotations;
          structured = annos;
          sep = sep;
        }),
        q,
      )

-- The loop of `parseFieldList`.
unfoldable pub field_loop : ℕ → TokenKind → Parser → Option (List Field × Parser)
unfolding at parse_field recover_entry
field_loop zero term p = none
field_loop (suc f) term p =
    let item = parse_field p >>= λ (x, q). elim x [
      | none ↦ recover_entry term q >>= λ r. field_loop f term r
      | some a ↦ field_loop f term q >>= λ (later, r). some (a ∷ later, r)
    ] in
    if at p term || at p TokenKind.eof then some ([], p) else item

-- `parseFieldList`; every round takes a token
unfoldable pub parse_field_list : TokenKind → Parser → Option (List Field × Parser)
unfolding field_loop
parse_field_list term p = field_loop (suc (length p.rest)) term p

-- `oneway` or `async`
unfoldable pub parse_oneway : Parser → Option (Option Token × Parser)
unfolding at advance warn
parse_oneway p =
    let oneway = advance p >>= λ (t, q). some (some t, q) in
    let async = advance p >>= λ (t, q). some (some t, warn t "async is deprecated, use oneway" q) in
    if at p TokenKind.oneway then oneway else if at p TokenKind.async then async else some (none, p)

-- `void` or a type
unfoldable pub parse_result : Parser → Option (Option (Option Token × Option FieldType) × Parser)
unfolding at advance parse_field_type
parse_result p =
    let void = advance p >>= λ (t, q). some (some (some t, none), q) in
    let type = parse_field_type p >>= λ (x, q). elim x [
      | none ↦ some (none, q)
      | some t ↦ some (some (none, some t), q)
    ] in
    if at p TokenKind.void then void else type

-- `[throws (...)]`; `none` is a clause without its parenthesis
unfoldable pub parse_throws : Parser → Option (Option (Option Throws) × Parser)
unfolding at advance expect parse_field_list need_true
parse_throws p =
    let given = advance p >>= λ (t, q).
    need_true (TokenKind.eof ∷ []) (expect TokenKind.lparen "'(' after throws" q) λ r.
      parse_field_list TokenKind.rparen r >>= λ (fields, s).
      expect TokenKind.rparen "')' to close throws" s >>= λ (ok, u). some (
        some (
            some
              (record { base = record { first = r.pos - 1; last = u.pos - 1 }; fields = fields })),
        u,
      ) in
    if at p TokenKind.throws then given else some (some none, p)

-- The end of a function, behind its name and its `(`.
unfoldable pub parse_signature :
    (List Field → Option Throws → Option Annotations → TokenKind → Parser → Function)
    → Parser
    → Option (Option Function × Parser)
unfolding parse_field_list expect parse_throws parse_annotations_if_present accept_separator need
parse_signature make p = parse_field_list TokenKind.rparen p >>= λ (args, q).
    expect TokenKind.rparen "')' to close arguments" q >>= λ (ok, r). parse_throws r >>= λ (x, s).
    elim x [
      | none ↦ some (none, s)
      | some throws ↦ parse_annotations_if_present s >>= λ (annotations, t).
          accept_separator t >>= λ (sep, u). some (some (make args throws annotations sep u), u)
    ]

-- `parseFunction`; `none` is nil
unfoldable pub parse_function : Parser → Option (Option Function × Parser)
unfolding parse_structured_annotations first_token parse_oneway parse_result expect_identifier
    expect need need_true parse_signature
parse_function p = parse_structured_annotations p >>= λ (annos, a).
    parse_oneway a >>= λ (oneway, b).
    need (TokenKind.lparen ∷ TokenKind.eof ∷ []) (parse_result b) λ result c.
      need (TokenKind.lparen ∷ TokenKind.eof ∷ []) (expect_identifier "function name" c) λ name d.
        need_true (TokenKind.eof ∷ []) (expect TokenKind.lparen "'('" d) λ e.
          parse_signature
            (λ args throws annotations sep q. record {
              base = record { first = first_token annos a; last = q.pos - 1 };
              oneway = oneway;
              void = result.0;
              type = result.1;
              name = name;
              args = args;
              throws = throws;
              annotations = annotations;
              structured = annos;
              sep = sep;
            })
            e
