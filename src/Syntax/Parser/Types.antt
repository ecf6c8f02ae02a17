-- ===== src/Syntax/Parser/Types.antt =====
-- syntax/parser.go: `parseFieldType`.
pub mod Ends
use thrift_ls.Common.{
  ℕ, zero, suc, ◌+◌, ◌*◌, ◌-◌, Bool, true, false, ◌||◌, List, [], ◌∷◌, Option, none, some,
  if◌then◌else◌, length, ◌>>=◌,
}
use thrift_ls.Syntax.Parser.Annotations.{parse_annotations_if_present}
use thrift_ls.Syntax.Parser.State.{
  Parser, at, cur, advance, accept, expect, synchronize_to, identifier, error_expected, warn, range,
  need_true,
}
use thrift_ls.Syntax.Token.{Token, TokenKind}
use thrift_ls.Syntax.Tree.{
  NodeBase, FieldType, MaybeType, ContainerKind, type_base, type_ident, type_container, no_type,
  a_type, type_map, type_list, type_set, Annotations,
}

-- `isBaseType`
unfoldable pub is_base_type : TokenKind → Bool
is_base_type TokenKind.bool = true
is_base_type TokenKind.byte = true
is_base_type TokenKind.i8 = true
is_base_type TokenKind.i16 = true
is_base_type TokenKind.i32 = true
is_base_type TokenKind.i64 = true
is_base_type TokenKind.double = true
is_base_type TokenKind.string = true
is_base_type TokenKind.binary = true
is_base_type TokenKind.slist = true
is_base_type TokenKind.uuid = true
is_base_type _ = false

-- `deprecationWarnings`
unfoldable pub deprecation_warnings : Token → TokenKind → Parser → Parser
unfolding warn
deprecation_warnings t TokenKind.byte p = warn t "byte is deprecated, use i8" p
deprecation_warnings t TokenKind.slist p =
    warn t "slist is no longer supported, use string or binary" p
deprecation_warnings t _ p = p

unfoldable pub container_kind : TokenKind → Option ContainerKind
container_kind TokenKind.map = some type_map
container_kind TokenKind.list = some type_list
container_kind TokenKind.set = some type_set
container_kind _ = none

unfoldable pub is_map : ContainerKind → Bool
is_map type_map = true
is_map _ = false

-- The tokens that a malformed type or field is skipped to.
abbrev pub entry_ends : List TokenKind
entry_ends = TokenKind.comma ∷ TokenKind.semicolon ∷ TokenKind.rbrace ∷ TokenKind.rparen ∷ []

-- `[cpp_type "..."]`
unfoldable pub parse_cpp_type : Parser → Option (Option Token × Parser)
unfolding at advance error_expected
parse_cpp_type p =
    let literal = λ (q : Parser). advance q >>= λ (t, r). some (some t, r) in
    let given = advance p >>= λ (t, q).
    if at q TokenKind.string_literal
    then literal q
    else some (none, error_expected "string literal after cpp_type" q) in
    if at p TokenKind.cpp_type then given else some (none, p)

-- `t, or nil and p.synchronizeTo(kinds)`
unfoldable pub type_or_skip :
    List TokenKind → Option (Option FieldType × Parser) → Option (MaybeType × Parser)
unfolding synchronize_to
type_or_skip kinds m = m >>= λ (x, q). elim x [
  | none ↦ synchronize_to kinds q >>= λ r. some (no_type, r)
  | some t ↦ some (a_type t, q)
]

-- `if !p.at(TokenGt) { p.synchronizeTo(TokenGt) }` behind the error
unfoldable pub skip_value : Parser → Option (MaybeType × Parser)
unfolding at synchronize_to error_expected
skip_value p =
    let e = error_expected "',' and a value type for map" p in
    let skipped = synchronize_to (TokenKind.gt ∷ []) e >>= λ q. some (no_type, q) in
    if at e TokenKind.gt then some (no_type, e) else skipped

-- The key type, with the value type behind it.
unfoldable pub with_key :
    MaybeType → Option (MaybeType × Parser) → Option ((MaybeType × MaybeType) × Parser)
with_key key m = m >>= λ (value, q). some ((key, value), q)

-- The annotations of a base or container type, and the type.
unfoldable pub annotate :
    Parser
    → (NodeBase → Option Annotations → FieldType)
    → Parser
    → Option (Option FieldType × Parser)
unfolding parse_annotations_if_present
annotate p make q = parse_annotations_if_present q >>= λ (a, r). some (some (make (range p r) a), r)

-- A base type, at its keyword.
unfoldable pub parse_base_type : Parser → Option (Option FieldType × Parser)
unfolding deprecation_warnings cur advance annotate
parse_base_type p = advance (deprecation_warnings (cur p) (cur p).kind p) >>= λ (t, q).
    annotate p (λ b a. type_base b (cur p).kind a) q

unfoldable pub parse_ident_type : Parser → Option (Option FieldType × Parser)
unfolding identifier
parse_ident_type p = identifier p >>= λ (i, q). some (some (type_ident (range p q) i), q)

unfoldable mutual
  unfolding with_key at advance accept expect cur container_kind parse_cpp_type type_or_skip
      skip_value annotate is_map is_base_type error_expected need_true parse_base_type
      parse_ident_type

  -- `parseFieldType`; `none` is nil
  pub field_type : ℕ → Parser → Option (Option FieldType × Parser)
  field_type zero p = none
  field_type (suc f) p = elim (container_kind (cur p).kind) [
    | some k ↦ advance p >>= λ (t, q). parse_cpp_type q >>= λ (c, r).
        need_true entry_ends (expect TokenKind.lt "'<' to open container type" r) λ s.
          type_arguments f k s >>= λ ((kt, vt), u).
          need_true entry_ends (expect TokenKind.gt "'>' to close container type" u)
            λ v. annotate p (λ b a. type_container b k kt vt c a) v
    | none ↦
        if at p TokenKind.identifier
        then parse_ident_type p
        else if is_base_type (cur p).kind
        then parse_base_type p
        else some (none, error_expected "type" p)
  ]

  -- The key type and the value type of a container.
  pub type_arguments : ℕ → ContainerKind → Parser → Option ((MaybeType × MaybeType) × Parser)
  type_arguments zero k p = none
  type_arguments (suc f) k p =
      let pair = type_or_skip (TokenKind.comma ∷ TokenKind.gt ∷ []) (field_type f p) >>= λ (kt, q).
      accept TokenKind.comma q >>= λ (c, r). elim c [
        | some t ↦ with_key kt (type_or_skip (TokenKind.gt ∷ []) (field_type f r))
        | none ↦ with_key kt (skip_value r)
      ] in
      if is_map k
      then pair
      else with_key no_type (type_or_skip (TokenKind.gt ∷ []) (field_type f p))

-- `parseFieldType`: nested types stand behind a token each.
unfoldable pub parse_field_type : Parser → Option (Option FieldType × Parser)
unfolding field_type
parse_field_type p = field_type (2 * length p.rest + 1) p
