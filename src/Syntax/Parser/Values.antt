-- ===== src/Syntax/Parser/Values.antt =====
-- syntax/parser.go: `parseConstValue`, with its two loops as functions of their own.
pub mod Ends
use thrift_ls.Common.{
  ℕ, zero, suc, ◌+◌, ◌*◌, ◌-◌, Bool, true, false, ◌||◌, Option, none, some, if◌then◌else◌, length,
  ◌>>=◌,
}
use thrift_ls.Syntax.Parser.State.{
  Parser, at, cur, advance, expect, recover_entry, accept_separator, error_expected, range,
}
use thrift_ls.Syntax.Token.{TokenKind, is_kind}
use thrift_ls.Syntax.Tree.{
  NodeBase, ConstValue, ConstValues, ConstMapEntries, ScalarKind, scalar, value_list, value_map,
  no_values, value, no_entries, entry, value_int, value_double, value_string, value_ident,
}

-- The kind of a scalar, by its token.
unfoldable pub scalar_kind : TokenKind → Option ScalarKind
scalar_kind TokenKind.int_constant = some value_int
scalar_kind TokenKind.true = some value_int
scalar_kind TokenKind.false = some value_int
scalar_kind TokenKind.double_constant = some value_double
scalar_kind TokenKind.string_literal = some value_string
scalar_kind TokenKind.identifier = some value_ident
scalar_kind _ = none

-- A scalar is its token.
unfoldable pub parse_scalar : ScalarKind → Parser → Option (Option ConstValue × Parser)
unfolding advance
parse_scalar k p = advance p >>= λ (t, q). some (some (scalar (range p q) k t.text), q)

unfoldable mutual
  unfolding at advance expect recover_entry accept_separator error_expected cur scalar_kind
      parse_scalar

  -- `parseConstValue`; `none` is nil
  pub const_value : ℕ → Parser → Option (Option ConstValue × Parser)
  const_value zero p = none
  const_value (suc f) p =
      let a_list = advance p >>= λ (t, q). list_items f q >>= λ (vs, r).
      expect TokenKind.rbracket "']' to close list constant" r >>= λ (ok, s).
      some (some (value_list (range p s) vs), s) in
      let a_map = advance p >>= λ (t, q). map_items f q >>= λ (es, r).
      expect TokenKind.rbrace "'}' to close map constant" r >>= λ (ok, s).
      some (some (value_map (range p s) es), s) in
      elim (scalar_kind (cur p).kind) [
        | some k ↦ parse_scalar k p
        | none ↦
            if at p TokenKind.lbracket
            then a_list
            else if at p TokenKind.lbrace
            then a_map
            else some (none, error_expected "constant value" p)
      ]

  -- The loop of a list.
  pub list_items : ℕ → Parser → Option (ConstValues × Parser)
  list_items zero p = none
  list_items (suc f) p =
      let item = const_value f p >>= λ (x, q). elim x [
        | none ↦ recover_entry TokenKind.rbracket q >>= λ r. list_items f r
        | some v ↦
            accept_separator q >>= λ (k, r). list_items f r >>= λ (vs, s). some (value v vs, s)
      ] in
      if at p TokenKind.rbracket || at p TokenKind.eof then some (no_values, p) else item

  -- The loop of a map.
  pub map_items : ℕ → Parser → Option (ConstMapEntries × Parser)
  map_items zero p = none
  map_items (suc f) p =
      let recover = λ (q : Parser). recover_entry TokenKind.rbrace q >>= λ r. map_items f r in
      let the_value = λ (k : ConstValue) (q : Parser). const_value f q >>= λ (y, r). elim y [
        | none ↦ recover r
        | some v ↦
            accept_separator r >>= λ (s, t). map_items f t >>= λ (es, u). some (entry k v es, u)
      ] in
      let after_key = λ (k : ConstValue) (q : Parser).
        expect TokenKind.colon "':' between map key and value" q >>= λ (ok, r).
        let failed = recover r in let on = the_value k r in if ok then on else failed in
      let item =
        const_value f p >>= λ (x, q). elim x [ none ↦ recover q | some k ↦ after_key k q ] in
      if at p TokenKind.rbrace || at p TokenKind.eof then some (no_entries, p) else item

-- `parseConstValue`: a value or a loop takes a token in every second call.
unfoldable pub parse_const_value : Parser → Option (Option ConstValue × Parser)
unfolding const_value
parse_const_value p = const_value (2 * length p.rest + 1) p
