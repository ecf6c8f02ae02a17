-- ===== src/Analyzers/EnumValue.antt =====
-- analyzers/enum_value_check.go: members of enums without a value, and the fixes that write it out. The places of nodes
-- are parameters: `span_of` and `token_end_position` of the document, without their panics.
pub mod Edits
pub mod Fixed
use thrift_ls.Common.Int.{pos}
use thrift_ls.Common.{
  ℕ, ◌+◌, Bool, ◌&&◌, List, [], ◌∷◌, ◌++◌, Option, none, some, ◌==◌, if◌then◌else◌, Bytes, codes,
}
use thrift_ls.Mapper.{Position}
use thrift_ls.Sema.Diagnostic.{Span, Diagnostic, implicit_enum_value, severity_warning}
use thrift_ls.Sema.Edit.{Fix}
use thrift_ls.Sema.Enum.{EnumMemberValue, enum_member_values, is_implicit}
use thrift_ls.Store.Index.{lookup}
use thrift_ls.Strconv.{format_int}
use thrift_ls.Syntax.Tree.{NodeBase, Identifier, EnumValue}

-- The loop that fills `firstIdx`.
unfoldable pub first_index : ℕ → List EnumValue → List (Bytes × ℕ) → List (Bytes × ℕ)
unfolding lookup
first_index i [] seen = seen
first_index i (m ∷ ms) seen = elim (lookup m.name.text seen) [
  | some j ↦ first_index (i + 1) ms seen
  | none ↦ first_index (i + 1) ms ((m.name.text, i) ∷ seen)
]

-- The member is reported.
unfoldable pub is_reported : List (Bytes × ℕ) → ℕ → EnumMemberValue → Bool
unfolding is_implicit lookup
is_reported firsts i mv =
    is_implicit mv && elim (lookup mv.member.name.text firsts) [ some j ↦ j == i | none ↦ i == 0 ]

module _ (span : NodeBase → Span) (behind : NodeBase → Position) where
  unfoldable pub value_fix : EnumMemberValue → Fix
  unfolding format_int
  value_fix mv =
      let at_name = pos (behind mv.member.name.base).offset in
      record {
        title =
            codes "Add explicit value "
            ++ (format_int mv.value ++ (codes " to " ++ mv.member.name.text));
        edits =
            record { start = at_name; end = at_name; new_text = codes " = " ++ format_int mv.value }
            ∷ [];
      }

  unfoldable pub implicit_value : EnumMemberValue → Diagnostic
  unfolding value_fix
  implicit_value mv = record {
    code = implicit_enum_value;
    severity = severity_warning;
    message =
        mv.member.name.text
        ++ (codes " has no explicit value"
            ++ (if mv.known
                then codes " (implicitly " ++ (format_int mv.value ++ codes ")")
                else []));
    span = span mv.member.name.base;
    fixes = if mv.known then value_fix mv ∷ [] else [];
  }

  -- The second loop over an enum.
  unfoldable pub check_values : List (Bytes × ℕ) → ℕ → List EnumMemberValue → List Diagnostic
  unfolding is_reported implicit_value
  check_values firsts i [] = []
  check_values firsts i (mv ∷ mvs) =
      if is_reported firsts i mv
      then implicit_value mv ∷ check_values firsts (i + 1) mvs
      else check_values firsts (i + 1) mvs

  unfoldable pub check_enum : List EnumValue → List Diagnostic
  unfolding first_index check_values enum_member_values
  check_enum ms = check_values (first_index 0 ms []) 0 (enum_member_values ms)

  -- `AnalyzeFile`, of the enums of a file
  unfoldable pub check_implicit_values : List (Identifier × List EnumValue) → List Diagnostic
  unfolding check_enum
  check_implicit_values [] = []
  check_implicit_values ((name, ms) ∷ es) = check_enum ms ++ check_implicit_values es
