-- ===== src/Analyzers/Duplicate.antt =====
-- analyzers/duplicate_check.go: names that are defined twice, and values of an enum that occur twice.
-- The spans of nodes are a parameter: `span_of` of the document, without its panics.
pub mod Exact
use thrift_ls.Common.Int.{ℤ, int_eq}
use thrift_ls.Common.{
  ℕ, Bool, true, false, List, [], ◌∷◌, ◌++◌, Option, none, some, ◌==◌, if◌then◌else◌, Bytes,
  bytes_eq, codes, map,
}
use thrift_ls.Sema.Diagnostic.{
  Span, Diagnostic, duplicate_definition, duplicate_enum_value, severity_error,
}
use thrift_ls.Sema.Enum.{EnumMemberValue, enum_member_values}
use thrift_ls.Store.Index.{lookup}
use thrift_ls.Strconv.{format_int}
use thrift_ls.Syntax.Accessors.{structs, enums, services, consts, typedefs, fields_of}
use thrift_ls.Syntax.Token.{TokenKind}
use thrift_ls.Syntax.Tree.{Identifier, NodeBase, EnumValue, Field, Throws, Function, Node}

-- `named`
pub record Named : Type 0 where
  pub kind : Bytes
  pub id : Identifier

abbrev pub all_of : Bytes → List Identifier → List Named
all_of k ids = map (λ (i : Identifier). record { kind = k; id = i }) ids

-- `fieldNames`
unfoldable pub field_names : Bytes → List Field → List Named
field_names k fs = all_of k (map (λ (f : Field). f.name) fs)

unfoldable pub seen_value : ℤ → List (ℤ × Bytes) → Option Bytes
unfolding int_eq
seen_value v [] = none
seen_value v ((w, name) ∷ seen) = if int_eq v w then some name else seen_value v seen

unfoldable pub is_seen : Bytes → List Bytes → Bool
unfolding bytes_eq
is_seen s [] = false
is_seen s (t ∷ seen) = if bytes_eq s t then true else is_seen s seen

unfoldable pub is_empty : Bytes → Bool
is_empty [] = true
is_empty _ = false

module _ (span : NodeBase → Span) where
  unfoldable pub duplicate_name : Named → Diagnostic
  duplicate_name d = record {
    code = duplicate_definition;
    severity = severity_error;
    message = codes "duplicate " ++ (d.kind ++ (codes " " ++ d.id.text));
    span = span d.id.base;
    fixes = [];
  }

  -- The loop of `checkNames`, with the names that were seen.
  unfoldable pub names_loop : List Bytes → List Named → List Diagnostic
  unfolding is_seen is_empty duplicate_name
  names_loop seen [] = []
  names_loop seen (d ∷ ds) =
      let skipped = names_loop seen ds in
      let reported = duplicate_name d ∷ names_loop seen ds in
      let added = names_loop (d.id.text ∷ seen) ds in
      if is_empty d.id.text then skipped else if is_seen d.id.text seen then reported else added

  -- `checkNames`
  unfoldable pub check_names : List Named → List Diagnostic
  unfolding names_loop
  check_names ds = names_loop [] ds

  unfoldable pub duplicate_value : EnumMemberValue → Bytes → Diagnostic
  unfolding format_int
  duplicate_value mv first = record {
    code = duplicate_enum_value;
    severity = severity_error;
    message = codes "enum value " ++ (format_int mv.value ++ (codes " duplicates " ++ first));
    span = span mv.member.name.base;
    fixes = [];
  }

  -- The loop of `checkEnumValues`, with the first member of each value that was seen.
  unfoldable pub collisions_loop : List (ℤ × Bytes) → List EnumMemberValue → List Diagnostic
  unfolding seen_value duplicate_value
  collisions_loop seen [] = []
  collisions_loop seen (mv ∷ mvs) =
      let skipped = collisions_loop seen mvs in
      let found : List Diagnostic = elim (seen_value mv.value seen) [
        | some first ↦ duplicate_value mv first ∷ collisions_loop seen mvs
        | none ↦ collisions_loop ((mv.value, mv.member.name.text) ∷ seen) mvs
      ] in
      if mv.known then found else skipped

  -- `checkEnumValues`
  unfoldable pub check_enum_values : List EnumValue → List Diagnostic
  unfolding collisions_loop enum_member_values
  check_enum_values ms = collisions_loop [] (enum_member_values ms)

  unfoldable pub check_enums : List (Identifier × List EnumValue) → List Diagnostic
  unfolding check_names check_enum_values
  check_enums [] = []
  check_enums ((name, ms) ∷ es) =
      check_names (all_of (codes "member") (map (λ (m : EnumValue). m.name) ms))
      ++ (check_enum_values ms ++ check_enums es)

  unfoldable pub check_fields : List (List Field) → List Diagnostic
  unfolding check_names field_names
  check_fields [] = []
  check_fields (fs ∷ fss) = check_names (field_names (codes "field") fs) ++ check_fields fss

  unfoldable pub check_functions : List Function → List Diagnostic
  unfolding check_names field_names
  check_functions [] = []
  check_functions (f ∷ fs) =
      let later = check_functions fs in
      check_names (field_names (codes "argument") f.args) ++ elim f.throws [
        | none ↦ later
        | some t ↦ check_names (field_names (codes "field") t.fields) ++ later
      ]

  unfoldable pub check_services : List (Identifier × List Function) → List Diagnostic
  unfolding check_names check_functions
  check_services [] = []
  check_services ((name, fns) ∷ ss) =
      check_names (all_of (codes "function") (map (λ (f : Function). f.name) fns))
      ++ (check_functions fns ++ check_services ss)

  -- The definitions of a file, which share one scope.
  unfoldable pub scope : List Node → List Named
  unfolding structs enums typedefs consts services
  scope ns =
      all_of (codes "struct") (map (λ x. x.0) (structs TokenKind.struct ns))
      ++ (all_of (codes "union") (map (λ x. x.0) (structs TokenKind.union ns))
          ++ (all_of (codes "exception") (map (λ x. x.0) (structs TokenKind.exception ns))
              ++ (all_of (codes "enum") (map (λ x. x.0) (enums ns))
                  ++ (all_of (codes "typedef") (typedefs ns)
                      ++ (all_of (codes "const") (map (λ x. x.0) (consts ns))
                          ++ all_of (codes "service") (map (λ x. x.0) (services ns)))))))

  -- `AnalyzeFile` up to the checks of constants and of default values
  unfoldable pub check_definitions : List Node → List Diagnostic
  unfolding scope check_names check_enums check_fields check_services structs enums services
      fields_of
  check_definitions ns =
      check_names (scope ns)
      ++ (check_enums (enums ns)
          ++ (check_fields (
                fields_of (structs TokenKind.struct ns)
                ++ (fields_of (structs TokenKind.union ns)
                    ++ fields_of (structs TokenKind.exception ns)))
              ++ check_services (services ns)))
