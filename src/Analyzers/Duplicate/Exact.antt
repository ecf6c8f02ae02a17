-- ===== src/Analyzers/Duplicate/Exact.antt =====
-- analyzers/duplicate_check.go: which names and which values of an enum are reported.
use thrift_ls.Common.Int.{ℤ, negsuc, int_eq, int_eq→≡}
use thrift_ls.Common.{
  bytes_eq→≡, ◌≡◌, refl, ap, ◌∙◌, Bool, true, false, ◌||◌, List, [], ◌∷◌, ◌++◌, Option, none, some,
  if◌then◌else◌, Bytes, bytes_eq, arith,
}
use thrift_ls.Analyzers.Duplicate.{
  Named, seen_value, is_seen, is_empty, duplicate_name, names_loop, check_names, duplicate_value,
  collisions_loop, check_enum_values,
}
use thrift_ls.Sema.Diagnostic.{Span, Diagnostic}
use thrift_ls.Sema.Enum.{EnumMemberValue, enum_member_values, values_loop, resolve_member}
use thrift_ls.Syntax.Tree.{NodeBase, EnumValue}

-- Some definition has the name.
unfoldable pub has_name : Bytes → List Named → Bool
unfolding bytes_eq
has_name s [] = false
has_name s (d ∷ ds) = if bytes_eq s d.id.text then true else has_name s ds

module _ (span : NodeBase → Span) where
  -- What is reported of a definition, by whether its name occurs before.
  abbrev pub report_name : Named → Bool → List Diagnostic
  report_name d repeated =
      if is_empty d.id.text then [] else if repeated then duplicate_name span d ∷ [] else []

  names_loop-snoc :
      (seen : List Bytes) (before : List Named) (d : Named)
      → names_loop span seen (before ++ d ∷ [])
        ≡ names_loop span seen before
          ++ report_name d (is_seen d.id.text seen || has_name d.id.text before)
  unfolding names_loop has_name is_seen is_empty
  names_loop-snoc seen [] d = ground arith
  names_loop-snoc seen (e ∷ before) d = ground (
    arith,
    bytes_eq→≡ d.id.text e.id.text,
    names_loop-snoc seen before d,
    names_loop-snoc (e.id.text ∷ seen) before d,
  )

  -- A definition behind a scope adds a diagnostic exactly if its name is not empty and occurs in the scope,
  -- and changes no other. A scope without definitions has no diagnostics.
  pub check_names-snoc :
      (before : List Named) (d : Named)
      → (check_names span (before ++ d ∷ [])
          ≡ check_names span before ++ report_name d (has_name d.id.text before))
        × (check_names span [] ≡ [])
  unfolding check_names
  check_names-snoc before d = (names_loop-snoc [] before d, refl)

-- The first of the members whose value is known and the same.
unfoldable pub first_with : ℤ → List EnumMemberValue → Option Bytes
unfolding int_eq
first_with v [] = none
first_with v (e ∷ es) =
    let later = first_with v es in
    if e.known then if int_eq v e.value then some e.member.name.text else later else later

-- The first of two results that is there.
either : Option Bytes → Option Bytes → Option Bytes
either (some a) o = some a
either none o = o

module _ (span : NodeBase → Span) where
  abbrev pub report_value : EnumMemberValue → Option Bytes → List Diagnostic
  report_value mv found =
      if mv.known
      then elim found [ none ↦ [] | some first ↦ duplicate_value span mv first ∷ [] ]
      else []

  collisions_loop-snoc :
      (seen : List (ℤ × Bytes)) (before : List EnumMemberValue) (mv : EnumMemberValue)
      → collisions_loop span seen (before ++ mv ∷ [])
        ≡ collisions_loop span seen before
          ++ report_value mv (either (seen_value mv.value seen) (first_with mv.value before))
  unfolding collisions_loop first_with either seen_value
  collisions_loop-snoc seen [] mv = ground arith
  collisions_loop-snoc seen (e ∷ before) mv = ground (
    arith,
    int_eq→≡ mv.value e.value,
    collisions_loop-snoc seen before mv,
    collisions_loop-snoc ((e.value, e.member.name.text) ∷ seen) before mv,
  )

-- A member behind the others adds its value.
values_loop-snoc :
    (val : ℤ) (k : Bool) (ms : List EnumValue) (m : EnumValue)
    → (mv : EnumMemberValue) × (mv.member ≡ m)
      × (values_loop val k (ms ++ m ∷ []) ≡ values_loop val k ms ++ mv ∷ [])
unfolding values_loop
values_loop-snoc val k [] m =
    let r = resolve_member val k m.value in
    (record { member = m; value = r.0.0; known = r.0.1 }, refl, refl)
values_loop-snoc val k (n ∷ ms) m =
    let r = resolve_member val k n.value in
    let (mv, same, e) = values_loop-snoc r.1 r.0.1 ms m in
    (mv, same, ap (◌∷◌ (record { member = n; value = r.0.0; known = r.0.1 })) e)

-- A member behind the others of an enum has a value of its own, and adds a diagnostic exactly if that is known and
-- the known value of a member before it, of which the first is named. It changes no other diagnostic.
pub check_enum_values-snoc :
    (span : NodeBase → Span) (before : List EnumValue) (m : EnumValue)
    → (mv : EnumMemberValue) × (mv.member ≡ m)
      × (enum_member_values (before ++ m ∷ []) ≡ enum_member_values before ++ mv ∷ [])
      × (check_enum_values span (before ++ m ∷ [])
          ≡ check_enum_values span before
            ++ report_value span mv (first_with mv.value (enum_member_values before)))
unfolding check_enum_values enum_member_values seen_value either
check_enum_values-snoc span before m =
    let (mv, same, e) = values_loop-snoc (negsuc 0) true before m in
    (
      mv,
      same,
      e,
      ap (collisions_loop span []) e
          ∙ collisions_loop-snoc span [] (values_loop (negsuc 0) true before) mv,
    )
