-- ===== src/Analyzers/Tests.antt =====
-- analyzers/: the checks at concrete files.
use thrift_ls.Analyzers.Duplicate.Exact.{
  check_names-snoc, check_enum_values-snoc, report_name, report_value, has_name, first_with,
}
use thrift_ls.Analyzers.Duplicate.{Named, check_names, check_enum_values}
use thrift_ls.Analyzers.EnumValue.Edits.{Apart, edits_of, write_edits}
use thrift_ls.Analyzers.EnumValue.Fixed.{check_enum-fixed}
use thrift_ls.Analyzers.EnumValue.{check_enum}
use thrift_ls.Analyzers.FieldId.Due.{Reordered, nil, cons, swap, expected_lists}
use thrift_ls.Analyzers.FieldId.Exact.{check_field_ids-expected}
use thrift_ls.Analyzers.FieldId.{Groups, field_ids, check_field_ids, not_after}
use thrift_ls.Common.Int.{pos}
use thrift_ls.Common.Sort.{stable_sort}
use thrift_ls.Mapper.{Position}
use thrift_ls.Common.{
  All, ℕ, ◌≡◌, refl, true, false, [], ◌∷◌, ◌++◌, List, Option, some, none, Bytes, codes, map,
  length, Returns,
}
use thrift_ls.Sema.Diagnostic.{Span, Diagnostic}
use thrift_ls.Sema.Enum.Filled.{outcome, filled, enum_member_values-filled}
use thrift_ls.Sema.Enum.{EnumMemberValue, enum_member_values}
use thrift_ls.Strconv.{parse_int}
use thrift_ls.Syntax.Accessors.{field_lists}
use thrift_ls.Syntax.Token.{Token, TokenKind}
use thrift_ls.Syntax.Tree.{NodeBase, Identifier, EnumValue, Field, Node, struct, type_ident}

abbrev base : NodeBase
base = record { first = 0; last = 0 }

abbrev named : Bytes → Identifier
named s = record { base = base; text = s }

abbrev number : ℕ → Bytes → Token
number n s = record {
  kind = TokenKind.int_constant;
  text = s;
  offset = n;
  line = 1;
  col = n;
  blank_lines_before = 0;
}

abbrev nowhere : NodeBase → Span
nowhere b = record {
  start = record { line = 1; col = b.first; offset = b.first };
  end = record { line = 1; col = b.last; offset = b.last };
}

abbrev member : Bytes → Option Token → EnumValue
member s v = record {
  base = base;
  name = named s;
  value = v;
  annotations = none;
  sep = TokenKind.comma;
}

abbrev definition : Bytes → Named
definition s = record { kind = codes "struct"; id = named s }

check_names-snoc_example :
    (check_names nowhere ((definition (codes "A") ∷ []) ++ definition (codes "A") ∷ [])
      ≡ check_names nowhere (definition (codes "A") ∷ [])
        ++ report_name nowhere
            (definition (codes "A"))
            (has_name (codes "A") (definition (codes "A") ∷ [])))
    × (check_names nowhere [] ≡ [])
check_names-snoc_example =
    check_names-snoc nowhere (definition (codes "A") ∷ []) (definition (codes "A"))

-- `B` is 1 by its position, as `A` is by its constant.
abbrev members : List EnumValue
members =
    member (codes "Z") none
    ∷ member (codes "A") (some (number 5 (codes "0x1")))
    ∷ member (codes "Y") (some (number 9 (codes "0")))
    ∷ []

values_of_members :
    map
      (λ (mv : EnumMemberValue). mv.value)
      (enum_member_values (members ++ member (codes "B") none ∷ []))
    ≡ pos 0 ∷ pos 1 ∷ pos 0 ∷ pos 1 ∷ []
unfolding enum_member_values parse_int
values_of_members = refl

check_enum_values-snoc_example :
    (mv : EnumMemberValue) × (mv.member ≡ member (codes "B") none)
    × (enum_member_values (members ++ member (codes "B") none ∷ [])
        ≡ enum_member_values members ++ mv ∷ [])
    × (check_enum_values nowhere (members ++ member (codes "B") none ∷ [])
        ≡ check_enum_values nowhere members
          ++ report_value nowhere mv (first_with mv.value (enum_member_values members)))
check_enum_values-snoc_example = check_enum_values-snoc nowhere members (member (codes "B") none)

enum_member_values-filled_example :
    map outcome
      (enum_member_values (filled (number 0) (true ∷ false ∷ []) (enum_member_values members)))
    ≡ map outcome (enum_member_values members)
enum_member_values-filled_example =
    enum_member_values-filled (number 0) (λ s. refl) (true ∷ false ∷ []) members

abbrev behind : NodeBase → Position
behind b = record { line = 1; col = b.last; offset = b.last }

-- `Z` is reported, with a fix.
one_reported : length (check_enum nowhere behind members) ≡ 1
unfolding check_enum parse_int
one_reported = refl

abbrev member_at : ℕ → Bytes → Option Token → EnumValue
member_at n s v = record (member s v) {
  name = record { base = record { first = 0; last = n }; text = s };
}

-- `Z` and `Q` are without a value.
abbrev gaps : List EnumValue
gaps =
    member_at 3 (codes "Z") none
    ∷ member_at 5 (codes "A") (some (number 5 (codes "0x1")))
    ∷ member_at 9 (codes "Q") none
    ∷ []

gaps_fixed :
    write_edits behind (number 0) (edits_of (check_enum nowhere behind gaps)) gaps
    ≡ some (
        member_at 3 (codes "Z") (some (number 0 (codes "0")))
        ∷ member_at 5 (codes "A") (some (number 5 (codes "0x1")))
        ∷ member_at 9 (codes "Q") (some (number 0 (codes "2")))
        ∷ [])
unfolding check_enum parse_int write_edits edits_of
gaps_fixed = refl

check_enum-fixed_example :
    Returns
      (λ fixed.
        (map outcome (enum_member_values fixed) ≡ map outcome (enum_member_values gaps))
        × All (λ (d : Diagnostic). d.fixes ≡ []) (check_enum nowhere behind fixed))
      (write_edits behind (number 0) (edits_of (check_enum nowhere behind gaps)) gaps)
unfolding Apart
check_enum-fixed_example =
    check_enum-fixed nowhere behind (number 0) gaps (λ s. refl)
      ((refl, (refl, tt)), ((refl, tt), (tt, tt)))

abbrev field : ℕ → Bytes → Field
field n s = record {
  base = base;
  field_id = some (number n s);
  req = none;
  type = type_ident base (named (codes "T"));
  reference = false;
  name = named (codes "f");
  value = none;
  annotations = none;
  structured = [];
  sep = TokenKind.comma;
}

-- Two fields share an id, and one has an id out of range.
abbrev nodes : List Node
nodes =
    record {
      base = base;
      structured = [];
      definition =
          struct TokenKind.struct (named (codes "S"))
            (field 1 (codes "40000") ∷ field 2 (codes "7") ∷ field 3 (codes "0x7") ∷ []) none;
    }
    ∷ []

-- A loop over a map that meets the first two entries the other way round.
abbrev flipped : Groups → Groups
flipped [] = []
flipped (g ∷ []) = g ∷ []
flipped (g ∷ h ∷ gs) = h ∷ g ∷ gs

Reordered-self : (gs : Groups) → Reordered gs gs
Reordered-self [] = nil
Reordered-self (g ∷ gs) = cons g (Reordered-self gs)

Reordered-flipped : (gs : Groups) → Reordered gs (flipped gs)
Reordered-flipped [] = nil
Reordered-flipped (g ∷ []) = Reordered-self (g ∷ [])
Reordered-flipped (g ∷ h ∷ gs) = swap g h gs

three_diagnostics : length (check_field_ids flipped nodes) ≡ 3
unfolding check_field_ids parse_int
three_diagnostics = refl

check_field_ids-expected_example :
    check_field_ids flipped nodes ≡ stable_sort not_after (expected_lists (field_lists nodes))
unfolding field_lists field_ids
check_field_ids-expected_example =
    check_field_ids-expected flipped nodes Reordered-flipped
      (((refl, (refl, tt)), ((refl, tt), (tt, tt))), tt)
