-- ===== src/Analyzers/FieldId.antt =====
-- analyzers/fieldid_check.go: field ids out of range, and field ids that fields share. A field that has no id
-- plays no part, so a list of fields is the list of the tokens of their ids. A Go map is the list of its
-- entries; the order in which a loop meets them is a parameter, since Go leaves it open.
pub mod Places
pub mod Collected
pub mod Due
pub mod Exact
use thrift_ls.Common.Int.{ℤ, pos, negsuc, int_eq}
use thrift_ls.Common.Sort.{stable_sort}
use thrift_ls.Common.{
  ℕ, suc, Bool, true, false, ◌||◌, List, [], ◌∷◌, ◌++◌, Option, none, some, ◌==◌, ltb, leb,
  if◌then◌else◌, codes, map, length,
}
use thrift_ls.Sema.Diagnostic.{
  Diagnostic, token_span, field_id_range, field_id_conflict, severity_error,
}
use thrift_ls.Strconv.{ParseResult, ok, syntax_error, range_error, parse_int}
use thrift_ls.Syntax.Accessors.{field_lists}
use thrift_ls.Syntax.Token.{Token}
use thrift_ls.Syntax.Tree.{Field, Node}

-- `fieldIDRangeDiagnostic`
unfoldable pub range_diagnostic : Token → Diagnostic
unfolding token_span
range_diagnostic t = record {
  code = field_id_range;
  severity = severity_error;
  message = codes "field id should be a positive integer in [1, 32767]";
  span = token_span t;
  fixes = [];
}

unfoldable pub conflict_diagnostic : Token → Diagnostic
unfolding token_span
conflict_diagnostic t = record {
  code = field_id_conflict;
  severity = severity_error;
  message = codes "field id conflict";
  span = token_span t;
  fixes = [];
}

unfoldable pub field_ids : List Field → List Token
field_ids [] = []
field_ids (f ∷ fs) = elim f.field_id [ none ↦ field_ids fs | some t ↦ t ∷ field_ids fs ]

-- `fieldIDSet`
abbrev pub Groups : Type 0
Groups = List (ℤ × List Token)

unfoldable pub add_field : ℤ → Token → Groups → Groups
unfolding int_eq
add_field v t [] = (v, t ∷ []) ∷ []
add_field v t ((w, ts) ∷ gs) =
    if int_eq v w then (w, ts ++ t ∷ []) ∷ gs else (w, ts) ∷ add_field v t gs

-- The body of the first loop, for an id that was parsed.
unfoldable pub read_id : Token → ParseResult ℤ → List Diagnostic → Groups → List Diagnostic × Groups
unfolding add_field range_diagnostic
read_id t (ok v) errs gs = (errs, add_field v t gs)
read_id t range_error errs gs = (errs ++ range_diagnostic t ∷ [], gs)
read_id t syntax_error errs gs = (errs, gs)

-- The first loop.
unfoldable pub collect : List Token → List Diagnostic → Groups → List Diagnostic × Groups
unfolding read_id
collect [] errs gs = (errs, gs)
collect (t ∷ ts) errs gs =
    let (errs', gs') = read_id t (parse_int 32 t.text) errs gs in collect ts errs' gs'

unfoldable pub out_of_range : ℤ → Bool
out_of_range (pos n) = n == 0 || ltb 32767 n
out_of_range (negsuc n) = true

-- The body of the second loop.
unfoldable pub group_diagnostics : ℤ × List Token → List Diagnostic
unfolding out_of_range range_diagnostic conflict_diagnostic
group_diagnostics (v, ts) =
    (if out_of_range v then map range_diagnostic ts else [])
    ++ (if length ts == 1 then [] else map conflict_diagnostic ts)

unfoldable pub groups_diagnostics : Groups → List Diagnostic
unfolding group_diagnostics
groups_diagnostics [] = []
groups_diagnostics (g ∷ gs) = group_diagnostics g ++ groups_diagnostics gs

-- The comparison of the sort: not after.
unfoldable pub not_after : Diagnostic → Diagnostic → Bool
not_after a b =
    let s = a.span.start in
    let e = b.span.start in if s.line == e.line then leb s.col e.col else ltb s.line e.line

module _ (order : Groups → Groups) where
  -- The function that `WalkFieldLists` calls for each list, on the ids of the fields.
  unfoldable pub check_ids : List Token → List Diagnostic
  unfolding collect groups_diagnostics
  check_ids ts = let (errs, gs) = collect ts [] [] in errs ++ groups_diagnostics (order gs)

  unfoldable pub check_field_lists : List (List Field) → List Diagnostic
  unfolding check_ids field_ids
  check_field_lists [] = []
  check_field_lists (fs ∷ fss) = check_ids (field_ids fs) ++ check_field_lists fss

  -- `AnalyzeFile`
  unfoldable pub check_field_ids : List Node → List Diagnostic
  unfolding check_field_lists field_lists not_after stable_sort
  check_field_ids ns = stable_sort not_after (check_field_lists (field_lists ns))
