-- ===== src/Sema/Edit/Tests.antt =====
-- sema/edit.go: `Apply` on a small content.
use thrift_ls.Common.Int.{ℤ, pos}
use thrift_ls.Common.{◌≡◌, refl, List, [], ◌∷◌, Bytes, codes}
use thrift_ls.Sema.Edit.Applied.{Delivers, apply-Delivers}
use thrift_ls.Sema.Edit.Errors.{error_of, first_outside, apply-error}
use thrift_ls.Sema.Edit.{Edit, Fix, done, apply}

abbrev content : Bytes
content = codes "abcdef"

abbrev edit : ℤ → ℤ → Bytes → Edit
edit s e t = record { start = s; end = e; new_text = t }

abbrev replacement : Fix
replacement = record { title = codes "replace"; edits = edit (pos 2) (pos 4) (codes "XY") ∷ [] }

abbrev insertion : Fix
insertion = record { title = codes "insert"; edits = edit (pos 2) (pos 2) (codes "+") ∷ [] }

-- It overlaps the replacement.
abbrev rival : Fix
rival = record {
  title = codes "rival";
  edits = edit (pos 3) (pos 5) [] ∷ edit (pos 0) (pos 1) [] ∷ [];
}

-- Its second edit overlaps its first.
abbrev own_rival : Fix
own_rival = record {
  title = codes "own";
  edits = edit (pos 0) (pos 2) [] ∷ edit (pos 1) (pos 2) [] ∷ [];
}

-- The same two edits in the two orders.
abbrev insertion_first : Fix
insertion_first = record {
  title = codes "first";
  edits = edit (pos 2) (pos 2) (codes "+") ∷ edit (pos 2) (pos 4) (codes "XY") ∷ [];
}

abbrev insertion_last : Fix
insertion_last = record {
  title = codes "last";
  edits = edit (pos 2) (pos 4) (codes "XY") ∷ edit (pos 2) (pos 2) (codes "+") ∷ [];
}

abbrev outside : Fix
outside = record { title = codes "outside"; edits = edit (pos 2) (pos 7) [] ∷ [] }

abbrev fixes : List Fix
fixes = replacement ∷ rival ∷ insertion ∷ own_rival ∷ []

-- The skipped fixes are not in the order of the arguments.
apply_run :
    apply content fixes
    ≡ done (codes "ab+XYef") (replacement ∷ insertion ∷ []) (own_rival ∷ rival ∷ [])
unfolding apply
apply_run = refl

apply_in_order :
    apply content (insertion_first ∷ []) ≡ done (codes "ab+XYef") (insertion_first ∷ []) []
unfolding apply
apply_in_order = refl

apply_out_of_order : apply content (insertion_last ∷ []) ≡ done content [] (insertion_last ∷ [])
unfolding apply
apply_out_of_order = refl

apply-Delivers_example : Delivers content fixes (apply content fixes)
apply-Delivers_example = apply-Delivers content fixes

apply-error_example :
    error_of (apply content (replacement ∷ outside ∷ []))
    ≡ first_outside 6 (replacement ∷ outside ∷ [])
apply-error_example = apply-error content (replacement ∷ outside ∷ [])
