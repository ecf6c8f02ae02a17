-- ===== src/Sema/Edit.antt =====
-- sema/edit.go: `Apply`, which applies fixes to the content of a file, and the types `Edit` and `Fix` of
-- sema/sema.go. An edit names its range by the two byte offsets of its span, which the code checks.
pub mod Count
pub mod Order
pub mod Splice
pub mod Accept
pub mod Chosen
pub mod Applied
pub mod Errors
mod Tests
use thrift_ls.Common.Int.{ℤ, pos}
use thrift_ls.Common.{
  ℕ, Bool, true, false, not, ◌&&◌, ◌||◌, List, [], ◌∷◌, ◌++◌, Option, none, some, ltb, leb, ◌==◌,
  if◌then◌else◌, Bytes, length, take, drop, ◌>>=◌,
}

-- `Edit`, with the offsets of its span
pub record Edit : Type 0 where
  pub start : ℤ
  pub end : ℤ
  pub new_text : Bytes

-- `Fix`
pub record Fix : Type 0 where
  pub title : Bytes
  pub edits : List Edit

-- The local type `edit` of `Apply`.
pub record Piece : Type 0 where
  pub start : ℕ
  pub end : ℕ
  pub text : Bytes

-- An edit with a range inside the content.
piece_at : ℕ → ℤ → ℤ → Bytes → Option Piece
piece_at n (pos s) (pos e) t =
    if leb s e && leb e n then some (record { start = s; end = e; text = t }) else none
piece_at n _ _ t = none

-- The first inner loop: an edit outside the content is an error.
unfoldable pub pieces_of : ℕ → List Edit → Option (List Piece)
unfolding piece_at
pieces_of n [] = some []
pieces_of n (e ∷ es) =
    piece_at n e.start e.end e.new_text >>= λ p. pieces_of n es >>= λ ps. some (p ∷ ps)

-- `slices.SortStableFunc`: an element goes in front of those it does not come after.
unfoldable pub insert_by : (Piece → Piece → Bool) → Piece → List Piece → List Piece
insert_by le p [] = p ∷ []
insert_by le p (q ∷ qs) = let later = insert_by le p qs in if le p q then p ∷ q ∷ qs else q ∷ later

unfoldable pub sort_by : (Piece → Piece → Bool) → List Piece → List Piece
unfolding insert_by
sort_by le [] = []
sort_by le (p ∷ ps) = insert_by le p (sort_by le ps)

-- The comparison of the first sort: not after.
unfoldable pub by_start : Piece → Piece → Bool
by_start a b = leb a.start b.start

unfoldable pub is_zero : Piece → Bool
is_zero a = a.start == a.end

-- The comparison of the second sort: not after.
unfoldable pub by_place : Piece → Piece → Bool
unfolding is_zero
by_place a b = ltb a.start b.start || a.start == b.start && (is_zero a || not (is_zero b))

-- `es[j-1].end > es[j].start` for some j
unfoldable pub self_overlaps : List Piece → Bool
self_overlaps [] = false
self_overlaps (p ∷ []) = false
self_overlaps (p ∷ q ∷ ps) = ltb q.start p.end || self_overlaps (q ∷ ps)

-- A fix with the entry of `edits` for it; no entry when the fix overlaps itself.
pub record Candidate : Type 0 where
  pub fix : Fix
  pub pieces : Option (List Piece)

-- What the first loop leaves, or the title in its error.
pub data Checked : Type 0 where
  bad : Bytes → Checked
  good : List Candidate → Checked

unfoldable pub candidate : Fix → List Piece → Candidate
unfolding sort_by by_start self_overlaps
candidate f ps =
    let es = sort_by by_start ps in
    record { fix = f; pieces = if self_overlaps es then none else some es }

unfoldable pub with_candidate : Candidate → Checked → Checked
with_candidate c (bad t) = bad t
with_candidate c (good cs) = good (c ∷ cs)

-- The first loop.
unfoldable pub check_fixes : ℕ → List Fix → Checked
unfolding pieces_of candidate with_candidate
check_fixes n [] = good []
check_fixes n (f ∷ fs) = elim (pieces_of n f.edits) [
  | none ↦ bad f.title
  | some ps ↦ with_candidate (candidate f ps) (check_fixes n fs)
]

-- `e.start < t.end && t.start < e.end`
unfoldable pub overlaps : Piece → Piece → Bool
overlaps t e = ltb e.start t.end && ltb t.start e.end

-- `slices.ContainsFunc`
unfoldable pub any : (Piece → Bool) → List Piece → Bool
any P [] = false
any P (p ∷ ps) = P p || any P ps

unfoldable pub conflicts : List Piece → List Piece → Bool
unfolding any overlaps
conflicts taken es = any (λ t. any (overlaps t) es) taken

-- What becomes of a fix: applied with its pieces, or skipped by the first or by the second loop.
pub data Verdict : Type 0 where
  applied : Fix → List Piece → Verdict
  skipped_early skipped_late : Fix → Verdict

unfoldable pub verdict_of : List Piece → Candidate → Verdict
unfolding conflicts
verdict_of taken c = elim c.pieces [
  | none ↦ skipped_early c.fix
  | some es ↦ if conflicts taken es then skipped_late c.fix else applied c.fix es
]

unfoldable pub taken_after : List Piece → Verdict → List Piece
taken_after taken (applied f es) = taken ++ es
taken_after taken _ = taken

-- The second loop.
unfoldable pub verdicts : List Piece → List Candidate → List Verdict
unfolding verdict_of taken_after
verdicts taken [] = []
verdicts taken (c ∷ cs) = let v = verdict_of taken c in v ∷ verdicts (taken_after taken v) cs

-- `flat` before it is sorted
unfoldable pub pieces_in : List Verdict → List Piece
pieces_in [] = []
pieces_in (applied f es ∷ vs) = es ++ pieces_in vs
pieces_in (skipped_early f ∷ vs) = pieces_in vs
pieces_in (skipped_late f ∷ vs) = pieces_in vs

unfoldable pub applied_in : List Verdict → List Fix
applied_in [] = []
applied_in (applied f es ∷ vs) = f ∷ applied_in vs
applied_in (_ ∷ vs) = applied_in vs

unfoldable pub early_in : List Verdict → List Fix
early_in [] = []
early_in (skipped_early f ∷ vs) = f ∷ early_in vs
early_in (_ ∷ vs) = early_in vs

unfoldable pub late_in : List Verdict → List Fix
late_in [] = []
late_in (skipped_late f ∷ vs) = f ∷ late_in vs
late_in (_ ∷ vs) = late_in vs

-- The body of the last loop.
unfoldable pub splice : Piece → Bytes → Bytes
splice e out = take e.start out ++ e.text ++ drop e.end out

-- The last loop, from the back.
unfoldable pub splice_all : Bytes → List Piece → Bytes
unfolding splice
splice_all content [] = content
splice_all content (e ∷ es) = splice e (splice_all content es)

-- What `Apply` returns: its error with the title of the fix, or `out`, `applied` and `skipped`.
pub data Outcome : Type 0 where
  failed : Bytes → Outcome
  done : Bytes → List Fix → List Fix → Outcome

unfoldable pub finish : Bytes → List Verdict → Outcome
unfolding splice_all sort_by by_place pieces_in applied_in early_in late_in
finish content vs =
    done (splice_all content (sort_by by_place (pieces_in vs))) (applied_in vs)
      (early_in vs ++ late_in vs)

-- `Apply`
unfoldable pub apply : Bytes → List Fix → Outcome
unfolding check_fixes verdicts finish
apply content fixes = elim (check_fixes (length content) fixes) [
  | bad t ↦ failed t
  | good cs ↦ finish content (verdicts [] cs)
]
