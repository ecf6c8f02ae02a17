-- ===== src/Sema/Edit/Chosen.antt =====
-- sema/edit.go: what the second loop of `Apply` leaves of the fixes, and that its pieces sort into a chain.
use thrift_ls.Common.{
  ℕ, ◌+◌, ◌≤◌, ◌≡◌, refl, subst, Bool, false, List, [], ◌∷◌, ◌++◌, map, Option, none, some, All,
  All-append, All-map, append_assoc, append-nil, arith, if_elim,
}
use thrift_ls.Sema.Edit.Accept.{
  requested, all_requested, Good, Ready, ReadyPieces, Pairwise-append, conflicts-Apart,
}
use thrift_ls.Sema.Edit.Count.{count, count-append}
use thrift_ls.Sema.Edit.Order.{
  Pairwise, Valid, Apart, Apart-sym, All-sort_by, Pairwise-sort_by, sort-Placed, Pairwise-Before,
  Before-Chain,
}
use thrift_ls.Sema.Edit.Splice.{Chain}
use thrift_ls.Sema.Edit.{
  Fix, Piece, sort_by, by_place, conflicts, Candidate, Verdict, applied, skipped_early,
  skipped_late, verdict_of, taken_after, verdicts, pieces_in, applied_in, early_in, late_in,
}

module _ (n : ℕ) where
  -- The verdict on a fix, with `taken` taken.
  data Ruled (taken : List Piece) : Fix → Verdict → Type 0 where
    took :
        {f : Fix} {es : List Piece}
        → Good n (requested n f) es
        → conflicts taken es ≡ false
        → Ruled taken f (applied f es)
    early : {f : Fix} → Ruled taken f (skipped_early f)
    late : {f : Fix} → Ruled taken f (skipped_late f)

  rule :
      (taken : List Piece) (f : Fix) (o : Option (List Piece))
      → ReadyPieces n (requested n f) o
      → Ruled taken f (verdict_of taken (record { fix = f; pieces = o }))
  unfolding verdict_of ReadyPieces
  rule taken f none h = early
  rule taken f (some es) h =
      if_elim (Ruled taken f) (conflicts taken es) (λ _. late) (λ e. took h e)

  -- What the second loop leaves of fixes.
  pub record Chosen (taken : List Piece) (vs : List Verdict) (fs : List Fix) : Type 0 where
    pub valid : All (Valid n) (pieces_in vs)
    pub apart : Pairwise Apart (taken ++ pieces_in vs)
    pub same :
        (P : Piece → Bool) → count P (pieces_in vs) ≡ count P (all_requested n (applied_in vs))
    pub parted :
        (P : Fix → Bool)
        → count P (applied_in vs) + (count P (early_in vs) + count P (late_in vs)) ≡ count P fs

  choose :
      (taken : List Piece) (f : Fix) (v : Verdict) (vs : List Verdict) (fs : List Fix)
      → Ruled taken f v
      → Chosen (taken_after taken v) vs fs
      → Chosen taken (v ∷ vs) (f ∷ fs)
  unfolding taken_after pieces_in applied_in early_in late_in all_requested count
  choose taken _ _ vs fs (took {f} {es} g e) c = record {
    valid = All-append (Valid n) es (pieces_in vs) g.valid c.valid;
    apart = subst (Pairwise Apart) (append_assoc taken es (pieces_in vs)) c.apart;
    same = λ P. omega (
      arith,
      g.same P,
      c.same P,
      count-append P es (pieces_in vs),
      count-append P (requested n f) (all_requested n (applied_in vs)),
    );
    parted = λ P. omega (arith, c.parted P);
  }
  choose taken _ _ vs fs (early {f}) c = record {
    valid = c.valid;
    apart = c.apart;
    same = c.same;
    parted = λ P. omega (arith, c.parted P);
  }
  choose taken _ _ vs fs (late {f}) c = record {
    valid = c.valid;
    apart = c.apart;
    same = c.same;
    parted = λ P. omega (arith, c.parted P);
  }

  taken_Apart :
      (taken : List Piece) (f : Fix) (v : Verdict)
      → Ruled taken f v
      → Pairwise Apart taken
      → Pairwise Apart (taken_after taken v)
  unfolding taken_after
  taken_Apart taken _ _ (took {f} {es} g e) h =
      Pairwise-append taken es h g.apart (conflicts-Apart taken es e)
  taken_Apart taken _ _ (early {f}) h = h
  taken_Apart taken _ _ (late {f}) h = h

  append_nil : (ps : List Piece) → Pairwise Apart ps → Pairwise Apart (ps ++ [])
  append_nil ps h = rw append-nil h

  pub verdicts-Chosen :
      (taken : List Piece) (cs : List Candidate)
      → Pairwise Apart taken
      → All (Ready n) cs
      → Chosen taken (verdicts taken cs) (map (λ (c : Candidate). c.fix) cs)
  unfolding verdicts Ready pieces_in applied_in early_in late_in all_requested count
  verdicts-Chosen taken [] h r = record {
    valid = tt;
    apart = append_nil taken h;
    same = λ P. refl;
    parted = λ P. refl;
  }
  verdicts-Chosen taken (c ∷ cs) h (r, rs) =
      let v : Verdict = verdict_of taken c in
      let ruled : Ruled taken c.fix v = rule taken c.fix c.pieces r in
      choose taken c.fix v (verdicts (taken_after taken v) cs) (map (λ (c : Candidate). c.fix) cs)
        ruled (verdicts-Chosen (taken_after taken v) cs (taken_Apart taken c.fix v ruled h) rs)

  pub sorted-Chain :
      (vs : List Verdict) (fs : List Fix)
      → Chosen [] vs fs
      → Chain 0 n (sort_by by_place (pieces_in vs))
  sorted-Chain vs fs c =
      let ps : List Piece = pieces_in vs in
      let v : All (Valid n) (sort_by by_place ps) = All-sort_by (Valid n) by_place ps c.valid in
      Before-Chain 0 n (sort_by by_place ps) (omega arith) v
        (All-map (Valid n) (λ p. 0 ≤ p.start) (sort_by by_place ps) (λ p h. omega arith) v)
        (Pairwise-Before n (sort_by by_place ps) v (sort-Placed ps)
          (Pairwise-sort_by Apart by_place ps Apart-sym c.apart))
