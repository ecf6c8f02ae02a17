-- ===== src/Sema/Edit/Accept.antt =====
-- sema/edit.go: the two loops of `Apply` that choose the fixes. The pieces that are taken lie in the content
-- and are apart, every fix has one verdict, and the pieces of an applied fix are those that its edits ask for.
use thrift_ls.Common.Int.{ℤ, pos, negsuc}
use thrift_ls.Common.{
  ℕ, ◌≡◌, refl, sym, ap, ◌∙◌, map, Bool, false, ◌&&◌, List, [], ◌∷◌, ◌++◌, Option, none, some, leb,
  Bytes, ◌>>=◌, All, All-append, All-map, arith, if_elim,
}
use thrift_ls.Sema.Edit.Count.{count, count-sort_by}
use thrift_ls.Sema.Edit.Order.{Pairwise, Valid, Apart, All-sort_by, self_overlaps-Apart}
use thrift_ls.Sema.Edit.{
  Edit, Fix, Piece, piece_at, pieces_of, sort_by, by_start, self_overlaps, overlaps, any, conflicts,
  Candidate, candidate, Checked, bad, good, with_candidate, check_fixes,
}

-- The pieces that the edits of a fix ask for.
unfoldable pub requested : ℕ → Fix → List Piece
requested n f = elim (pieces_of n f.edits) [ none ↦ [] | some ps ↦ ps ]

unfoldable pub all_requested : ℕ → List Fix → List Piece
unfolding requested
all_requested n [] = []
all_requested n (f ∷ fs) = requested n f ++ all_requested n fs

module _ (n : ℕ) where
  -- What an `Option` holds lies in the content.
  InsideOne : Option Piece → Type 0
  InsideOne none = Unit
  InsideOne (some p) = Valid n p

  Inside : Option (List Piece) → Type 0
  Inside none = Unit
  Inside (some ps) = All (Valid n) ps

  cons_piece :
      (o : Option Piece) (r : Option (List Piece))
      → InsideOne o
      → Inside r
      → Inside (o >>= λ p. r >>= λ ps. some (p ∷ ps))
  unfolding Inside InsideOne
  cons_piece none r h k = tt
  cons_piece (some p) none h k = tt
  cons_piece (some p) (some ps) h k = (h, k)

  piece_at-Inside : (s e : ℤ) (t : Bytes) → InsideOne (piece_at n s e t)
  unfolding piece_at InsideOne
  piece_at-Inside (pos s) (pos e) t =
      if_elim InsideOne (leb s e && leb e n) (λ h. (ground arith, ground arith)) (λ _. tt)
  piece_at-Inside (pos s) (negsuc e) t = tt
  piece_at-Inside (negsuc s) e t = tt

  pieces_of-Inside : (es : List Edit) → Inside (pieces_of n es)
  unfolding pieces_of Inside
  pieces_of-Inside [] = tt
  pieces_of-Inside (e ∷ es) =
      cons_piece (piece_at n e.start e.end e.new_text) (pieces_of n es)
        (piece_at-Inside e.start e.end e.new_text) (pieces_of-Inside es)

  -- Pieces that may be taken for the pieces `asked`.
  pub record Good (asked es : List Piece) : Type 0 where
    pub valid : All (Valid n) es
    pub apart : Pairwise Apart es
    pub same : (P : Piece → Bool) → count P es ≡ count P asked

  unfoldable pub ReadyPieces : List Piece → Option (List Piece) → Type 0
  ReadyPieces asked none = Unit
  ReadyPieces asked (some es) = Good asked es

  -- What the first loop leaves for a fix.
  unfoldable pub Ready : Candidate → Type 0
  Ready c = ReadyPieces (requested n c.fix) c.pieces

  candidate-Ready :
      (f : Fix) (ps : List Piece) → requested n f ≡ ps → All (Valid n) ps → Ready (candidate f ps)
  unfolding Ready ReadyPieces candidate
  candidate-Ready f ps e v =
      let es : List Piece = sort_by by_start ps in
      let v' : All (Valid n) es = All-sort_by (Valid n) by_start ps v in
      if_elim (ReadyPieces (requested n f)) (self_overlaps es) (λ _. tt)
        (λ h. record {
          valid = v';
          apart = self_overlaps-Apart n es v' h;
          same = λ P. count-sort_by P by_start ps ∙ ap (count P) (sym e);
        })

  -- Every candidate is ready, and they are the fixes in order.
  unfoldable pub ReadyFor : List Fix → Checked → Type 0
  ReadyFor fs (bad t) = Unit
  ReadyFor fs (good cs) = All Ready cs × (map (λ (c : Candidate). c.fix) cs ≡ fs)

  with_candidate-ReadyFor :
      (c : Candidate) (fs : List Fix) (r : Checked)
      → Ready c
      → ReadyFor fs r
      → ReadyFor (c.fix ∷ fs) (with_candidate c r)
  unfolding ReadyFor with_candidate
  with_candidate-ReadyFor c fs (bad t) h k = tt
  with_candidate-ReadyFor c fs (good cs) h (k, e) = ((h, k), ap (◌∷◌ c.fix) e)

  check_one :
      (f : Fix) (fs : List Fix) (o : Option (List Piece)) (r : Checked)
      → requested n f ≡ elim o [ none ↦ [] | some ps ↦ ps ]
      → Inside o
      → ReadyFor fs r
      → ReadyFor
          (f ∷ fs)
          (elim o [ none ↦ bad f.title | some ps ↦ with_candidate (candidate f ps) r ])
  unfolding ReadyFor Inside candidate
  check_one f fs none r e h k = tt
  check_one f fs (some ps) r e h k =
      with_candidate-ReadyFor (candidate f ps) fs r (candidate-Ready f ps e h) k

  pub check_fixes-ReadyFor : (fs : List Fix) → ReadyFor fs (check_fixes n fs)
  unfolding check_fixes ReadyFor requested
  check_fixes-ReadyFor [] = (tt, refl)
  check_fixes-ReadyFor (f ∷ fs) =
      check_one f fs (pieces_of n f.edits) (check_fixes n fs) refl (pieces_of-Inside f.edits)
        (check_fixes-ReadyFor fs)

any-All : (P : Piece → Bool) (ps : List Piece) → any P ps ≡ false → All (λ p. P p ≡ false) ps
unfolding any
any-All P [] h = tt
any-All P (p ∷ ps) h = (ground arith, any-All P ps (ground arith))

pub Pairwise-append :
    (xs ys : List Piece)
    → Pairwise Apart xs
    → Pairwise Apart ys
    → All (λ x. All (Apart x) ys) xs
    → Pairwise Apart (xs ++ ys)
Pairwise-append [] ys h k c = k
Pairwise-append (x ∷ xs) ys (h, hs) k (c, cs) =
    (All-append (Apart x) xs ys h c, Pairwise-append xs ys hs k cs)

pub conflicts-Apart :
    (taken es : List Piece) → conflicts taken es ≡ false → All (λ t. All (Apart t) es) taken
unfolding conflicts
conflicts-Apart taken es h =
    All-map (λ t. any (overlaps t) es ≡ false) (λ t. All (Apart t) es) taken
      (λ t e. any-All (overlaps t) es e) (any-All (λ t. any (overlaps t) es) taken h)
