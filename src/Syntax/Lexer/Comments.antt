-- ===== src/Syntax/Lexer/Comments.antt =====
-- `scanLineComment` and `scanBlockComment`.
use thrift_ls.Common.{
  ℕ, zero, suc, ◌+◌, ◌≤◌, ◌<◌, ◌≡◌, refl, ◌⊎◌, inl, inr, Bool, true, false, not, ◌&&◌, [], ◌∷◌,
  arith, ◌==◌, length, All, length-append, Returns, returns, Returns-if, Returns-mono, Returns-bind,
}
use thrift_ls.Utf8.{rune_self}
use thrift_ls.Syntax.Cursor.{Cursor, at_end, peek_byte, here, advance_byte, advance_rune}
use thrift_ls.Syntax.Cursor.Peek.{
  not_end_of_here, Reads_two, two_shrinks, two_advances, rune_advances,
}
use thrift_ls.Syntax.Cursor.Reads.{
  Reads, AnyByte, stop, more, Reads-byte, Reads-mono, Reads-trans, Reads-Moved, rune_shrinks,
}
use thrift_ls.Syntax.Cursor.Text.{slice-All}
use thrift_ls.Syntax.Lexer.Scanned.{Scanned, Scanned-token_at}
use thrift_ls.Syntax.Lexer.{
  Lexer, fuel, to_line_end, scan_line_comment, to_comment_end, close_comment, scan_block_comment,
  starts_line_comment, starts_block_comment,
}
use thrift_ls.Syntax.Token.{TokenKind, Token, is_comment}

-- A byte that ends no line.
abbrev pub InLine : ℕ → Type 0
InLine b = (not (b == b'\n') && not (b == b'\r')) ≡ true

-- A line ends at `d`: the text does, or a line break follows.
abbrev pub LineEnd : Cursor → Type 0
LineEnd d = (at_end d ≡ true) ⊎ ((here d ≡ b'\n') ⊎ (here d ≡ b'\r'))

abbrev ToLineEnd : Cursor → Cursor → Type 0
ToLineEnd c d = Reads InLine d c × LineEnd d

to_line_end-Returns :
    (f : ℕ) (c : Cursor) → length c.rest < f → Returns (ToLineEnd c) (to_line_end f c)
unfolding to_line_end
to_line_end-Returns zero c lt = absurd (omega arith)
to_line_end-Returns (suc f) c lt =
    Returns-if (not (at_end c) && (not (here c == b'\n') && not (here c == b'\r')))
      (λ t.
        let e : at_end c ≡ false = ground arith in
        Returns-mono (to_line_end-Returns f (advance_rune c) (omega (arith, rune_shrinks c e)))
          (λ d r. (more e (ground arith) r.0, r.1)))
      (λ t. returns (stop, ground arith))

-- The comment's token, and what `scanLineComment` reads.
pub record LineComment (c : Cursor) (r : Token × Cursor) : Type 0 where
  pub scanned : Scanned c r.0 r.1
  pub kind_eq : r.0.kind ≡ TokenKind.line_comment
  pub one_line : All InLine r.0.text
  pub ends : LineEnd r.1

ToLineEnd-advances :
    (c d : Cursor) → starts_line_comment c ≡ true → ToLineEnd c d → c.offset < d.offset
unfolding starts_line_comment
ToLineEnd-advances c _ h (stop, e) = absurd (ground (arith, not_end_of_here c))
ToLineEnd-advances c d h (more n i r, e) = omega (arith, rune_advances c n, (Reads-Moved r).le)

pub scan_line_comment-Returns :
    (c : Cursor) → starts_line_comment c ≡ true → Returns (LineComment c) (scan_line_comment c)
unfolding scan_line_comment
scan_line_comment-Returns c h = Returns-bind (to_line_end-Returns (fuel c) c (omega arith)) λ d r.
    returns (record {
      scanned =
          Scanned-token_at TokenKind.line_comment (Reads-mono (λ b p. tt) r.0)
            (ToLineEnd-advances c d h r);
      kind_eq = refl;
      one_line = slice-All (λ b p k b' k'. ground arith) r.0;
      ends = r.1;
    })

-- The loop of `scanBlockComment` ends the comment, or is at the end of the text.
abbrev ToCommentEnd : Cursor → Bool × Cursor → Type 0
ToCommentEnd c r = Reads AnyByte r.1 c × ((r.0 ≡ true) ⊎ (at_end r.1 ≡ true))

to_comment_end-Returns :
    (f : ℕ) (doc : Bool) (start c : Cursor)
    → length c.rest < f
    → Returns (ToCommentEnd c) (to_comment_end f doc start c)
unfolding to_comment_end
to_comment_end-Returns zero doc start c lt = absurd (omega arith)
to_comment_end-Returns (suc f) doc start c lt =
    Returns-if (at_end c) (λ e. returns (stop, inr e))
      λ e.
        Returns-if (here c == b'*' && peek_byte c 1 == b'/')
          (λ t.
            returns
              (Reads_two c (ground arith) (ground arith) (ground arith) (ground arith), inl refl))
          λ t.
            Returns-if (doc && (c.offset == start.offset + 3 && here c == b'/'))
              (λ u. returns (Reads-byte c e (ground arith) tt stop, inl refl))
              λ u.
                Returns-mono
                  (to_comment_end-Returns f doc start (advance_rune c)
                    (omega (arith, rune_shrinks c e)))
                  (λ r p. (more e tt p.0, p.1))

-- What `scanBlockComment` reads, and that an error is reported only for a comment with no end.
pub record BlockComment (l : Lexer) (r : Token × Lexer) : Type 0 where
  pub scanned : Scanned l.cur r.0 r.1.cur
  pub is_comment_eq : is_comment r.0.kind ≡ true
  pub errs_le : length l.errs ≤ length r.1.errs
  pub ends : (r.1.errs ≡ l.errs) ⊎ (at_end r.1.cur ≡ true)

-- Behind the two bytes that open the comment.
opened :
    (c : Cursor)
    → starts_block_comment c ≡ true
    → (length (advance_byte (advance_byte c)).rest < length c.rest)
      × ((d : Cursor)
          → Reads AnyByte d (advance_byte (advance_byte c))
          → Reads AnyByte d c × (c.offset < d.offset))
unfolding starts_block_comment
opened c h =
    let p : 0 < here c = ground arith in
    let a : here c < rune_self = ground arith in
    let q : 0 < peek_byte c 1 = ground arith in
    let b : peek_byte c 1 < rune_self = ground arith in
    (
      two_shrinks c p a q b,
      λ d r. (
        Reads-trans r (Reads_two c p a q b),
        omega (arith, two_advances c p a q b, (Reads-Moved r).le),
      ),
    )

close_comment-BlockComment :
    (doc : Bool) (l : Lexer) (r : Bool × Cursor)
    → starts_block_comment l.cur ≡ true
    → ToCommentEnd (advance_byte (advance_byte l.cur)) r
    → BlockComment l (close_comment doc l r)
unfolding close_comment is_comment
close_comment-BlockComment true l (true, c) h p =
    let (reads, lt) = (opened l.cur h).1 c p.0 in
    record {
      scanned = Scanned-token_at TokenKind.doc_comment reads lt;
      is_comment_eq = refl;
      errs_le = omega arith;
      ends = inl refl;
    }
close_comment-BlockComment false l (true, c) h p =
    let (reads, lt) = (opened l.cur h).1 c p.0 in
    record {
      scanned = Scanned-token_at TokenKind.block_comment reads lt;
      is_comment_eq = refl;
      errs_le = omega arith;
      ends = inl refl;
    }
close_comment-BlockComment doc l (false, c) h (r, p) =
    let (reads, lt) = (opened l.cur h).1 c r in
    record {
      scanned = Scanned-token_at TokenKind.block_comment reads lt;
      is_comment_eq = refl;
      errs_le = omega (arith, length-append l.errs (_ ∷ []));
      ends = elim p [ inl e ↦ cc | inr e ↦ inr e ];
    }

pub scan_block_comment-Returns :
    (l : Lexer)
    → starts_block_comment l.cur ≡ true
    → Returns (BlockComment l) (scan_block_comment l)
unfolding scan_block_comment
scan_block_comment-Returns l h =
    let doc = peek_byte l.cur 2 == b'*' in
    Returns-bind
      (to_comment_end-Returns (fuel l.cur) doc l.cur (advance_byte (advance_byte l.cur))
        (omega (arith, (opened l.cur h).0)))
      (λ r p. returns (close_comment-BlockComment doc l r h p))
