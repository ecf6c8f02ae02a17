-- ===== src/Syntax/Lexer/Trivia.antt =====
-- `scanTrivia`: the comments before a token, with whitespace alone between them.
use thrift_ls.Common.{
  ℕ, zero, suc, ◌+◌, ◌-◌, ◌≤◌, ◌<◌, ◌≡◌, refl, ◌∙◌, ap, sym, ◌⊎◌, inl, inr, true, false, List, [],
  ◌∷◌, ◌++◌, append-nil, append_assoc, arith, length, All, Returns, returns, Returns-if,
  Returns-mono, Returns-bind,
}
use thrift_ls.Syntax.Chars.{is_whitespace}
use thrift_ls.Syntax.Cursor.{Cursor, at_end, here}
use thrift_ls.Syntax.Cursor.Reads.{Reads, stop, more, rune_shrinks, Reads-Moved, Moved-shrinks}
use thrift_ls.Syntax.Lexer.Comments.{scan_line_comment-Returns, scan_block_comment-Returns}
use thrift_ls.Syntax.Lexer.Layout.{Gap, Gap-none, Entries, nil, entry, NoTrivia, IsComment}
use thrift_ls.Syntax.Lexer.Scanned.{Scanned, Spelled-with_blanks, Scanned-shrinks}
use thrift_ls.Syntax.Lexer.Spaces.{IsSpace, AfterSpace, SpaceRun, scan_whitespace-Returns}
use thrift_ls.Syntax.Lexer.{
  Lexer, fuel, at, with_blanks, blank_lines_before, scan_trivia, starts_line_comment,
  starts_block_comment,
}
use thrift_ls.Syntax.Token.{Token, is_comment}

-- The loop's state: `blanks` counts what stands between the last entry's end `g` and `c`.
pub record Pending (g c : Cursor) (blanks : ℕ) : Type 0 where
  pub gap : Gap g c blanks
  pub fresh : (g ≡ c) ⊎ AfterSpace c

-- The comments `news` follow `g`; behind them and a last gap nothing but a token can start.
pub record TriviaRead (g : Cursor) (comments : List Token) (l : Lexer)
    (r : (ℕ × List Token) × Lexer) : Type 0 where
  pub news : List Token
  pub out_eq : r.0.1 ≡ comments ++ news
  pub last : Cursor
  pub entries : Entries Gap last g news
  pub comments_only : All IsComment news
  pub gap : Gap last r.1.cur r.0.0
  pub free : NoTrivia r.1.cur
  pub errs_le : length l.errs ≤ length r.1.errs

TriviaRead-done :
    {g : Cursor} {l : Lexer} {blanks : ℕ} (comments : List Token)
    → Pending g l.cur blanks
    → NoTrivia l.cur
    → TriviaRead g comments l ((blanks, comments), l)
TriviaRead-done {g} comments p free = record {
  news = [];
  out_eq = sym (append-nil comments);
  last = g;
  entries = nil;
  comments_only = tt;
  gap = p.gap;
  free = free;
  errs_le = omega arith;
}

-- A comment is read, and the rest of the trivia behind it.
TriviaRead-comment :
    {g : Cursor} {l m : Lexer} {blanks : ℕ} {t : Token} {comments : List Token}
    {r : (ℕ × List Token) × Lexer}
    → Pending g l.cur blanks
    → Scanned l.cur t m.cur
    → is_comment t.kind ≡ true
    → length l.errs ≤ length m.errs
    → TriviaRead m.cur (comments ++ with_blanks blanks t ∷ []) m r
    → TriviaRead g comments l r
TriviaRead-comment {g} {l} {m} {blanks} {t} {comments} p s k le r = record {
  news = with_blanks blanks t ∷ r.news;
  out_eq = r.out_eq ∙ append_assoc comments (with_blanks blanks t ∷ []) r.news;
  last = r.last;
  entries = entry l.cur m.cur p.gap (Spelled-with_blanks blanks s.spelled) r.entries;
  comments_only = (k, r.comments_only);
  gap = r.gap;
  free = r.free;
  errs_le = omega (arith, r.errs_le);
}

-- Whitespace alone reports no error.
TriviaRead-space :
    {g c : Cursor} {l : Lexer} {comments : List Token} {r : (ℕ × List Token) × Lexer}
    → TriviaRead g comments (at l c) r
    → TriviaRead g comments l r
TriviaRead-space r = record {
  news = r.news;
  out_eq = r.out_eq;
  last = r.last;
  entries = r.entries;
  comments_only = r.comments_only;
  gap = r.gap;
  free = r.free;
  errs_le = r.errs_le;
}

pub Pending-none : (c : Cursor) → Pending c c 0
Pending-none c = record { gap = Gap-none c; fresh = inl refl }

-- A run that starts at whitespace reads some.
run_shrinks :
    {d c : Cursor}
    → at_end c ≡ false
    → is_whitespace (here c) ≡ true
    → AfterSpace d
    → Reads IsSpace d c
    → length d.rest < length c.rest
run_shrinks e h (inl a) stop = cc
run_shrinks e h (inr a) stop = cc
run_shrinks {c = c} e h a (more n i r) =
    omega (arith, rune_shrinks c n, Moved-shrinks (Reads-Moved r))

-- Whitespace is met only behind an entry, so what was counted before it is nothing.
Pending-space :
    {g c d : Cursor} {blanks n : ℕ}
    → at_end c ≡ false
    → is_whitespace (here c) ≡ true
    → Pending g c blanks
    → SpaceRun c 0 n d
    → Pending g d (blanks + n)
unfolding blank_lines_before
Pending-space {g} {c} {d} {blanks} {n} e h p s = elim p.fresh [
  | inl same ↦
      let none_before : blanks ≡ 0 = p.gap.blanks_eq ∙ rw (← same) (ground arith) in
      let first : n ≡ blank_lines_before (d.line - c.line) =
        s.blanks_eq ∙ ap blank_lines_before (omega arith) in
      record {
        gap = record {
          reads = rw same s.reads;
          blanks_eq = rw (none_before, same) (omega (arith, first));
        };
        fresh = inr s.after;
      }
  | inr (inl a) ↦ cc
  | inr (inr a) ↦ cc
]

pub scan_trivia-Returns :
    (f : ℕ) (g : Cursor) (l : Lexer) (blanks : ℕ) (comments : List Token)
    → length l.cur.rest < f
    → Pending g l.cur blanks
    → Returns (TriviaRead g comments l) (scan_trivia f l blanks comments)
unfolding scan_trivia
scan_trivia-Returns zero g l blanks comments lt p = absurd (omega arith)
scan_trivia-Returns (suc f) g l blanks comments lt p =
    let c = l.cur in
    Returns-if (at_end c) (λ e. returns (TriviaRead-done comments p (inl e)))
      λ e.
        Returns-if (is_whitespace (here c))
          (λ h. Returns-bind (scan_whitespace-Returns (fuel c) c 0 (omega arith)) λ r s.
            Returns-mono
              (scan_trivia-Returns f g (at l r.1) (blanks + r.0) comments
                (omega (arith, run_shrinks e h s.after s.reads)) (Pending-space e h p s))
              (λ out q. TriviaRead-space q))
          λ h.
            Returns-if (starts_line_comment c)
              (λ k. Returns-bind (scan_line_comment-Returns c k) λ r s.
                let is : is_comment r.0.kind ≡ true = rw s.kind_eq (unfold is_comment in refl) in
                Returns-mono
                  (scan_trivia-Returns f r.1 (at l r.1) 0 (comments ++ with_blanks blanks r.0 ∷ [])
                    (omega (arith, Scanned-shrinks s.scanned)) (Pending-none r.1))
                  (λ out q. TriviaRead-comment p s.scanned is (omega arith) q))
              λ k.
                Returns-if (starts_block_comment c)
                  (λ b. Returns-bind (scan_block_comment-Returns l b) λ r s.
                    Returns-mono
                      (scan_trivia-Returns f r.1.cur r.1 0 (comments ++ with_blanks blanks r.0 ∷ [])
                        (omega (arith, Scanned-shrinks s.scanned)) (Pending-none r.1.cur))
                      (λ out q. TriviaRead-comment p s.scanned s.is_comment_eq s.errs_le q))
                  λ b. returns (
                    TriviaRead-done comments p
                      (inr (record { no_space = h; no_line_comment = k; no_block_comment = b })))
