-- ===== src/Syntax/Lexer/Run.antt =====
-- The loop of `run`: trivia and a token in turn, up to the end of the text.
use thrift_ls.Common.{
  ℕ, zero, suc, ◌≤◌, ◌<◌, ◌≡◌, refl, ◌∙◌, ap, sym, subst, inl, inr, true, false, List, [], ◌∷◌,
  ◌++◌, append_assoc, arith, Bytes, length, All, All-append, Returns, returns, Returns-if,
  Returns-mono, Returns-bind,
}
use thrift_ls.Syntax.Cursor.{Cursor, at_end}
use thrift_ls.Syntax.Cursor.Reads.{Reads-mono, Reads-trans, Reads-Moved, Moved-shrinks}
use thrift_ls.Syntax.Lexer.Layout.{
  Gap, Skip, Gap-Skip, Entries, nil, entry, Entries-append, Entries-mono, Entries-Reads, NotEof,
  IsComment-NotEof,
}
use thrift_ls.Syntax.Lexer.Scanned.{Scanned-shrinks, Spelled-with_blanks}
use thrift_ls.Syntax.Lexer.Tokens.{TokenScan, scan_token-Returns}
use thrift_ls.Syntax.Lexer.Trivia.{TriviaRead, Pending-none, scan_trivia-Returns}
use thrift_ls.Syntax.Lexer.{Lexer, fuel, with_blanks, is_eof, start_of, run, lex}
use thrift_ls.Syntax.Token.{Token, Error}

-- One token of the list is the end of the text, and it is the last.
pub record EndsWithEof (ts : List Token) : Type 0 where
  pub before : List Token
  pub eof : Token
  pub split : ts ≡ before ++ eof ∷ []
  pub is_eof_eq : is_eof eof.kind ≡ true
  pub others : All NotEof before

EndsWithEof-append :
    (xs : List Token) {ts : List Token} → All NotEof xs → EndsWithEof ts → EndsWithEof (xs ++ ts)
EndsWithEof-append xs h e = record {
  before = xs ++ e.before;
  eof = e.eof;
  split = ap (◌++◌ xs) e.split ∙ sym (append_assoc xs e.before (e.eof ∷ []));
  is_eof_eq = e.is_eof_eq;
  others = All-append NotEof xs e.before h e.others;
}

abbrev Quiet : Lexer → List Error → Type 0
Quiet l errs = length errs ≡ length l.errs

-- The tokens read from `l` on, up to the end of the text.
pub record Ran (l : Lexer) (tokens : List Token) (r : List Token × List Error) : Type 0 where
  pub news : List Token
  pub out_eq : r.0 ≡ tokens ++ news
  pub last : Cursor
  pub at_end_eq : at_end last ≡ true
  pub entries : Entries (Skip (length r.1 ≡ length l.errs)) last l.cur news
  pub ends : EndsWithEof news
  pub errs_le : length l.errs ≤ length r.1

module _ {l l₁ : Lexer} {blanks : ℕ} {comments : List Token} {r : Token × Lexer}
    (t : TriviaRead l.cur [] l ((blanks, comments), l₁)) (s : TokenScan l₁ r) where
  -- What is skipped before the token: whitespace, and after an error more.
  token-Skip :
      (errs : List Error)
      → length r.1.errs ≤ length errs
      → Skip (Quiet l errs) t.last s.start blanks
  token-Skip errs le = record {
    reads = Reads-trans s.skipped (Reads-mono (λ b h. tt) t.gap.reads);
    gap = λ q.
        let same = s.quiet t.free (omega (arith, t.errs_le, s.errs_le)) in
        subst (λ c. Gap t.last c blanks) (sym same) t.gap;
  }

  -- The entries of one round, the comments and the token.
  round-Entries :
      (errs : List Error)
      → length r.1.errs ≤ length errs
      → Entries (Skip (Quiet l errs)) r.1.cur l.cur (comments ++ with_blanks blanks r.0 ∷ [])
  round-Entries errs le = rw t.out_eq (
      Entries-append
        (entry s.start r.1.cur (token-Skip errs le) (Spelled-with_blanks blanks s.spelled) nil)
        (Entries-mono (λ c d n g. Gap-Skip g) t.entries))

  round_comments : All NotEof comments
  round_comments = rw t.out_eq (IsComment-NotEof t.news t.comments_only)

  Ran-last :
      (tokens : List Token)
      → is_eof r.0.kind ≡ true
      → Ran l tokens (tokens ++ (comments ++ with_blanks blanks r.0 ∷ []), r.1.errs)
  Ran-last tokens e = record {
    news = comments ++ with_blanks blanks r.0 ∷ [];
    out_eq = refl;
    last = r.1.cur;
    at_end_eq = elim s.progress [ inl (k, a, same) ↦ rw same a | inr (k, lt) ↦ cc ];
    entries = round-Entries r.1.errs (omega arith);
    ends = record {
      before = comments;
      eof = with_blanks blanks r.0;
      split = refl;
      is_eof_eq = e;
      others = round_comments;
    };
    errs_le = omega (arith, t.errs_le, s.errs_le);
  }

  Ran-more :
      (tokens : List Token) (out : List Token × List Error)
      → is_eof r.0.kind ≡ false
      → Ran r.1 (tokens ++ (comments ++ with_blanks blanks r.0 ∷ [])) out
      → Ran l tokens out
  Ran-more tokens out e later = record {
    news = (comments ++ with_blanks blanks r.0 ∷ []) ++ later.news;
    out_eq =
        later.out_eq ∙ append_assoc tokens (comments ++ with_blanks blanks r.0 ∷ []) later.news;
    last = later.last;
    at_end_eq = later.at_end_eq;
    entries =
        Entries-append
          (Entries-mono
            (λ c d n g. record {
              reads = g.reads;
              gap = λ q. g.gap (omega (arith, t.errs_le, s.errs_le, later.errs_le));
            })
            later.entries)
          (round-Entries out.1 later.errs_le);
    ends =
        EndsWithEof-append (comments ++ with_blanks blanks r.0 ∷ [])
          (All-append NotEof comments (with_blanks blanks r.0 ∷ []) round_comments (e, tt))
          later.ends;
    errs_le = omega (arith, t.errs_le, s.errs_le, later.errs_le);
  }

  round_shrinks : is_eof r.0.kind ≡ false → length r.1.cur.rest < length l.cur.rest
  round_shrinks e = elim s.progress [
    | inl (k, a, same) ↦ cc
    | inr (k, lt) ↦
        let from_start = Scanned-shrinks (record { spelled = s.spelled; advances = lt }) in
        let comments_read = Entries-Reads (λ c d n g. Reads-mono (λ b h. tt) g.reads) t.entries in
        let before =
          Reads-trans s.skipped (Reads-trans (Reads-mono (λ b h. tt) t.gap.reads) comments_read) in
        omega (arith, Moved-shrinks (Reads-Moved before))
  ]

pub run-Returns :
    (f : ℕ) (l : Lexer) (tokens : List Token)
    → length l.cur.rest < f
    → Returns (Ran l tokens) (run f l tokens)
unfolding run
run-Returns zero l tokens lt = absurd (omega arith)
run-Returns (suc f) l tokens lt =
    Returns-bind (scan_trivia-Returns (fuel l.cur) l.cur l 0 [] (omega arith) (Pending-none l.cur))
      λ ((blanks, comments), l₁) t.
        Returns-bind (scan_token-Returns (fuel l₁.cur) l₁ (omega arith)) λ r s.
          Returns-if (is_eof r.0.kind) (λ e. returns (Ran-last t s tokens e))
            λ e.
              Returns-mono
                (run-Returns f r.1 (tokens ++ (comments ++ with_blanks blanks r.0 ∷ []))
                  (omega (arith, round_shrinks t s e)))
                (λ out later. Ran-more t s tokens out e later)

-- What `Lex` returns for a source.
abbrev pub Lexed : Bytes → List Token × List Error → Type 0
Lexed src = Ran (record { cur = start_of src; errs = [] }) []

pub lex-Returns : (src : Bytes) → Returns (Lexed src) (lex src)
unfolding lex
lex-Returns src = run-Returns (suc (length src)) _ [] (omega arith)
