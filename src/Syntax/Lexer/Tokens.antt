-- ===== src/Syntax/Lexer/Tokens.antt =====
-- `scanToken`: it always returns a token, and skips something only where it reports an error.
use thrift_ls.Common.{
  ℕ, zero, suc, ◌+◌, ◌≤◌, ◌<◌, ◌≡◌, refl, ◌⊎◌, inl, inr, true, false, Option, some, none, [], ◌∷◌,
  arith, ◌==◌, ◌||◌, length, length-append, Returns, returns, Returns-if, Returns-mono,
  Returns-bind,
}
use thrift_ls.Syntax.Chars.{is_whitespace, is_ident_start}
use thrift_ls.Syntax.Cursor.{Cursor, at_end, here, advance_byte}
use thrift_ls.Syntax.Cursor.Reads.{
  Reads, AnyByte, Reads-trans, Reads-byte, stop, more, rune_shrinks, byte_shrinks,
}
use thrift_ls.Syntax.Lexer.Comments.{scan_line_comment-Returns, scan_block_comment-Returns}
use thrift_ls.Syntax.Lexer.Layout.{NoTrivia, NotEof}
use thrift_ls.Syntax.Lexer.Scanned.{Spelled, Spelled-token_at, Scanned, Scanned-shrinks}
use thrift_ls.Syntax.Lexer.Spaces.{IsSpace-ascii}
use thrift_ls.Syntax.Lexer.Strings.{scan_string-Returns}
use thrift_ls.Syntax.Lexer.Words.{
  Word, scan_identifier-Returns, symbol_token-Word, symbol_kind_facts, scan_number-Word,
}
use thrift_ls.Syntax.Lexer.{
  Lexer, token_at, at, reject, lift, is_eof, scan_token, scan_number, symbol_token,
  starts_line_comment, starts_block_comment, starts_number,
}
use thrift_ls.Syntax.Token.{TokenKind, Token, symbol_kind}

-- The token at the end of the text, or one that has a text.
abbrev pub Progress : Cursor → Token × Lexer → Type 0
Progress s r =
    ((is_eof r.0.kind ≡ true) × (at_end s ≡ true) × (r.1.cur ≡ s))
    ⊎ ((is_eof r.0.kind ≡ false) × (s.offset < r.1.cur.offset))

-- From `l` something is skipped up to `start`, where the token is read.
pub record TokenScan (l : Lexer) (r : Token × Lexer) : Type 0 where
  pub start : Cursor
  pub skipped : Reads AnyByte start l.cur
  pub spelled : Spelled start r.0 r.1.cur
  pub progress : Progress start r
  pub errs_le : length l.errs ≤ length r.1.errs
  pub quiet : NoTrivia l.cur → length r.1.errs ≡ length l.errs → start ≡ l.cur

-- A token that starts at once.
TokenScan-here :
    {l : Lexer} {r : Token × Lexer}
    → Scanned l.cur r.0 r.1.cur
    → NotEof r.0
    → length l.errs ≤ length r.1.errs
    → TokenScan l r
TokenScan-here {l} s k le = record {
  start = l.cur;
  skipped = stop;
  spelled = s.spelled;
  progress = inr (k, s.advances);
  errs_le = le;
  quiet = λ _ _. refl;
}

TokenScan-Word : (l : Lexer) (r : Token × Cursor) → Word l.cur r → TokenScan l (lift l r)
TokenScan-Word l (t, c) w = TokenScan-here w.0 w.1 (omega arith)

-- Something is skipped first, where trivia starts or with an error.
TokenScan-skip :
    {l m : Lexer} {r : Token × Lexer}
    → Reads AnyByte m.cur l.cur
    → length l.errs ≤ length m.errs
    → ¬ NoTrivia l.cur ⊎ (length l.errs < length m.errs)
    → TokenScan m r
    → TokenScan l r
TokenScan-skip {l} {m} {r} a le why s = record {
  start = s.start;
  skipped = Reads-trans s.skipped a;
  spelled = s.spelled;
  progress = s.progress;
  errs_le = omega (arith, s.errs_le);
  quiet = λ free same. elim why [
    | inl no_free ↦ absurd (no_free free)
    | inr lt ↦ absurd (omega (arith, s.errs_le))
  ];
}

reject_grows : (l : Lexer) → length (reject l).errs ≡ length l.errs + 1
reject_grows l = length-append l.errs (_ ∷ [])

reject_skip :
    (l : Lexer) {r : Token × Lexer} → at_end l.cur ≡ false → TokenScan (reject l) r → TokenScan l r
reject_skip l e s =
    let grows = reject_grows l in
    TokenScan-skip (more e tt stop) (omega arith) (inr (omega arith)) s

eof_scan : (l : Lexer) → at_end l.cur ≡ true → TokenScan l (token_at TokenKind.eof l.cur l.cur, l)
unfolding is_eof
eof_scan l e = record {
  start = l.cur;
  skipped = stop;
  spelled = Spelled-token_at TokenKind.eof stop;
  progress = inl (refl, e, refl);
  errs_le = omega arith;
  quiet = λ _ _. refl;
}

-- The cases of `scanToken` in which trivia starts.
NoTrivia-space : (c : Cursor) → at_end c ≡ false → is_whitespace (here c) ≡ true → ¬ NoTrivia c
NoTrivia-space c e h (inl a) = cc
NoTrivia-space c e h (inr t) = cc t.no_space

NoTrivia-line : (c : Cursor) → at_end c ≡ false → starts_line_comment c ≡ true → ¬ NoTrivia c
NoTrivia-line c e h (inl a) = cc
NoTrivia-line c e h (inr t) = cc t.no_line_comment

NoTrivia-block : (c : Cursor) → at_end c ≡ false → starts_block_comment c ≡ true → ¬ NoTrivia c
NoTrivia-block c e h (inl a) = cc
NoTrivia-block c e h (inr t) = cc t.no_block_comment

-- The two ways in which a case of the `switch` may fall through to an error.
number_or_reject :
    (f : ℕ) (l : Lexer) (o : Option (Token × Cursor))
    → scan_number l.cur ≡ o
    → Returns (TokenScan l) (scan_token f (reject l))
    → Returns (TokenScan l) (elim o [ some r ↦ some (lift l r) | none ↦ scan_token f (reject l) ])
number_or_reject f l (some r) h rejected = returns (TokenScan-Word l r (scan_number-Word l.cur r h))
number_or_reject f l none h rejected = rejected

symbol_or_reject :
    (f : ℕ) (l : Lexer) (o : Option TokenKind)
    → symbol_kind (here l.cur) ≡ o
    → Returns (TokenScan l) (scan_token f (reject l))
    → Returns (TokenScan l) (elim o [
      | some kind ↦ some (lift l (symbol_token kind l.cur))
      | none ↦ scan_token f (reject l)
    ])
symbol_or_reject f l (some kind) h rejected =
    let (p, a, k) = symbol_kind_facts (here l.cur) h in
    returns (TokenScan-Word l _ (symbol_token-Word kind l.cur p a k))
symbol_or_reject f l none h rejected = rejected

pub scan_token-Returns :
    (f : ℕ) (l : Lexer) → length l.cur.rest < f → Returns (TokenScan l) (scan_token f l)
unfolding scan_token
scan_token-Returns zero l lt = absurd (omega arith)
scan_token-Returns (suc f) l lt =
    let c = l.cur in
    Returns-if (at_end c) (λ e. returns (eof_scan l e))
      λ e.
        let rejected : Returns (TokenScan l) (scan_token f (reject l)) =
          Returns-mono (scan_token-Returns f (reject l) (omega (arith, rune_shrinks c e)))
            (λ r s. reject_skip l e s) in
        Returns-if (is_ident_start (here c))
          (λ h. Returns-bind (scan_identifier-Returns c h) λ r w. returns (TokenScan-Word l r w))
          λ h.
            Returns-if (starts_number c) (λ h1. number_or_reject f l (scan_number c) refl rejected)
              λ h1.
                Returns-if (here c == b'\'' || here c == b'"')
                  (λ h2. Returns-mono (scan_string-Returns l h2) (λ r s.
                    TokenScan-here s.scanned (rw s.kind_eq (unfold is_eof in refl)) s.errs_le))
                  λ h2.
                    Returns-if (here c == b'&')
                      (λ h3. returns (
                        TokenScan-Word l _ (
                          symbol_token-Word TokenKind.amp c (ground arith) (ground arith)
                            (unfold is_eof in refl))))
                      λ h3.
                        Returns-if (here c == b'*')
                          (λ h4. returns (
                            TokenScan-Word l _ (
                              symbol_token-Word TokenKind.star c (ground arith) (ground arith)
                                (unfold is_eof in refl))))
                          λ h4.
                            Returns-if (is_whitespace (here c))
                              (λ h5.
                                let a = IsSpace-ascii (here c) h5 in
                                Returns-mono
                                  (scan_token-Returns f (at l (advance_byte c))
                                    (omega (arith, byte_shrinks c e a)))
                                  (λ r s.
                                    TokenScan-skip (Reads-byte c e a tt stop) (omega arith)
                                      (inl (NoTrivia-space c e h5)) s))
                              λ h5.
                                Returns-if (starts_line_comment c)
                                  (λ h6. Returns-bind (scan_line_comment-Returns c h6) λ r s.
                                    Returns-mono
                                      (scan_token-Returns f (at l r.1)
                                        (omega (arith, Scanned-shrinks s.scanned)))
                                      (λ q t.
                                        TokenScan-skip s.scanned.spelled.reads (omega arith)
                                          (inl (NoTrivia-line c e h6)) t))
                                  λ h6.
                                    Returns-if (starts_block_comment c)
                                      (λ h7. Returns-bind (scan_block_comment-Returns l h7) λ r s.
                                        Returns-mono
                                          (scan_token-Returns f r.1
                                            (omega (arith, Scanned-shrinks s.scanned)))
                                          (λ q t.
                                            TokenScan-skip s.scanned.spelled.reads s.errs_le
                                              (inl (NoTrivia-block c e h7)) t))
                                      λ h7.
                                        symbol_or_reject f l (symbol_kind (here c)) refl rejected
