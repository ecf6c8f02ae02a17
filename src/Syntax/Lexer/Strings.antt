-- ===== src/Syntax/Lexer/Strings.antt =====
-- `scanString`.
use thrift_ls.Common.{
  ℕ, zero, suc, ◌≤◌, ◌<◌, ◌≡◌, refl, true, ◌||◌, [], ◌∷◌, arith, ◌==◌, length, length-append,
  Returns, returns, Returns-if, Returns-mono, Returns-bind,
}
use thrift_ls.Utf8.{rune_self}
use thrift_ls.Syntax.Cursor.{Cursor, at_end, peek_byte, here, advance_byte, advance_rune}
use thrift_ls.Syntax.Cursor.Peek.{not_end_of_here, Reads_two, two_shrinks, byte_advances}
use thrift_ls.Syntax.Cursor.Reads.{
  Reads, AnyByte, stop, more, Reads-byte, Reads-trans, Reads-Moved, byte_shrinks, rune_shrinks,
}
use thrift_ls.Syntax.Lexer.Scanned.{Scanned, Scanned-token_at}
use thrift_ls.Syntax.Lexer.{Lexer, fuel, at, error_at, is_escape, to_string_end, scan_string}
use thrift_ls.Syntax.Token.{TokenKind, Token, Message}

escape_ascii : (b : ℕ) → is_escape b ≡ true → (0 < b) × (b < rune_self)
unfolding is_escape
escape_ascii b h = ground arith

-- The loop of `scanString` reads on, and only adds errors.
record StringRead (l : Lexer) (r : Lexer) : Type 0 where
  reads : Reads AnyByte r.cur l.cur
  errs_le : length l.errs ≤ length r.errs

StringRead-trans :
    (l m : Lexer) (r : Lexer)
    → Reads AnyByte m.cur l.cur
    → length l.errs ≤ length m.errs
    → StringRead m r
    → StringRead l r
StringRead-trans l m r a b s = record {
  reads = Reads-trans s.reads a;
  errs_le = omega (arith, s.errs_le);
}

error_at-StringRead :
    (l : Lexer) (c : Cursor) (p : Cursor) (m : Message)
    → Reads AnyByte c l.cur
    → StringRead l (error_at (at l c) p m)
error_at-StringRead l c p m r = record {
  reads = r;
  errs_le = omega (arith, length-append l.errs (_ ∷ []));
}

-- Behind an escape that is not valid.
abbrev skipped : Lexer → Lexer
skipped l =
    at (error_at l l.cur (Message.invalid_escape (peek_byte l.cur 1)))
      (advance_rune (advance_byte l.cur))

to_string_end-Returns :
    (f : ℕ) (quote : ℕ) (start : Cursor) (l : Lexer)
    → 0 < quote
    → quote < rune_self
    → length l.cur.rest < f
    → Returns (StringRead l) (to_string_end f quote start l)
unfolding to_string_end
to_string_end-Returns zero quote start l p a lt = absurd (omega arith)
to_string_end-Returns (suc f) quote start l p a lt =
    let c = l.cur in
    Returns-if (at_end c) (λ e. returns (error_at-StringRead l c start _ stop))
      λ e.
        Returns-if (here c == quote)
          (λ t.
            returns
              (record { reads = Reads-byte c e (ground arith) tt stop; errs_le = omega arith }))
          λ t.
            Returns-if (here c == b'\n' || here c == b'\r')
              (λ u. returns (error_at-StringRead l c start _ stop))
              λ u.
                Returns-if (here c == b'\\')
                  (λ v.
                    let n : here c < rune_self = ground arith in
                    let one = Reads-byte c e n tt stop in
                    Returns-if (at_end (advance_byte c))
                      (λ w. returns (error_at-StringRead l (advance_byte c) start _ one))
                      λ w.
                        Returns-if (is_escape (peek_byte c 1))
                          (λ x.
                            let (q, b) = escape_ascii (peek_byte c 1) x in
                            let h : 0 < here c = ground arith in
                            Returns-mono
                              (to_string_end-Returns f quote start
                                (at l (advance_byte (advance_byte c))) p a
                                (omega (arith, two_shrinks c h n q b)))
                              (λ r s.
                                StringRead-trans l (at l (advance_byte (advance_byte c))) r
                                  (Reads_two c h n q b) (omega arith) s))
                          λ x.
                            Returns-mono
                              (to_string_end-Returns f quote start (skipped l) p a (
                                omega (arith, byte_shrinks c e n, rune_shrinks (advance_byte c) w)))
                              (λ r s.
                                StringRead-trans l (skipped l) r (Reads-trans (more w tt stop) one)
                                  (omega (arith, length-append l.errs (_ ∷ []))) s))
                  λ v.
                    Returns-mono
                      (to_string_end-Returns f quote start (at l (advance_rune c)) p a
                        (omega (arith, rune_shrinks c e)))
                      (λ r s.
                        StringRead-trans l (at l (advance_rune c)) r (more e tt stop) (omega arith)
                          s)

-- A string literal is read, whatever is wrong with it.
pub record StringScan (l : Lexer) (r : Token × Lexer) : Type 0 where
  pub scanned : Scanned l.cur r.0 r.1.cur
  pub kind_eq : r.0.kind ≡ TokenKind.string_literal
  pub errs_le : length l.errs ≤ length r.1.errs

pub scan_string-Returns :
    (l : Lexer)
    → (here l.cur == b'\'' || here l.cur == b'"') ≡ true
    → Returns (StringScan l) (scan_string l)
unfolding scan_string
scan_string-Returns l h =
    let c = l.cur in
    let p : 0 < here c = ground arith in
    let a : here c < rune_self = ground arith in
    let n = not_end_of_here c p in
    Returns-bind
      (to_string_end-Returns (fuel c) (here c) c (at l (advance_byte c)) p a
        (omega (arith, byte_shrinks c n a)))
      λ r s. returns (record {
        scanned =
            Scanned-token_at TokenKind.string_literal (Reads-byte c n a tt s.reads)
              (omega (arith, byte_advances c n a, (Reads-Moved s.reads).le));
        kind_eq = refl;
        errs_le = s.errs_le;
      })
