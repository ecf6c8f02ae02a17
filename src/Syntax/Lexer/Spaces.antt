-- ===== src/Syntax/Lexer/Spaces.antt =====
-- `scanWhitespace`: it reads a whole run of whitespace, and counts the blank lines in it.
use thrift_ls.Common.{
  ℕ, zero, suc, ◌+◌, ◌-◌, ◌≤◌, ◌<◌, ◌≡◌, refl, ◌∙◌, ap, ◌⊎◌, inl, inr, true, false, not, ◌&&◌, ◌||◌,
  some, [], ◌∷◌, Bytes, arith, ◌==◌, if_elim, length, Returns, returns, Returns-if, Returns-mono,
}
use thrift_ls.Utf8.{rune_self}
use thrift_ls.Syntax.Chars.{is_whitespace}
use thrift_ls.Syntax.Cursor.{Cursor, at_end, peek_byte, here, advance_byte}
use thrift_ls.Syntax.Cursor.Reads.{
  Reads, stop, Reads-byte, Reads-trans, byte_shrinks, cursor, not_at_end,
}
use thrift_ls.Syntax.Lexer.{after_cr, blank_lines_before, scan_whitespace}

abbrev pub IsSpace : ℕ → Type 0
IsSpace b = is_whitespace b ≡ true

pub IsSpace-ascii : (b : ℕ) → IsSpace b → b < rune_self
unfolding is_whitespace
IsSpace-ascii b h = ground arith

-- Nothing of the whitespace is left at `d`.
abbrev pub AfterSpace : Cursor → Type 0
AfterSpace d = (at_end d ≡ true) ⊎ (is_whitespace (here d) ≡ false)

module _ (c : Cursor) (n : at_end c ≡ false) where
  lf_line : here c ≡ b'\n' → (advance_byte c).line ≡ c.line + 1
  unfolding advance_byte peek_byte
  lf_line =
      not_at_end (λ c. here c ≡ b'\n' → (advance_byte c).line ≡ c.line + 1)
        (λ b bs o l k h. ground arith) c n

  blank_line : (here c == b' ' || here c == b'\t') ≡ true → (advance_byte c).line ≡ c.line
  unfolding advance_byte peek_byte
  blank_line =
      not_at_end (λ c. (here c == b' ' || here c == b'\t') ≡ true → (advance_byte c).line ≡ c.line)
        (λ b bs o l k h. ground arith) c n

cr_line_at :
    (b : ℕ) (bs : Bytes) (o l k : ℕ)
    → b ≡ b'\r'
    → (after_cr (advance_byte (cursor (b ∷ bs) o l k))).line ≡ l + 1
unfolding advance_byte peek_byte after_cr at_end
cr_line_at b [] o l k h = ground arith
cr_line_at b (b1 ∷ bs) o l k h = ground arith

cr_line :
    (c : Cursor) → at_end c ≡ false → here c ≡ b'\r' → (after_cr (advance_byte c)).line ≡ c.line + 1
unfolding peek_byte
cr_line =
    not_at_end (λ c. here c ≡ b'\r' → (after_cr (advance_byte c)).line ≡ c.line + 1)
      (λ b bs o l k h. cr_line_at b bs o l k h)

-- Whitespace read in one round: `n` line breaks.
record Space (c d : Cursor) (n : ℕ) : Type 0 where
  reads : Reads IsSpace d c
  shrinks : length d.rest < length c.rest
  lines : d.line ≡ c.line + n

Space-byte :
    (c : Cursor) {n : ℕ}
    → at_end c ≡ false
    → IsSpace (here c)
    → (advance_byte c).line ≡ c.line + n
    → Space c (advance_byte c) n
Space-byte c e s l = record {
  reads = Reads-byte c e (IsSpace-ascii _ s) s stop;
  shrinks = byte_shrinks c e (IsSpace-ascii _ s);
  lines = l;
}

after_cr_reads :
    (c : Cursor) → Reads IsSpace (after_cr c) c × (length (after_cr c).rest ≤ length c.rest)
unfolding after_cr
after_cr_reads c =
    if_elim (λ d. Reads IsSpace d c × (length d.rest ≤ length c.rest))
      (not (at_end c) && here c == b'\n')
      (λ t.
        let e : at_end c ≡ false = ground arith in
        let s : IsSpace (here c) = unfold is_whitespace in ground arith in
        (
          Reads-byte c e (IsSpace-ascii _ s) s stop,
          omega (arith, byte_shrinks c e (IsSpace-ascii _ s)),
        ))
      (λ t. (stop, omega arith))

Space-cr : (c : Cursor) → at_end c ≡ false → here c ≡ b'\r' → Space c (after_cr (advance_byte c)) 1
Space-cr c e h =
    let s : IsSpace (here c) = unfold is_whitespace in ground arith in
    let (r, le) = after_cr_reads (advance_byte c) in
    record {
      reads = Reads-trans r (Reads-byte c e (IsSpace-ascii _ s) s stop);
      shrinks = omega (arith, byte_shrinks c e (IsSpace-ascii _ s));
      lines = cr_line c e h;
    }

-- A run of whitespace from `c` to `d`, counted from `n` newlines on.
pub record SpaceRun (c : Cursor) (n : ℕ) (blanks : ℕ) (d : Cursor) : Type 0 where
  pub reads : Reads IsSpace d c
  pub le : c.line ≤ d.line
  pub blanks_eq : blanks ≡ blank_lines_before (n + (d.line - c.line))
  pub after : AfterSpace d

abbrev Run : Cursor → ℕ → ℕ × Cursor → Type 0
Run c n r = SpaceRun c n r.0 r.1

-- The loop goes on after a round.
Run-on : {c d : Cursor} {n k : ℕ} → Space c d k → (r : ℕ × Cursor) → Run d (n + k) r → Run c n r
Run-on {c} {d} {n} {k} s (blanks, e) r =
    let sum : n + k + (e.line - d.line) ≡ n + (e.line - c.line) = omega (arith, s.lines, r.le) in
    record {
      reads = Reads-trans r.reads s.reads;
      le = omega (arith, s.lines, r.le);
      blanks_eq = r.blanks_eq ∙ ap blank_lines_before sum;
      after = r.after;
    }

Run-ends : (c : Cursor) (n : ℕ) → AfterSpace c → Returns (Run c n) (some (blank_lines_before n, c))
Run-ends c n a =
    let e : n ≡ n + (c.line - c.line) = omega arith in
    returns
      (record { reads = stop; le = omega arith; blanks_eq = ap blank_lines_before e; after = a })

-- One round, by the hypothesis for less fuel.
round :
    {f : ℕ} {c d : Cursor} {n k : ℕ}
    → length c.rest < suc f
    → ((e : Cursor) (m : ℕ) → length e.rest < f → Returns (Run e m) (scan_whitespace f e m))
    → Space c d k
    → (m : ℕ) → m ≡ n + k
    → Returns (Run c n) (scan_whitespace f d m)
round {f} {c} {d} {n} {k} lt ih s m e =
    rw e (Returns-mono (ih d (n + k) (omega (arith, s.shrinks))) (Run-on s))

-- With more fuel than bytes the loop ends, at the end of the run of whitespace.
pub scan_whitespace-Returns :
    (f : ℕ) (c : Cursor) (n : ℕ) → length c.rest < f → Returns (Run c n) (scan_whitespace f c n)
unfolding scan_whitespace is_whitespace
scan_whitespace-Returns zero c n lt = absurd (omega arith)
scan_whitespace-Returns (suc f) c n lt =
    Returns-if (at_end c) (λ e. Run-ends c n (inl e))
      λ e.
        Returns-if (here c == b'\n')
          (λ t.
            round lt (scan_whitespace-Returns f)
              (Space-byte c e (ground arith) (lf_line c e (ground arith))) _ refl)
          λ t.
            Returns-if (here c == b'\r')
              (λ u. round lt (scan_whitespace-Returns f) (Space-cr c e (ground arith)) _ refl)
              λ u.
                Returns-if (here c == b' ' || here c == b'\t')
                  (λ v.
                    round {k = 0} lt (scan_whitespace-Returns f)
                      (Space-byte c e (ground arith) (blank_line c e v ∙ omega arith)) _
                      (omega arith))
                  λ v. Run-ends c n (inr (ground arith))
