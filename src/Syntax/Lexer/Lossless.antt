-- ===== src/Syntax/Lexer/Lossless.antt =====
-- What `Lex` promises of every source: it ends, the tokens are the source's text in order with only
-- whitespace left out, and they record their places.
use thrift_ls.Common.{
  ℕ, ◌+◌, ◌-◌, ◌≡◌, ◌∙◌, ap, sym, subst, true, List, [], ◌∷◌, ◌++◌, arith, Bytes, length, All,
  Returns, Returns-mono,
}
use thrift_ls.Syntax.Cursor.{Cursor, at_end, slice}
use thrift_ls.Syntax.Cursor.Lines.{line_breaks, Reads-line}
use thrift_ls.Syntax.Cursor.Reads.{rest_nil, Reads, AnyByte, stop, Reads-trans, Reads-Moved}
use thrift_ls.Syntax.Cursor.Text.{slice-append, length-slice, slice-All}
use thrift_ls.Syntax.Lexer.Layout.{Gap, Skip, Entries, nil, entry, Entries-mono}
use thrift_ls.Syntax.Lexer.Run.{EndsWithEof, lex-Returns}
use thrift_ls.Syntax.Lexer.Spaces.{IsSpace, IsSpace-ascii}
use thrift_ls.Syntax.Lexer.{blank_lines_before, start_of, lex}
use thrift_ls.Syntax.Token.{Token}

-- A gap in front of the text `src` that it belongs to: whitespace, with one blank line fewer than
-- line breaks in it.
pub record BlankGap (gap src : Bytes) (blanks : ℕ) : Type 0 where
  pub spaces : All IsSpace gap
  pub blanks_eq : blanks ≡ line_breaks (length gap) src - 1

-- The source from offset `o` on is the texts of the tokens, in order, each behind a gap; a token's
-- offset is where its text stands. Where `quiet` holds the gaps are blank.
pub data Tiling (quiet : Type 0) : ℕ → Bytes → List Token → Type 0 where
  done : {o : ℕ} → Tiling quiet o [] []
  tile :
      {o : ℕ} {src : Bytes} {t : Token} {ts : List Token} (gap rest : Bytes)
      → src ≡ gap ++ (t.text ++ rest)
      → t.offset ≡ o + length gap
      → (quiet → BlankGap gap src t.blank_lines_before)
      → Tiling quiet (t.offset + length t.text) rest ts
      → Tiling quiet o src (t ∷ ts)

Tiling-nil : {quiet : Type 0} (o : ℕ) (src : Bytes) → src ≡ [] → Tiling quiet o src []
Tiling-nil {quiet} o src e = subst (λ s. Tiling quiet o s []) (sym e) done

Gap-BlankGap : {c s : Cursor} {blanks : ℕ} → Gap c s blanks → BlankGap (slice c s) c.rest blanks
unfolding blank_lines_before
Gap-BlankGap {c} {s} g =
    let m = Reads-Moved g.reads in
    let n : length (slice c s) ≡ s.offset - c.offset = length-slice m in
    record {
      spaces = slice-All (λ b h k b' k'. absurd (omega (arith, IsSpace-ascii b h))) g.reads;
      blanks_eq = rw n (ground (arith, g.blanks_eq, Reads-line g.reads));
    }

-- A layout over cursors is a tiling of the bytes between them.
Entries-Tiling :
    {quiet : Type 0} {e c : Cursor} {ts : List Token}
    → at_end e ≡ true
    → Entries (Skip quiet) e c ts
    → Tiling quiet c.offset c.rest ts
Entries-Tiling {e = e} h nil = Tiling-nil e.offset e.rest (rest_nil e h)
Entries-Tiling {c = c} h (entry {t = t} s d g sp es) =
    let m = Reads-Moved g.reads in
    let w = Reads-Moved sp.reads in
    let o : t.offset ≡ c.offset + length (slice c s) =
      omega (arith, length-slice m, m.le, sp.offset_eq) in
    let behind : t.offset + length t.text ≡ d.offset =
      omega (arith, sp.offset_eq, ap length sp.text_eq, length-slice w, w.le) in
    tile (slice c s) d.rest
      (sym (slice-append m) ∙ ap (◌++◌ (slice c s)) (sym (slice-append w) ∙ rw sp.text_eq)) o
      (λ q. Gap-BlankGap (g.gap q)) (rw behind (Entries-Tiling h es))

Skip-weaken :
    {quiet loud : Type 0} {c s : Cursor} {n : ℕ}
    → (loud → quiet)
    → Skip quiet c s n
    → Skip loud c s n
Skip-weaken k g = record { reads = g.reads; gap = λ q. g.gap (k q) }

-- For every source `Lex` ends. The source is the texts of the returned tokens in order, each at the
-- offset that it records and behind a gap. Where no error is reported every gap is whitespace, and
-- the token behind it records one blank line fewer than the gap has line breaks.
pub lex-Tiling : (src : Bytes) → Returns (λ r. Tiling (r.1 ≡ []) 0 src r.0) (lex src)
lex-Tiling src = Returns-mono (lex-Returns src) λ r x.
    rw x.out_eq (
      Entries-Tiling x.at_end_eq (Entries-mono (λ c s n. Skip-weaken (λ e. ap length e)) x.entries))

-- For every source `Lex` ends, and the last token that it returns is the only one of kind TokenEOF.
pub lex-EndsWithEof : (src : Bytes) → Returns (λ r. EndsWithEof r.0) (lex src)
lex-EndsWithEof src = Returns-mono (lex-Returns src) λ r x. rw x.out_eq x.ends

-- The line at each entry counts the line breaks from `c` on.
Entries-lines :
    {quiet : Type 0} {src : Bytes} {e c : Cursor} {ts : List Token}
    → Reads AnyByte c (start_of src)
    → Entries (Skip quiet) e c ts
    → All (λ t. t.line ≡ 1 + line_breaks t.offset src) ts
Entries-lines r nil = tt
Entries-lines {src = src} r (entry {t = t} s d g sp es) =
    let from_start = Reads-trans g.reads r in
    let o : s.offset - 0 ≡ t.offset = omega (arith, sp.offset_eq) in
    let l : s.line ≡ 1 + line_breaks (s.offset - 0) src = Reads-line from_start in
    (sp.line_eq ∙ rw o at l, Entries-lines (Reads-trans sp.reads from_start) es)

-- For every source `Lex` ends, and every token's line is one more than the lines that end before its
-- offset, a carriage return with the newline behind it counted once.
pub lex-lines :
    (src : Bytes) → Returns (λ r. All (λ t. t.line ≡ 1 + line_breaks t.offset src) r.0) (lex src)
lex-lines src = Returns-mono (lex-Returns src) λ r x. rw x.out_eq (Entries-lines stop x.entries)
