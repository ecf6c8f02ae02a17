-- ===== src/Mapper/Columns.antt =====
-- mapper/mapper.go: `LSPPosToParserPosition` stays on the line that it is given.
use thrift_ls.Common.{
  ℕ, zero, suc, ◌+◌, ◌-◌, ◌≤◌, ◌<◌, ◌≡◌, refl, ap, true, false, not, ◌&&◌, [], ◌∷◌, Option, none,
  some, ltb, ◌==◌, if◌then◌else◌, Bytes, length, take, drop, get_or, arith, if_elim, length-take,
  length-drop,
}
use thrift_ls.Mapper.Starts.{starts-rise, line-offset}
use thrift_ls.Mapper.Lines.{newlines, length-starts_from}
use thrift_ls.Mapper.{
  LspPosition, Position, starts_from, line_starts, slice, line_end, walk_units, place_in,
  to_parser_position, non_ascii, units,
}
use thrift_ls.Utf8.Facts.{decode_rune_width}
use thrift_ls.Utf8.{decode_rune}

walk_units-length : (f col character : ℕ) (s : Bytes) → walk_units f col character s ≤ length s
unfolding walk_units
walk_units-length zero col character s = omega arith
walk_units-length (suc f) col character [] = omega arith
walk_units-length (suc f) col character (b ∷ bs) =
    let (r, size) = decode_rune (b ∷ bs) in
    if_elim (λ n. n ≤ suc (length bs)) (ltb col character)
      (λ _.
        if_elim (λ n. n ≤ suc (length bs)) (ltb b 0x80)
          (λ _. omega (arith, walk_units-length f (col + 1) character bs))
          (λ _. omega (
            arith,
            walk_units-length f (col + units (decode_rune (b ∷ bs)).0) character
                (drop (decode_rune (b ∷ bs)).1 (b ∷ bs)),
            length-drop (decode_rune (b ∷ bs)).1 (b ∷ bs),
            (decode_rune_width b bs).1,
          )))
      (λ _. omega arith)

-- An offset from the start of a line to the end of its content.
abbrev OnLine : Bytes → ℕ → ℕ → Type 0
OnLine content line e =
    (get_or (line_starts content) line 0 ≤ e)
    × (e ≤ length content)
    × (line < newlines content → e < get_or (line_starts content) (suc line) 0)

start_inside :
    (content : Bytes) (line : ℕ)
    → line ≤ newlines content
    → get_or (line_starts content) line 0 ≤ length content
unfolding line_starts
start_inside content zero h = omega arith
start_inside content (suc i) h =
    let (a, b) = starts-rise 0 0 i content (omega arith) (omega arith) in omega arith

newline_OnLine :
    (content : Bytes) (line e : ℕ)
    → line < newlines content
    → get_or (line_starts content) line 0 ≤ e
    → e ≤ get_or (line_starts content) (line + 1) 0 - 1
    → OnLine content line e
unfolding line_starts
newline_OnLine content line e h lo hi =
    let n : line + 1 ≡ suc line = omega arith in
    let m : get_or (0 ∷ starts_from 0 content) (line + 1) 0
        ≡ get_or (starts_from 0 content) line 0 =
      ap (λ i. get_or (0 ∷ starts_from 0 content) i 0) n in
    let (a, b) = starts-rise 0 0 line content (omega arith) h in (lo, omega arith, λ _. omega arith)

pub next_later :
    (content : Bytes) (line : ℕ)
    → line < newlines content
    → get_or (line_starts content) line 0 < get_or (line_starts content) (line + 1) 0
unfolding line_starts
next_later content line h =
    let n : line + 1 ≡ suc line = omega arith in
    let m : get_or (0 ∷ starts_from 0 content) (line + 1) 0
        ≡ get_or (starts_from 0 content) line 0 =
      ap (λ i. get_or (0 ∷ starts_from 0 content) i 0) n in
    let (a, b) = starts-rise 0 0 line content (omega arith) h in omega arith

more_lines :
    (content : Bytes) (line : ℕ)
    → (ltb (line + 1) (length (line_starts content)) ≡ true → line < newlines content)
      × (ltb (line + 1) (length (line_starts content)) ≡ false → newlines content ≤ line)
unfolding line_starts
more_lines content line =
    let n : length (starts_from 0 content) ≡ newlines content = length-starts_from 0 content in
    (λ h. ground arith, λ h. ground arith)

line_end-OnLine :
    (content : Bytes) (line : ℕ)
    → line ≤ newlines content
    → OnLine content line (line_end content (line_starts content) line)
unfolding line_end
line_end-OnLine content line h =
    let start : ℕ = get_or (line_starts content) line 0 in
    let newline : ℕ = get_or (line_starts content) (line + 1) 0 - 1 in
    if_elim (OnLine content line) (ltb (line + 1) (length (line_starts content)))
      (λ e.
        let less : line < newlines content = (more_lines content line).0 e in
        let up : start ≤ newline = omega (arith, next_later content line less) in
        if_elim (OnLine content line) (ltb start newline && get_or content (newline - 1) 0 == b'\r')
          (λ c. newline_OnLine content line (newline - 1) less (ground arith) (omega arith))
          (λ _. newline_OnLine content line newline less up (omega arith)))
      (λ e.
        let last : newlines content ≤ line = (more_lines content line).1 e in
        (start_inside content line h, omega arith, λ l. absurd (omega arith)))

OnLine-newlines :
    (content : Bytes) (line o : ℕ)
    → line ≤ newlines content
    → get_or (line_starts content) line 0 ≤ o
    → o ≤ line_end content (line_starts content) line
    → (o ≤ length content) × (newlines (take o content) ≡ line)
unfolding line_starts
OnLine-newlines content line o h lo hi =
    let (a, b, c) = line_end-OnLine content line h in
    (
      omega arith,
      line-offset 0 0 line o content (omega arith) h (omega arith) (omega arith)
          (λ l. omega (arith, c l)),
    )

-- What a position of the protocol may become: a place on the line it names, or nothing for a line past
-- the last.
pub StaysOnLine : Bytes → LspPosition → Option Position → Type 0
StaysOnLine content p none = newlines content < p.line
StaysOnLine content p (some q) =
    (q.line ≡ p.line + 1)
    × (q.offset ≤ length content)
    × (newlines (take q.offset content) ≡ p.line)

place_in-StaysOnLine :
    (content : Bytes) (p : LspPosition)
    → p.line ≤ newlines content
    → StaysOnLine content p (some (place_in content (line_starts content) p))
unfolding place_in StaysOnLine
place_in-StaysOnLine content p h =
    let start : ℕ = get_or (line_starts content) p.line 0 in
    let end : ℕ = line_end content (line_starts content) p.line in
    let up : start ≤ end = (line_end-OnLine content p.line h).0 in
    let char : ℕ = if ltb (end - start) p.character then end - start else p.character in
    let bytes_col : ℕ = walk_units (end - start) 0 p.character (slice content start end) in
    let fits : bytes_col ≤ end - start = omega (
      arith,
      walk_units-length (end - start) 0 p.character (slice content start end),
      length-drop start (take end content),
      length-take end content,
    ) in
    if_elim (λ q. StaysOnLine content p (some q)) (not (non_ascii content))
      (λ _.
        let (a, b) = OnLine-newlines content p.line (start + char) h (omega arith) (ground arith) in
        (refl, a, b))
      (λ _.
        let (a, b) =
          OnLine-newlines content p.line (start + bytes_col) h (omega arith) (omega arith) in
        (refl, a, b))

pub length-line_starts : (content : Bytes) → length (line_starts content) ≡ suc (newlines content)
unfolding line_starts
length-line_starts content = ap suc (length-starts_from 0 content)

-- A position of the protocol becomes a place in the content that is on the line it names, whatever its
-- character; it is an error exactly when the line is past the last.
pub to_parser_position-StaysOnLine :
    (content : Bytes) (p : LspPosition) → StaysOnLine content p (to_parser_position content p)
unfolding to_parser_position StaysOnLine
to_parser_position-StaysOnLine content p =
    let n : length (line_starts content) ≡ suc (newlines content) = length-line_starts content in
    if_elim (StaysOnLine content p) (ltb (length (line_starts content)) (p.line + 1))
      (λ e. ground arith) (λ e. place_in-StaysOnLine content p (ground arith))
