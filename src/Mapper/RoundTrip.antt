-- ===== src/Mapper/RoundTrip.antt =====
-- mapper/mapper.go: an offset of an ASCII content, taken to a position of the protocol and back.
use thrift_ls.Common.Int.{pos}
use thrift_ls.Common.{
  ℕ, ◌+◌, ◌-◌, ◌%◌, ◌^◌, ◌≤◌, ◌<◌, ◌≡◌, subst, refl, sym, ap, ◌∙◌, false, [], ◌∷◌, ◌++◌, some, ltb,
  if◌then◌else◌, Bytes, length, take, drop, get_or, arith, if_elim, length-take, take-append-drop,
  ◌>>=◌,
}
use thrift_ls.Mapper.Columns.{length-line_starts}
use thrift_ls.Mapper.Crlf.{
  newlines-length, newlines-take, length-last_line, line_offset, before_crlf, before_crlf-le,
  before_crlf-line, line_end-clamp,
}
use thrift_ls.Mapper.Lines.{newlines, last_line, last_line-append}
use thrift_ls.Mapper.Places.{counted_end, position_at-counted_end}
use thrift_ls.Mapper.{
  LspPosition, Position, line_starts, non_ascii, units, count_units, utf16_count, uint32, line_end,
  place_in, position_at, to_lsp_position, to_parser_position,
}
use thrift_ls.Utf8.Facts.{decode_ascii}
use thrift_ls.Utf8.{decode_rune}

count_units-ascii : (s : Bytes) → non_ascii s ≡ false → count_units (length s) s ≡ length s
unfolding count_units non_ascii units
count_units-ascii [] h = refl
count_units-ascii (b ∷ bs) h =
    let e : decode_rune (b ∷ bs) ≡ (b, 1) = decode_ascii b bs (ground arith) in
    let one : units b ≡ 1 = ground arith in
    let rest : count_units (length bs) bs ≡ length bs = count_units-ascii bs (ground arith) in
    ap (λ d. units d.0 + count_units (length bs) (drop d.1 (b ∷ bs))) e ∙ omega (arith, one, rest)

non_ascii-append :
    (s t : Bytes) → non_ascii (s ++ t) ≡ false → (non_ascii s ≡ false) × (non_ascii t ≡ false)
unfolding non_ascii
non_ascii-append [] t h = (refl, h)
non_ascii-append (b ∷ bs) t h =
    let (a, c) = non_ascii-append bs t (ground arith) in (ground arith, c)

last_line-non_ascii : (s : Bytes) → non_ascii s ≡ false → non_ascii (last_line s) ≡ false
last_line-non_ascii s h =
    let (front, e) = last_line-append s in
    (non_ascii-append front (last_line s) (ap non_ascii (sym e) ∙ h)).1

utf16_count-ascii : (s : Bytes) → non_ascii s ≡ false → utf16_count s ≡ length s
unfolding utf16_count
utf16_count-ascii s h = count_units-ascii s h

abbrev spot : ℕ → ℕ → ℕ → Position
spot line char offset = record { line = line + 1; col = char + 1; offset = offset }

place_in-ascii :
    (content : Bytes) (line char : ℕ)
    → non_ascii content ≡ false
    → place_in content (line_starts content) (record { line = line; character = char }) ≡ (
        let start = get_or (line_starts content) line 0 in
        let end = line_end content (line_starts content) line in
        let c = if ltb (end - start) char then end - start else char in spot line c (start + c))
unfolding place_in
place_in-ascii content line char h = rw h refl

take-non_ascii :
    (k : ℕ) (content : Bytes) → non_ascii content ≡ false → non_ascii (take k content) ≡ false
take-non_ascii k content h =
    (non_ascii-append (take k content) (drop k content)
      (ap non_ascii (take-append-drop k content) ∙ h)).0

-- In ASCII nothing of the position is lost to 32 bits or to the units.
position_at-ascii :
    (content : Bytes) (k : ℕ)
    → length content < 2 ^ 32
    → non_ascii content ≡ false
    → k ≤ length content
    → position_at content k
      ≡ record { line = newlines (take k content); character = length (last_line (take k content)) }
unfolding counted_end
position_at-ascii content k small h inside =
    let t : Bytes = take k content in
    let l : newlines t % 2 ^ 32 ≡ newlines t =
      omega (arith, newlines-length t, length-take k content) in
    let c : utf16_count (last_line t) ≡ length (last_line t) =
      utf16_count-ascii (last_line t) (last_line-non_ascii t (take-non_ascii k content h)) in
    let c' : utf16_count (last_line t) % 2 ^ 32 ≡ length (last_line t) =
      omega (arith, length-last_line t, length-take k content) in
    let at : ℕ → ℕ → LspPosition =
      λ line character. record { line = line; character = character } in
    position_at-counted_end content k inside
    ∙ ap (λ i. at i (uint32 (utf16_count (last_line t)))) l
    ∙ ap (at (newlines t)) c'

-- An offset of an ASCII content of less than 2^32 bytes is what its position is taken back to, or, if it stands
-- between the CR and the LF of a line end, the offset in front of them: to its line from 1, its column from 1 and itself.
pub to_lsp_position-to_parser_position :
    (content : Bytes) (k : ℕ)
    → length content < 2 ^ 32
    → non_ascii content ≡ false
    → k ≤ length content
    → (to_lsp_position content (pos k) >>= to_parser_position content)
      ≡ some (record {
        line = newlines (take k content) + 1;
        col = length (last_line (take (before_crlf content k) content)) + 1;
        offset = before_crlf content k;
      })
unfolding to_lsp_position to_parser_position
to_lsp_position-to_parser_position content k small h inside =
    let line : ℕ = newlines (take k content) in
    let char : ℕ = length (last_line (take k content)) in
    let back : ℕ = before_crlf content k in
    let start : ℕ = get_or (line_starts content) line 0 in
    let end : ℕ = line_end content (line_starts content) line in
    let first : ℕ = length (last_line (take back content)) in
    let low : back ≤ k = before_crlf-le content k in
    let at_k : start + char ≡ k = line_offset content k inside in
    let at_back : start + first ≡ back =
      subst (λ l. get_or (line_starts content) l 0 + first ≡ back) (before_crlf-line content k)
        (line_offset content back (omega arith)) in
    let c : ℕ → ℕ = λ n. if ltb (end - start) n then end - start else n in
    let clamped : c char ≡ first =
      ap c (omega arith) ∙ line_end-clamp content k start inside (omega arith) ∙ omega arith in
    let placed : to_parser_position content (record { line = line; character = char })
        ≡ some (spot line first back) =
      if_elim (λ r. r ≡ some (spot line first back)) (ltb (length (line_starts content)) (line + 1))
        (λ e. absurd (ground (arith, length-line_starts content, newlines-take k content)))
        (λ _. ap some (
          place_in-ascii content line char h
          ∙ ap (λ n. spot line n (start + n)) clamped
          ∙ ap (spot line first) at_back)) in
    if_elim (λ r. (r >>= to_parser_position content) ≡ some (spot line first back))
      (ltb (length content) k) (λ e. absurd (ground arith))
      (λ _. ap (to_parser_position content) (position_at-ascii content k small h inside) ∙ placed)
