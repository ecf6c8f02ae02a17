-- ===== src/Mapper/Places.antt =====
-- mapper/mapper.go: the position of an offset is the newlines in front of it and the UTF-16 units behind
-- the last of them.
use thrift_ls.Common.Int.{ℤ, pos, negsuc}
use thrift_ls.Common.{
  ℕ, zero, suc, List, [], ◌∷◌, ◌/◌, ◌%◌, ◌+◌, ◌-◌, ◌≤◌, ◌≡◌, refl, sym, ap, subst, ◌∙◌, Bool, true,
  false, Option, none, some, ltb, if◌then◌else◌, Bytes, length, take, drop, get_or, arith, if_elim,
  length-take,
}
use thrift_ls.Mapper.Lines.{
  newlines, last_line, search-starts_from, length-starts_from, start_of, drop-last_line,
  last_line_alone, take-length,
}
use thrift_ls.Mapper.{
  LspPosition, starts_from, line_starts, count_units, units, utf16_count, search, uint32, slice,
  lsp_end_position, position_at, to_lsp_position,
}
use thrift_ls.Utf8.{decode_rune}

-- The position behind a text, with the code's count of units.
unfoldable pub counted_end : Bytes → LspPosition
unfolding newlines last_line utf16_count
counted_end s = record {
  line = uint32 (newlines s);
  character = uint32 (utf16_count (last_line s));
}

-- The code points of a text, as many as there is fuel for.
unfoldable pub code_points : ℕ → Bytes → List ℕ
unfolding decode_rune
code_points zero s = []
code_points (suc f) [] = []
code_points (suc f) (b ∷ bs) =
    let (r, size) = decode_rune (b ∷ bs) in r ∷ code_points f (drop size (b ∷ bs))

-- UTF-16: a code point from 0x10000 on is a pair of surrogates.
unfoldable pub encode_utf16 : List ℕ → List ℕ
encode_utf16 [] = []
encode_utf16 (r ∷ rs) =
    let later = encode_utf16 rs in
    if ltb r 0x10000
    then r ∷ later
    else (0xD800 + (r - 0x10000) / 0x400) ∷ (0xDC00 + (r - 0x10000) % 0x400) ∷ later

-- A text in UTF-16; a code point is at least a byte long.
unfoldable pub utf16 : Bytes → List ℕ
unfolding code_points encode_utf16
utf16 s = encode_utf16 (code_points (length s) s)

-- The position behind a text.
unfoldable pub end_of : Bytes → LspPosition
unfolding newlines last_line utf16
end_of s = record { line = uint32 (newlines s); character = uint32 (length (utf16 (last_line s))) }

-- The code counts the units of UTF-16.
length-encode_utf16 :
    (f : ℕ) (s : Bytes) → count_units f s ≡ length (encode_utf16 (code_points f s))
unfolding count_units units code_points encode_utf16
length-encode_utf16 zero s = refl
length-encode_utf16 (suc f) [] = refl
length-encode_utf16 (suc f) (b ∷ bs) =
    let rest = length-encode_utf16 f (drop (decode_rune (b ∷ bs)).1 (b ∷ bs)) in ground arith

counted_end-end_of : (s : Bytes) → counted_end s ≡ end_of s
unfolding counted_end end_of utf16 utf16_count
counted_end-end_of s =
    let last : Bytes = last_line s in
    ap (λ n. record { line = uint32 (newlines s); character = uint32 n })
      (length-encode_utf16 (length last) last)

search-line_starts :
    (content : Bytes) (k : ℕ) → search (line_starts content) k - 1 ≡ newlines (take k content)
unfolding line_starts search
search-line_starts content k =
    let z : 0 + k ≡ k = omega arith in
    let e : search (starts_from 0 content) k ≡ newlines (take k content) =
      ap (search (starts_from 0 content)) (sym z) ∙ search-starts_from 0 k content in
    ground arith

slice-line :
    (content : Bytes) (k : ℕ)
    → k ≤ length content
    → slice content (get_or (line_starts content) (newlines (take k content)) 0) k
      ≡ last_line (take k content)
unfolding line_starts
slice-line content k h =
    let t : Bytes = take k content in
    let n : 0 + k - length (last_line t) ≡ length t - length (last_line t) =
      omega (arith, length-take k content) in
    ap (λ i. drop i t) (start_of 0 0 k content h)
    ∙ if_elim (λ i. drop i t ≡ last_line t) (ltb 0 (newlines t))
        (λ _. ap (λ i. drop i t) n ∙ drop-last_line t) (λ e. sym (last_line_alone t (ground arith)))

abbrev place : ℕ → Bytes → LspPosition
place line s = record { line = uint32 line; character = uint32 (utf16_count s) }

pub position_at-counted_end :
    (content : Bytes) (k : ℕ)
    → k ≤ length content
    → position_at content k ≡ counted_end (take k content)
unfolding position_at counted_end
position_at-counted_end content k h =
    ap (λ i. place i (slice content (get_or (line_starts content) i 0) k))
      (search-line_starts content k)
    ∙ ap (place (newlines (take k content))) (slice-line content k h)

-- What the position of an offset should be.
unfoldable pub expected_position : Bytes → ℤ → Option LspPosition
unfolding end_of
expected_position content (pos k) =
    if ltb (length content) k then none else some (end_of (take k content))
expected_position content (negsuc k) = none

if_same :
    (b : Bool) {x y : Option LspPosition}
    → (b ≡ false → x ≡ y)
    → (if b then none else x) ≡ (if b then none else y)
if_same true h = refl
if_same false h = h refl

-- The position of an offset in the content: the line counts the newlines in front of the offset, the
-- character the units of the UTF-16 encoding of the text behind the last of them, both as 32-bit numbers. Any other
-- offset is an error.
pub to_lsp_position-expected_position :
    (content : Bytes) (offset : ℤ)
    → to_lsp_position content offset ≡ expected_position content offset
unfolding to_lsp_position expected_position
to_lsp_position-expected_position content (pos k) = if_same (ltb (length content) k) (λ h.
    ap some
      (position_at-counted_end content k (ground arith) ∙ counted_end-end_of (take k content)))
to_lsp_position-expected_position content (negsuc k) = refl

last_start : (content : Bytes) → length (line_starts content) - 1 ≡ newlines content
unfolding line_starts
last_start content = omega (arith, length-starts_from 0 content)

lsp_end_position-counted_end : (content : Bytes) → lsp_end_position content ≡ counted_end content
unfolding lsp_end_position counted_end
lsp_end_position-counted_end content =
    let start : ℕ → ℕ = λ i. get_or (line_starts content) i 0 in
    ap (λ i. place i (drop (start i) content)) (last_start content)
    ∙ ap (place (newlines content)) (
        subst (λ t. drop (start (newlines t)) t ≡ last_line t) (take-length content)
          (slice-line content (length content) (omega arith)))

-- The end position is the position of the offset behind the last byte.
pub to_lsp_position-lsp_end_position :
    (content : Bytes)
    → to_lsp_position content (pos (length content)) ≡ some (lsp_end_position content)
unfolding to_lsp_position
to_lsp_position-lsp_end_position content =
    if_elim (λ o. o ≡ some (lsp_end_position content)) (ltb (length content) (length content))
      (λ e. absurd (ground arith))
      (λ _. ap some (
        position_at-counted_end content (length content) (omega arith)
        ∙ ap counted_end (take-length content)
        ∙ sym (lsp_end_position-counted_end content)))
