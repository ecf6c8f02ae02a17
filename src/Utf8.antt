-- ===== src/Utf8.antt =====
-- What the program uses of Go's `unicode/utf8`: `DecodeRune` with its result for invalid input, and
-- `RuneCount`. A string is its list of bytes.
pub mod Facts
use thrift_ls.Common.{
  ℕ, zero, suc, ◌+◌, ◌-◌, ◌*◌, Bool, ◌&&◌, [], ◌∷◌, ltb, ◌==◌, within, if◌then◌else◌, Bytes, length,
  drop,
}

abbrev pub rune_self : ℕ
rune_self = 0x80

abbrev pub rune_error : ℕ
rune_error = 0xFFFD

-- A continuation byte.
abbrev is_cont : ℕ → Bool
is_cont = within 0x80 0xBF

-- Invalid input is one byte wide.
abbrev pub invalid_rune : ℕ × ℕ
invalid_rune = (rune_error, 1)

decode_two : ℕ → Bytes → ℕ × ℕ
decode_two b (b1 ∷ bs) = if is_cont b1 then ((b - 0xC0) * 64 + (b1 - 0x80), 2) else invalid_rune
decode_two b [] = invalid_rune

-- The second byte's range excludes overlong forms and surrogates.
decode_three : ℕ → ℕ → ℕ → Bytes → ℕ × ℕ
decode_three lo hi b (b1 ∷ b2 ∷ bs) =
    if within lo hi b1 && is_cont b2
    then ((b - 0xE0) * 4096 + (b1 - 0x80) * 64 + (b2 - 0x80), 3)
    else invalid_rune
decode_three lo hi b _ = invalid_rune

decode_four : ℕ → ℕ → ℕ → Bytes → ℕ × ℕ
decode_four lo hi b (b1 ∷ b2 ∷ b3 ∷ bs) =
    if within lo hi b1 && (is_cont b2 && is_cont b3)
    then ((b - 0xF0) * 262144 + (b1 - 0x80) * 4096 + (b2 - 0x80) * 64 + (b3 - 0x80), 4)
    else invalid_rune
decode_four lo hi b _ = invalid_rune

decode_multi : ℕ → Bytes → ℕ × ℕ
unfolding decode_two decode_three decode_four
decode_multi b bs =
    if within 0xC2 0xDF b
    then decode_two b bs
    else if b == 0xE0
    then decode_three 0xA0 0xBF b bs
    else if b == 0xED
    then decode_three 0x80 0x9F b bs
    else if within 0xE1 0xEF b
    then decode_three 0x80 0xBF b bs
    else if b == 0xF0
    then decode_four 0x90 0xBF b bs
    else if within 0xF1 0xF3 b
    then decode_four 0x80 0xBF b bs
    else if b == 0xF4
    then decode_four 0x80 0x8F b bs
    else invalid_rune

-- The first rune of a string and its width in bytes.
unfoldable pub decode_rune : Bytes → ℕ × ℕ
unfolding decode_multi
decode_rune [] = (rune_error, 0)
decode_rune (b ∷ bs) = if ltb b rune_self then (b, 1) else decode_multi b bs

count_runes : ℕ → Bytes → ℕ
count_runes zero s = 0
count_runes (suc f) [] = 0
count_runes (suc f) (b ∷ bs) = suc (count_runes f (drop (decode_rune (b ∷ bs)).1 (b ∷ bs)))

-- Every rune is at least a byte wide, so the length is fuel enough.
unfoldable pub rune_count : Bytes → ℕ
unfolding count_runes decode_rune
rune_count s = count_runes (length s) s
