-- ===== src/Syntax/Cursor.antt =====
-- syntax/lexer.go: the lexer's place in the source, and the two ways it moves on. A cursor is a
-- `srcPos` with the unread bytes: `rest` stands for `src[off:]`.
pub mod Reads
pub mod Peek
pub mod Text
pub mod Lines
use thrift_ls.Common.{
  ℕ, ◌+◌, ◌-◌, Bool, true, false, [], ◌∷◌, Bytes, ◌==◌, if◌then◌else◌, take, drop, get_or,
}
use thrift_ls.Utf8.{decode_rune}

pub record Cursor : Type 0 where
  pub rest : Bytes
  pub offset : ℕ
  pub line : ℕ
  pub col : ℕ

is_nil : Bytes → Bool
is_nil [] = true
is_nil (b ∷ bs) = false

-- `l.off >= len(l.src)`
unfoldable pub at_end : Cursor → Bool
unfolding is_nil
at_end c = is_nil c.rest

-- `peekByte`
unfoldable pub peek_byte : Cursor → ℕ → ℕ
peek_byte c ahead = get_or c.rest ahead 0

-- `l.src[l.off]`, which is read only before the end
abbrev pub here : Cursor → ℕ
here c = peek_byte c 0

-- `l.src[start.offset:l.off]`
unfoldable pub slice : Cursor → Cursor → Bytes
slice start c = take (c.offset - start.offset) start.rest

starts_lf : Bytes → Bool
starts_lf [] = false
starts_lf (b ∷ bs) = b == b'\n'

abbrev new_line : Cursor → Cursor
new_line c = record c { line = c.line + 1; col = 1 }

-- The `switch` of both functions: the character's effect on line and column, where `after` follows
-- it. A carriage return before a newline has none.
count_char : ℕ → Bytes → Cursor → Cursor
unfolding starts_lf
count_char r after c =
    if r == b'\n'
    then new_line c
    else if r == b'\r'
    then if starts_lf after then c else new_line c
    else record c { col = c.col + 1 }

abbrev move : ℕ → Cursor → Cursor
move n c = record c { rest = drop n c.rest; offset = c.offset + n }

-- `advanceByte` over the unread bytes. At the end, where the source would panic, nothing moves; the
-- lexer does not call it there.
advance_byte_at : Bytes → Cursor → Cursor
unfolding count_char
advance_byte_at [] c = c
advance_byte_at (b ∷ after) c = move 1 (count_char b after c)

-- `advanceByte`
unfoldable pub advance_byte : Cursor → Cursor
unfolding advance_byte_at
advance_byte c = advance_byte_at c.rest c

-- `advanceRune`
unfoldable pub advance_rune : Cursor → Cursor
unfolding count_char decode_rune
advance_rune c = let (r, size) = decode_rune c.rest in move size (count_char r (drop size c.rest) c)
