-- ===== src/Mapper.antt =====
-- mapper/mapper.go: byte offsets of a content and the positions that the protocol uses for them, a line and
-- a number of UTF-16 units. Lines and characters of the protocol are 32-bit. The lines are computed
-- once by `initLineStart` and then only read, so they are functions of the content here.
pub mod Lines
mod Starts
pub mod Columns
pub mod Crlf
pub mod Places
pub mod RoundTrip
mod Tests
use thrift_ls.Common.Int.{ℤ, pos}
use thrift_ls.Common.{
  ℕ, zero, suc, ◌+◌, ◌-◌, ◌%◌, ◌^◌, Bool, true, false, not, ◌&&◌, ◌||◌, List, [], ◌∷◌, ◌++◌, Option,
  none, some, ltb, leb, ◌==◌, if◌then◌else◌, Bytes, length, take, drop, get_or,
}
use thrift_ls.Utf8.{decode_rune}

-- `protocol.Position`
pub record LspPosition : Type 0 where
  pub line : ℕ
  pub character : ℕ

-- `syntax.Position`
pub record Position : Type 0 where
  pub line : ℕ
  pub col : ℕ
  pub offset : ℕ

-- The loop of `initLineStart`, at an offset.
unfoldable pub starts_from : ℕ → Bytes → List ℕ
starts_from offset [] = []
starts_from offset (b ∷ bs) =
    let later = starts_from (offset + 1) bs in if b == b'\n' then (offset + 1) ∷ later else later

-- `initLineStart`: the offsets of the lines
unfoldable pub line_starts : Bytes → List ℕ
unfolding starts_from
line_starts content = 0 ∷ starts_from 0 content

-- `nonASCII`
unfoldable pub non_ascii : Bytes → Bool
non_ascii [] = false
non_ascii (b ∷ bs) = leb 0x80 b || non_ascii bs

unfoldable pub units : ℕ → ℕ
units r = if leb 0x10000 r then 2 else 1

-- The loop of `utf16Count`; every rune is at least a byte long.
unfoldable pub count_units : ℕ → Bytes → ℕ
unfolding units decode_rune
count_units zero s = 0
count_units (suc f) [] = 0
count_units (suc f) (b ∷ bs) =
    let (r, size) = decode_rune (b ∷ bs) in units r + count_units f (drop size (b ∷ bs))

-- `utf16Count`
unfoldable pub utf16_count : Bytes → ℕ
unfolding count_units
utf16_count s = count_units (length s) s

-- `sort.Search` for the first start behind an offset: the smallest index, or the length
unfoldable pub search : List ℕ → ℕ → ℕ
search [] offset = 0
search (s ∷ ss) offset = if ltb offset s then 0 else suc (search ss offset)

-- `uint32`
abbrev pub uint32 : ℕ → ℕ
uint32 n = n % 2 ^ 32

-- `content[start:end]`
abbrev pub slice : Bytes → ℕ → ℕ → Bytes
slice content start end = drop start (take end content)

-- `GetLSPEndPosition`
unfoldable pub lsp_end_position : Bytes → LspPosition
unfolding line_starts utf16_count
lsp_end_position content =
    let starts = line_starts content in
    let last = get_or starts (length starts - 1) 0 in
    record {
      line = uint32 (length starts - 1);
      character = uint32 (utf16_count (drop last content));
    }

-- `OffsetToLSPPosition` of an offset in the content
unfoldable pub position_at : Bytes → ℕ → LspPosition
unfolding line_starts search utf16_count
position_at content offset =
    let starts = line_starts content in
    let line = search starts offset - 1 in
    record {
      line = uint32 line;
      character = uint32 (utf16_count (slice content (get_or starts line 0) offset));
    }

-- `OffsetToLSPPosition`; `none` is its error
unfoldable pub to_lsp_position : Bytes → ℤ → Option LspPosition
unfolding position_at
to_lsp_position content (pos offset) =
    if ltb (length content) offset then none else some (position_at content offset)
to_lsp_position content _ = none

-- `lineEnd` of `LSPPosToParserPosition`: the end of the content of a line
unfoldable pub line_end : Bytes → List ℕ → ℕ → ℕ
line_end content starts line =
    let start = get_or starts line 0 in
    let newline = get_or starts (line + 1) 0 - 1 in
    if ltb (line + 1) (length starts)
    then if ltb start newline && get_or content (newline - 1) 0 == b'\r'
      then newline - 1
      else newline
    else length content

-- The loop over the runes of a line: the bytes that it goes over.
unfoldable pub walk_units : ℕ → ℕ → ℕ → Bytes → ℕ
unfolding units decode_rune
walk_units zero col character s = 0
walk_units (suc f) col character [] = 0
walk_units (suc f) col character (b ∷ bs) =
    let ascii = 1 + walk_units f (col + 1) character bs in
    let (r, size) = decode_rune (b ∷ bs) in
    let wide = size + walk_units f (col + units r) character (drop size (b ∷ bs)) in
    if ltb col character then if ltb b 0x80 then ascii else wide else 0

-- `utf8.RuneCount`
unfoldable pub rune_count : ℕ → Bytes → ℕ
unfolding decode_rune
rune_count zero s = 0
rune_count (suc f) [] = 0
rune_count (suc f) (b ∷ bs) =
    let (r, size) = decode_rune (b ∷ bs) in 1 + rune_count f (drop size (b ∷ bs))

-- `LSPPosToParserPosition` on a line of the content
unfoldable pub place_in : Bytes → List ℕ → LspPosition → Position
unfolding non_ascii line_end walk_units rune_count
place_in content starts p =
    let start = get_or starts p.line 0 in
    let end = line_end content starts p.line in
    let char = if ltb (end - start) p.character then end - start else p.character in
    let bytes_col = walk_units (end - start) 0 p.character (slice content start end) in
    if not (non_ascii content)
    then record { line = p.line + 1; col = char + 1; offset = start + char }
    else record {
      line = p.line + 1;
      col = rune_count bytes_col (slice content start (start + bytes_col)) + 1;
      offset = start + bytes_col;
    }

-- `LSPPosToParserPosition`; `none` is its error
unfoldable pub to_parser_position : Bytes → LspPosition → Option Position
unfolding line_starts place_in
to_parser_position content p =
    let starts = line_starts content in
    if ltb (length starts) (p.line + 1) then none else some (place_in content starts p)
