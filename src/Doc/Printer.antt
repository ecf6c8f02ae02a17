-- ===== src/Doc/Printer.antt =====
-- doc/print.go and doc/width.go: options, indentation, commands, output, and the width of a string.
-- Widths and levels are natural numbers; a width that is not positive is 0 here.
use thrift_ls.Common.Int.{ℤ, pos}
use thrift_ls.Common.{
  ℕ, zero, suc, ◌+◌, ◌-◌, ◌^◌, Bool, true, false, not, ◌&&◌, ◌||◌, List, [], ◌∷◌, ◌++◌, Option,
  none, ltb, leb, ◌==◌, if◌then◌else◌, Bytes, bytes_eq, length, drop,
}
use thrift_ls.Doc.{Doc}
use thrift_ls.Utf8.{decode_rune}

-- `Options`
pub record Options : Type 0 where
  pub print_width : ℕ
  pub indent : Bytes
  pub tab_width : ℕ
  pub new_line : Bytes

-- `mode`
pub data Mode : Type 0 where
  flat break : Mode

-- `indentation`
pub record Indentation : Type 0 where
  pub levels : ℕ
  pub align_n : ℕ
  pub length : ℕ

-- `command`
pub record Command : Type 0 where
  pub indentation : Indentation
  pub mode : Mode
  pub doc : Doc

-- `indentation.add`
unfoldable pub add : Indentation → Options → Indentation
add i o = record i { levels = i.levels + 1; length = i.length + o.tab_width }

-- `indentation.align`
unfoldable pub align_by : Indentation → ℕ → Options → Indentation
align_by i n o =
    if not (bytes_eq o.indent (b'\t' ∷ []))
    then record i { align_n = i.align_n + n; length = i.length + n }
    else record i { levels = i.levels + 1; length = i.length + o.tab_width }

-- The tables of Go's `unicode` and of `golang.org/x/text/width` that `stringWidth` looks a rune up in:
-- category Cc, zero width (Mn, Me or a variation selector), and East Asian wide or fullwidth.
pub record Tables : Type 0 where
  pub is_control : ℕ → Bool
  pub is_zero_width : ℕ → Bool
  pub is_wide : ℕ → Bool

-- `ascii`, of the fast path
is_plain : Bytes → Bool
is_plain [] = true
is_plain (b ∷ bs) = not (leb 0x80 b || leb b 0x1F || b == 0x7F) && is_plain bs

rune_width : Tables → ℕ → ℕ
rune_width u r =
    if u.is_control r then 0 else if u.is_zero_width r then 0 else if u.is_wide r then 2 else 1

-- `for _, r := range s`; every rune is at least a byte wide
widths : Tables → ℕ → Bytes → ℕ
unfolding rune_width
widths u zero s = 0
widths u (suc f) [] = 0
widths u (suc f) (b ∷ bs) =
    let (r, size) = decode_rune (b ∷ bs) in rune_width u r + widths u f (drop size (b ∷ bs))

-- `stringWidth`
unfoldable pub string_width : Tables → Bytes → ℕ
unfolding is_plain widths decode_rune
string_width u s = if is_plain s then length s else widths u (length s) s

unfoldable pub is_blank : ℕ → Bool
is_blank b = b == b' ' || b == b'\t'

-- A byte in front of what is left of the bytes behind it: a blank at the end goes.
unfoldable pub keep : ℕ → Bytes → Bytes
unfolding is_blank
keep b [] = if is_blank b then [] else b ∷ []
keep b (c ∷ cs) = b ∷ c ∷ cs

-- `p.out[:len(p.out)-n]`, without the spaces and tabs at its end
unfoldable pub trim_end : Bytes → Bytes
unfolding keep
trim_end [] = []
trim_end (b ∷ bs) = keep b (trim_end bs)

last_is_newline : Bytes → Bool
last_is_newline [] = false
last_is_newline (b ∷ []) = b == b'\n'
last_is_newline (b ∷ c ∷ cs) = last_is_newline (c ∷ cs)

-- `lineEnded`: the last byte that is no space and no tab is a newline
unfoldable pub line_ended : Bytes → Bool
unfolding last_is_newline trim_end
line_ended out = last_is_newline (trim_end out)

unfoldable pub repeat : Bytes → ℕ → Bytes
repeat s zero = []
repeat s (suc n) = s ++ repeat s n

-- `printer`. The scratch of `fits` is reset by every call of it, and the cache of `indentPrefix` holds
-- what `repeat` computes, so neither is state here.
pub record Printer : Type 0 where
  pub position : ℤ
  pub out : Bytes
  pub group_mode : ℕ → Option Mode
  pub line_suffix : List Command
  pub should_remeasure : Bool
  pub last_line_comment : Bool

-- `reset`: a missing separator or indent has a default.
unfoldable pub reset_options : Options → Options
unfolding repeat
reset_options o = record o {
  new_line = if bytes_eq o.new_line [] then b'\n' ∷ [] else o.new_line;
  indent = if bytes_eq o.indent [] then repeat (b' ' ∷ []) o.tab_width else o.indent;
}

abbrev pub reset_printer : Printer
reset_printer = record {
  position = pos 0;
  out = [];
  group_mode = λ _. none;
  line_suffix = [];
  should_remeasure = false;
  last_line_comment = false;
}

-- `write`
abbrev pub write : Bytes → Printer → Printer
write s p = record p { out = p.out ++ s }

-- What `writeIndent` writes: `indentPrefix`, then the alignment.
unfoldable pub indent_text : Options → Indentation → Bytes
unfolding repeat
indent_text o i =
    (if ltb 0 i.levels then repeat o.indent i.levels else [])
    ++ (if ltb 0 i.align_n then repeat (b' ' ∷ []) i.align_n else [])

-- `writeIndent`
abbrev pub write_indent : Options → Indentation → Printer → Printer
write_indent o i p = write (indent_text o i) p

-- `trim`: the printer without the blanks at the end of its output; how many went is a difference of
-- lengths.
abbrev pub trim_out : Printer → Printer
trim_out p = record p { out = trim_end p.out }

abbrev pub max_int : ℕ
max_int = 2 ^ 63 - 1
