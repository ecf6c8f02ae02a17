-- ===== src/Doc/Run.antt =====
-- doc/print.go: `printGroup`, the loop of `run`, and `Print`. An `Option` is `none` when a loop's fuel
-- runs out, which has no counterpart in the program.
mod Left
mod Groups
pub mod Total
pub mod Clean
pub mod Output
use thrift_ls.Common.Int.{ℤ, pos, ◌+ℤ◌, ◌-ℤ◌}
use thrift_ls.Common.{
  ℕ, zero, suc, ◌+◌, ◌-◌, Bool, true, false, not, ◌&&◌, ◌||◌, List, [], ◌∷◌, ◌++◌, Option, none,
  some, ltb, ◌==◌, if◌then◌else◌, Bytes, bytes_eq, length, ◌>>=◌,
}
use thrift_ls.Doc.Breaks.{Flags, propagate_breaks}
use thrift_ls.Doc.Fits.{
  fits, weight, weight_of, with_doc, push_all, last_state, no_states, if_break_contents,
  push_contents,
}
use thrift_ls.Doc.Printer.{
  Options, Mode, flat, break, Indentation, add, align_by, Command, Tables, string_width, trim_end,
  line_ended, Printer, indent_text, reset_options, reset_printer, write, write_indent, trim_out,
}
use thrift_ls.Doc.{
  Doc, Docs, LineDoc, missing, text, concat, line, group, if_break, indent, align, line_suffix,
  line_suffix_boundary, trim, break_parent, hard_line_no_break,
}

-- What `Print` returns: the output, or one of its errors.
pub data Outcome : Type 0 where
  printed : Bytes → Outcome
  bad_print_width bad_tab_width unknown_document : Outcome

-- The printer with the commands that are left; or the error of the `default` case.
pub data Step : Type 0 where
  next : Printer → List Command → Step
  failed : Step

unfoldable pub is_empty : {A : Type 0} → List A → Bool
is_empty [] = true
is_empty (x ∷ xs) = false

unfoldable pub is_flat : Mode → Bool
is_flat flat = true
is_flat break = false

-- A line in mode `break`, or a hard one: with suffixes pending, they come first and then this line again.
unfoldable pub break_line : Options → LineDoc → Command → List Command → Printer → Step
unfolding is_empty line_ended trim_end indent_text
break_line o l c cs p =
    let literal_line = record (write o.new_line p) {
      position = pos 0;
      last_line_comment = false;
    } in
    let indented : Printer → Printer =
      λ q. record (write_indent o c.indentation q) { position = pos c.indentation.length } in
    let new_line = indented (write o.new_line (trim_out p)) in
    let marked =
      if l.comment
      then record new_line { last_line_comment = true }
      else if not l.hard
      then record new_line { last_line_comment = false }
      else new_line in
    if not (is_empty p.line_suffix)
    then next (record p { line_suffix = [] }) (p.line_suffix ++ (c ∷ cs))
    else if l.literal
    then next literal_line cs
    else if not l.hard && line_ended p.out && (not l.after_comment || p.last_line_comment)
    then next (indented (trim_out p)) cs
    else next marked cs

-- `case LineDoc`
unfoldable pub print_line : Options → LineDoc → Command → List Command → Printer → Step
unfolding break_line is_flat ◌+ℤ◌
print_line o l c cs p =
    let spaced = record (write (b' ' ∷ []) p) { position = p.position +ℤ pos 1 } in
    if is_flat c.mode
    then if not l.hard
      then next (if not l.soft then spaced else p) cs
      else break_line o l c cs (record p { should_remeasure = true })
    else break_line o l c cs p

-- `case Text` and `case *textNode`
unfoldable pub print_text : Tables → Bytes → List Command → Printer → Printer
unfolding is_empty bytes_eq string_width ◌+ℤ◌
print_text u s cs p =
    let wide = record p { position = p.position +ℤ pos (string_width u s) } in
    if bytes_eq s []
    then p
    else record (write s (if is_empty cs then p else wide)) { last_line_comment = false }

-- `p.groupMode[v.id] = gcmd.mode` under its test
unfoldable pub note_mode : ℕ → Mode → Printer → Printer
note_mode id m p =
    if id == 0 then p else record p { group_mode = λ i. if i == id then some m else p.group_mode i }

-- The flush at the end of a round.
unfoldable pub flush : Step → Step
flush (next p []) = next (record p { line_suffix = [] }) p.line_suffix
flush (next p (c ∷ cs)) = next p (c ∷ cs)
flush failed = failed

-- `g.expanded[1:]`
unfoldable pub tail_states : Docs → Docs
tail_states Docs.none = Docs.none
tail_states (Docs.some d ds) = ds

-- The first command.
abbrev pub start : Doc → Command
start d = record {
  indentation = record { levels = 0; align_n = 0; length = 0 };
  mode = break;
  doc = d;
}

module _ (u : Tables) (o : Options) (flags : Flags) where
  -- `p.fits(candidate, rest, remainingWidth, hasLineSuffix)`
  unfoldable pub fits_now : Command → List Command → Printer → Option Bool
  unfolding is_empty fits ◌-ℤ◌
  fits_now c cs p =
      fits u flags p.group_mode c cs (pos o.print_width -ℤ p.position)
        (not (is_empty p.line_suffix))

  -- The loop over the states behind the first; the last of them is not tried.
  unfoldable pub try_states : Command → Docs → List Command → Printer → Option (Option Command)
  unfolding fits_now
  try_states c Docs.none cs p = some none
  try_states c (Docs.some d Docs.none) cs p = some none
  try_states c (Docs.some d (Docs.some e es)) cs p =
      let candidate = record c { mode = flat; doc = d } in
      let later = try_states c (Docs.some e es) cs p in
      fits_now candidate cs p >>= λ ok. if ok then some (some candidate) else later

  -- The part of `printGroup` that measures.
  unfoldable pub measure_group : Command → ℕ → Doc → Docs → List Command → Printer → Option Command
  unfolding fits_now try_states tail_states no_states last_state
  measure_group c ref d expanded cs p =
      let flat_command = record c { mode = flat; doc = d } in
      let broken = record c { mode = break; doc = last_state d expanded } in
      let whole = if flags ref then some false else fits_now flat_command cs p in
      let state = if flags ref then some none else try_states c (tail_states expanded) cs p in
      whole >>= λ ok.
      if ok
      then some flat_command
      else state >>= λ chosen. some (elim chosen [ some s ↦ s | none ↦ broken ])

  -- `printGroup`, and the mode that `run` notes: the command and the printer after it.
  unfoldable pub print_group : Command → ℕ → ℕ → Doc → Docs → List Command → Printer → Option Step
  unfolding is_flat measure_group note_mode
  print_group c ref id d expanded cs p =
      let m = if flags ref then break else flat in
      let measured = record p { should_remeasure = false } in
      if is_flat c.mode && not p.should_remeasure
      then some (next (note_mode id m p) (record c { mode = m; doc = d } ∷ cs))
      else measure_group c ref d expanded cs measured >>= λ g.
          some (next (note_mode id g.mode measured) (g ∷ cs))

  -- The `switch` of `run`; the command is off the stack.
  unfoldable pub print_doc : Doc → Command → List Command → Printer → Option Step
  unfolding print_text push_all print_group if_break_contents push_contents print_line is_empty add
      align_by trim_end ◌-ℤ◌
  print_doc missing c cs p = some failed
  print_doc (text s) c cs p = some (next (print_text u s cs p) cs)
  print_doc (concat ds) c cs p = some (next p (push_all c ds cs))
  print_doc (line l) c cs p = some (print_line o l c cs p)
  print_doc (group ref id d expanded) c cs p = print_group c ref id d expanded cs p
  print_doc (if_break broken flat_doc id) c cs p =
      some (next p (push_contents c (if_break_contents p.group_mode broken flat_doc id c.mode) cs))
  print_doc (indent d) c cs p =
      some (next p (record c { indentation = add c.indentation o; doc = d } ∷ cs))
  print_doc (align n d) c cs p =
      some (next p (record c { indentation = align_by c.indentation n o; doc = d } ∷ cs))
  print_doc (line_suffix d) c cs p =
      some (next (record p { line_suffix = p.line_suffix ++ (with_doc c d ∷ []) }) cs)
  print_doc line_suffix_boundary c cs p =
      some (next p (if is_empty p.line_suffix then cs else with_doc c hard_line_no_break ∷ cs))
  print_doc trim c cs p =
      let gone = length p.out - length (trim_end p.out) in
      some (next (record (trim_out p) { position = p.position -ℤ pos gone }) cs)
  print_doc break_parent c cs p = some (next p cs)

  -- The loop of `run`.
  unfoldable pub run_loop : ℕ → Printer → List Command → Option Outcome
  unfolding print_doc flush
  run_loop zero p cs = none
  run_loop (suc n) p [] = some (printed p.out)
  run_loop (suc n) p (c ∷ cs) = print_doc c.doc c cs p >>= λ s. elim (flush s) [
    | next q ds ↦ run_loop n q ds
    | failed ↦ some unknown_document
  ]

  -- `run`: every round takes a command apart or moves the suffixes back to the commands.
  unfoldable pub run : Doc → Option Outcome
  unfolding run_loop weight
  run d = run_loop (suc (weight d)) reset_printer (start d ∷ [])

-- `Print`, `Arena.Print` and `validateOptions`
unfoldable pub print : Tables → Doc → Flags → Options → Option Outcome
unfolding run propagate_breaks reset_options
print u d flags o =
    let printing = run u (reset_options o) (propagate_breaks d flags) d in
    if o.print_width == 0
    then some bad_print_width
    else if o.tab_width == 0
    then some bad_tab_width
    else printing
