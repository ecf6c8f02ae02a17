-- ===== src/Doc/Tests.antt =====
-- doc/print.go on small documents.
use thrift_ls.Common.{
  ◌≡◌, refl, true, false, ◌==◌, List, [], ◌∷◌, some, codes, not, ◌||◌, arith, Returns,
}
use thrift_ls.Doc.Breaks.Forced.{propagate_breaks-marked}
use thrift_ls.Doc.Breaks.Groups.{distinct, addresses, marked}
use thrift_ls.Doc.Breaks.{Flags, propagate_breaks}
use thrift_ls.Doc.Printer.{Options, Tables}
use thrift_ls.Doc.Run.Output.{Tidy, print-Tidy}
use thrift_ls.Doc.Run.Total.{Expected, print-Expected}
use thrift_ls.Doc.Run.{printed, unknown_document, print}
use thrift_ls.Doc.Tidy.{no_breaks, no_blanks, sound}
use thrift_ls.Doc.{
  Doc, Docs, missing, text, concat, group, if_break, indent, line_suffix, plain_line, soft_line,
  hard_line,
}

-- No rune of these documents is special.
abbrev tables : Tables
tables = record { is_control = λ r. false; is_zero_width = λ r. false; is_wide = λ r. r == 0x65E5 }

abbrev unbroken : Flags
unbroken = λ r. false

abbrev narrow : Options
narrow = record { print_width = 8; indent = []; tab_width = 2; new_line = [] }

abbrev wide : Options
wide = record { print_width = 80; indent = []; tab_width = 2; new_line = [] }

abbrev docs : List Doc → Docs
docs [] = Docs.none
docs (d ∷ ds) = Docs.some d (docs ds)

-- {a, b} in one group, with a trailing comma when it breaks.
abbrev braces : Doc
braces =
    group 1 0
      (concat (
        docs (
          text (codes "{")
          ∷ indent (
              concat
                (docs (soft_line ∷ text (codes "aaaa,") ∷ plain_line ∷ text (codes "bbbb") ∷ [])))
          ∷ if_break (text (codes ",")) missing 0
          ∷ soft_line
          ∷ text (codes "}")
          ∷ [])))
      Docs.none

-- A comment that waits for the end of the line, and a line with blanks in front of it.
abbrev commented : Doc
commented = concat (
    docs (
      text (codes "a")
      ∷ line_suffix (text (codes " // c "))
      ∷ text (codes ";  ")
      ∷ hard_line
      ∷ braces
      ∷ []))

print_flat : print tables braces unbroken wide ≡ some (printed (codes "{aaaa, bbbb}"))
unfolding print
print_flat = refl

print_broken : print tables braces unbroken narrow ≡ some (printed (codes "{\n  aaaa,\n  bbbb,\n}"))
unfolding print
print_broken = refl

print_with_comment :
    print tables commented unbroken wide ≡ some (printed (codes "a;   // c\n{aaaa, bbbb}"))
unfolding print
print_with_comment = refl

print_missing : print tables (indent missing) unbroken wide ≡ some unknown_document
unfolding print
print_missing = refl

-- A group that occurs in a state of another and in its document, which is that state.
abbrev shared : Doc
shared = group 3 0 (text (codes "x")) Docs.none

abbrev conditional : Doc
conditional = group 2 0 shared (docs (shared ∷ text (codes "y") ∷ []))

abbrev outer : Doc
outer = group 1 0 (concat (docs (conditional ∷ hard_line ∷ []))) Docs.none

-- The break of the outer group goes to the group inside it.
propagate_shared : propagate_breaks outer unbroken 1 ≡ false
unfolding propagate_breaks
propagate_shared = refl

propagate_shared_inner : propagate_breaks outer unbroken 2 ≡ true
unfolding propagate_breaks
propagate_shared_inner = refl

print-Expected_example : Returns (Expected wide) (print tables commented unbroken wide)
print-Expected_example = print-Expected tables commented unbroken wide

print-Tidy_example : Returns Tidy (print tables commented unbroken wide)
unfolding no_breaks no_blanks sound
print-Tidy_example =
    print-Tidy tables commented unbroken wide (omega arith) (omega arith) refl refl refl

-- Its second group has a line that breaks, its third has none.
abbrev nested : Doc
nested =
    group 1 0
      (concat (
        docs
          (group 2 0 (indent hard_line) Docs.none ∷ group 3 0 (text (codes "x")) Docs.none ∷ [])))
      Docs.none

propagate_nested : propagate_breaks nested unbroken 1 ≡ true
unfolding propagate_breaks
propagate_nested = refl

propagate_nested_last : propagate_breaks nested unbroken 3 ≡ false
unfolding propagate_breaks
propagate_nested_last = refl

propagate_breaks-marked_example :
    (marked nested (propagate_breaks nested unbroken) ≡ true)
    × ((not (unbroken 1) || propagate_breaks nested unbroken 1) ≡ true)
unfolding distinct addresses
propagate_breaks-marked_example = propagate_breaks-marked nested unbroken 1 refl
