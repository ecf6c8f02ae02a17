-- ===== src/Doc/Run/Clean.antt =====
-- doc/print.go: the invariant of `run` that keeps blanks from the ends of the lines it writes.
use thrift_ls.Common.{
  ◌≡◌, refl, true, false, not, ◌&&◌, ◌||◌, List, [], ◌∷◌, ◌++◌, ltb, if◌then◌else◌, Bytes, if_elim,
  All, All-append, arith,
}
use thrift_ls.Doc.Printer.{
  Options, Indentation, Command, Printer, indent_text, trim_end, line_ended, repeat,
}
use thrift_ls.Doc.Run.{Step, next, failed, is_empty, is_flat, break_line, print_line, flush}
use thrift_ls.Doc.Tidy.{
  tidy, sound, no_breaks, no_blanks, tidy-append, tidy-trim_end, tidy-newline, no_breaks-append,
  no_breaks-repeat,
}
use thrift_ls.Doc.{LineDoc}

abbrev pub AllSound : List Command → Type 0
AllSound = All (λ c. sound c.doc ≡ true)

-- The output is tidy, and what is left to print is sound.
abbrev pub Clean : Printer → List Command → Type 0
Clean p cs = (tidy p.out ≡ true) × AllSound cs × AllSound p.line_suffix

unfoldable pub CleanStep : Step → Type 0
CleanStep (next p cs) = Clean p cs
CleanStep failed = ⊥

-- The indentation has no line break, and the line break no blank.
unfoldable pub Neat : Options → Type 0
Neat o = (no_breaks o.indent ≡ true) × (no_blanks o.new_line ≡ true)

pub CleanStep-flush : (s : Step) → CleanStep s → CleanStep (flush s)
unfolding CleanStep flush
CleanStep-flush (next p []) (t, hs, ss) = (t, ss, tt)
CleanStep-flush (next p (c ∷ cs)) h = h
CleanStep-flush failed h = h

no_breaks-indent_text :
    (o : Options) (i : Indentation) → Neat o → no_breaks (indent_text o i) ≡ true
unfolding indent_text Neat no_breaks
no_breaks-indent_text o i (h, _) =
    no_breaks-append (if ltb 0 i.levels then repeat o.indent i.levels else [])
      (if ltb 0 i.align_n then repeat (b' ' ∷ []) i.align_n else [])
      (if_elim (λ s. no_breaks s ≡ true) (ltb 0 i.levels)
        (λ _. no_breaks-repeat o.indent i.levels h) (λ _. refl))
      (if_elim (λ s. no_breaks s ≡ true) (ltb 0 i.align_n)
        (λ _. no_breaks-repeat (b' ' ∷ []) i.align_n refl) (λ _. refl))

tidy-new_line :
    (o : Options) (i : Indentation) (s : Bytes)
    → Neat o
    → tidy s ≡ true
    → tidy (trim_end s ++ o.new_line ++ indent_text o i) ≡ true
unfolding tidy Neat
tidy-new_line o i s (hi, hn) h =
    tidy-append false (trim_end s ++ o.new_line) (indent_text o i)
      (tidy-newline false s o.new_line h (λ _. refl) hn) (no_breaks-indent_text o i (hi, hn))

module _ (o : Options) (neat : Neat o) where
  break_line-Clean :
      (l : LineDoc) (c : Command) (cs : List Command) (p : Printer)
      → l.literal ≡ false
      → sound c.doc ≡ true
      → Clean p cs
      → CleanStep (break_line o l c cs p)
  unfolding break_line CleanStep tidy no_breaks
  break_line-Clean l c cs p plain k (t, hs, ss) =
      let q : tidy (trim_end p.out ++ o.new_line ++ indent_text o c.indentation) ≡ true =
        tidy-new_line o c.indentation p.out neat t in
      if_elim CleanStep (not (is_empty p.line_suffix))
        (λ _. (t, All-append (λ c. sound c.doc ≡ true) p.line_suffix (c ∷ cs) ss (k, hs), tt))
        (λ _.
          if_elim CleanStep l.literal (λ e. ground arith)
            (λ _.
              if_elim CleanStep
                (not l.hard && line_ended p.out && (not l.after_comment || p.last_line_comment))
                (λ _. (
                  tidy-append false (trim_end p.out) (indent_text o c.indentation)
                      (tidy-trim_end false p.out t) (no_breaks-indent_text o c.indentation neat),
                  hs,
                  ss,
                ))
                (λ _.
                  if_elim (λ r. Clean r cs) l.comment (λ _. (q, hs, ss))
                    (λ _.
                      if_elim (λ r. Clean r cs) (not l.hard) (λ _. (q, hs, ss))
                        (λ _. (q, hs, ss))))))

  pub print_line-Clean :
      (l : LineDoc) (c : Command) (cs : List Command) (p : Printer)
      → l.literal ≡ false
      → sound c.doc ≡ true
      → Clean p cs
      → CleanStep (print_line o l c cs p)
  unfolding print_line CleanStep tidy no_breaks
  print_line-Clean l c cs p plain k (t, hs, ss) =
      if_elim CleanStep (is_flat c.mode)
        (λ _.
          if_elim CleanStep (not l.hard)
            (λ _.
              if_elim (λ q. Clean q cs) (not l.soft)
                (λ _. (tidy-append false p.out (b' ' ∷ []) t refl, hs, ss)) (λ _. (t, hs, ss)))
            (λ _.
              break_line-Clean l c cs (record p { should_remeasure = true }) plain k (t, hs, ss)))
        (λ _. break_line-Clean l c cs p plain k (t, hs, ss))
