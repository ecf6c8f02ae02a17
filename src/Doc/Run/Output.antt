-- ===== src/Doc/Run/Output.antt =====
-- doc/print.go: what `Print` returns for a sound document has no blank at the end of a line.
use thrift_ls.Common.{
  ℕ, zero, suc, ◌<◌, ◌≡◌, refl, true, false, not, ◌&&◌, ◌||◌, List, [], ◌∷◌, Option, some, ◌==◌,
  if◌then◌else◌, Bytes, bytes_eq, if_elim, All-append, Returns, returns, Returns-if, Returns-bind,
  Returns-and, arith,
}
use thrift_ls.Doc.Breaks.{Flags, propagate_breaks}
use thrift_ls.Doc.Fits.{weight, weight_of, with_doc, push_all, if_break_contents, push_contents}
use thrift_ls.Doc.Printer.{
  Options, Mode, flat, break, Command, Tables, Printer, reset_options, reset_printer, write,
}
use thrift_ls.Doc.Run.Clean.{AllSound, Clean, CleanStep, Neat, CleanStep-flush, print_line-Clean}
use thrift_ls.Doc.Run.Groups.{AllDocs, measure_group-Returns}
use thrift_ls.Doc.Run.Left.{left, Lesser, flush-Lesser}
use thrift_ls.Doc.Run.Total.{print_doc-Returns}
use thrift_ls.Doc.Run.{
  Outcome, printed, unknown_document, Step, next, failed, is_empty, is_flat, print_text, note_mode,
  flush, print_group, print_doc, run_loop, run, print, start,
}
use thrift_ls.Doc.Tidy.{
  tidy, sound, sound_all, is_missing, no_breaks, no_blanks, tidy-append, tidy-trim_end,
  no_breaks-repeat,
}
use thrift_ls.Doc.{
  Doc, Docs, missing, text, concat, line, group, if_break, indent, align, line_suffix,
  line_suffix_boundary, trim, break_parent,
}

-- An output, and it is tidy.
pub Tidy : Outcome → Type 0
Tidy (printed s) = tidy s ≡ true
Tidy _ = ⊥

AllSound-push_all :
    (c : Command) (ds : Docs) (cs : List Command)
    → sound_all ds ≡ true
    → AllSound cs
    → AllSound (push_all c ds cs)
unfolding push_all sound
AllSound-push_all c Docs.none cs h hs = hs
AllSound-push_all c (Docs.some d ds) cs h hs =
    (ground arith, AllSound-push_all c ds cs (ground arith) hs)

AllSound-push_contents :
    (c : Command) (d : Doc) (cs : List Command)
    → (is_missing d || sound d) ≡ true
    → AllSound cs
    → AllSound (push_contents c d cs)
unfolding push_contents is_missing
AllSound-push_contents c missing cs h hs = hs
AllSound-push_contents c (text s) cs h hs = (h, hs)
AllSound-push_contents c (concat ds) cs h hs = (h, hs)
AllSound-push_contents c (line l) cs h hs = (h, hs)
AllSound-push_contents c (group ref id d es) cs h hs = (h, hs)
AllSound-push_contents c (if_break b f id) cs h hs = (h, hs)
AllSound-push_contents c (indent d) cs h hs = (h, hs)
AllSound-push_contents c (align n d) cs h hs = (h, hs)
AllSound-push_contents c (line_suffix d) cs h hs = (h, hs)
AllSound-push_contents c line_suffix_boundary cs h hs = (h, hs)
AllSound-push_contents c trim cs h hs = (h, hs)
AllSound-push_contents c break_parent cs h hs = (h, hs)

pick_mode :
    (P : Doc → Type 0) (m : Mode) (b f : Doc) → P b → P f → P (elim m [ break ↦ b | flat ↦ f ])
pick_mode P break b f hb hf = hb
pick_mode P flat b f hb hf = hf

if_break_contents-pick :
    (P : Doc → Type 0) (modes : ℕ → Option Mode) (b f : Doc) (id : ℕ) (m : Mode)
    → P b
    → P f
    → P (if_break_contents modes b f id m)
unfolding if_break_contents
if_break_contents-pick P modes b f id m = pick_mode P _ b f

AllDocs-sound : (ds : Docs) → sound_all ds ≡ true → AllDocs (λ d. sound d ≡ true) ds
unfolding AllDocs sound
AllDocs-sound Docs.none h = tt
AllDocs-sound (Docs.some d ds) h = (ground arith, AllDocs-sound ds (ground arith))

Clean-note_mode :
    (id : ℕ) (m : Mode) (p : Printer) (cs : List Command) → Clean p cs → Clean (note_mode id m p) cs
unfolding note_mode
Clean-note_mode id m p cs h = if_elim (λ q. Clean q cs) (id == 0) (λ _. h) (λ _. h)

module _ (u : Tables) (o : Options) (neat : Neat o) (flags : Flags) where
  print_group-Clean :
      (c : Command) (ref id : ℕ) (d : Doc) (es : Docs) (cs : List Command) (p : Printer)
      → sound d ≡ true
      → sound_all es ≡ true
      → Clean p cs
      → Returns CleanStep (print_group u o flags c ref id d es cs p)
  unfolding print_group CleanStep
  print_group-Clean c ref id d es cs p h k (t, hs, ss) =
      let m : Mode = if flags ref then break else flat in
      let measured : Printer = record p { should_remeasure = false } in
      Returns-if (is_flat c.mode && not p.should_remeasure)
        (λ _.
          returns (Clean-note_mode id m p (record c { mode = m; doc = d } ∷ cs) (t, (h, hs), ss)))
        (λ _.
          Returns-bind
            (measure_group-Returns u o flags (λ e. sound e ≡ true) c ref d es cs measured h
              (AllDocs-sound es k))
            (λ g q. returns (Clean-note_mode id g.mode measured (g ∷ cs) (t, (q, hs), ss))))

  print_text-Clean :
      (s : Bytes) (cs : List Command) (p : Printer)
      → no_breaks s ≡ true
      → Clean p cs
      → Clean (print_text u s cs p) cs
  unfolding print_text tidy
  print_text-Clean s cs p h (t, hs, ss) =
      if_elim (λ q. Clean q cs) (bytes_eq s []) (λ _. (t, hs, ss))
        (λ _.
          if_elim (λ q. Clean (record (write s q) { last_line_comment = false }) cs) (is_empty cs)
            (λ _. (tidy-append false p.out s t h, hs, ss))
            (λ _. (tidy-append false p.out s t h, hs, ss)))

  print_doc-Clean :
      (d : Doc) (c : Command) (cs : List Command) (p : Printer)
      → sound d ≡ true
      → sound c.doc ≡ true
      → Clean p cs
      → Returns CleanStep (print_doc u o flags d c cs p)
  unfolding print_doc CleanStep sound tidy
  print_doc-Clean missing c cs p h k (t, hs, ss) = ground arith
  print_doc-Clean (text s) c cs p h k q = returns (print_text-Clean s cs p h q)
  print_doc-Clean (concat ds) c cs p h k (t, hs, ss) =
      returns (t, AllSound-push_all c ds cs h hs, ss)
  print_doc-Clean (line l) c cs p h k q =
      returns (print_line-Clean o neat l c cs p (ground arith) k q)
  print_doc-Clean (group ref id d es) c cs p h k q =
      print_group-Clean c ref id d es cs p (ground arith) (ground arith) q
  print_doc-Clean (if_break b f id) c cs p h k (t, hs, ss) = returns (
    t,
    AllSound-push_contents c (if_break_contents p.group_mode b f id c.mode) cs
        (if_break_contents-pick (λ d. (is_missing d || sound d) ≡ true) p.group_mode b f id c.mode
          (ground arith) (ground arith))
        hs,
    ss,
  )
  print_doc-Clean (indent d) c cs p h k (t, hs, ss) = returns (t, (h, hs), ss)
  print_doc-Clean (align n d) c cs p h k (t, hs, ss) = returns (t, (h, hs), ss)
  print_doc-Clean (line_suffix d) c cs p h k (t, hs, ss) =
      returns
        (t, hs, All-append (λ c. sound c.doc ≡ true) p.line_suffix (with_doc c d ∷ []) ss (h, tt))
  print_doc-Clean line_suffix_boundary c cs p h k (t, hs, ss) = returns (
      if_elim (λ ds. Clean p ds) (is_empty p.line_suffix) (λ _. (t, hs, ss))
        (λ _. (t, (refl, hs), ss)))
  print_doc-Clean trim c cs p h k (t, hs, ss) = returns (tidy-trim_end false p.out t, hs, ss)
  print_doc-Clean break_parent c cs p h k q = returns q

  after_round :
      (m n : ℕ) (s : Step)
      → Lesser m s
      → CleanStep s
      → ((p : Printer) (cs : List Command)
          → left p cs < m
          → Clean p cs
          → Returns Tidy (run_loop u o flags n p cs))
      → Returns Tidy
          (elim s [ next q ds ↦ run_loop u o flags n q ds | failed ↦ some unknown_document ])
  unfolding Lesser CleanStep
  after_round m n (next q ds) h c k = k q ds h c
  after_round m n failed h c k = elim c [ ]

  run_loop-Tidy :
      (n : ℕ) (p : Printer) (cs : List Command)
      → left p cs < n
      → Clean p cs
      → Returns Tidy (run_loop u o flags n p cs)
  unfolding run_loop weight_of Tidy
  run_loop-Tidy zero p cs h q = absurd (omega arith)
  run_loop-Tidy (suc n) p [] h (t, hs, ss) = returns t
  run_loop-Tidy (suc n) p (c ∷ cs) h (t, (k, hs), ss) =
      Returns-bind
        (Returns-and (print_doc-Returns u o flags c.doc c cs p (left p (c ∷ cs)) (omega arith) refl)
          (print_doc-Clean c.doc c cs p k k (t, hs, ss)))
        (λ s (lt, cl).
          after_round (left p (c ∷ cs)) n (flush s) (flush-Lesser (left p (c ∷ cs)) s lt)
            (CleanStep-flush s cl) (λ q ds k' c'. run_loop-Tidy n q ds (omega arith) c'))

Neat-reset_options :
    (o : Options) → no_breaks o.indent ≡ true → no_blanks o.new_line ≡ true → Neat (reset_options o)
unfolding Neat reset_options no_breaks no_blanks
Neat-reset_options o h k = (
  if_elim (λ s. no_breaks s ≡ true) (bytes_eq o.indent [])
      (λ _. no_breaks-repeat (b' ' ∷ []) o.tab_width refl) (λ _. h),
  if_elim (λ s. no_blanks s ≡ true) (bytes_eq o.new_line []) (λ _. refl) (λ _. k),
)

-- Let no text of a document hold a line break, none of its lines be literal, and nothing of it be missing
-- but branches of an `if_break`. Printing it with positive widths, an indentation without line breaks and a
-- line break without blanks gives an output, in which no carriage return or newline comes directly
-- behind a space or a tab.
pub print-Tidy :
    (u : Tables) (d : Doc) (flags : Flags) (o : Options)
    → 0 < o.print_width
    → 0 < o.tab_width
    → no_breaks o.indent ≡ true
    → no_blanks o.new_line ≡ true
    → sound d ≡ true
    → Returns Tidy (print u d flags o)
unfolding print run weight_of tidy
print-Tidy u d flags o w t i n h =
    let fuel : ℕ = suc (weight d) in
    Returns-if (o.print_width == 0) (λ e. absurd (ground arith))
      (λ _.
        Returns-if (o.tab_width == 0) (λ e. absurd (ground arith))
          (λ _.
            run_loop-Tidy u (reset_options o) (Neat-reset_options o i n) (propagate_breaks d flags)
              fuel reset_printer (start d ∷ []) (omega arith) (refl, (h, tt), tt)))
