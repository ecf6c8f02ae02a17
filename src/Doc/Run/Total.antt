-- ===== src/Doc/Run/Total.antt =====
-- doc/print.go: `run` ends. Every round takes a command apart, or moves the pending suffixes to the
-- commands, so the weight of what is left goes down.
use thrift_ls.Common.{
  ℕ, zero, suc, ◌+◌, ◌≤◌, ◌<◌, ◌≡◌, refl, false, not, ◌&&◌, List, [], ◌∷◌, some, ◌==◌,
  if◌then◌else◌, bytes_eq, length-append, if_elim, Returns, returns, Returns-if, Returns-bind,
  Returns-mono, arith,
}
use thrift_ls.Doc.Breaks.{Flags, propagate_breaks}
use thrift_ls.Doc.Fits.Total.{weight-push_all, weight-push_contents, weight-if_break_contents}
use thrift_ls.Doc.Fits.{weight, weight_all, weight_of, with_doc, if_break_contents}
use thrift_ls.Doc.Printer.{
  Options, reset_printer, Mode, flat, break, Command, Tables, Printer, reset_options,
}
use thrift_ls.Doc.Run.Groups.{AllDocs, measure_group-Returns}
use thrift_ls.Doc.Run.Left.{
  left, Lesser, weight-append, flush-Lesser, print_line-Lesser, left-note_mode,
}
use thrift_ls.Doc.Run.{
  Outcome, printed, bad_print_width, bad_tab_width, unknown_document, Step, next, failed, is_empty,
  print_text, flush, is_flat, print_group, print_doc, run_loop, run, print, start,
}
use thrift_ls.Doc.{
  Doc, Docs, missing, text, concat, line, group, if_break, indent, align, line_suffix,
  line_suffix_boundary, trim, break_parent,
}

weights : (n : ℕ) (ds : Docs) → weight_all ds ≤ n → AllDocs (λ d. weight d ≤ n) ds
unfolding weight AllDocs
weights n Docs.none h = tt
weights n (Docs.some d ds) h = (omega arith, weights n ds (omega arith))

-- The outcomes of `run`.
Ran : Outcome → Type 0
Ran (printed s) = Unit
Ran unknown_document = Unit
Ran _ = ⊥

-- When each outcome of `Print` comes.
pub Expected : Options → Outcome → Type 0
Expected o (printed s) = (0 < o.print_width) × (0 < o.tab_width)
Expected o bad_print_width = o.print_width ≡ 0
Expected o bad_tab_width = (0 < o.print_width) × (o.tab_width ≡ 0)
Expected o unknown_document = (0 < o.print_width) × (0 < o.tab_width)

module _ (u : Tables) (o : Options) (flags : Flags) where
  print_group-Returns :
      (c : Command) (ref id : ℕ) (d : Doc) (es : Docs) (cs : List Command) (p : Printer) (n : ℕ)
      → left p cs + 1 + weight d + weight_all es ≤ n
      → Returns (Lesser n) (print_group u o flags c ref id d es cs p)
  unfolding print_group Lesser weight_of
  print_group-Returns c ref id d es cs p n h =
      let m : Mode = if flags ref then break else flat in
      let measured : Printer = record p { should_remeasure = false } in
      Returns-if (is_flat c.mode && not p.should_remeasure)
        (λ _. returns (left-note_mode id m p (record c { mode = m; doc = d } ∷ cs) n (omega arith)))
        (λ _.
          Returns-bind
            (measure_group-Returns u o flags (λ e. weight e ≤ weight d + weight_all es) c ref d es
              cs measured (omega arith) (weights (weight d + weight_all es) es (omega arith)))
            (λ g k. returns (left-note_mode id g.mode measured (g ∷ cs) n (omega arith))))

  pub print_doc-Returns :
      (d : Doc) (c : Command) (cs : List Command) (p : Printer) (n : ℕ)
      → left p cs + weight d ≤ n
      → weight c.doc ≡ weight d
      → Returns (Lesser n) (print_doc u o flags d c cs p)
  unfolding print_doc print_text Lesser weight weight_of
  print_doc-Returns missing c cs p n h e = returns tt
  print_doc-Returns (text s) c cs p n h e = returns (
      if_elim (λ q. left q cs < n) (bytes_eq s []) (λ _. omega arith)
        (λ _. if_elim (λ q. left q cs < n) (is_empty cs) (λ _. omega arith) (λ _. omega arith)))
  print_doc-Returns (concat ds) c cs p n h e = returns (omega (arith, weight-push_all c ds cs))
  print_doc-Returns (line l) c cs p n h e =
      returns (print_line-Lesser o l c cs p n (omega arith) (omega arith))
  print_doc-Returns (group ref id d es) c cs p n h e =
      print_group-Returns c ref id d es cs p n (omega arith)
  print_doc-Returns (if_break b f id) c cs p n h e = returns (
      omega (
        arith,
        weight-push_contents c (if_break_contents p.group_mode b f id c.mode) cs,
        weight-if_break_contents p.group_mode b f id c.mode,
      ))
  print_doc-Returns (indent d) c cs p n h e = returns (omega arith)
  print_doc-Returns (align k d) c cs p n h e = returns (omega arith)
  print_doc-Returns (line_suffix d) c cs p n h e = returns (
      omega (
        arith,
        weight-append p.line_suffix (with_doc c d ∷ []),
        length-append p.line_suffix (with_doc c d ∷ []),
      ))
  print_doc-Returns line_suffix_boundary c cs p n h e =
      returns (
        if_elim (λ ds. left p ds < n) (is_empty p.line_suffix) (λ _. omega arith)
          (λ _. omega arith))
  print_doc-Returns trim c cs p n h e = returns (omega arith)
  print_doc-Returns break_parent c cs p n h e = returns (omega arith)

  after_round :
      (m n : ℕ) (s : Step)
      → Lesser m s
      → ((p : Printer) (cs : List Command)
          → left p cs < m
          → Returns Ran (run_loop u o flags n p cs))
      → Returns Ran
          (elim s [ next q ds ↦ run_loop u o flags n q ds | failed ↦ some unknown_document ])
  unfolding Lesser Ran
  after_round m n (next q ds) h k = k q ds h
  after_round m n failed h k = returns tt

  run_loop-Returns :
      (n : ℕ) (p : Printer) (cs : List Command)
      → left p cs < n
      → Returns Ran (run_loop u o flags n p cs)
  unfolding run_loop weight_of Ran
  run_loop-Returns zero p cs h = absurd (omega arith)
  run_loop-Returns (suc n) p [] h = returns tt
  run_loop-Returns (suc n) p (c ∷ cs) h =
      Returns-bind (print_doc-Returns c.doc c cs p (left p (c ∷ cs)) (omega arith) refl) (λ s k.
        after_round (left p (c ∷ cs)) n (flush s) (flush-Lesser (left p (c ∷ cs)) s k)
          (λ q ds k'. run_loop-Returns n q ds (omega arith)))

-- Print returns for every document, options and break flags: an output or an unknown document where both
-- widths are positive, and else the error of the first width that is not.
pub print-Expected :
    (u : Tables) (d : Doc) (flags : Flags) (o : Options) → Returns (Expected o) (print u d flags o)
unfolding print run weight_of Ran Expected
print-Expected u d flags o =
    let n : ℕ = suc (weight d) in
    Returns-if (o.print_width == 0) (λ e. returns (ground arith))
      (λ w.
        Returns-if (o.tab_width == 0) (λ e. returns (ground arith))
          (λ t.
            Returns-mono
              (run_loop-Returns u (reset_options o) (propagate_breaks d flags) n reset_printer
                (start d ∷ []) (omega arith))
              (λ r h. ran_Expected r h (ground arith) (ground arith))))
  where
    ran_Expected : (r : Outcome) → Ran r → 0 < o.print_width → 0 < o.tab_width → Expected o r
    ran_Expected (printed s) h w t = (w, t)
    ran_Expected unknown_document h w t = (w, t)
    ran_Expected bad_print_width h w t = elim h [ ]
    ran_Expected bad_tab_width h w t = elim h [ ]
