-- ===== src/Doc/Run/Left.antt =====
-- doc/print.go: what is left of the work of `run` after a line is printed and after the flush.
use thrift_ls.Common.{
  ℕ, ◌+◌, ◌≤◌, ◌<◌, ◌≡◌, true, not, ◌&&◌, ◌||◌, List, [], ◌∷◌, ◌++◌, ◌==◌, length, if_elim, arith,
}
use thrift_ls.Doc.Fits.{weight, weight_of}
use thrift_ls.Doc.Printer.{Options, Mode, Command, Printer, line_ended}
use thrift_ls.Doc.Run.{
  Step, next, failed, is_empty, break_line, print_line, note_mode, flush, is_flat,
}
use thrift_ls.Doc.{LineDoc}

pub weight-append : (cs ds : List Command) → weight_of (cs ++ ds) ≡ weight_of cs + weight_of ds
unfolding weight_of
weight-append [] ds = omega arith
weight-append (c ∷ cs) ds = omega (arith, weight-append cs ds)

-- What is left to print: the commands, and the suffixes with the move of each.
abbrev pub left : Printer → List Command → ℕ
left p cs = weight_of cs + (weight_of p.line_suffix + length p.line_suffix)

-- A round that goes on has less than `n` left.
unfoldable pub Lesser : ℕ → Step → Type 0
Lesser n (next p cs) = left p cs < n
Lesser n failed = Unit

pub flush-Lesser : (n : ℕ) (s : Step) → Lesser n s → Lesser n (flush s)
unfolding Lesser flush weight_of
flush-Lesser n (next p []) h = omega arith
flush-Lesser n (next p (c ∷ cs)) h = h
flush-Lesser n failed h = tt

pending : (cs : List Command) → not (is_empty cs) ≡ true → 0 < length cs
unfolding is_empty
pending [] h = ground arith
pending (c ∷ cs) h = omega arith

break_line-Lesser :
    (o : Options) (l : LineDoc) (c : Command) (cs : List Command) (p : Printer) (n : ℕ)
    → left p cs + 1 ≤ n
    → weight c.doc ≤ 1
    → Lesser n (break_line o l c cs p)
unfolding break_line Lesser weight_of
break_line-Lesser o l c cs p n h w =
    if_elim (Lesser n) (not (is_empty p.line_suffix))
      (λ e. omega (arith, weight-append p.line_suffix (c ∷ cs), pending p.line_suffix e))
      (λ _.
        if_elim (Lesser n) l.literal (λ _. omega arith)
          (λ _.
            if_elim (Lesser n)
              (not l.hard && line_ended p.out && (not l.after_comment || p.last_line_comment))
              (λ _. omega arith)
              (λ _.
                if_elim (λ q. left q cs < n) l.comment (λ _. omega arith)
                  (λ _.
                    if_elim (λ q. left q cs < n) (not l.hard) (λ _. omega arith)
                      (λ _. omega arith)))))

pub print_line-Lesser :
    (o : Options) (l : LineDoc) (c : Command) (cs : List Command) (p : Printer) (n : ℕ)
    → left p cs + 1 ≤ n
    → weight c.doc ≤ 1
    → Lesser n (print_line o l c cs p)
unfolding print_line Lesser
print_line-Lesser o l c cs p n h w =
    if_elim (Lesser n) (is_flat c.mode)
      (λ _.
        if_elim (Lesser n) (not l.hard)
          (λ _. if_elim (λ q. left q cs < n) (not l.soft) (λ _. omega arith) (λ _. omega arith))
          (λ _. break_line-Lesser o l c cs (record p { should_remeasure = true }) n h w))
      (λ _. break_line-Lesser o l c cs p n h w)

pub left-note_mode :
    (id : ℕ) (m : Mode) (p : Printer) (cs : List Command) (n : ℕ)
    → left p cs < n
    → left (note_mode id m p) cs < n
unfolding note_mode
left-note_mode id m p cs n h = if_elim (λ q. left q cs < n) (id == 0) (λ _. h) (λ _. h)
