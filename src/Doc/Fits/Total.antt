-- ===== src/Doc/Fits/Total.antt =====
-- doc/print.go: `fits` ends. Every round takes a command apart or moves one from the rest to the stack,
-- so the weight of what is left goes down.
use thrift_ls.Common.Int.{ℤ, pos, negsuc, is_neg}
use thrift_ls.Common.{
  ℕ, zero, suc, ◌+◌, ◌≤◌, ◌<◌, ◌≡◌, refl, ap, Bool, true, false, not, ◌&&◌, List, [], ◌∷◌, Option,
  some, ◌==◌, if◌then◌else◌, Bytes, bytes_eq, length, if_elim, Returns, returns, Returns-if, arith,
}
use thrift_ls.Doc.Breaks.{Flags}
use thrift_ls.Doc.Fits.{
  weight, weight_all, weight_of, push_all, last_state, no_states, if_break_contents, push_contents,
  FitState, Round, answer, again, fit_text, fit_doc, fit_round, fit_loop, fits, is_break,
}
use thrift_ls.Doc.Printer.{Mode, flat, break, Command, Tables, max_int}
use thrift_ls.Doc.{
  Doc, Docs, missing, text, concat, line, group, if_break, indent, align, line_suffix,
  line_suffix_boundary, trim, break_parent,
}

pub weight_positive : (d : Doc) → 0 < weight d
unfolding weight
weight_positive missing = omega arith
weight_positive (text s) = omega arith
weight_positive (concat ds) = omega arith
weight_positive (line l) = omega arith
weight_positive (group ref id d es) = omega arith
weight_positive (if_break b f id) = omega arith
weight_positive (indent d) = omega arith
weight_positive (align n d) = omega arith
weight_positive (line_suffix d) = omega arith
weight_positive line_suffix_boundary = omega arith
weight_positive trim = omega arith
weight_positive break_parent = omega arith

pub weight-last_state : (d : Doc) (es : Docs) → weight (last_state d es) ≤ weight d + weight_all es
unfolding weight last_state
weight-last_state d Docs.none = omega arith
weight-last_state d (Docs.some e es) = omega (arith, weight-last_state e es)

pub weight-push_all :
    (c : Command) (ds : Docs) (cs : List Command)
    → weight_of (push_all c ds cs) ≡ weight_all ds + weight_of cs
unfolding weight weight_of push_all
weight-push_all c Docs.none cs = omega arith
weight-push_all c (Docs.some d ds) cs = omega (arith, weight-push_all c ds cs)

pub weight-push_contents :
    (c : Command) (d : Doc) (cs : List Command)
    → weight_of (push_contents c d cs) ≤ weight d + weight_of cs
unfolding weight_of push_contents
weight-push_contents c missing cs = omega arith
weight-push_contents c (text s) cs = omega arith
weight-push_contents c (concat ds) cs = omega arith
weight-push_contents c (line l) cs = omega arith
weight-push_contents c (group ref id d es) cs = omega arith
weight-push_contents c (if_break b f id) cs = omega arith
weight-push_contents c (indent d) cs = omega arith
weight-push_contents c (align n d) cs = omega arith
weight-push_contents c (line_suffix d) cs = omega arith
weight-push_contents c line_suffix_boundary cs = omega arith
weight-push_contents c trim cs = omega arith
weight-push_contents c break_parent cs = omega arith

pick_mode :
    (P : Doc → Type 0) (m : Mode) (b f : Doc) → P b → P f → P (elim m [ break ↦ b | flat ↦ f ])
pick_mode P break b f hb hf = hb
pick_mode P flat b f hb hf = hf

pub weight-if_break_contents :
    (modes : ℕ → Option Mode) (b f : Doc) (id : ℕ) (m : Mode)
    → weight (if_break_contents modes b f id m) ≤ weight b + weight f
unfolding if_break_contents
weight-if_break_contents modes b f id m =
    pick_mode (λ d. weight d ≤ weight b + weight f) _ b f (omega arith) (omega arith)

-- What is left to measure.
abbrev left : FitState → ℕ
left f = weight_of f.commands + (weight_of f.rest + length f.rest)

-- A round that goes on has less than `n` left.
Lesser : ℕ → Round → Type 0
Lesser n (answer b) = Unit
Lesser n (again f) = left f < n

module _ (u : Tables) (flags : Flags) (modes : ℕ → Option Mode) where
  fit_text-Lesser :
      (s : Bytes) (n : ℕ) (f : FitState) → left f < n → Lesser n (fit_text u flags modes s f)
  unfolding fit_text Lesser
  fit_text-Lesser s n f h =
      if_elim (Lesser n) (bytes_eq s []) (λ _. h)
        (λ _. if_elim (λ g. left g < n) f.pending_space (λ _. h) (λ _. h))

  fit_doc-Lesser :
      (d : Doc) (c : Command) (n : ℕ) (f : FitState)
      → left f + weight d ≤ n
      → Lesser n (fit_doc u flags modes d c f)
  unfolding fit_doc Lesser weight weight_of
  fit_doc-Lesser (text s) c n f h = fit_text-Lesser s n f (omega arith)
  fit_doc-Lesser (concat ds) c n f h = omega (arith, weight-push_all c ds f.commands)
  fit_doc-Lesser (indent d) c n f h = omega arith
  fit_doc-Lesser (align k d) c n f h = omega arith
  fit_doc-Lesser trim c n f h = omega arith
  fit_doc-Lesser (group ref id d es) c n f h =
      if_elim (Lesser n) (flags ref && not (is_break c.mode)) (λ _. tt)
        (λ _.
          if_elim (λ e. weight e + weight_of f.commands + (weight_of f.rest + length f.rest) < n)
            (not (no_states es) && is_break (if flags ref then break else c.mode))
            (λ _. omega (arith, weight-last_state d es)) (λ _. omega arith))
  fit_doc-Lesser (if_break b fd id) c n f h = omega (
    arith,
    weight-push_contents c (if_break_contents modes b fd id c.mode) f.commands,
    weight-if_break_contents modes b fd id c.mode,
  )
  fit_doc-Lesser (line l) c n f h =
      if_elim (Lesser n) (is_break c.mode) (λ _. tt)
        (λ _.
          if_elim (Lesser n) l.hard (λ _. tt)
            (λ _. if_elim (λ g. left g < n) l.soft (λ _. omega arith) (λ _. omega arith)))
  fit_doc-Lesser (line_suffix d) c n f h = omega arith
  fit_doc-Lesser line_suffix_boundary c n f h =
      if_elim (Lesser n) f.has_suffix (λ _. tt) (λ _. omega arith)
  fit_doc-Lesser break_parent c n f h = omega arith
  fit_doc-Lesser missing c n f h = omega arith

  fit_round-Lesser :
      (cs rest : List Command) (n : ℕ) (f : FitState)
      → rest ≡ f.rest
      → weight_of cs + (weight_of f.rest + length f.rest) ≤ n
      → Lesser n (fit_round u flags modes cs rest f)
  unfolding fit_round Lesser weight_of
  fit_round-Lesser [] [] n f e h = tt
  fit_round-Lesser [] (c ∷ rest) n f e h =
      omega (arith, weight_positive c.doc, ap weight_of e, ap length e)
  fit_round-Lesser (c ∷ cs) rest n f e h =
      fit_doc-Lesser c.doc c n (record f { commands = cs }) (omega arith)

  after_round :
      (m n : ℕ) (r : Round)
      → Lesser m r
      → ((f : FitState) → left f < m → Returns (λ _. Unit {0}) (fit_loop u flags modes n f))
      → Returns
          (λ _. Unit {0})
          (elim r [ answer b ↦ some b | again f ↦ fit_loop u flags modes n f ])
  unfolding Lesser
  after_round m n (answer b) h k = returns tt
  after_round m n (again f) h k = k f h

  fit_loop-Returns :
      (n : ℕ) (f : FitState) → left f < n → Returns (λ _. Unit {0}) (fit_loop u flags modes n f)
  unfolding fit_loop
  fit_loop-Returns zero f h = absurd (omega arith)
  fit_loop-Returns (suc n) f h =
      Returns-if (is_neg f.remaining) (λ _. returns tt)
        (λ _.
          after_round (left f) n (fit_round u flags modes f.commands f.rest f)
            (fit_round-Lesser f.commands f.rest (left f) f refl (omega arith))
            (λ g k. fit_loop-Returns n g (omega arith)))

  unless_max :
      (a : ℤ) (r : Option Bool)
      → Returns (λ _. Unit {0}) r
      → Returns (λ _. Unit {0}) (elim a [ pos n ↦ (if n == max_int then some true else r) | _ ↦ r ])
  unless_max (pos n) r h = Returns-if (n == max_int) (λ _. returns tt) (λ _. h)
  unless_max (negsuc n) r h = h

  pub fits-Returns :
      (c : Command) (rest : List Command) (remaining : ℤ) (has_suffix : Bool)
      → Returns (λ _. Unit {0}) (fits u flags modes c rest remaining has_suffix)
  unfolding fits weight_of
  fits-Returns c rest remaining has_suffix =
      let start : FitState = record {
        remaining = remaining;
        commands = c ∷ [];
        rest = rest;
        pending_space = false;
        output = [];
        has_suffix = has_suffix;
      } in
      let n : ℕ = suc (weight c.doc + (weight_of rest + length rest)) in
      unless_max remaining (fit_loop u flags modes n start) (fit_loop-Returns n start (omega arith))
