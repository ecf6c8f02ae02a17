-- ===== src/Doc/Fits.antt =====
-- doc/print.go: `fits` and `printGroup`, the choice between a flat and a broken group.
pub mod Total
use thrift_ls.Common.Int.{ℤ, pos, ◌+ℤ◌, ◌-ℤ◌, is_neg}
use thrift_ls.Common.{
  ℕ, zero, suc, ◌+◌, ◌-◌, Bool, true, false, not, ◌&&◌, List, [], ◌∷◌, ◌++◌, Option, none, some,
  ◌==◌, if◌then◌else◌, Bytes, bytes_eq, length, ◌>>=◌,
}
use thrift_ls.Doc.Breaks.{Flags}
use thrift_ls.Doc.Printer.{
  Options, Mode, flat, break, Indentation, Command, Tables, string_width, trim_end, Printer,
  max_int,
}
use thrift_ls.Doc.{
  Doc, Docs, LineDoc, missing, text, concat, line, group, if_break, indent, align, line_suffix,
  line_suffix_boundary, trim, break_parent,
}

-- How much printing a document can take: the bound of the loops of `fits` and of `run`.
unfoldable mutual
  pub weight : Doc → ℕ
  weight missing = 1
  weight (text s) = 1
  weight (concat ds) = 1 + weight_all ds
  weight (line l) = 1
  weight (group ref id d expanded) = 1 + weight d + weight_all expanded
  weight (if_break broken flat_doc id) = 1 + weight broken + weight flat_doc
  weight (indent d) = 1 + weight d
  weight (align n d) = 1 + weight d
  weight (line_suffix d) = 2 + weight d
  weight line_suffix_boundary = 2
  weight trim = 1
  weight break_parent = 1

  pub weight_all : Docs → ℕ
  weight_all Docs.none = 0
  weight_all (Docs.some d ds) = weight d + weight_all ds

-- The commands of a stack, its top first.
unfoldable pub weight_of : List Command → ℕ
weight_of [] = 0
weight_of (c ∷ cs) = weight c.doc + weight_of cs

-- A command for another document at the place and in the mode of this one.
abbrev pub with_doc : Command → Doc → Command
with_doc c d = record c { doc = d }

-- `for … range slices.Backward(parts)`: the parts go on the stack, the first on top.
unfoldable pub push_all : Command → Docs → List Command → List Command
push_all c Docs.none cs = cs
push_all c (Docs.some d ds) cs = with_doc c d ∷ push_all c ds cs

-- `expanded[len(expanded)-1]`, of a list that is not empty
unfoldable pub last_state : Doc → Docs → Doc
last_state d Docs.none = d
last_state d (Docs.some e es) = last_state e es

-- `g.expanded == nil`
unfoldable pub no_states : Docs → Bool
no_states Docs.none = true
no_states (Docs.some d ds) = false

-- The document that `ifBreakContents` chooses, by the mode of the named group or the command's own.
unfoldable pub if_break_contents : (ℕ → Option Mode) → Doc → Doc → ℕ → Mode → Doc
if_break_contents modes broken flat_doc id m =
    let named : Mode = elim (modes id) [ some k ↦ k | none ↦ flat ] in
    elim (if id == 0 then m else named) [ break ↦ broken | flat ↦ flat_doc ]

-- `if contents := …; contents != nil { commands = append(commands, …) }`
unfoldable pub push_contents : Command → Doc → List Command → List Command
push_contents c missing cs = cs
push_contents c d cs = with_doc c d ∷ cs

-- The variables of the loop of `fits`; the next of `rest` is its head.
pub record FitState : Type 0 where
  pub remaining : ℤ
  pub commands : List Command
  pub rest : List Command
  pub pending_space : Bool
  pub output : Bytes
  pub has_suffix : Bool

-- A round returns, or goes on.
pub data Round : Type 0 where
  answer : Bool → Round
  again : FitState → Round

unfoldable pub is_break : Mode → Bool
is_break break = true
is_break flat = false

module _ (u : Tables) (flags : Flags) (modes : ℕ → Option Mode) where
  -- `case Text` and `case *textNode`
  unfoldable pub fit_text : Bytes → FitState → Round
  unfolding bytes_eq string_width ◌-ℤ◌
  fit_text s f =
      let spaced =
        if f.pending_space
        then record f {
          output = f.output ++ (b' ' ∷ []);
          remaining = f.remaining -ℤ pos 1;
          pending_space = false;
        }
        else f in
      if bytes_eq s []
      then again f
      else again (record spaced {
        output = spaced.output ++ s;
        remaining = spaced.remaining -ℤ pos (string_width u s);
      })

  -- The `switch` of `fits`; the command is off the stack.
  unfoldable pub fit_doc : Doc → Command → FitState → Round
  unfolding fit_text ◌+ℤ◌ trim_end push_all last_state no_states if_break_contents push_contents
      is_break
  fit_doc (text s) c f = fit_text s f
  fit_doc (concat ds) c f = again (record f { commands = push_all c ds f.commands })
  fit_doc (indent d) c f = again (record f { commands = with_doc c d ∷ f.commands })
  fit_doc (align n d) c f = again (record f { commands = with_doc c d ∷ f.commands })
  fit_doc trim c f = again (record f {
    remaining = f.remaining +ℤ pos (length f.output - length (trim_end f.output));
    output = [];
  })
  fit_doc (group ref id d expanded) c f =
      let m = if flags ref then break else c.mode in
      let contents = if not (no_states expanded) && is_break m then last_state d expanded else d in
      if flags ref && not (is_break c.mode)
      then answer false
      else again (record f {
        commands = record { indentation = c.indentation; mode = m; doc = contents } ∷ f.commands;
      })
  fit_doc (if_break broken flat_doc id) c f = again (record f {
    commands = push_contents c (if_break_contents modes broken flat_doc id c.mode) f.commands;
  })
  fit_doc (line l) c f =
      if is_break c.mode
      then answer true
      else if l.hard
      then answer true
      else again (if l.soft then f else record f { pending_space = true })
  fit_doc (line_suffix d) c f = again (record f { has_suffix = true })
  fit_doc line_suffix_boundary c f = if f.has_suffix then answer false else again f
  fit_doc break_parent c f = again f
  fit_doc missing c f = again f

  -- One round: the next command, from the stack or from the pending rest.
  unfoldable pub fit_round : List Command → List Command → FitState → Round
  unfolding fit_doc
  fit_round [] [] f = answer true
  fit_round [] (c ∷ rest) f = again (record f { commands = c ∷ []; rest = rest })
  fit_round (c ∷ cs) rest f = fit_doc c.doc c (record f { commands = cs })

  -- The loop of `fits`.
  unfoldable pub fit_loop : ℕ → FitState → Option Bool
  unfolding fit_round
  fit_loop zero f = none
  fit_loop (suc n) f =
      if is_neg f.remaining
      then some false
      else elim (fit_round f.commands f.rest f) [ answer b ↦ some b | again g ↦ fit_loop n g ]

  -- Each round takes a command apart or moves one from the rest.
  abbrev fit_fuel : Command → List Command → ℕ
  fit_fuel c rest = suc (weight c.doc + (weight_of rest + length rest))

  -- `fits`
  unfoldable pub fits : Command → List Command → ℤ → Bool → Option Bool
  unfolding fit_loop weight weight_of
  fits next rest remaining has_suffix =
      let loop = fit_loop (fit_fuel next rest) (record {
        remaining = remaining;
        commands = next ∷ [];
        rest = rest;
        pending_space = false;
        output = [];
        has_suffix = has_suffix;
      }) in
      elim remaining [ pos n ↦ (if n == max_int then some true else loop) | _ ↦ loop ]
