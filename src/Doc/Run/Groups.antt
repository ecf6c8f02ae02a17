-- ===== src/Doc/Run/Groups.antt =====
-- doc/print.go: `printGroup` chooses a command for one of the documents of the group.
use thrift_ls.Common.Int.{pos, ◌-ℤ◌}
use thrift_ls.Common.{ℕ, not, List, Option, none, some, Returns, returns, Returns-if, Returns-bind}
use thrift_ls.Doc.Breaks.{Flags}
use thrift_ls.Doc.Fits.Total.{fits-Returns}
use thrift_ls.Doc.Fits.{last_state}
use thrift_ls.Doc.Printer.{Options, flat, break, Command, Tables, Printer}
use thrift_ls.Doc.Run.{is_empty, fits_now, try_states, tail_states, measure_group}
use thrift_ls.Doc.{Doc, Docs}

-- Every document has the property.
unfoldable pub AllDocs : (Doc → Type 0) → Docs → Type 0
AllDocs P Docs.none = Unit
AllDocs P (Docs.some d ds) = P d × AllDocs P ds

AllDocs-tail_states : (P : Doc → Type 0) (ds : Docs) → AllDocs P ds → AllDocs P (tail_states ds)
unfolding AllDocs tail_states
AllDocs-tail_states P Docs.none h = tt
AllDocs-tail_states P (Docs.some d ds) (h, hs) = hs

pub AllDocs-last_state :
    (P : Doc → Type 0) (d : Doc) (ds : Docs) → P d → AllDocs P ds → P (last_state d ds)
unfolding AllDocs last_state
AllDocs-last_state P d Docs.none h hs = h
AllDocs-last_state P d (Docs.some e es) h (k, ks) = AllDocs-last_state P e es k ks

-- The command that is chosen, if one is, prints a document with the property.
Chosen : (Doc → Type 0) → Option Command → Type 0
Chosen P none = Unit
Chosen P (some c) = P c.doc

module _ (u : Tables) (o : Options) (flags : Flags) (P : Doc → Type 0) where
  fits_now-Returns :
      (c : Command) (cs : List Command) (p : Printer)
      → Returns (λ _. Unit {0}) (fits_now u o flags c cs p)
  unfolding fits_now
  fits_now-Returns c cs p =
      fits-Returns u flags p.group_mode c cs (pos o.print_width -ℤ p.position)
        (not (is_empty p.line_suffix))

  try_states-Returns :
      (c : Command) (ds : Docs) (cs : List Command) (p : Printer)
      → AllDocs P ds
      → Returns (Chosen P) (try_states u o flags c ds cs p)
  unfolding try_states Chosen AllDocs
  try_states-Returns c Docs.none cs p h = returns tt
  try_states-Returns c (Docs.some d Docs.none) cs p h = returns tt
  try_states-Returns c (Docs.some d (Docs.some e es)) cs p (h, hs) =
      Returns-bind (fits_now-Returns _ cs p) (λ ok _.
        Returns-if ok (λ _. returns h) (λ _. try_states-Returns c (Docs.some e es) cs p hs))

  pub measure_group-Returns :
      (c : Command) (ref : ℕ) (d : Doc) (es : Docs) (cs : List Command) (p : Printer)
      → P d
      → AllDocs P es
      → Returns (λ g. P g.doc) (measure_group u o flags c ref d es cs p)
  unfolding measure_group Chosen
  measure_group-Returns c ref d es cs p h hs =
      Returns-bind
        (Returns-if {P = λ _. Unit {0}} (flags ref) (λ _. returns tt)
          (λ _. fits_now-Returns (record c { mode = flat; doc = d }) cs p))
        (λ ok _.
          Returns-if ok (λ _. returns h)
            (λ _.
              Returns-bind
                (Returns-if {P = Chosen P} (flags ref) (λ _. returns tt)
                  (λ _. try_states-Returns c (tail_states es) cs p (AllDocs-tail_states P es hs)))
                (λ s k. returns (chosen s k))))
    where
      chosen :
          (s : Option Command)
          → Chosen P s
          → P
              (elim s as (λ _. Command) [
                | some k ↦ k
                | none ↦ record c { mode = break; doc = last_state d es }
              ]).doc
      chosen none k = AllDocs-last_state P d es h hs
      chosen (some g) k = k
