-- ===== src/Doc/Breaks/Forced.antt =====
-- doc/print.go: `propagateBreaks` on a document in which no group occurs twice.
use thrift_ls.Common.{
  ℕ, ◌≡◌, refl, sym, ◌∙◌, true, false, not, ◌||◌, List, [], ◌∷◌, ◌++◌, if_elim, arith,
}
use thrift_ls.Doc.Breaks.{Flags, Walk, enter_group, traverse, traverse_all, propagate_breaks}
use thrift_ls.Doc.{
  Doc, Docs, missing, text, concat, line, group, if_break, indent, align, line_suffix,
  line_suffix_boundary, trim, break_parent, none, some,
}
use thrift_ls.Doc.Breaks.Groups.{
  mem, distinct, addresses, addresses_all, forced, forced_all, marked, marked_all,
}
use thrift_ls.Doc.Breaks.Walked.{
  Walked, New, Grows, next, stay, New-first, New-second, break_walk, group_walk, false≢true,
  holds_if, enter_New,
}

mutual
  unfolding addresses forced marked traverse New mem

  traverse-Walked :
      (d : Doc) (w : Walk)
      → New (addresses d) w
      → Walked (addresses d) (forced d) (marked d) w (traverse d w)
  traverse-Walked missing w h = stay w
  traverse-Walked (text s) w h = stay w
  traverse-Walked (concat ds) w h = traverse_all-Walked ds w h
  traverse-Walked (line l) w h = stay w
  traverse-Walked (group ref id d es) w h =
      let xs : List ℕ = addresses_all es ++ addresses d in
      let v : Walk = enter_group ref w in
      let n : New xs v = enter_New ref xs w h in
      let x : Walked (addresses_all es) (forced_all es) (marked_all es) v (traverse_all es v) =
        traverse_all-Walked es v (New-first (addresses_all es) (addresses d) v n) in
      let y : Walked (addresses d) (forced d) (marked d) (traverse_all es v)
          (traverse d (traverse_all es v)) =
        traverse-Walked d (traverse_all es v)
          (New-second (addresses_all es) (addresses d) v (traverse_all es v) n x) in
      if_elim (Walked (ref ∷ xs) (forced (group ref id d es)) (marked (group ref id d es)) w)
        (w.visited ref) (λ e. absurd (false≢true (sym (h.0 ref (ground arith)) ∙ e)))
        (λ _. group_walk ref w (traverse d (traverse_all es v)) (next x y))
  traverse-Walked (if_break b f id) w h =
      let x : Walked (addresses b) (forced b) (marked b) w (traverse b w) =
        traverse-Walked b w (New-first (addresses b) (addresses f) w h) in
      next x (
        traverse-Walked f (traverse b w)
          (New-second (addresses b) (addresses f) w (traverse b w) h x))
  traverse-Walked (indent d) w h = traverse-Walked d w h
  traverse-Walked (align n d) w h = traverse-Walked d w h
  traverse-Walked (line_suffix d) w h = traverse-Walked d w h
  traverse-Walked line_suffix_boundary w h = stay w
  traverse-Walked trim w h = stay w
  traverse-Walked break_parent w h = break_walk w

  traverse_all-Walked :
      (ds : Docs) (w : Walk)
      → New (addresses_all ds) w
      → Walked (addresses_all ds) (forced_all ds) (marked_all ds) w (traverse_all ds w)
  traverse_all-Walked none w h = stay w
  traverse_all-Walked (some d ds) w h =
      let x : Walked (addresses d) (forced d) (marked d) w (traverse d w) =
        traverse-Walked d w (New-first (addresses d) (addresses_all ds) w h) in
      next x (
        traverse_all-Walked ds (traverse d w)
          (New-second (addresses d) (addresses_all ds) w (traverse d w) h x))

-- In a document in which no group occurs twice, whatever the flags were: after the propagation of breaks
-- every group with a `BreakParent` somewhere inside it is broken, and a group that was broken
-- still is.
pub propagate_breaks-marked :
    (d : Doc) (flags : Flags) (r : ℕ)
    → distinct (addresses d) ≡ true
    → (marked d (propagate_breaks d flags) ≡ true)
      × ((not (flags r) || propagate_breaks d flags r) ≡ true)
unfolding propagate_breaks New Grows
propagate_breaks-marked d flags r h =
    let w : Walk = record { flags = flags; visited = λ _. false; stack = [] } in
    let a : Walked (addresses d) (forced d) (marked d) w (traverse d w) =
      traverse-Walked d w (λ r k. refl, h) in
    (a.mark_top, holds_if (flags r) (propagate_breaks d flags r) (a.grows r))
