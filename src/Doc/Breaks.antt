-- ===== src/Doc/Breaks.antt =====
-- doc/print.go: `propagateBreaks` with its closures `enter` and `exit`, and `traverseDoc`.
pub mod Groups
mod Walked
pub mod Forced
use thrift_ls.Common.{ℕ, Bool, true, false, List, [], ◌∷◌, ◌==◌, if◌then◌else◌}
use thrift_ls.Doc.{
  Doc, Docs, missing, text, concat, line, group, if_break, indent, align, line_suffix,
  line_suffix_boundary, trim, break_parent, none, some,
}

-- The flag `brk` of each group, by its address.
abbrev pub Flags : Type 0
Flags = ℕ → Bool

unfoldable pub set_flag : ℕ → Flags → Flags
set_flag ref flags r = if r == ref then true else flags r

-- The variables that `enter` and `exit` share: the top of the stack is the head of the list.
pub record Walk : Type 0 where
  pub flags : Flags
  pub visited : Flags
  pub stack : List ℕ

-- `breakParentGroup`
unfoldable pub break_parent_group : List ℕ → Flags → Flags
break_parent_group [] flags = flags
break_parent_group (ref ∷ stack) flags = set_flag ref flags

-- `breakParentGroup(stack)`, of the walk's own stack
unfoldable pub break_parent_of : Walk → Walk
unfolding break_parent_group
break_parent_of w = record w { flags = break_parent_group w.stack w.flags }

unfoldable pub pop_stack : List ℕ → List ℕ
pop_stack [] = []
pop_stack (ref ∷ stack) = stack

-- `enter` at a group that is new: it goes on the stack and is marked.
unfoldable pub enter_group : ℕ → Walk → Walk
unfolding set_flag
enter_group ref w = record w { stack = ref ∷ w.stack; visited = set_flag ref w.visited }

-- `exit` at a group.
unfoldable pub exit_group : ℕ → Walk → Walk
unfolding pop_stack break_parent_of
exit_group ref w =
    let popped = record w { stack = pop_stack w.stack } in
    if w.flags ref then break_parent_of popped else popped

-- `traverseDoc` with the two closures. At a group that was visited before, `enter` puts it on the
-- stack and returns false, so `exit` is not called and it stays there.
unfoldable mutual
  pub traverse : Doc → Walk → Walk
  traverse missing w = w
  traverse (text s) w = w
  traverse (concat ds) w = traverse_all ds w
  traverse (line l) w = w
  traverse (group ref id d expanded) w =
      let again = record w { stack = ref ∷ w.stack } in
      let first = exit_group ref (traverse d (traverse_all expanded (enter_group ref w))) in
      if w.visited ref then again else first
  traverse (if_break broken flat id) w = traverse flat (traverse broken w)
  traverse (indent d) w = traverse d w
  traverse (align n d) w = traverse d w
  traverse (line_suffix d) w = traverse d w
  traverse line_suffix_boundary w = w
  traverse trim w = w
  traverse break_parent w = break_parent_of w

  pub traverse_all : Docs → Walk → Walk
  traverse_all none w = w
  traverse_all (some d ds) w = traverse_all ds (traverse d w)

-- `propagateBreaks`
unfoldable pub propagate_breaks : Doc → Flags → Flags
unfolding traverse enter_group exit_group break_parent_of set_flag
propagate_breaks d flags =
    (traverse d (record { flags = flags; visited = λ _. false; stack = [] })).flags
