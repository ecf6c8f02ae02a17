-- ===== src/Store/View/Affected.antt =====
-- store/view.go: `Update` ends, and the files that it reports.
use thrift_ls.Common.{
  bytes_eq_refl, bytes_eq→≡, ℕ, ◌≡◌, refl, sym, ap, ◌∙◌, subst, ◌⊎◌, inl, inr, ◌↔◌, Bool, true,
  false, map, if◌then◌else◌, none, some, ◌>>=◌, Bool-cases, Returns-result, Returns-some, List, [],
  ◌∷◌, ◌++◌, Option, Bytes, bytes_eq, Returns, returns, Returns-bind, Returns-elim, Returns-mono,
}
use thrift_ls.Store.Graph.Dependents.{dependents-Depends}
use thrift_ls.Store.Graph.Keys.{has-append, has-sort}
use thrift_ls.Store.Graph.Mirrored.{Mirrored}
use thrift_ls.Store.Graph.Reach.{Depends, has-fresh, has-append-fresh, or_left, or_right, or_elim}
use thrift_ls.Store.Graph.{Uri, Graph, has, find, fresh, sort}
use thrift_ls.Store.View.Invalidated.{parse_file-Returns}
use thrift_ls.Store.View.Refreshed.{serves, expected_includes, parse_all-begin_update}
use thrift_ls.Store.View.Resolved.{has-compact, unquoted, has-resolve_includes}
use thrift_ls.Store.View.Steps.{commit-Mirrored, begin_update-Mirrored}
use thrift_ls.Store.View.{
  View, parse_file, parsed, parse_view, parse_all, affected_loop, affected, update, compact,
  include_paths, resolve_includes, begin_update,
}

module _ (resolve : Uri → Bytes → Uri) (read : Uri → Option Bytes) where
  parse_view-Mirrored :
      (guarded : Option ℕ) (u : Uri) (v : View)
      → Mirrored v.graph
      → Returns (λ (pf, w). Mirrored w.graph) (parse_view resolve read guarded u v)
  unfolding parse_view
  parse_view-Mirrored guarded u v m =
      Returns-elim (parsed u v.entries)
        (λ _.
          Returns-elim (read u) (λ _. returns m)
            (λ content _. Returns-bind (parse_file-Returns content) (λ pf _. returns (
              commit-Mirrored resolve
                (record { file = u; result = pf; generation = v.gen; guarded = guarded }) v m))))
        (λ pf _. returns m)

  parse_all-Mirrored :
      (guarded : Option ℕ) (us : List Uri) (v : View)
      → Mirrored v.graph
      → Returns (λ w. Mirrored w.graph) (parse_all resolve read guarded us v)
  unfolding parse_all
  parse_all-Mirrored guarded [] v m = returns m
  parse_all-Mirrored guarded (u ∷ us) v m =
      Returns-bind (parse_view-Mirrored guarded u v m)
        (λ (pf, w) n. parse_all-Mirrored guarded us w n)

-- One of the files found, or a file that depends on one of the files `us`.
abbrev pub Touched : Graph → List Uri → List Uri → Uri → Type 0
Touched g us found x =
    (has found x ≡ true) ⊎ ((u : Uri) × (has us u ≡ true) × Depends g.includers u x)

module _ (g : Graph) (u : Uri) (us found deps : List Uri)
    (d : (x : Uri) → (has deps x ≡ true) ↔ Depends g.includers u x) (x : Uri) where
  back : Touched g us (found ++ fresh deps found) x → Touched g (u ∷ us) found x
  unfolding has
  back (inl h) =
      elim (or_elim (has found x) (has (fresh deps found) x)
        (sym (has-append found (fresh deps found) x) ∙ h)) [
          | inl a ↦ inl a
          | inr b ↦ inr (u, or_left _ _ (bytes_eq_refl u), (d x).0 (has-fresh deps found x b))
        ]
  back (inr (w, h, p)) = inr (w, or_right (bytes_eq u w) h, p)

  on : Touched g (u ∷ us) found x → Touched g us (found ++ fresh deps found) x
  unfolding has
  on (inl h) = inl (has-append found (fresh deps found) x ∙ or_left _ _ h)
  on (inr (w, h, p)) = elim (or_elim (bytes_eq u w) (has us w) h) [
    | inl e ↦ inl (
        has-append-fresh deps found x
          ((d x).1 (subst (λ z. Depends g.includers z x) (sym (bytes_eq→≡ u w e)) p)))
    | inr l ↦ inr (w, l, p)
  ]

found_only : (g : Graph) (found : List Uri) (x : Uri) → Touched g [] found x → has found x ≡ true
unfolding has
found_only g found x (inl h) = h
found_only g found x (inr (w, h, p)) = absurd (cc)

affected_loop-Touched :
    (g : Graph) (us found : List Uri)
    → Returns
        (λ files. (x : Uri) → (has files x ≡ true) ↔ Touched g us found x)
        (affected_loop g us found)
unfolding affected_loop has
affected_loop-Touched g [] found = returns (λ x. ((λ h. inl h), found_only g found x))
affected_loop-Touched g (u ∷ us) found = Returns-bind (dependents-Depends u g) (λ deps d.
    Returns-mono (affected_loop-Touched g us (found ++ fresh deps found)) (λ files h x.
      ((λ m. back g u us found deps d x ((h x).0 m)), (λ t. (h x).1 (on g u us found deps d x t)))))

-- Only what is in the list counts.
Touched-same :
    (g : Graph) (us vs : List Uri)
    → ((x : Uri) → has us x ≡ has vs x)
    → (x : Uri) → Touched g us us x
    → Touched g vs vs x
Touched-same g us vs e x (inl h) = inl (sym (e x) ∙ h)
Touched-same g us vs e x (inr (w, h, p)) = inr (w, sym (e w) ∙ h, p)

-- What the includes of a file should be after a parse in a generation: what the paths of its text resolve to, and
-- nothing where the file is not read or the context is of another generation.
unfoldable pub includes_read :
    (Uri → Bytes → Uri) → (Uri → Option Bytes) → Option ℕ → ℕ → Uri → List Uri
includes_read resolve read guarded gen u =
    if serves guarded gen
    then elim (read u >>= parse_file) [
      | none ↦ []
      | some pf ↦ map (λ t. resolve u (unquoted t)) (include_paths pf.document.nodes)
    ]
    else []

has-expected_includes :
    (resolve : Uri → Bytes → Uri) (read : Uri → Option Bytes) (guarded : Option ℕ) (gen : ℕ)
    (u x : Uri)
    → has (expected_includes resolve read guarded gen u) x
      ≡ has (includes_read resolve read guarded gen u) x
unfolding expected_includes includes_read
has-expected_includes resolve read guarded gen u x = elim (Bool-cases (serves guarded gen)) [
  | inl e ↦
      rw e
        (elim (read u >>= parse_file)
          as (λ o.
            ◌≡◌ {A = Bool}
              (has (elim o [ none ↦ [] | some pf ↦ resolve_includes resolve u pf.document.nodes ])
                x)
              (has
                (elim o [
                  | none ↦ []
                  | some pf ↦ map (λ t. resolve u (unquoted t)) (include_paths pf.document.nodes)
                ])
                x)) [ none ↦ refl | some pf ↦ has-resolve_includes resolve u x pf.document.nodes ])
  | inr e ↦ rw e refl
]

has-if :
    (b c : Bool) (xs ys zs : List Uri) (x : Uri)
    → b ≡ c
    → has xs x ≡ has ys x
    → has (if b then xs else zs) x ≡ (if c then has ys x else has zs x)
has-if true true xs ys zs x e h = h
has-if false false xs ys zs x e h = refl
has-if true false xs ys zs x e h = absurd (cc)
has-if false true xs ys zs x e h = absurd (cc)

-- For every content of the files and every resolution of paths, `Update` of a view whose two maps are each other's
-- reverse ends, where no other operation comes between its steps. In the new state they still are. The includes of a
-- changed file are what the paths in its content resolve to, or none if it is not read or the context has another
-- generation; those of any other file are as they were. A file is reported as affected exactly if it is one of the
-- changed files or, by the edges of the new state, includes one of them, directly or through other files.
pub update-Touched :
    (resolve : Uri → Bytes → Uri) (read : Uri → Option Bytes) (guarded : Option ℕ)
    (changes : List Uri) (v : View)
    → Mirrored v.graph
    → Returns
        (λ ((files, gen), w).
          Mirrored w.graph
          × ((u x : Uri)
              → has (find u w.graph.includes) x ≡ (
                  if has changes u
                  then has (includes_read resolve read guarded gen u) x
                  else has (find u v.graph.includes) x))
          × ((x : Uri) → (has files x ≡ true) ↔ Touched w.graph changes changes x))
        (update resolve read guarded changes v)
unfolding update affected
update-Touched resolve read guarded changes v m =
    let us = compact (sort changes) in
    let same : (x : Uri) → has us x ≡ has changes x =
      λ x. has-compact (sort changes) x ∙ has-sort changes x in
    let begun = begin_update us v in
    let (w, e, n) =
      Returns-result
        (parse_all-Mirrored resolve read guarded us begun (begin_update-Mirrored us v m)) in
    let fresh_edges : (u x : Uri)
        → has (find u w.graph.includes) x ≡ (
            if has changes u
            then has (includes_read resolve read guarded begun.gen u) x
            else has (find u v.graph.includes) x) =
      λ u x.
        ap (λ is. has is x) (Returns-some (parse_all-begin_update resolve read guarded u us v) e)
        ∙ has-if (has us u) (has changes u) (expected_includes resolve read guarded begun.gen u)
            (includes_read resolve read guarded begun.gen u) (find u v.graph.includes) x (same u)
            (has-expected_includes resolve read guarded begun.gen u x) in
    rw e (
      Returns-bind (affected_loop-Touched w.graph us us) (λ files h. returns (
        n,
        fresh_edges,
        (λ x. (
          (λ f. Touched-same w.graph us changes same x ((h x).0 f)),
          (λ t. (h x).1 (Touched-same w.graph changes us (λ y. sym (same y)) x t)),
        )),
      )))
