-- ===== src/Store/Graph/Dependents.antt =====
-- store/view.go: `Dependents` finds the files that depend on a file.
use thrift_ls.Common.{
  bytes_eq_refl, bytes_eq→≡, ℕ, zero, suc, ◌+◌, ◌≤◌, ◌≡◌, refl, sym, subst, ◌∙◌, ◌⊎◌, inl, inr, ◌↔◌,
  true, false, List, [], ◌∷◌, ◌++◌, bytes_eq, Bool-cases, arith, length, length-append, Returns,
  returns, Returns-bind,
}
use thrift_ls.Store.Graph.{Uri, Edges, Graph, find, has, fresh, walk, targets, dependents}
use thrift_ls.Store.Graph.Keys.{has-append, has-sort, has-targets}
use thrift_ls.Store.Graph.Reach.{
  Depends, direct, further, has-fresh, has-append-fresh, unseen, unseen-fresh, unseen_le, or_left,
  or_right, or_elim,
}

module _ (es : Edges) (file : Uri) where
  -- The files whose includers are or will be looked at.
  abbrev Met : List Uri → Uri → Type 0
  Met deps u = (u ≡ file) ⊎ (has deps u ≡ true)

  -- What every round keeps.
  record Kept (queue deps : List Uri) : Type 0 where
    sound : (x : Uri) → has deps x ≡ true → Depends es file x
    queued : (u : Uri) → has queue u ≡ true → Met deps u
    closed :
        (u x : Uri)
        → Met deps u
        → has (find u es) x ≡ true
        → (has deps x ≡ true) ⊎ (has queue u ≡ true)

  Met-Depends :
      (deps : List Uri) (u x : Uri)
      → ((y : Uri) → has deps y ≡ true → Depends es file y)
      → Met deps u
      → has (find u es) x ≡ true
      → Depends es file x
  Met-Depends deps u x s (inl e) h = direct (subst (λ v. has (find v es) x ≡ true) e h)
  Met-Depends deps u x s (inr m) h = further (s u m) h

  module _ (u : Uri) (queue deps : List Uri) (k : Kept (u ∷ queue) deps) where
    abbrev news : List Uri
    news = fresh (find u es) deps

    in_both :
        (xs : List Uri) (v : Uri)
        → (has xs v ≡ true) ⊎ (has news v ≡ true)
        → has (xs ++ news) v ≡ true
    in_both xs v (inl h) = has-append xs news v ∙ or_left _ _ h
    in_both xs v (inr h) = has-append xs news v ∙ or_right (has xs v) h

    of_both :
        (xs : List Uri) (v : Uri)
        → has (xs ++ news) v ≡ true
        → (has xs v ≡ true) ⊎ (has news v ≡ true)
    of_both xs v h = or_elim (has xs v) (has news v) (sym (has-append xs news v) ∙ h)

    first : Met deps u
    unfolding has
    first = k.queued u (or_left _ _ (bytes_eq_refl u))

    sound_next : (x : Uri) → has (deps ++ news) x ≡ true → Depends es file x
    sound_next x h = elim (of_both deps x h) [
      | inl a ↦ k.sound x a
      | inr b ↦ Met-Depends deps u x k.sound first (has-fresh (find u es) deps x b)
    ]

    queued_next : (v : Uri) → has (queue ++ news) v ≡ true → Met (deps ++ news) v
    unfolding has
    queued_next v h = elim (of_both queue v h) [
      | inl a ↦ elim (k.queued v (or_right (bytes_eq u v) a)) [
        | inl e ↦ inl e
        | inr m ↦ inr (in_both deps v (inl m))
      ]
      | inr b ↦ inr (in_both deps v (inr b))
    ]

    closed_old :
        (v x : Uri)
        → bytes_eq u v ≡ false
        → Met deps v
        → has (find v es) x ≡ true
        → (has (deps ++ news) x ≡ true) ⊎ (has (queue ++ news) v ≡ true)
    unfolding has
    closed_old v x n m h = elim (k.closed v x m h) [
      | inl a ↦ inl (in_both deps x (inl a))
      | inr b ↦ inr (in_both queue v (inl (let h' = b in ground arith)))
    ]

    closed_next :
        (v x : Uri)
        → Met (deps ++ news) v
        → has (find v es) x ≡ true
        → (has (deps ++ news) x ≡ true) ⊎ (has (queue ++ news) v ≡ true)
    closed_next v x m h = elim (Bool-cases (bytes_eq u v)) [
      | inl y ↦ inl (
          has-append-fresh (find u es) deps x
            (subst (λ w. has (find w es) x ≡ true) (sym (bytes_eq→≡ u v y)) h))
      | inr n ↦ elim m [
        | inl e ↦ closed_old v x n (inl e) h
        | inr a ↦ elim (of_both deps v a) [
          | inl b ↦ closed_old v x n (inr b) h
          | inr b ↦ inr (in_both queue v (inr b))
        ]
      ]
    ]

    Kept-next : Kept (queue ++ news) (deps ++ news)
    Kept-next = record { sound = sound_next; queued = queued_next; closed = closed_next }

  walk-Kept :
      (f : ℕ) (queue deps : List Uri)
      → Kept queue deps
      → length queue + unseen (targets es) deps ≤ f
      → Returns (λ result. Kept [] result) (walk f es queue deps)
  unfolding walk
  walk-Kept f [] deps k n = returns k
  walk-Kept zero (u ∷ queue) deps k n = absurd (omega arith)
  walk-Kept (suc f) (u ∷ queue) deps k n =
      let less = unseen-fresh (targets es) (find u es) deps (has-targets es u) in
      let len = length-append queue (fresh (find u es) deps) in
      walk-Kept f (queue ++ fresh (find u es) deps) (deps ++ fresh (find u es) deps)
        (Kept-next u queue deps k) (omega arith)

  Depends-Kept :
      (deps : List Uri) → Kept [] deps → (x : Uri) → Depends es file x → has deps x ≡ true
  unfolding has
  Depends-Kept deps k x (direct h) = elim (k.closed file x (inl refl) h) [
    | inl a ↦ a
    | inr b ↦ absurd (cc)
  ]
  Depends-Kept deps k x (further {u} d h) = elim (k.closed u x (inr (Depends-Kept deps k u d)) h) [
    | inl a ↦ a
    | inr b ↦ absurd (cc)
  ]

  start-Kept : Kept (file ∷ []) []
  unfolding has
  start-Kept = record {
    sound = λ x h. absurd (cc);
    queued = λ u h. elim (or_elim (bytes_eq file u) false h) [
      | inl y ↦ inl (sym (bytes_eq→≡ file u y))
      | inr n ↦ absurd (cc)
    ];
    closed = λ u x m h. elim m [
      | inl e ↦ inr (or_left _ _ (subst (λ v. bytes_eq file v ≡ true) (sym e) (bytes_eq_refl file)))
      | inr n ↦ absurd (cc)
    ];
  }

-- For every file and graph `Dependents` ends, and a file is in the result exactly if it includes the file,
-- directly or through other files.
pub dependents-Depends :
    (file : Uri) (g : Graph)
    → Returns
        (λ deps. (x : Uri) → (has deps x ≡ true) ↔ Depends g.includers file x)
        (dependents file g)
unfolding dependents
dependents-Depends file g =
    Returns-bind
      (walk-Kept g.includers file (suc (length (targets g.includers))) (file ∷ []) []
        (start-Kept g.includers file) (let n = unseen_le (targets g.includers) [] in omega arith))
      (λ deps k. returns (λ x. (
        (λ h. k.sound x (sym (has-sort deps x) ∙ h)),
        (λ d. has-sort deps x ∙ Depends-Kept g.includers file deps k x d),
      )))
