-- ===== src/Store/View/Resolved.antt =====
-- store/parse.go: the files that the includes of a document resolve to.
use thrift_ls.Common.{
  ◌≡◌, refl, ap, ◌∙◌, true, ◌||◌, List, [], ◌∷◌, Bytes, bytes_eq, bytes_eq→≡, map, arith,
  Bool-cases, inl, inr,
}
use thrift_ls.Store.Graph.Keys.{has-sort}
use thrift_ls.Store.Graph.{Uri, has, sort}
use thrift_ls.Store.View.{
  compact, trim_left, trim_right, include_paths, resolve_loop, resolve_includes,
}
use thrift_ls.Syntax.Token.{Token}
use thrift_ls.Syntax.Tree.{Node}

pub has-compact : (xs : List Uri) (u : Uri) → has (compact xs) u ≡ has xs u
unfolding has compact
has-compact [] u = refl
has-compact (x ∷ []) u = refl
has-compact (x ∷ y ∷ ys) u =
    let later = has-compact (y ∷ ys) u in
    let same : bytes_eq x y ≡ true → bytes_eq x u ≡ bytes_eq y u =
      λ e. ap (λ z. bytes_eq z u) (bytes_eq→≡ x y e) in
    ground arith

-- The text of a path without its quotes.
abbrev pub unquoted : Token → Bytes
unquoted t = trim_right (trim_left t.text)

module _ (resolve : Uri → Bytes → Uri) (file x : Uri) where
  -- A text that was seen adds nothing.
  has-resolved :
      (seen : List Bytes) (text : Bytes)
      → has seen text ≡ true
      → bytes_eq (resolve file text) x ≡ true
      → has (map (resolve file) seen) x ≡ true
  unfolding has
  has-resolved [] text h e = absurd (cc)
  has-resolved (s ∷ seen) text h e = elim (Bool-cases (bytes_eq s text)) [
    | inl same ↦
        let head : bytes_eq (resolve file s) x ≡ true =
          ap (λ z. bytes_eq (resolve file z) x) (bytes_eq→≡ s text same) ∙ e in
        ground arith
    | inr differ ↦ let later = has-resolved seen text (ground arith) e in ground arith
  ]

  has-resolve_loop :
      (seen : List Bytes) (ts : List Token)
      → (has (resolve_loop resolve file seen ts) x || has (map (resolve file) seen) x)
        ≡ (has (map (λ t. resolve file (unquoted t)) ts) x || has (map (resolve file) seen) x)
  unfolding resolve_loop has
  has-resolve_loop seen [] = refl
  has-resolve_loop seen (t ∷ ts) =
      let skipped = has-resolve_loop seen ts in
      let taken = has-resolve_loop (unquoted t ∷ seen) ts in
      let old = has-resolved seen (unquoted t) in
      elim (Bool-cases (has seen (unquoted t))) [
        | inl e ↦ let old' = old e in rw e (ground arith)
        | inr e ↦ rw e (ground arith)
      ]

  -- The includes of a document, without their order and repetitions.
  pub has-resolve_includes :
      (ns : List Node)
      → has (resolve_includes resolve file ns) x
        ≡ has (map (λ t. resolve file (unquoted t)) (include_paths ns)) x
  unfolding resolve_includes has
  has-resolve_includes ns =
      let ts = include_paths ns in
      let incs = resolve_loop resolve file [] ts in
      let loop = has-resolve_loop [] ts in
      has-compact (sort incs) x ∙ has-sort incs x ∙ (ground arith)
