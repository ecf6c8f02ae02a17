-- ===== src/Doc/Breaks/Groups.antt =====
-- doc/print.go: the groups of a document, and what it means that their breaks are propagated.
use thrift_ls.Common.{
  ℕ, ◌≡◌, refl, ap, Bool, true, false, not, ◌&&◌, ◌||◌, List, [], ◌∷◌, ◌++◌, ◌==◌, arith,
  Bool-cases, inl, inr,
}
use thrift_ls.Doc.Breaks.{Flags}
use thrift_ls.Doc.{
  Doc, Docs, missing, text, concat, line, group, if_break, indent, align, line_suffix,
  line_suffix_boundary, trim, break_parent, none, some,
}

unfoldable pub mem : ℕ → List ℕ → Bool
mem r [] = false
mem r (x ∷ xs) = r == x || mem r xs

unfoldable pub distinct : List ℕ → Bool
unfolding mem
distinct [] = true
distinct (x ∷ xs) = not (mem x xs) && distinct xs

unfoldable mutual
  -- The addresses of the groups of a document.
  pub addresses : Doc → List ℕ
  addresses (concat ds) = addresses_all ds
  addresses (group ref id d es) = ref ∷ (addresses_all es ++ addresses d)
  addresses (if_break b f id) = addresses b ++ addresses f
  addresses (indent d) = addresses d
  addresses (align n d) = addresses d
  addresses (line_suffix d) = addresses d
  addresses missing = []
  addresses (text s) = []
  addresses (line l) = []
  addresses line_suffix_boundary = []
  addresses trim = []
  addresses break_parent = []

  pub addresses_all : Docs → List ℕ
  addresses_all none = []
  addresses_all (some d ds) = addresses d ++ addresses_all ds

unfoldable mutual
  -- Somewhere in the document is a `BreakParent`.
  pub forced : Doc → Bool
  forced (concat ds) = forced_all ds
  forced (group ref id d es) = forced_all es || forced d
  forced (if_break b f id) = forced b || forced f
  forced (indent d) = forced d
  forced (align n d) = forced d
  forced (line_suffix d) = forced d
  forced break_parent = true
  forced missing = false
  forced (text s) = false
  forced (line l) = false
  forced line_suffix_boundary = false
  forced trim = false

  pub forced_all : Docs → Bool
  forced_all none = false
  forced_all (some d ds) = forced d || forced_all ds

unfoldable mutual
  unfolding forced

  -- Every group with a `BreakParent` somewhere inside it is broken.
  pub marked : Doc → Flags → Bool
  marked (concat ds) flags = marked_all ds flags
  marked (group ref id d es) flags =
      (not (forced_all es || forced d) || flags ref) && (marked_all es flags && marked d flags)
  marked (if_break b f id) flags = marked b flags && marked f flags
  marked (indent d) flags = marked d flags
  marked (align n d) flags = marked d flags
  marked (line_suffix d) flags = marked d flags
  marked break_parent flags = true
  marked missing flags = true
  marked (text s) flags = true
  marked (line l) flags = true
  marked line_suffix_boundary flags = true
  marked trim flags = true

  pub marked_all : Docs → Flags → Bool
  marked_all none flags = true
  marked_all (some d ds) flags = marked d flags && marked_all ds flags

pub mem-append : (r : ℕ) (xs ys : List ℕ) → mem r (xs ++ ys) ≡ mem r xs || mem r ys
unfolding mem
mem-append r [] ys = refl
mem-append r (x ∷ xs) ys = ground (arith, mem-append r xs ys)

pub distinct-append :
    (xs ys : List ℕ)
    → distinct (xs ++ ys) ≡ true
    → (distinct xs ≡ true) × (distinct ys ≡ true) × ((r : ℕ) → mem r ys ≡ true → mem r xs ≡ false)
unfolding distinct mem
distinct-append [] ys h = (refl, h, λ r k. refl)
distinct-append (x ∷ xs) ys h =
    let (a, b, c) = distinct-append xs ys (ground arith) in
    (
      ground (arith, mem-append x xs ys),
      b,
      λ r k.
          let no : mem x ys ≡ false = ground (arith, mem-append x xs ys) in
          let not_xs : mem r xs ≡ false = c r k in
          elim (Bool-cases (r == x)) [
            | inl e ↦
                let q : r ≡ x = ground arith in
                let y : mem r ys ≡ mem x ys = ap (λ t. mem t ys) q in absurd (ground arith)
            | inr e ↦ ground arith
          ],
    )
