-- ===== src/Sema/Edit/Order.antt =====
-- sema/edit.go: the sorts of `Apply` and the test of a fix against itself put pieces in order.
use thrift_ls.Common.{
  ℕ, ◌≤◌, ◌≡◌, Bool, true, false, List, [], ◌∷◌, All, All-map, All-zip, arith, if_elim,
}
use thrift_ls.Sema.Edit.Splice.{Chain}
use thrift_ls.Sema.Edit.{Piece, insert_by, sort_by, by_place, is_zero, self_overlaps, overlaps}

-- Every element is related to every later one.
abbrev pub Pairwise : (Piece → Piece → Type 0) → List Piece → Type 0
Pairwise R [] = Unit
Pairwise R (x ∷ xs) = All (R x) xs × Pairwise R xs

-- A range inside a content of `n` bytes.
abbrev pub Valid : ℕ → Piece → Type 0
Valid n a = (a.start ≤ a.end) × (a.end ≤ n)

abbrev pub Before : Piece → Piece → Type 0
Before a b = a.end ≤ b.start

abbrev pub Apart : Piece → Piece → Type 0
Apart a b = overlaps a b ≡ false

pub Apart-sym : (a b : Piece) → Apart a b → Apart b a
unfolding overlaps
Apart-sym a b h = ground arith

All-insert_by :
    (P : Piece → Type 0) (le : Piece → Piece → Bool) (p : Piece) (ps : List Piece)
    → P p
    → All P ps
    → All P (insert_by le p ps)
unfolding insert_by
All-insert_by P le p [] h hs = (h, tt)
All-insert_by P le p (q ∷ qs) h (k, hs) =
    if_elim (All P) (le p q) (λ _. (h, (k, hs))) (λ _. (k, All-insert_by P le p qs h hs))

pub All-sort_by :
    (P : Piece → Type 0) (le : Piece → Piece → Bool) (ps : List Piece)
    → All P ps
    → All P (sort_by le ps)
unfolding sort_by
All-sort_by P le [] h = tt
All-sort_by P le (p ∷ ps) (h, hs) = All-insert_by P le p (sort_by le ps) h (All-sort_by P le ps hs)

Pairwise-insert_by :
    (R : Piece → Piece → Type 0) (le : Piece → Piece → Bool) (p : Piece) (ps : List Piece)
    → ((a b : Piece) → R a b → R b a)
    → All (R p) ps
    → Pairwise R ps
    → Pairwise R (insert_by le p ps)
unfolding insert_by
Pairwise-insert_by R le p [] s h hs = (tt, tt)
Pairwise-insert_by R le p (q ∷ qs) s (h, hs) (k, ks) =
    if_elim (Pairwise R) (le p q) (λ _. ((h, hs), (k, ks)))
      (λ _. (All-insert_by (R q) le p qs (s p q h) k, Pairwise-insert_by R le p qs s hs ks))

pub Pairwise-sort_by :
    (R : Piece → Piece → Type 0) (le : Piece → Piece → Bool) (ps : List Piece)
    → ((a b : Piece) → R a b → R b a)
    → Pairwise R ps
    → Pairwise R (sort_by le ps)
unfolding sort_by
Pairwise-sort_by R le [] s h = tt
Pairwise-sort_by R le (p ∷ ps) s (h, hs) =
    Pairwise-insert_by R le p (sort_by le ps) s (All-sort_by (R p) le ps h)
      (Pairwise-sort_by R le ps s hs)

abbrev Placed : Piece → Piece → Type 0
Placed a b = by_place a b ≡ true

Placed-trans : (a b c : Piece) → Placed a b → Placed b c → Placed a c
unfolding by_place is_zero
Placed-trans a b c h k = ground arith

Placed-total : (a b : Piece) → by_place a b ≡ false → Placed b a
unfolding by_place is_zero
Placed-total a b h = ground arith

insert-Placed :
    (p : Piece) (ps : List Piece) → Pairwise Placed ps → Pairwise Placed (insert_by by_place p ps)
unfolding insert_by
insert-Placed p [] h = (tt, tt)
insert-Placed p (q ∷ qs) (h, hs) =
    if_elim (Pairwise Placed) (by_place p q)
      (λ e. ((e, All-map (Placed q) (Placed p) qs (λ r k. Placed-trans p q r e k) h), (h, hs)))
      (λ e. (All-insert_by (Placed q) by_place p qs (Placed-total p q e) h, insert-Placed p qs hs))

pub sort-Placed : (ps : List Piece) → Pairwise Placed (sort_by by_place ps)
unfolding sort_by
sort-Placed [] = tt
sort-Placed (p ∷ ps) = insert-Placed p (sort_by by_place ps) (sort-Placed ps)

Placed-Before : (n : ℕ) (a b : Piece) → Valid n a → Valid n b → Placed a b → Apart a b → Before a b
unfolding by_place is_zero overlaps
Placed-Before n a b (ha, ka) (hb, kb) p q = ground arith

-- Pieces that are in order and apart come one behind the other.
pub Pairwise-Before :
    (n : ℕ) (ps : List Piece)
    → All (Valid n) ps
    → Pairwise Placed ps
    → Pairwise Apart ps
    → Pairwise Before ps
Pairwise-Before n [] v p q = tt
Pairwise-Before n (x ∷ xs) (v, vs) (p, ps) (q, qs) = (
  All-map (λ y. Valid n y × (Placed x y × Apart x y)) (Before x) xs
      (λ y (v', (p', q')). Placed-Before n x y v v' p' q')
      (All-zip (Valid n) _ xs vs (All-zip (Placed x) (Apart x) xs p q)),
  Pairwise-Before n xs vs ps qs,
)

pub Before-Chain :
    (from n : ℕ) (ps : List Piece)
    → from ≤ n
    → All (Valid n) ps
    → All (λ p. from ≤ p.start) ps
    → Pairwise Before ps
    → Chain from n ps
unfolding Chain
Before-Chain from n [] h v f b = h
Before-Chain from n (x ∷ xs) h ((v, v'), vs) (f, fs) (b, bs) =
    (f, v, Before-Chain x.end n xs v' vs b bs)

-- A fix that does not overlap itself has its pieces apart.
self_overlaps-Before :
    (n : ℕ) (ps : List Piece) → All (Valid n) ps → self_overlaps ps ≡ false → Pairwise Before ps
unfolding self_overlaps
self_overlaps-Before n [] v h = tt
self_overlaps-Before n (p ∷ []) v h = (tt, tt)
self_overlaps-Before n (p ∷ q ∷ ps) (v, ((w, w'), vs)) h =
    let (b, bs) = self_overlaps-Before n (q ∷ ps) ((w, w'), vs) (ground arith) in
    let pq : p.end ≤ q.start = ground arith in
    ((pq, All-map (Before q) (Before p) ps (λ r k. omega arith) b), (b, bs))

Before-Apart : (ps : List Piece) → Pairwise Before ps → Pairwise Apart ps
unfolding overlaps
Before-Apart [] h = tt
Before-Apart (p ∷ ps) (h, hs) =
    (All-map (Before p) (Apart p) ps (λ q k. ground arith) h, Before-Apart ps hs)

pub self_overlaps-Apart :
    (n : ℕ) (ps : List Piece) → All (Valid n) ps → self_overlaps ps ≡ false → Pairwise Apart ps
self_overlaps-Apart n ps v h = Before-Apart ps (self_overlaps-Before n ps v h)
