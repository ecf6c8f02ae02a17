-- ===== src/Mapper/Lines.antt =====
-- mapper/mapper.go: the starts of the lines, against the newlines in front of an offset.
use thrift_ls.Common.{
  ℕ, zero, suc, ◌+◌, ◌-◌, ◌≤◌, ◌≡◌, refl, sym, ap, ◌∙◌, Bool, true, false, List, [], ◌∷◌, ◌++◌, ltb,
  ◌==◌, if◌then◌else◌, Bytes, length, take, drop, get_or, arith, if_elim, length-take,
  length-append, drop_of_append,
}
use thrift_ls.Mapper.{starts_from, search}

unfoldable pub newlines : Bytes → ℕ
newlines [] = 0
newlines (b ∷ bs) = let n = newlines bs in if b == b'\n' then suc n else n

-- The bytes behind the last newline.
unfoldable pub last_line : Bytes → Bytes
unfolding newlines
last_line [] = []
last_line (b ∷ bs) =
    let later = last_line bs in
    if ltb 0 (newlines bs) then later else if b == b'\n' then bs else b ∷ bs

search_early : (offset at : ℕ) (s : Bytes) → at ≤ offset → search (starts_from offset s) at ≡ 0
unfolding search starts_from
search_early offset at [] h = refl
search_early offset at (b ∷ bs) h =
    if_elim (λ ss. search ss at ≡ 0) (b == b'\n') (λ _. ground arith)
      (λ _. search_early (offset + 1) at bs (omega arith))

search_step :
    (t : Bool) (offset at n : ℕ) (later : List ℕ)
    → offset ≤ at
    → search later at ≡ n
    → search (if t then offset ∷ later else later) at ≡ (if t then suc n else n)
unfolding search
search_step true offset at n later h e = ground arith
search_step false offset at n later h e = e

pub search-starts_from :
    (offset j : ℕ) (s : Bytes) → search (starts_from offset s) (offset + j) ≡ newlines (take j s)
unfolding search starts_from newlines
search-starts_from offset zero s = search_early offset (offset + 0) s (omega arith)
search-starts_from offset (suc j) [] = refl
search-starts_from offset (suc j) (b ∷ bs) =
    let e : offset + 1 + j ≡ offset + suc j = omega arith in
    search_step (b == b'\n') (offset + 1) (offset + suc j) (newlines (take j bs))
      (starts_from (offset + 1) bs) (omega arith)
      (ap (search (starts_from (offset + 1) bs)) (sym e) ∙ search-starts_from (offset + 1) j bs)

pub length-starts_from : (offset : ℕ) (s : Bytes) → length (starts_from offset s) ≡ newlines s
unfolding starts_from newlines
length-starts_from offset [] = refl
length-starts_from offset (b ∷ bs) = ground (arith, length-starts_from (offset + 1) bs)

-- One byte further, with the test for a newline as `t`.
start_step :
    (t : Bool) (first offset j n : ℕ) (starts : List ℕ) (last rest : Bytes) (b : ℕ)
    → length rest ≡ j
    → get_or ((if t then offset + 1 else first) ∷ starts) n 0
      ≡ (if ltb 0 n then offset + 1 + j - length last else if t then offset + 1 else first)
    → get_or (first ∷ (if t then (offset + 1) ∷ starts else starts)) (if t then suc n else n) 0 ≡ (
        if ltb 0 (if t then suc n else n)
        then offset + suc j - length (if ltb 0 n then last else if t then rest else b ∷ rest)
        else first)
start_step true first offset j zero starts last rest b h e = omega arith
start_step true first offset j (suc n) starts last rest b h e =
    let same : offset + 1 + j - length last ≡ offset + suc j - length last = omega arith in
    ground arith
start_step false first offset j zero starts last rest b h e = refl
start_step false first offset j (suc n) starts last rest b h e =
    let same : offset + 1 + j - length last ≡ offset + suc j - length last = omega arith in
    ground arith

-- The start of the line of an offset, where `first` is the start of the first line.
pub start_of :
    (first offset j : ℕ) (s : Bytes)
    → j ≤ length s
    → get_or (first ∷ starts_from offset s) (newlines (take j s)) 0
      ≡ (if ltb 0 (newlines (take j s)) then offset + j - length (last_line (take j s)) else first)
unfolding starts_from newlines last_line
start_of first offset zero s h = refl
start_of first offset (suc j) [] h = absurd (omega arith)
start_of first offset (suc j) (b ∷ bs) h =
    let t : Bool = b == b'\n' in
    start_step t first offset j (newlines (take j bs)) (starts_from (offset + 1) bs)
      (last_line (take j bs)) (take j bs) b (omega (arith, length-take j bs))
      (start_of (if t then offset + 1 else first) (offset + 1) j bs (omega arith))

-- A text is what is in front of its last line, and its last line.
pub last_line-append : (s : Bytes) → (front : Bytes) × (s ≡ front ++ last_line s)
unfolding last_line newlines
last_line-append [] = ([], refl)
last_line-append (b ∷ bs) =
    let (front, e) = last_line-append bs in
    if_elim (λ l. (front : Bytes) × (b ∷ bs ≡ front ++ l)) (ltb 0 (newlines bs))
      (λ _. (b ∷ front, ap (◌∷◌ b) e))
      (λ _.
        if_elim (λ l. (front : Bytes) × (b ∷ bs ≡ front ++ l)) (b == b'\n') (λ _. (b ∷ [], refl))
          (λ _. ([], refl)))

drop_front : (s front last : Bytes) → s ≡ front ++ last → drop (length s - length last) s ≡ last
drop_front s front last e =
    let n : length s - length last ≡ length front =
      omega (arith, ap length e, length-append front last) in
    ap (λ k. drop k s) n ∙ ap (drop (length front)) e ∙ drop_of_append front last

pub drop-last_line : (s : Bytes) → drop (length s - length (last_line s)) s ≡ last_line s
drop-last_line s = let (front, e) = last_line-append s in drop_front s front (last_line s) e

pub last_line_alone : (s : Bytes) → newlines s ≡ 0 → last_line s ≡ s
unfolding last_line newlines
last_line_alone [] h = refl
last_line_alone (b ∷ bs) h =
    if_elim (λ l. l ≡ b ∷ bs) (ltb 0 (newlines bs)) (λ e. absurd (ground arith))
      (λ _. if_elim (λ l. l ≡ b ∷ bs) (b == b'\n') (λ e. absurd (ground arith)) (λ _. refl))

pub take-length : (s : Bytes) → take (length s) s ≡ s
take-length [] = refl
take-length (b ∷ bs) = ap (◌∷◌ b) (take-length bs)
