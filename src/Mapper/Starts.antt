-- ===== src/Mapper/Starts.antt =====
-- mapper/mapper.go: the starts of the lines rise, and an offset between two of them is on one line.
use thrift_ls.Common.{
  ℕ, zero, suc, ◌+◌, ◌≤◌, ◌<◌, ◌≡◌, refl, ap, Bool, true, false, List, [], ◌∷◌, ◌==◌, if◌then◌else◌,
  Bytes, length, take, get_or, arith,
}
use thrift_ls.Mapper.Lines.{newlines}
use thrift_ls.Mapper.{starts_from}

-- Each start lies behind the one in front of it and in the content.
rise_step :
    (t : Bool) (first offset i n k : ℕ) (later : List ℕ)
    → first ≤ offset
    → i < (if t then suc n else n)
    → ((j g : ℕ)
        → g ≤ offset + 1
        → j < n
        → (get_or (g ∷ later) j 0 < get_or later j 0) × (get_or later j 0 ≤ offset + 1 + k))
    → (get_or (first ∷ (if t then (offset + 1) ∷ later else later)) i 0
        < get_or (if t then (offset + 1) ∷ later else later) i 0)
      × (get_or (if t then (offset + 1) ∷ later else later) i 0 ≤ offset + suc k)
rise_step true first offset zero n k later f h ih = (omega arith, omega arith)
rise_step true first offset (suc i) n k later f h ih =
    let (a, b) = ih i (offset + 1) (omega arith) (omega arith) in (a, omega arith)
rise_step false first offset i n k later f h ih =
    let (a, b) = ih i first (omega arith) h in (a, omega arith)

pub starts-rise :
    (first offset i : ℕ) (s : Bytes)
    → first ≤ offset
    → i < newlines s
    → (get_or (first ∷ starts_from offset s) i 0 < get_or (starts_from offset s) i 0)
      × (get_or (starts_from offset s) i 0 ≤ offset + length s)
unfolding starts_from newlines
starts-rise first offset i [] f h = absurd (omega arith)
starts-rise first offset i (b ∷ bs) f h =
    rise_step (b == b'\n') first offset i (newlines bs) (length bs) (starts_from (offset + 1) bs) f
      h (λ j g f' h'. starts-rise g (offset + 1) j bs f' h')

late_step :
    (t : Bool) (offset i n : ℕ) (later : List ℕ)
    → i < (if t then suc n else n)
    → ((j : ℕ) → j < n → offset + 1 < get_or later j 0)
    → offset < get_or (if t then (offset + 1) ∷ later else later) i 0
late_step true offset zero n later h ih = omega arith
late_step true offset (suc i) n later h ih =
    let l : offset + 1 < get_or later i 0 = ih i (omega arith) in omega arith
late_step false offset i n later h ih =
    let l : offset + 1 < get_or later i 0 = ih i h in omega arith

pub starts-late :
    (offset i : ℕ) (s : Bytes) → i < newlines s → offset < get_or (starts_from offset s) i 0
unfolding starts_from newlines
starts-late offset i [] h = absurd (omega arith)
starts-late offset i (b ∷ bs) h =
    late_step (b == b'\n') offset i (newlines bs) (starts_from (offset + 1) bs) h
      (λ j k. starts-late (offset + 1) j bs k)

line_step :
    (t : Bool) (first offset i n j m : ℕ) (later : List ℕ)
    → first ≤ offset
    → i ≤ (if t then suc n else n)
    → get_or (first ∷ (if t then (offset + 1) ∷ later else later)) i 0 ≤ offset + suc j
    → (i < (if t then suc n else n)
        → offset + suc j < get_or (if t then (offset + 1) ∷ later else later) i 0)
    → ((k g : ℕ)
        → g ≤ offset + 1
        → k ≤ n
        → get_or (g ∷ later) k 0 ≤ offset + 1 + j
        → (k < n → offset + 1 + j < get_or later k 0)
        → m ≡ k)
    → (if t then suc m else m) ≡ i
line_step true first offset zero n j m later f h lo hi ih =
    let impossible : offset + suc j < offset + 1 = hi (omega arith) in absurd (omega arith)
line_step true first offset (suc i) n j m later f h lo hi ih = ap suc (
    ih i (offset + 1) (omega arith) (omega arith) (omega arith)
      (λ q. let r : offset + suc j < get_or later i 0 = hi (omega arith) in omega arith))
line_step false first offset i n j m later f h lo hi ih =
    ih i first (omega arith) h (omega arith)
      (λ q. let r : offset + suc j < get_or later i 0 = hi q in omega arith)

-- An offset from the start of a line to the next start is on that line.
pub line-offset :
    (first offset i j : ℕ) (s : Bytes)
    → first ≤ offset
    → i ≤ newlines s
    → j ≤ length s
    → get_or (first ∷ starts_from offset s) i 0 ≤ offset + j
    → (i < newlines s → offset + j < get_or (starts_from offset s) i 0)
    → newlines (take j s) ≡ i
unfolding starts_from newlines
line-offset first offset zero zero s f h k lo hi = refl
line-offset first offset (suc i) zero s f h k lo hi =
    let l : offset < get_or (starts_from offset s) i 0 = starts-late offset i s (omega arith) in
    absurd (omega arith)
line-offset first offset i (suc j) [] f h k lo hi = absurd (omega arith)
line-offset first offset i (suc j) (b ∷ bs) f h k lo hi =
    line_step (b == b'\n') first offset i (newlines bs) j (newlines (take j bs))
      (starts_from (offset + 1) bs) f h lo hi
      (λ i' g f' h' lo' hi'. line-offset g (offset + 1) i' j bs f' h' (omega arith) lo' hi')
