-- ===== src/Mapper/Crlf.antt =====
-- mapper/mapper.go: `lineEnd` and the newline of a line, for an offset on that line.
use thrift_ls.Common.{
  ℕ, zero, suc, ◌+◌, ◌-◌, ◌≤◌, ◌<◌, ◌≡◌, ◌≢◌, subst, refl, ap, sym, ◌∙◌, Bool, true, false, ◌&&◌,
  List, [], ◌∷◌, ltb, ◌==◌, if◌then◌else◌, Bytes, length, take, get_or, arith, if_elim, length-take,
  length-append, Bool-cases, inl, inr,
}
use thrift_ls.Mapper.Columns.{length-line_starts}
use thrift_ls.Mapper.Lines.{
  newlines, last_line, start_of, last_line-append, last_line_alone, search-starts_from,
  length-starts_from,
}
use thrift_ls.Mapper.Starts.{starts-late}
use thrift_ls.Mapper.{starts_from, line_starts, line_end, search}

-- The offset stands between the two bytes of a CRLF.
unfoldable pub splits_crlf : Bytes → ℕ → Bool
splits_crlf content k = get_or content (k - 1) 0 == b'\r' && get_or content k 0 == b'\n'

-- The offset, or the one in front of the CRLF that it splits.
unfoldable pub before_crlf : Bytes → ℕ → ℕ
unfolding splits_crlf
before_crlf content k = if splits_crlf content k then k - 1 else k

newlines-next :
    (k : ℕ) (s : Bytes)
    → k < length s
    → newlines (take (suc k) s)
      ≡ (if get_or s k 0 == b'\n' then suc (newlines (take k s)) else newlines (take k s))
unfolding newlines
newlines-next k [] h = absurd (omega arith)
newlines-next zero (b ∷ bs) h = refl
newlines-next (suc k) (b ∷ bs) h = let later = newlines-next k bs (omega arith) in ground arith

start_newline-step :
    (t : Bool) (offset i j n : ℕ) (later : List ℕ) (b : ℕ) (bs : Bytes)
    → (b == b'\n') ≡ t
    → i < (if t then suc n else n)
    → get_or (if t then (offset + 1) ∷ later else later) i 0 ≡ offset + suc j
    → ((m : ℕ) → m < n → offset + 1 < get_or later m 0)
    → ((m l : ℕ) → m < n → get_or later m 0 ≡ offset + 1 + suc l → get_or bs l 0 ≡ b'\n')
    → get_or (b ∷ bs) j 0 ≡ b'\n'
start_newline-step true offset zero zero n later b bs e h g late ih = ground arith
start_newline-step true offset zero (suc j) n later b bs e h g late ih = absurd (omega arith)
start_newline-step true offset (suc i) zero n later b bs e h g late ih =
    let l : offset + 1 < get_or later i 0 = late i (omega arith) in absurd (omega arith)
start_newline-step true offset (suc i) (suc j) n later b bs e h g late ih =
    ih i j (omega arith) (omega arith)
start_newline-step false offset i zero n later b bs e h g late ih =
    let l : offset + 1 < get_or later i 0 = late i h in absurd (omega arith)
start_newline-step false offset i (suc j) n later b bs e h g late ih = ih i j h (omega arith)

-- A start that is behind a byte is behind a newline.
start-newline :
    (offset i j : ℕ) (s : Bytes)
    → i < newlines s
    → get_or (starts_from offset s) i 0 ≡ offset + suc j
    → get_or s j 0 ≡ b'\n'
unfolding newlines starts_from
start-newline offset i j [] h e = absurd (omega arith)
start-newline offset i j (b ∷ bs) h e =
    start_newline-step (b == b'\n') offset i j (newlines bs) (starts_from (offset + 1) bs) b bs refl
      h e (λ m. starts-late (offset + 1) m bs) (λ m n. start-newline (offset + 1) m n bs)

searched : (ss : List ℕ) (i k : ℕ) → search ss k ≡ i → i < length ss → k < get_or ss i 0
unfolding search
searched [] i k e h = absurd (omega arith)
searched (s ∷ ss) i k e h = elim (Bool-cases (ltb k s)) [
  | inl q ↦ let z : i ≡ 0 = ground arith in rw z (ground arith)
  | inr q ↦
      let z : i ≡ suc (search ss k) = ground arith in
      rw z (searched ss (search ss k) k refl (omega arith))
]

pub newlines-length : (s : Bytes) → newlines s ≤ length s
unfolding newlines
newlines-length [] = omega arith
newlines-length (b ∷ bs) =
    if_elim (λ n. n ≤ suc (length bs)) (b == b'\n') (λ _. omega (arith, newlines-length bs))
      (λ _. omega (arith, newlines-length bs))

one_more : (t : Bool) (m n : ℕ) → m ≤ n → (if t then suc m else m) ≤ (if t then suc n else n)
one_more true m n h = omega arith
one_more false m n h = h

pub newlines-take : (k : ℕ) (s : Bytes) → newlines (take k s) ≤ newlines s
unfolding newlines
newlines-take zero s = omega arith
newlines-take (suc k) [] = omega arith
newlines-take (suc k) (b ∷ bs) =
    one_more (b == b'\n') (newlines (take k bs)) (newlines bs) (newlines-take k bs)

pub length-last_line : (s : Bytes) → length (last_line s) ≤ length s
length-last_line s =
    let (front, e) = last_line-append s in
    omega (arith, ap length e, length-append front (last_line s))

pub line_offset :
    (content : Bytes) (k : ℕ)
    → k ≤ length content
    → get_or (line_starts content) (newlines (take k content)) 0
        + length (last_line (take k content))
      ≡ k
unfolding line_starts
line_offset content k h =
    let t : Bytes = take k content in
    let n : length t ≡ k = omega (arith, length-take k content) in
    ap (λ i. i + length (last_line t)) (start_of 0 0 k content h)
    ∙ if_elim (λ i. i + length (last_line t) ≡ k) (ltb 0 (newlines t))
        (λ _. omega (arith, length-last_line t))
        (λ e. omega (arith, ap length (last_line_alone t (ground arith))))

-- The next newline is not in front of the offset.
next-after :
    (content : Bytes) (k : ℕ)
    → newlines (take k content) < newlines content
    → k < get_or (line_starts content) (newlines (take k content) + 1) 0
unfolding line_starts
next-after content k h =
    let n : newlines (take k content) + 1 ≡ suc (newlines (take k content)) = omega arith in
    let z : 0 + k ≡ k = omega arith in
    rw n (
      searched (starts_from 0 content) (newlines (take k content)) k
        (ap (search (starts_from 0 content)) (sym z) ∙ search-starts_from 0 k content)
        (omega (arith, length-starts_from 0 content)))

newline-byte :
    (content : Bytes) (line : ℕ)
    → line < newlines content
    → get_or content (get_or (line_starts content) (line + 1) 0 - 1) 0 ≡ b'\n'
unfolding line_starts
newline-byte content line h =
    let n : line + 1 ≡ suc line = omega arith in
    let later : 0 < get_or (starts_from 0 content) line 0 = starts-late 0 line content h in
    rw n (start-newline 0 line (get_or (starts_from 0 content) line 0 - 1) content h (omega arith))

-- An offset that is not between a CR and an LF is not behind the end of its line's content.
pub line_end-whole :
    (content : Bytes) (k : ℕ)
    → k ≤ length content
    → splits_crlf content k ≡ false
    → k ≤ line_end content (line_starts content) (newlines (take k content))
unfolding line_end splits_crlf
line_end-whole content k h w =
    let line : ℕ = newlines (take k content) in
    let start : ℕ = get_or (line_starts content) line 0 in
    let newline : ℕ = get_or (line_starts content) (line + 1) 0 - 1 in
    if_elim (λ e. k ≤ e) (ltb (line + 1) (length (line_starts content)))
      (λ c.
        let less : line < newlines content = ground (arith, length-line_starts content) in
        let after = next-after content k less in
        let lf : get_or content newline 0 ≡ b'\n' = newline-byte content line less in
        if_elim (λ e. k ≤ e) (ltb start newline && get_or content (newline - 1) 0 == b'\r')
          (λ g.
            let cr : get_or content (newline - 1) 0 ≡ b'\r' = ground arith in
            elim (Bool-cases (k == newline)) [
              | inl e ↦
                  let same : k ≡ newline = ground arith in
                  let no : (get_or content (newline - 1) 0 == b'\r'
                        && get_or content newline 0 == b'\n')
                      ≡ false =
                    subst
                      (λ i.
                        (get_or content (i - 1) 0 == b'\r' && get_or content i 0 == b'\n') ≡ false)
                      same w in
                  absurd (ground arith)
              | inr e ↦ let differ : k ≢ newline = ground arith in omega arith
            ])
          (λ _. omega arith))
      (λ _. h)

get_or-inside : (s : Bytes) (k : ℕ) → get_or s k 0 ≡ b'\n' → k < length s
get_or-inside [] k h = absurd (omega arith)
get_or-inside (b ∷ bs) zero h = omega arith
get_or-inside (b ∷ bs) (suc k) h = omega (arith, get_or-inside bs k h)

-- The line of an offset in front of which stands a CR begins in front of the CR.
start-before_cr :
    (content : Bytes) (j : ℕ)
    → suc j ≤ length content
    → get_or content j 0 ≡ b'\r'
    → get_or (line_starts content) (newlines (take (suc j) content)) 0 ≤ j
start-before_cr content j h cr =
    let same : newlines (take (suc j) content) ≡ newlines (take j content) =
      ground (arith, newlines-next j content (omega arith)) in
    rw same (omega (arith, line_offset content j (omega arith)))

-- Between a CR and an LF it is right behind that end.
pub line_end-split :
    (content : Bytes) (k : ℕ)
    → splits_crlf content k ≡ true
    → line_end content (line_starts content) (newlines (take k content)) + 1 ≡ k
unfolding line_end splits_crlf
line_end-split content zero w = absurd (ground arith)
line_end-split content (suc j) w =
    let k : ℕ = suc j in
    let line : ℕ = newlines (take k content) in
    let start : ℕ = get_or (line_starts content) line 0 in
    let newline : ℕ = get_or (line_starts content) (line + 1) 0 - 1 in
    let p : suc j - 1 ≡ j = omega arith in
    let both : (get_or content j 0 == b'\r' && get_or content k 0 == b'\n') ≡ true =
      subst (λ i. (get_or content i 0 == b'\r' && get_or content k 0 == b'\n') ≡ true) p w in
    let cr : get_or content j 0 ≡ b'\r' = ground arith in
    let lf : get_or content k 0 ≡ b'\n' = ground arith in
    let inside : k < length content = get_or-inside content k lf in
    let next : newlines (take (suc k) content) ≡ suc line =
      ground (arith, newlines-next k content inside) in
    let less : line < newlines content = omega (arith, newlines-take (suc k) content) in
    let one : line + 1 ≡ newlines (take (suc k) content) = omega arith in
    let upto : get_or (line_starts content) (line + 1) 0 ≤ suc k =
      rw one (omega (arith, line_offset content (suc k) (omega arith))) in
    let here : newline ≡ k = omega (arith, next-after content k less) in
    let before : start ≤ j = start-before_cr content j (omega arith) cr in
    let before_here : newline - 1 ≡ j = omega arith in
    if_elim (λ e. e + 1 ≡ k) (ltb (line + 1) (length (line_starts content)))
      (λ c.
        if_elim (λ e. e + 1 ≡ k) (ltb start newline && get_or content (newline - 1) 0 == b'\r')
          (λ g. omega arith)
          (λ g.
            let no : (ltb start newline && get_or content j 0 == b'\r') ≡ false =
              subst (λ i. (ltb start newline && get_or content i 0 == b'\r') ≡ false) before_here
                g in
            absurd (ground arith)))
      (λ c. absurd (ground (arith, length-line_starts content)))

-- An offset inside a CRLF is on the line that the CR ends.
pub before_crlf-line :
    (content : Bytes) (k : ℕ)
    → newlines (take (before_crlf content k) content) ≡ newlines (take k content)
unfolding before_crlf splits_crlf
before_crlf-line content zero = ground arith
before_crlf-line content (suc j) =
    let p : suc j - 1 ≡ j = omega arith in
    if_elim (λ i. newlines (take i content) ≡ newlines (take (suc j) content))
      (splits_crlf content (suc j)) {x = suc j - 1} {y = suc j}
      (λ w.
        let both : (get_or content j 0 == b'\r' && get_or content (suc j) 0 == b'\n') ≡ true =
          subst (λ i. (get_or content i 0 == b'\r' && get_or content (suc j) 0 == b'\n') ≡ true) p
            w in
        let cr : get_or content j 0 ≡ b'\r' = ground arith in
        let lf : get_or content (suc j) 0 ≡ b'\n' = ground arith in
        let inside = get_or-inside content (suc j) lf in
        rw p (ground (arith, newlines-next j content (omega arith))))
      (λ _. refl)

-- Where the end of its line's content is not in front of it, an offset stays, else it goes to that end.
pub line_end-clamp :
    (content : Bytes) (k start : ℕ)
    → k ≤ length content
    → start ≤ before_crlf content k
    → (let end = line_end content (line_starts content) (newlines (take k content)) in
        if ltb (end - start) (k - start) then end - start else k - start)
      ≡ before_crlf content k - start
unfolding before_crlf
line_end-clamp content k start h s = elim (Bool-cases (splits_crlf content k)) [
  | inl e ↦ let same = line_end-split content k e in ground arith
  | inr e ↦ let whole = line_end-whole content k h e in ground arith
]

pub before_crlf-le : (content : Bytes) (k : ℕ) → before_crlf content k ≤ k
unfolding before_crlf
before_crlf-le content k = ground arith
