-- ===== src/Sema/Edit/Splice.antt =====
-- sema/edit.go: the last loop of `Apply`. From the back it gives what replacing all at once gives.
use thrift_ls.Common.{
  ℕ, zero, suc, ◌+◌, ◌-◌, ◌≤◌, ◌≡◌, refl, sym, ap, ◌∙◌, List, [], ◌∷◌, ◌++◌, Bytes, length, take,
  drop, arith, take-add, take-append-drop, append_assoc,
}
use thrift_ls.Sema.Edit.{Piece, splice, splice_all}

-- The content from an offset on, with each piece's text in place of its range.
unfoldable pub replace_from : ℕ → Bytes → List Piece → Bytes
replace_from from content [] = drop from content
replace_from from content (e ∷ es) =
    take (e.start - from) (drop from content) ++ e.text ++ replace_from e.end content es

-- The pieces come in order from an offset on, none of them over another, and end in the content.
unfoldable pub Chain : ℕ → ℕ → List Piece → Type 0
Chain from n [] = from ≤ n
Chain from n (e ∷ es) = (from ≤ e.start) × (e.start ≤ e.end) × Chain e.end n es

Chain-le : (from n : ℕ) (es : List Piece) → Chain from n es → from ≤ n
unfolding Chain
Chain-le from n [] h = h
Chain-le from n (e ∷ es) (h, k, c) = omega (arith, Chain-le e.end n es c)

take_of_take : (m n : ℕ) (s t : Bytes) → m ≤ n → n ≤ length s → take m (take n s ++ t) ≡ take m s
take_of_take zero n s t h k = refl
take_of_take (suc m) zero s t h k = absurd (omega arith)
take_of_take (suc m) (suc n) [] t h k = absurd (omega arith)
take_of_take (suc m) (suc n) (x ∷ xs) t h k =
    ap (◌∷◌ x) (take_of_take m n xs t (omega arith) (omega arith))

drop_of_take : (n : ℕ) (s t : Bytes) → n ≤ length s → drop n (take n s ++ t) ≡ t
drop_of_take zero s t k = refl
drop_of_take (suc n) [] t k = absurd (omega arith)
drop_of_take (suc n) (x ∷ xs) t k = drop_of_take n xs t (omega arith)

take_up : (m n : ℕ) (s : Bytes) → m ≤ n → take m s ++ take (n - m) (drop m s) ≡ take n s
take_up m n s h =
    let e : m + (n - m) ≡ n = omega arith in sym (take-add m (n - m) s) ∙ ap (λ k. take k s) e

splice_all-replace :
    (from : ℕ) (content : Bytes) (es : List Piece)
    → Chain from (length content) es
    → splice_all content es ≡ take from content ++ replace_from from content es
unfolding splice_all replace_from Chain
splice_all-replace from content [] h = sym (take-append-drop from content)
splice_all-replace from content (e ∷ es) (h, k, c) =
    let rest : Bytes = replace_from e.end content es in
    let inside : e.end ≤ length content = Chain-le e.end (length content) es c in
    let step : splice e (take e.end content ++ rest) ≡ take e.start content ++ e.text ++ rest =
      rw (take_of_take e.start e.end content rest k inside)
        (ap (λ d. take e.start content ++ e.text ++ d) (drop_of_take e.end content rest inside)) in
    ap (splice e) (splice_all-replace e.end content es c)
    ∙ step
    ∙ ap (λ t. t ++ e.text ++ rest) (sym (take_up from e.start content h))
    ∙ ap (λ t. t ++ rest)
        (append_assoc (take from content) (take (e.start - from) (drop from content)) e.text)
    ∙ append_assoc (take from content) (take (e.start - from) (drop from content) ++ e.text) rest

pub splice_all-replaces :
    (content : Bytes) (es : List Piece)
    → Chain 0 (length content) es
    → splice_all content es ≡ replace_from 0 content es
splice_all-replaces content es h = splice_all-replace 0 content es h
