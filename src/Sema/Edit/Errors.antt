-- ===== src/Sema/Edit/Errors.antt =====
-- sema/edit.go: the error of `Apply`.
use thrift_ls.Common.Int.{ℤ, pos, negsuc}
use thrift_ls.Common.{
  leb, ◌&&◌, ◌>>=◌, ℕ, ◌≡◌, refl, ap, subst, ◌∙◌, Bool, true, false, List, [], ◌∷◌, Option, none,
  some, Bytes, if◌then◌else◌, length, arith,
}
use thrift_ls.Sema.Edit.{
  Edit, Fix, Piece, pieces_of, piece_at, with_candidate, candidate, Candidate, Checked, bad, good,
  check_fixes, verdicts, Outcome, failed, done, finish, apply,
}

-- An edit's range lies inside a content of `n` bytes.
unfoldable pub lies_in : ℕ → ℤ → ℤ → Bool
lies_in n (pos s) (pos e) = leb s e && leb e n
lies_in n _ _ = false

unfoldable pub all_in : ℕ → List Edit → Bool
unfolding lies_in
all_in n [] = true
all_in n (e ∷ es) = lies_in n e.start e.end && all_in n es

-- The title of the first fix with an edit outside the content.
unfoldable pub first_outside : ℕ → List Fix → Option Bytes
unfolding all_in
first_outside n [] = none
first_outside n (f ∷ fs) = if all_in n f.edits then first_outside n fs else some f.title

unfoldable pub error_of : Outcome → Option Bytes
error_of (failed t) = some t
error_of (done out did skipped) = none

holds {ℓ} : {A : Type ℓ} → Option A → Bool
holds none = false
holds (some x) = true

holds-cons :
    (o : Option Piece) (r : Option (List Piece))
    → holds (o >>= λ p. r >>= λ ps. some (p ∷ ps)) ≡ holds o && holds r
unfolding holds
holds-cons none r = refl
holds-cons (some p) none = refl
holds-cons (some p) (some ps) = refl

piece_at-holds : (n : ℕ) (s e : ℤ) (t : Bytes) → holds (piece_at n s e t) ≡ lies_in n s e
unfolding piece_at holds lies_in
piece_at-holds n (pos s) (pos e) t = ground arith
piece_at-holds n (pos s) (negsuc e) t = refl
piece_at-holds n (negsuc s) e t = refl

pieces_of-holds : (n : ℕ) (es : List Edit) → holds (pieces_of n es) ≡ all_in n es
unfolding pieces_of holds all_in
pieces_of-holds n [] = refl
pieces_of-holds n (e ∷ es) =
    holds-cons (piece_at n e.start e.end e.new_text) (pieces_of n es)
    ∙ ap (λ b. b && holds (pieces_of n es)) (piece_at-holds n e.start e.end e.new_text)
    ∙ ap (λ b. lies_in n e.start e.end && b) (pieces_of-holds n es)

checked_error : Checked → Option Bytes
checked_error (bad t) = some t
checked_error (good cs) = none

with_candidate-error :
    (c : Candidate) (r : Checked) → checked_error (with_candidate c r) ≡ checked_error r
unfolding with_candidate checked_error
with_candidate-error c (bad t) = refl
with_candidate-error c (good cs) = refl

check_one-error :
    (f : Fix) (o : Option (List Piece)) (b : Bool) (r : Checked) (later : Option Bytes)
    → holds o ≡ b
    → checked_error r ≡ later
    → checked_error (elim o [ none ↦ bad f.title | some ps ↦ with_candidate (candidate f ps) r ])
      ≡ (if b then later else some f.title)
unfolding holds checked_error candidate
check_one-error f none b r later h e =
    subst (λ c. some f.title ≡ (if c then later else some f.title)) h refl
check_one-error f (some ps) b r later h e =
    subst
      (λ c. checked_error (with_candidate (candidate f ps) r) ≡ (if c then later else some f.title))
      h (with_candidate-error (candidate f ps) r ∙ e)

check_fixes-error : (n : ℕ) (fs : List Fix) → checked_error (check_fixes n fs) ≡ first_outside n fs
unfolding check_fixes checked_error first_outside
check_fixes-error n [] = refl
check_fixes-error n (f ∷ fs) =
    check_one-error f (pieces_of n f.edits) (all_in n f.edits) (check_fixes n fs)
      (first_outside n fs) (pieces_of-holds n f.edits) (check_fixes-error n fs)

finish-error :
    (content : Bytes) (r : Checked)
    → error_of (elim r [ bad t ↦ failed t | good cs ↦ finish content (verdicts [] cs) ])
      ≡ checked_error r
unfolding error_of checked_error finish
finish-error content (bad t) = refl
finish-error content (good cs) = refl

-- Apply fails exactly where an edit of a fix does not lie in the content, and its error names the first
-- such fix.
pub apply-error :
    (content : Bytes) (fixes : List Fix)
    → error_of (apply content fixes) ≡ first_outside (length content) fixes
unfolding apply
apply-error content fixes =
    finish-error content (check_fixes (length content) fixes)
    ∙ check_fixes-error (length content) fixes
