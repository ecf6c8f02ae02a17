-- ===== src/Doc/Tidy.antt =====
-- The documents that print with no blank at the end of a line, and outputs that have none.
use thrift_ls.Common.{
  ℕ, zero, suc, ◌≡◌, refl, Bool, true, false, not, ◌&&◌, ◌||◌, [], ◌∷◌, ◌++◌, ◌==◌, Bytes, if_elim,
  bytes_eq, arith,
}
use thrift_ls.Doc.Printer.{is_blank, keep, trim_end, repeat}
use thrift_ls.Doc.{
  Doc, Docs, missing, text, concat, line, group, if_break, indent, align, line_suffix,
  line_suffix_boundary, trim, break_parent,
}

-- A byte of a line break.
unfoldable pub ends_line : ℕ → Bool
ends_line b = b == b'\n' || b == b'\r'

unfoldable pub no_breaks : Bytes → Bool
unfolding ends_line
no_breaks [] = true
no_breaks (b ∷ bs) = not (ends_line b) && no_breaks bs

unfoldable pub no_blanks : Bytes → Bool
unfolding is_blank
no_blanks [] = true
no_blanks (b ∷ bs) = not (is_blank b) && no_blanks bs

-- No line break comes directly behind a blank; `after` says that a blank is in front of the bytes.
unfoldable pub tidy_after : Bool → Bytes → Bool
unfolding ends_line is_blank
tidy_after after [] = true
tidy_after after (b ∷ bs) = not (after && ends_line b) && tidy_after (is_blank b) bs

unfoldable pub tidy : Bytes → Bool
unfolding tidy_after
tidy s = tidy_after false s

unfoldable pub is_missing : Doc → Bool
is_missing missing = true
is_missing _ = false

-- The documents whose texts have no line break and whose lines are not literal; nothing of them is
-- missing but a branch of an `if_break`.
unfoldable mutual
  unfolding is_missing no_breaks

  pub sound : Doc → Bool
  sound missing = false
  sound (text s) = no_breaks s
  sound (concat ds) = sound_all ds
  sound (line l) = not l.literal
  sound (group ref id d es) = sound d && sound_all es
  sound (if_break b f id) = (is_missing b || sound b) && (is_missing f || sound f)
  sound (indent d) = sound d
  sound (align n d) = sound d
  sound (line_suffix d) = sound d
  sound line_suffix_boundary = true
  sound trim = true
  sound break_parent = true

  pub sound_all : Docs → Bool
  sound_all Docs.none = true
  sound_all (Docs.some d ds) = sound d && sound_all ds

tidy_no_breaks : (after : Bool) (s : Bytes) → no_breaks s ≡ true → tidy_after after s ≡ true
unfolding no_breaks tidy_after ends_line
tidy_no_breaks after [] h = refl
tidy_no_breaks after (b ∷ bs) h = ground (arith, tidy_no_breaks (is_blank b) bs)

pub tidy-append :
    (after : Bool) (s t : Bytes)
    → tidy_after after s ≡ true
    → no_breaks t ≡ true
    → tidy_after after (s ++ t) ≡ true
unfolding tidy_after
tidy-append after [] t h k = tidy_no_breaks after t k
tidy-append after (b ∷ bs) t h k = ground (arith, tidy-append (is_blank b) bs t)

tidy-keep :
    (after : Bool) (b : ℕ) (bs : Bytes)
    → not (after && ends_line b) ≡ true
    → tidy_after (is_blank b) bs ≡ true
    → tidy_after after (keep b bs) ≡ true
unfolding tidy_after keep
tidy-keep after b [] h k = ground arith
tidy-keep after b (c ∷ cs) h k = ground arith

pub tidy-trim_end :
    (after : Bool) (s : Bytes) → tidy_after after s ≡ true → tidy_after after (trim_end s) ≡ true
unfolding tidy_after trim_end
tidy-trim_end after [] h = refl
tidy-trim_end after (b ∷ bs) h =
    tidy-keep after b (trim_end bs) (ground arith) (tidy-trim_end (is_blank b) bs (ground arith))

tidy_no_blanks :
    (after : Bool) (s : Bytes) → after ≡ false → no_blanks s ≡ true → tidy_after after s ≡ true
unfolding no_blanks tidy_after
tidy_no_blanks after [] e h = refl
tidy_no_blanks after (b ∷ bs) e h =
    let rest : tidy_after (is_blank b) bs ≡ true =
      tidy_no_blanks (is_blank b) bs (ground arith) (ground arith) in
    ground arith

pub no_breaks-append :
    (s t : Bytes) → no_breaks s ≡ true → no_breaks t ≡ true → no_breaks (s ++ t) ≡ true
unfolding no_breaks
no_breaks-append [] t h k = k
no_breaks-append (b ∷ bs) t h k = ground (arith, no_breaks-append bs t)

pub no_breaks-repeat : (s : Bytes) (n : ℕ) → no_breaks s ≡ true → no_breaks (repeat s n) ≡ true
unfolding no_breaks repeat
no_breaks-repeat s zero h = refl
no_breaks-repeat s (suc n) h = no_breaks-append s (repeat s n) h (no_breaks-repeat s n h)

-- A line break without blanks, behind what is left when the blanks at the end are gone.
tidy-keep_newline :
    (after : Bool) (b : ℕ) (ts t : Bytes)
    → not (after && ends_line b) ≡ true
    → (bytes_eq (keep b ts) [] ≡ true → after ≡ false)
    → no_blanks t ≡ true
    → ((bytes_eq ts [] ≡ true → is_blank b ≡ false) → tidy_after (is_blank b) (ts ++ t) ≡ true)
    → tidy_after after (keep b ts ++ t) ≡ true
unfolding keep tidy_after bytes_eq
tidy-keep_newline after b [] t h e k rest =
    if_elim (λ ys. (bytes_eq ys [] ≡ true → after ≡ false) → tidy_after after (ys ++ t) ≡ true)
      (is_blank b) (λ _ e. tidy_no_blanks after t (e refl) k)
      (λ plain _. let r : tidy_after (is_blank b) t ≡ true = rest (λ _. plain) in ground arith) e
tidy-keep_newline after b (c ∷ cs) t h e k rest =
    let r : tidy_after (is_blank b) (c ∷ cs ++ t) ≡ true = rest (λ q. ground arith) in ground arith

pub tidy-newline :
    (after : Bool) (s t : Bytes)
    → tidy_after after s ≡ true
    → (bytes_eq (trim_end s) [] ≡ true → after ≡ false)
    → no_blanks t ≡ true
    → tidy_after after (trim_end s ++ t) ≡ true
unfolding trim_end tidy_after bytes_eq
tidy-newline after [] t h e k = tidy_no_blanks after t (e refl) k
tidy-newline after (b ∷ bs) t h e k =
    tidy-keep_newline after b (trim_end bs) t (ground arith) e k
      (λ e'. tidy-newline (is_blank b) bs t (ground arith) e' k)
