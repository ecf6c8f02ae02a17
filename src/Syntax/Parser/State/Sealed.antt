-- ===== src/Syntax/Parser/State/Sealed.antt =====
-- syntax/parser.go: token lists that end in TokenEOF, the comments in them, and errors that are no warnings.
use thrift_ls.Common.{
  ℕ, suc, ◌+◌, ◌≤◌, ◌<◌, ◌≡◌, refl, ap, inl, inr, Bool, true, false, List, [], ◌∷◌, ◌++◌,
  if◌then◌else◌, length, if_elim, Bool-cases, arith,
}
use thrift_ls.Syntax.Parser.State.{comments, reals}
use thrift_ls.Syntax.Token.{
  Token, TokenKind, Error, Severity, is_comment, is_kind, kind_code, error, warning,
}

-- The last token is of kind TokenEOF.
unfoldable pub Sealed : List Token → Type 0
unfolding is_kind kind_code
Sealed [] = ⊥
Sealed (t ∷ []) = is_kind t.kind TokenKind.eof ≡ true
Sealed (t ∷ u ∷ ts) = Sealed (u ∷ ts)

unfoldable pub is_error : Severity → Bool
is_error error = true
is_error warning = false

-- The errors that are no warnings.
unfoldable pub failures : List Error → ℕ
unfolding is_error
failures [] = 0
failures (e ∷ es) = if is_error e.severity then suc (failures es) else failures es

pub failures-append : (es ds : List Error) → failures (es ++ ds) ≡ failures es + failures ds
unfolding failures
failures-append [] ds = omega arith
failures-append (e ∷ es) ds = let rest = failures-append es ds in ground arith

pub comments-append : (ts us : List Token) → comments (ts ++ us) ≤ length ts + comments us
unfolding comments
comments-append [] us = omega arith
comments-append (t ∷ ts) us = let rest = comments-append ts us in ground arith

-- The comments in front of the next real token.
pub reals-split :
    (ts : List Token) → (cs : List Token) × (ts ≡ cs ++ reals ts) × (length cs ≡ comments ts)
unfolding comments reals
reals-split [] = ([], refl, refl)
reals-split (t ∷ ts) =
    let (cs, split, count) = reals-split ts in
    elim (Bool-cases (is_comment t.kind)) [
      | inl h ↦ (t ∷ cs, rw h (ap (◌∷◌ t) split), rw h (ap suc count))
      | inr h ↦ ([], rw h, rw h)
    ]

comment_not_eof : (k : TokenKind) → is_kind k TokenKind.eof ≡ true → is_comment k ≡ false
unfolding is_comment is_kind kind_code
comment_not_eof k h = ground arith

pub Sealed-reals : (ts : List Token) → Sealed ts → Sealed (reals ts)
unfolding Sealed reals
Sealed-reals [] h = h
Sealed-reals (t ∷ []) h = rw (comment_not_eof t.kind h) h
Sealed-reals (t ∷ u ∷ ts) h =
    if_elim Sealed (is_comment t.kind) (λ _. Sealed-reals (u ∷ ts) h) (λ _. h)

pub Sealed-length : (ts : List Token) → Sealed ts → 0 < length ts
unfolding Sealed
Sealed-length [] h = absurd h
Sealed-length (t ∷ ts) h = omega arith

pub Sealed-tail :
    (t : Token) (ts : List Token)
    → Sealed (t ∷ ts)
    → is_kind t.kind TokenKind.eof ≡ false
    → Sealed ts
unfolding Sealed
Sealed-tail t [] h n = absurd (cc)
Sealed-tail t (u ∷ ts) h n = h

pub reals-drop : (g ts : List Token) → length g ≤ comments (g ++ ts) → reals (g ++ ts) ≡ reals ts
unfolding comments reals
reals-drop [] ts h = refl
reals-drop (t ∷ g) ts h = elim (Bool-cases (is_comment t.kind)) [
  | inl c ↦ let i : length g ≤ comments (g ++ ts) = ground arith in rw c (reals-drop g ts i)
  | inr c ↦ absurd (ground arith)
]
