-- ===== src/Syntax/Parser/Annotations/Ends.antt =====
-- syntax/parser.go: the annotation functions end.
use thrift_ls.Common.{
  ℕ, zero, suc, ◌<◌, ◌≡◌, refl, true, List, [], ◌∷◌, Option, none, some, length, Returns, returns,
  Returns-bind, Returns-if, Returns-mono, if_elim, arith, not, ◌||◌,
}
use thrift_ls.Syntax.Parser.State.{Parser, cur, at, next_real}
use thrift_ls.Syntax.Parser.State.Moves.{
  Moved, Moved-refl, error_expected-Moved, error_cur-Moved, error_tok-Moved, slack, pardon,
}
use thrift_ls.Syntax.Parser.State.Sealed.{Sealed}
use thrift_ls.Syntax.Parser.State.Steps.{
  Goes, advance-Goes, expect-Passed, recover_entry-Takes, accept_separator-Goes, identifier-Goes,
  expect_identifier-Tried, synchronize_to-Moved,
}
use thrift_ls.Syntax.Parser.State.Rules.{Outcome-elim, Passed-forget, Goes-after, Tried-forget}
use thrift_ls.Syntax.Parser.Values.Ends.{parse_const_value-Tried}
use thrift_ls.Syntax.Parser.Annotations.{
  is_scalar, check_scalar, literal_ends, parse_scalar_value, parse_annotation_value,
  structured_loop, parse_structured_annotations, annotation_literal, parse_annotation,
  annotation_items, parse_annotations, parse_annotations_if_present,
}
use thrift_ls.Syntax.Token.{Token, TokenKind, not_scalar}
use thrift_ls.Syntax.Tree.{ConstValue, Identifier, StructuredAnnotation}

module _ {p₀ p : Parser} {k e : ℕ} (m : Moved p₀ k e p) where
  check_scalar-Moved : (t : Token) (x : Option ConstValue) → Moved p₀ k e (check_scalar t x p)
  unfolding check_scalar
  check_scalar-Moved t none = m
  check_scalar-Moved t (some v) =
      if_elim (Moved p₀ k e) (is_scalar v) (λ y. m) (λ n. pardon (error_tok-Moved t not_scalar m))

module _ {p₀ p : Parser} {k e : ℕ} (m : Moved p₀ k e p) where
  parse_scalar_value-Goes : Returns (Goes p₀ k e) (parse_scalar_value p)
  unfolding parse_scalar_value
  parse_scalar_value-Goes = Returns-bind (parse_const_value-Tried m) (λ (x, q) i.
      Returns-bind (expect-Passed (Tried-forget x i) TokenKind.rparen _ refl)
        (λ (ok, r) j. returns (check_scalar-Moved (Passed-forget ok j) (cur p) x)))

module _ {p₀ p : Parser} {k e : ℕ} (m : Moved p₀ k e p) where
  parse_annotation_value-Goes :
      (name : Identifier) → Returns (Goes p₀ k e) (parse_annotation_value name p)
  unfolding parse_annotation_value
  parse_annotation_value-Goes name =
      Returns-if (at p TokenKind.lbrace || at p TokenKind.lbracket)
        (λ y. Returns-mono (parse_const_value-Tried m) (λ (x, q) i. Tried-forget x i))
        (λ n.
          Returns-if (at p TokenKind.lparen)
            (λ y.
              Returns-bind (advance-Goes m TokenKind.lparen y refl)
                (λ (t, q) i. Returns-mono (parse_scalar_value-Goes i) (λ (x, r) j. slack j)))
            (λ z. returns (pardon (error_cur-Moved _ m))))

  annotation_literal-Goes : Returns (Goes p₀ k e) (annotation_literal p)
  unfolding annotation_literal
  annotation_literal-Goes =
      Returns-if (at p TokenKind.equal)
        (λ y. Returns-bind (advance-Goes m TokenKind.equal y refl) (λ (t, q) i.
          Returns-if (at q TokenKind.string_literal)
            (λ z.
              Returns-bind (advance-Goes i TokenKind.string_literal z refl)
                (λ (u, r) j. returns (slack (slack j))))
            (λ z.
              Returns-bind (synchronize_to-Moved literal_ends (error_expected-Moved _ i))
                (λ r j. returns (slack (pardon j))))))
        (λ n. returns m)

-- The annotations are measured from the place of the first one.
structured_loop-Goes :
    (f : ℕ) (p : Parser)
    → Sealed p.rest
    → length p.rest < f
    → Returns (Goes p 0 0) (structured_loop f p)
unfolding structured_loop
structured_loop-Goes zero p s n = absurd (omega arith)
structured_loop-Goes (suc f) p s n =
    Returns-if (at p TokenKind.at)
      (λ y. Returns-bind (advance-Goes (Moved-refl s) TokenKind.at y refl) (λ (t, q) i.
        Returns-bind (expect_identifier-Tried i _) (λ (x, r) j.
          Outcome-elim x j (λ l. returns (slack (pardon l)))
            (λ a l. Returns-bind (parse_annotation_value-Goes (slack l) a) (λ (v, u) o.
              Returns-bind
                (Goes-after (slack o)
                  (structured_loop-Goes f u o.sealed (omega (arith, n, o.taken))))
                (λ (more, w) g. returns g))))))
      (λ z. returns (Moved-refl s))

pub parse_structured_annotations-Goes :
    {p₀ p : Parser} {k e : ℕ}
    → Moved p₀ k e p
    → Returns (Goes p₀ k e) (parse_structured_annotations p)
unfolding parse_structured_annotations
parse_structured_annotations-Goes {p = p} m =
    Goes-after m (structured_loop-Goes (suc (length p.rest)) p m.sealed (omega arith))

-- At an `@` the first annotation starts there, or there is none and an error.
abbrev pub Opened : Parser → List StructuredAnnotation × Parser → Type 0
Opened p ([], q) = Moved p 1 1 q
Opened p (a ∷ annos, q) = Moved p 1 0 q × (a.base.first ≡ next_real p)

pub parse_structured_annotations-Opened :
    (p : Parser)
    → Sealed p.rest
    → at p TokenKind.at ≡ true
    → Returns (Opened p) (parse_structured_annotations p)
unfolding parse_structured_annotations structured_loop
parse_structured_annotations-Opened p s y =
    Returns-if (at p TokenKind.at)
      (λ _. Returns-bind (advance-Goes (Moved-refl s) TokenKind.at y refl) (λ (t, q) i.
        Returns-bind (expect_identifier-Tried i _) (λ (x, r) j.
          Outcome-elim x j (λ l. returns l)
            (λ a l. Returns-bind (parse_annotation_value-Goes (slack l) a) (λ (v, u) o.
              Returns-bind
                (Goes-after o
                  (structured_loop-Goes (length p.rest) u o.sealed (omega (arith, o.taken))))
                (λ (more, w) g. returns (g, refl)))))))
      (λ z. absurd (cc))

-- An annotation starts at a name.
parse_annotation-Goes :
    {p₀ p : Parser} {k e : ℕ}
    → Moved p₀ k e p
    → at p TokenKind.identifier ≡ true
    → Returns (Goes p₀ (suc k) e) (parse_annotation p)
unfolding parse_annotation
parse_annotation-Goes m y =
    Returns-bind (identifier-Goes m TokenKind.identifier y refl) (λ (n, q) i.
      Returns-bind (annotation_literal-Goes i)
        (λ (x, r) j. Returns-bind (accept_separator-Goes j) (λ (l, u) o. returns o)))

annotation_items-Goes :
    (f : ℕ) (p : Parser)
    → Sealed p.rest
    → length p.rest < f
    → Returns (Goes p 0 0) (annotation_items f p)
unfolding annotation_items
annotation_items-Goes zero p s n = absurd (omega arith)
annotation_items-Goes (suc f) p s n =
    let more : (q : Parser) → Moved p 1 0 q → Returns (Goes p 0 0) (annotation_items f q) = λ q m.
      Goes-after (slack m) (annotation_items-Goes f q m.sealed (omega (arith, n, m.taken))) in
    Returns-if (at p TokenKind.rparen || at p TokenKind.eof) (λ y. returns (Moved-refl s))
      (λ z.
        Returns-if (not (at p TokenKind.identifier))
          (λ y.
            Returns-bind
              (recover_entry-Takes TokenKind.rparen z (error_expected-Moved _ (Moved-refl s)))
              (λ q i. more q i))
          (λ y.
            Returns-bind (parse_annotation-Goes (Moved-refl s) (ground arith))
              (λ (a, q) i. Returns-bind (more q i) (λ (later, r) j. returns j))))

pub parse_annotations-Goes :
    {p₀ p : Parser} {k e : ℕ}
    → Moved p₀ k e p
    → at p TokenKind.lparen ≡ true
    → Returns (Goes p₀ (suc k) e) (parse_annotations p)
unfolding parse_annotations
parse_annotations-Goes m y = Returns-bind (advance-Goes m TokenKind.lparen y refl) (λ (t, q) i.
    Returns-bind
      (Goes-after i (annotation_items-Goes (suc (length q.rest)) q i.sealed (omega arith)))
      (λ (list, r) j.
        Returns-bind (expect-Passed j TokenKind.rparen _ refl)
          (λ (ok, u) l. returns (Passed-forget ok l))))

pub parse_annotations_if_present-Goes :
    {p₀ p : Parser} {k e : ℕ}
    → Moved p₀ k e p
    → Returns (Goes p₀ k e) (parse_annotations_if_present p)
unfolding parse_annotations_if_present
parse_annotations_if_present-Goes {p = p} m =
    Returns-if (not (at p TokenKind.lparen)) (λ y. returns m)
      (λ n. Returns-bind (parse_annotations-Goes m (ground arith)) (λ (a, q) i. returns (slack i)))
