-- ===== src/Syntax/Parser/Types/Ends.antt =====
-- syntax/parser.go: `parseFieldType` ends.
use thrift_ls.Common.{
  ℕ, zero, suc, ◌+◌, ◌*◌, ◌≤◌, ◌≡◌, refl, ap, ◌∙◌, true, false, List, [], ◌∷◌, Option, some, length,
  Returns, returns, Returns-bind, Returns-if, arith, Returns-elim,
}
use thrift_ls.Syntax.Parser.State.{Parser, cur, at, error_expected, head_or_none, reals, warn}
use thrift_ls.Syntax.Parser.State.Moves.{
  Moved, Moved-refl, step-Moved, error_expected-Moved, warn-Moved, slack, pardon,
}
use thrift_ls.Syntax.Parser.State.Sealed.{Sealed}
use thrift_ls.Syntax.Parser.State.Steps.{
  Goes, Tried, advance-Goes, accept-Goes, expect-Passed, identifier-Goes, synchronize_to-Moved,
}
use thrift_ls.Syntax.Parser.State.Rules.{Outcome-elim, Goes-after, Tried-after, need_true-Returns}
use thrift_ls.Syntax.Parser.Annotations.Ends.{parse_annotations_if_present-Goes}
use thrift_ls.Syntax.Parser.Types.{
  is_base_type, deprecation_warnings, container_kind, is_map, entry_ends, parse_cpp_type,
  type_or_skip, with_key, skip_value, annotate, parse_base_type, parse_ident_type, field_type,
  type_arguments, parse_field_type,
}
use thrift_ls.Syntax.Token.{Token, TokenKind, is_kind, kind_code}
use thrift_ls.Syntax.Tree.{
  FieldType, MaybeType, ContainerKind, type_container, type_base, Annotations, NodeBase,
}

container_not_eof :
    (k : TokenKind) (c : ContainerKind)
    → container_kind k ≡ some c
    → is_kind k TokenKind.eof ≡ false
unfolding container_kind is_kind kind_code
container_not_eof k c h = ground arith

base_not_eof : (k : TokenKind) → is_base_type k ≡ true → is_kind k TokenKind.eof ≡ false
unfolding is_base_type is_kind kind_code
base_not_eof k h = ground arith

module _ {p₀ p : Parser} {k e : ℕ} (m : Moved p₀ k e p) where
  deprecation_warnings-Moved :
      (t : Token) (l : TokenKind) → Moved p₀ k e (deprecation_warnings t l p)
  unfolding deprecation_warnings
  deprecation_warnings-Moved t TokenKind.byte = warn-Moved t _ m
  deprecation_warnings-Moved t TokenKind.slist = warn-Moved t _ m
  deprecation_warnings-Moved t l = m

  parse_cpp_type-Goes : Returns (Goes p₀ k e) (parse_cpp_type p)
  unfolding parse_cpp_type
  parse_cpp_type-Goes =
      Returns-if (at p TokenKind.cpp_type)
        (λ y. Returns-bind (advance-Goes m TokenKind.cpp_type y refl) (λ (t, q) i.
          Returns-if (at q TokenKind.string_literal)
            (λ z.
              Returns-bind (advance-Goes i TokenKind.string_literal z refl)
                (λ (u, r) j. returns (slack (slack j))))
            (λ z. returns (slack (pardon (error_expected-Moved _ i))))))
        (λ n. returns m)

  skip_value-Goes : Returns (Goes p₀ k e) (skip_value p)
  unfolding skip_value
  skip_value-Goes =
      let j = error_expected-Moved "',' and a value type for map" m in
      Returns-if (at (error_expected "',' and a value type for map" p) TokenKind.gt)
        (λ y. returns (pardon j))
        (λ n. Returns-bind (synchronize_to-Moved (TokenKind.gt ∷ []) j) (λ q i. returns (pardon i)))

annotate-Tried :
    {p₀ p : Parser} {k e : ℕ} (start : Parser) (make : NodeBase → Option Annotations → FieldType)
    → Moved p₀ (suc k) e p
    → Returns (Tried p₀ k e) (annotate start make p)
unfolding annotate
annotate-Tried start make m =
    Returns-bind (parse_annotations_if_present-Goes m) (λ (a, q) i. returns i)

type_or_skip-Goes :
    {p₀ : Parser} {k e : ℕ} (kinds : List TokenKind) (m : Option (Option FieldType × Parser))
    → Returns (Tried p₀ k e) m
    → Returns (Goes p₀ k e) (type_or_skip kinds m)
unfolding type_or_skip
type_or_skip-Goes kinds m r = Returns-bind r (λ (x, q) i.
    Outcome-elim x i (λ j. Returns-bind (synchronize_to-Moved kinds j) (λ u l. returns (pardon l)))
      (λ a j. returns (slack j)))

deprecation_warnings-rest :
    (t : Token) (l : TokenKind) (p : Parser) → (deprecation_warnings t l p).rest ≡ p.rest
unfolding deprecation_warnings warn
deprecation_warnings-rest t TokenKind.byte p = refl
deprecation_warnings-rest t TokenKind.slist p = refl
deprecation_warnings-rest t l p = refl

parse_base_type-Tried :
    (p : Parser)
    → Sealed p.rest
    → at p TokenKind.eof ≡ false
    → Returns (Tried p 0 0) (parse_base_type p)
unfolding parse_base_type at cur
parse_base_type-Tried p s n =
    let same = deprecation_warnings-rest (cur p) (cur p).kind p in
    let n' : at (deprecation_warnings (cur p) (cur p).kind p) TokenKind.eof ≡ false =
      ap (λ ts. is_kind (head_or_none (reals ts)).kind TokenKind.eof) same ∙ n in
    Returns-bind (step-Moved (deprecation_warnings-Moved (Moved-refl s) (cur p) (cur p).kind) n')
      (λ (t, q) i. annotate-Tried p (λ b a. type_base b (cur p).kind a) i)

with_key-Goes :
    {p₀ : Parser} {k e : ℕ} (key : MaybeType) {m : Option (MaybeType × Parser)}
    → Returns (Goes p₀ k e) m
    → Returns (Goes p₀ k e) (with_key key m)
unfolding with_key
with_key-Goes key r = Returns-bind r (λ (value, q) i. returns i)

-- What the two functions do with enough fuel.
abbrev TypeEnds : ℕ → Type 0
TypeEnds f =
    (p : Parser)
    → Sealed p.rest
    → 2 * length p.rest + 1 ≤ f
    → Returns (Tried p 0 0) (field_type f p)

abbrev ArgumentsEnd : ℕ → Type 0
ArgumentsEnd f =
    (c : ContainerKind) (p : Parser)
    → Sealed p.rest
    → 2 * length p.rest + 2 ≤ f
    → Returns (Goes p 0 0) (type_arguments f c p)

module _ (f : ℕ) (types : TypeEnds f) (arguments : ArgumentsEnd f) where
  type_ends : TypeEnds (suc f)
  unfolding field_type parse_ident_type parse_base_type
  type_ends p s n =
      Returns-elim (container_kind (cur p).kind)
        (λ h.
          Returns-if (at p TokenKind.identifier)
            (λ y.
              Returns-bind (identifier-Goes (Moved-refl s) TokenKind.identifier y refl)
                (λ (i, q) j. returns j))
            (λ w.
              Returns-if (is_base_type (cur p).kind)
                (λ y. parse_base_type-Tried p s (base_not_eof (cur p).kind y))
                (λ z. returns (error_expected-Moved _ (Moved-refl s)))))
        (λ c h.
          Returns-bind (step-Moved (Moved-refl s) (container_not_eof (cur p).kind c h)) (λ (t, q) i.
            Returns-bind (parse_cpp_type-Goes i) (λ (cpp, r) j.
              need_true-Returns entry_ends _ (λ u l. slack l)
                (λ u l.
                  Returns-bind (Goes-after l (arguments c u l.sealed (omega (arith, n, l.taken))))
                    (λ ((kt, vt), v) o.
                      need_true-Returns entry_ends _ (λ w g. slack (slack g))
                        (λ w g.
                          annotate-Tried p (λ b a. type_container b c kt vt cpp a)
                            (slack (slack g)))
                        _ (expect-Passed o TokenKind.gt _ refl)))
                _ (expect-Passed j TokenKind.lt _ refl))))

  -- The last type of the container, and the end of its arguments.
  value_type :
      (key : MaybeType) {p q : Parser}
      → 2 * length p.rest + 1 ≤ f
      → Moved p 0 0 q
      → Returns (Goes p 0 0) (with_key key (type_or_skip (TokenKind.gt ∷ []) (field_type f q)))
  value_type key {q = q} n m = with_key-Goes key (
      type_or_skip-Goes (TokenKind.gt ∷ []) (field_type f q)
        (Tried-after m (types q m.sealed (omega (arith, n, m.taken)))))

  arguments_end : ArgumentsEnd (suc f)
  unfolding type_arguments
  arguments_end c p s n =
      Returns-if (is_map c)
        (λ y.
          Returns-bind
            (type_or_skip-Goes (TokenKind.comma ∷ TokenKind.gt ∷ []) _
              (types p s (omega (arith, n))))
            (λ (kt, q) i. Returns-bind (accept-Goes i TokenKind.comma refl) (λ (x, r) j.
              Returns-elim x (λ _. with_key-Goes kt (skip_value-Goes j))
                (λ t _. value_type kt (omega (arith, n)) j))))
        (λ z. value_type _ (omega (arith, n)) (Moved-refl s))

all_end : (f : ℕ) → TypeEnds f × ArgumentsEnd f
all_end zero = ((λ p s n. absurd (omega arith)), (λ c p s n. absurd (omega arith)))
all_end (suc f) = let (t, a) = all_end f in (type_ends f t a, arguments_end f t a)

pub parse_field_type-Tried :
    {p₀ p : Parser} {k e : ℕ} → Moved p₀ k e p → Returns (Tried p₀ k e) (parse_field_type p)
unfolding parse_field_type
parse_field_type-Tried {p = p} m =
    Tried-after m ((all_end (2 * length p.rest + 1)).0 p m.sealed (omega arith))
