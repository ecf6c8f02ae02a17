-- ===== src/Syntax/Parser/Layout.antt =====
-- syntax/parser.go: the nodes of a document lie in the tokens one behind the other.
use thrift_ls.Common.{
  ℕ, suc, ◌≤◌, ◌<◌, ◌≡◌, ◌⊎◌, inl, inr, true, false, List, [], ◌∷◌, Option, none, some, Returns,
  returns, Returns-bind, Returns-if, Returns-mono, arith, ◌||◌,
}
use thrift_ls.Syntax.Parser.State.{Parser, cur, at, next_real, contains}
use thrift_ls.Syntax.Parser.State.Moves.{
  Moved, Moved-le, Moved-trans, Moved-refl, error_cur-Moved, slack, next_real_le,
}
use thrift_ls.Syntax.Parser.State.Sealed.{Sealed, failures}
use thrift_ls.Syntax.Parser.State.Steps.{stops, synchronize_to-Takes, synchronize_to-Moved}
use thrift_ls.Syntax.Parser.Annotations.Ends.{Opened, parse_structured_annotations-Opened}
use thrift_ls.Syntax.Parser.Definitions.Built.{
  Built, parse_include-Built, parse_cpp_include-Built, parse_namespace-Built, parse_const-Built,
  parse_typedef-Built, parse_enum-Built, parse_struct-Built, parse_service-Built,
}
use thrift_ls.Syntax.Parser.{
  definition_kinds, skip_to_definition, parse_definition, attach, attach_structured,
  parse_annotated, parse_node,
}
use thrift_ls.Syntax.Token.{TokenKind, Message, is_kind, kind_code}
use thrift_ls.Syntax.Tree.{Node, StructuredAnnotation}

-- Either an error, or a node in front of the new place that starts at the current token, or, with an
-- error, later.
unfoldable pub Placed : ℕ → Parser → Option Node × Parser → Type 0
Placed k p (none, q) = Moved p k 1 q
Placed k p (some n, q) =
    Moved p 1 0 q
    × (next_real p ≤ n.base.first)
    × (n.base.first ≤ n.base.last)
    × (suc n.base.last ≡ q.pos)
    × (n.base.first ≡ next_real p ⊎ failures p.errs < failures q.errs)

Built-Placed : (p : Parser) (x : Option Node) (q : Parser) → Built p (x, q) → Placed 1 p (x, q)
unfolding Built Placed
Built-Placed p none q m = m
Built-Placed p (some n) q (m, first, last) =
    let past = m.past in (m, omega (arith, first), ground (arith, first, last), last, inl first)

Placed-slack : (p : Parser) (x : Option Node) (q : Parser) → Placed 1 p (x, q) → Placed 0 p (x, q)
unfolding Placed
Placed-slack p none q m = slack m
Placed-slack p (some n) q h = h

-- The annotations come first.
attached :
    (p a : Parser) (annos : List StructuredAnnotation) (x : Option Node) (q : Parser)
    → Opened p (annos, a)
    → Placed 0 a (x, q)
    → Placed 1 p (attach_structured annos x, q)
unfolding Placed attach_structured attach
attached p a [] none q m n = Moved-le (omega arith) (omega arith) (Moved-trans m n)
attached p a (b ∷ annos) none q (m, _) n = Moved-le (omega arith) (omega arith) (Moved-trans m n)
attached p a [] (some d) q m (n, first, last, ends, _) =
    let j = next_real_le m in
    let e : failures p.errs < failures q.errs = omega (arith, m.failed, n.failed) in
    (
      Moved-le (omega arith) (omega arith) (Moved-trans m n),
      omega (arith, first),
      last,
      ends,
      inr e,
    )
attached p a (b ∷ annos) (some d) q (m, start) (n, first, last, ends, _) =
    let j = next_real_le m in
    (
      Moved-le (omega arith) (omega arith) (Moved-trans m n),
      omega (arith, start),
      omega (arith, start, first, last),
      ends,
      inl start,
    )

Built-Placed' :
    (p : Parser) {m : Option (Option Node × Parser)} → Returns (Built p) m → Returns (Placed 1 p) m
Built-Placed' p r = Returns-mono r (λ (x, q) b. Built-Placed p x q b)

skip_to_definition-Placed :
    (x : Message) (p : Parser)
    → Sealed p.rest
    → stops definition_kinds (cur p).kind ≡ false
    → Returns (Placed 1 p) (skip_to_definition x p)
unfolding skip_to_definition Placed
skip_to_definition-Placed x p s n =
    Returns-bind (synchronize_to-Takes definition_kinds n (error_cur-Moved x (Moved-refl s)))
      (λ q m. returns m)

skip_to_definition-Goes :
    (x : Message) (p : Parser) → Sealed p.rest → Returns (Placed 0 p) (skip_to_definition x p)
unfolding skip_to_definition Placed
skip_to_definition-Goes x p s =
    Returns-bind (synchronize_to-Moved definition_kinds (error_cur-Moved x (Moved-refl s)))
      (λ q m. returns m)

-- The kinds that `@` may stand in front of.
abbrev declaration_kinds : List TokenKind
declaration_kinds =
    TokenKind.namespace ∷ TokenKind.const ∷ TokenKind.typedef ∷ TokenKind.enum ∷ TokenKind.struct
    ∷ TokenKind.union ∷ TokenKind.exception ∷ TokenKind.service ∷ []

-- What holds of the definitions and, at no keyword of a definition, of the other case.
parse_definition-Placed :
    (p : Parser) (other : Option (Option Node × Parser)) (Q : Option Node × Parser → Type 0)
    → Sealed p.rest
    → ((m : Option (Option Node × Parser)) → Returns (Built p) m → Returns Q m)
    → (contains declaration_kinds (cur p).kind ≡ false → Returns Q other)
    → Returns Q (parse_definition other p)
unfolding parse_definition at is_kind kind_code contains
parse_definition-Placed p other Q s built rest =
    Returns-if (at p TokenKind.namespace) (λ y. built _ (parse_namespace-Built p s (ground arith)))
      (λ a.
        Returns-if (at p TokenKind.const) (λ y. built _ (parse_const-Built p s (ground arith)))
          (λ b.
            Returns-if (at p TokenKind.typedef)
              (λ y. built _ (parse_typedef-Built p s (ground arith)))
              (λ c.
                Returns-if (at p TokenKind.enum)
                  (λ y. built _ (parse_enum-Built p s (ground arith)))
                  (λ d.
                    Returns-if
                      (at p TokenKind.struct || at p TokenKind.union || at p TokenKind.exception)
                      (λ y. built _ (parse_struct-Built p s (ground arith)))
                      (λ e.
                        Returns-if (at p TokenKind.service)
                          (λ y. built _ (parse_service-Built p s (ground arith)))
                          (λ g. rest (ground arith)))))))

Opened-Sealed :
    (p : Parser) (annos : List StructuredAnnotation) (a : Parser)
    → Opened p (annos, a)
    → Sealed a.rest
Opened-Sealed p [] a m = m.sealed
Opened-Sealed p (b ∷ annos) a (m, _) = m.sealed

parse_annotated-Placed :
    (p : Parser)
    → Sealed p.rest
    → at p TokenKind.at ≡ true
    → Returns (Placed 1 p) (parse_annotated p)
unfolding parse_annotated
parse_annotated-Placed p s y =
    Returns-bind (parse_structured_annotations-Opened p s y) (λ (annos, a) m.
      let sealed = Opened-Sealed p annos a m in
      Returns-bind
        (parse_definition-Placed a _ (Placed 0 a) sealed
          (λ _ r. Returns-mono r (λ (x, q) b. Placed-slack a x q (Built-Placed a x q b)))
          (λ _. skip_to_definition-Goes _ a sealed))
        (λ (x, q) n. returns (attached p a annos x q m n)))

pub parse_node-Placed :
    (p : Parser) → Sealed p.rest → at p TokenKind.eof ≡ false → Returns (Placed 1 p) (parse_node p)
unfolding parse_node at is_kind kind_code contains
parse_node-Placed p s n =
    Returns-if (at p TokenKind.include) (λ y. Built-Placed' p (parse_include-Built p s y))
      (λ a.
        Returns-if (at p TokenKind.cpp_include)
          (λ y. Built-Placed' p (parse_cpp_include-Built p s y))
          (λ b.
            parse_definition-Placed p _ (Placed 1 p) s (λ _ r. Built-Placed' p r)
              (λ c.
                Returns-if (at p TokenKind.at) (λ y. parse_annotated-Placed p s y)
                  (λ _. skip_to_definition-Placed _ p s (ground arith)))))
