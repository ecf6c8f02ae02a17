-- ===== src/Syntax/Parser/Nodes.antt =====
-- syntax/parser.go: the nodes of a document lie in its tokens one behind the other.
use thrift_ls.Common.{
  ℕ, zero, suc, ◌+◌, ◌-◌, ◌≤◌, ◌<◌, ◌≡◌, refl, ap, sym, subst, ◌∙◌, true, List, [], ◌∷◌, Option,
  none, some, length, drop, drop_of_append, length-append, Returns, returns, Returns-bind,
  Returns-if, Returns-mono, Returns-some, arith,
}
use thrift_ls.Syntax.Parser.State.{Parser, at, next_real, comments, reals, head_or_none}
use thrift_ls.Syntax.Parser.State.Moves.{Moved, Moved-le, Moved-trans, Moved-refl, pardon}
use thrift_ls.Syntax.Parser.State.Sealed.{Sealed, failures, Sealed-length}
use thrift_ls.Syntax.Parser.Layout.{Placed, parse_node-Placed}
use thrift_ls.Syntax.Parser.{append_node, document_loop, start_of_tokens, parse_tokens}
use thrift_ls.Syntax.Token.{Token, TokenKind, Error, is_kind}
use thrift_ls.Syntax.Tree.{Node, Document}

-- From the index `lo` on and up to `hi`, every node has tokens, and the nodes share none.
unfoldable pub Ordered : ℕ → List Node → ℕ → Type 0
Ordered lo [] hi = lo ≤ hi
Ordered lo (n ∷ ns) hi =
    (lo ≤ n.base.first) × (n.base.first ≤ n.base.last) × Ordered (suc n.base.last) ns hi

-- The nodes hold all the tokens from the index `i` on, which are `ts`, but comments in front of a node
-- and what is behind the last node: comments and TokenEOF.
unfoldable pub Tiled : List Token → ℕ → List Node → Type 0
unfolding comments reals head_or_none is_kind
Tiled ts i [] = Sealed ts × (is_kind (head_or_none (reals ts)).kind TokenKind.eof ≡ true)
Tiled ts i (n ∷ ns) =
    (n.base.first ≡ i + comments ts)
    × (n.base.first ≤ n.base.last)
    × (n.base.last < i + length ts)
    × Tiled (drop (suc n.base.last - i) ts) (suc n.base.last) ns

-- What the loop makes of the tokens from a place on.
record Laid (p : Parser) (ns : List Node) (q : Parser) : Type 0 where
  moved : Moved p 0 0 q
  ordered : Ordered p.pos ns q.pos
  tiled : failures q.errs ≤ failures p.errs → Tiled p.rest p.pos ns

Ordered-le :
    (lo lo' hi hi' : ℕ) (ns : List Node)
    → lo ≤ lo'
    → hi' ≤ hi
    → Ordered lo' ns hi'
    → Ordered lo ns hi
unfolding Ordered
Ordered-le lo lo' hi hi' [] h k o = omega arith
Ordered-le lo lo' hi hi' (n ∷ ns) h k (a, b, o) =
    (omega arith, b, Ordered-le (suc n.base.last) (suc n.base.last) hi hi' ns (omega arith) k o)

behind_node :
    (p : Parser) (x : Option Node) (q : Parser) (ns : List Node) (r : Parser)
    → Placed 1 p (x, q)
    → Laid q ns r
    → Laid p (append_node x ns) r
unfolding Placed append_node Ordered Tiled next_real
behind_node p none q ns r m l = record {
  moved = Moved-le (omega arith) (omega arith) (Moved-trans m l.moved);
  ordered = Ordered-le p.pos q.pos r.pos r.pos ns (omega (arith, m.pos_eq)) (omega arith) l.ordered;
  tiled = λ h. absurd (omega (arith, m.failed, l.moved.failed));
}
behind_node p (some n) q ns r (m, first, last, ends, early) l = record {
  moved = Moved-le (omega arith) (omega arith) (Moved-trans m l.moved);
  ordered = (omega arith, last, subst (λ i. Ordered i ns r.pos) (sym ends) l.ordered);
  tiled = λ h.
      let start : n.base.first ≡ next_real p = ground (arith, l.moved.failed) in
      let len : length p.rest ≡ length m.gone + length q.rest =
        ap length m.rest_eq ∙ length-append m.gone q.rest in
      let taken : suc n.base.last - p.pos ≡ length m.gone = omega (arith, ends, m.pos_eq) in
      let rest : drop (suc n.base.last - p.pos) p.rest ≡ q.rest =
        ap (λ i. drop i p.rest) taken
        ∙ ap (drop (length m.gone)) m.rest_eq
        ∙ drop_of_append m.gone q.rest in
      (
        start,
        last,
        omega (arith, ends, m.pos_eq, len),
        rw rest (subst (λ i. Tiled q.rest i ns) (sym ends) (l.tiled (omega (arith, m.failed)))),
      );
}

placed_moved : (p : Parser) (x : Option Node) (q : Parser) → Placed 1 p (x, q) → Moved p 1 0 q
unfolding Placed
placed_moved p none q m = pardon m
placed_moved p (some n) q (m, _, _, _, _) = m

document_loop-Laid :
    (f : ℕ) (p : Parser)
    → Sealed p.rest
    → length p.rest < f
    → Returns (λ (ns, q). Laid p ns q) (document_loop f p)
unfolding document_loop Ordered Tiled at
document_loop-Laid zero p s h = absurd (omega arith)
document_loop-Laid (suc f) p s h =
    Returns-if (at p TokenKind.eof)
      (λ y. returns (record { moved = Moved-refl s; ordered = omega arith; tiled = λ _. (s, y) }))
      (λ n. Returns-bind (parse_node-Placed p s n) (λ (x, q) m.
        Returns-bind
          (let i = placed_moved p x q m in
            document_loop-Laid f q i.sealed (omega (arith, h, i.taken)))
          (λ (ns, r) l. returns (behind_node p x q ns r m l))))

-- The tokens of the document are those given; the rest is said in the theorems below.
pub parse_tokens-Laid :
    (toks : List Token)
    → Sealed toks
    → Returns
        (λ (doc, errs).
          (doc.tokens ≡ toks)
          × Ordered 0 doc.nodes (length toks - 1)
          × (failures errs ≤ 0 → Tiled toks 0 doc.nodes))
        (parse_tokens toks)
unfolding parse_tokens failures
parse_tokens-Laid toks s =
    Returns-bind (document_loop-Laid (suc (length toks)) (start_of_tokens toks) s (omega arith))
      (λ (ns, q) l.
        let m = l.moved in
        let len : length toks ≡ length m.gone + length q.rest =
          ap length m.rest_eq ∙ length-append m.gone q.rest in
        let left = Sealed-length q.rest m.sealed in
        returns (
          refl,
          Ordered-le 0 0 (length toks - 1) q.pos ns (omega arith) (omega (arith, m.pos_eq, len))
              l.ordered,
          l.tiled,
        ))

-- For a token list that ends in TokenEOF, `ParseTokens` ends and never steps behind the last token. Every
-- node of the document has tokens, all in front of the last one, and the nodes are in order and share none.
pub parse_tokens-Ordered :
    (toks : List Token)
    → Sealed toks
    → Returns (λ (doc, errs). Ordered 0 doc.nodes (length toks - 1)) (parse_tokens toks)
parse_tokens-Ordered toks s = Returns-mono (parse_tokens-Laid toks s) (λ (doc, errs) (_, o, _). o)

-- Where `ParseTokens` reports no error but warnings for a token list that ends in TokenEOF, the nodes hold
-- all the tokens up to a TokenEOF but comments in front of a node or behind the last one.
pub parse_tokens-Tiled :
    (toks : List Token) (doc : Document) (errs : List Error)
    → Sealed toks
    → parse_tokens toks ≡ some (doc, errs)
    → failures errs ≡ 0
    → Tiled toks 0 doc.nodes
parse_tokens-Tiled toks doc errs s e n =
    (Returns-some (parse_tokens-Laid toks s) e).2 (omega (arith, n))
