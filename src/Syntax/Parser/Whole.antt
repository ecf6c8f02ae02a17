-- ===== src/Syntax/Parser/Whole.antt =====
-- syntax/parser.go: `Parse`, the lexer with the parser behind it.
use thrift_ls.Common.{
  ℕ, ◌-◌, ◌≤◌, ◌≡◌, refl, ◌∙◌, true, List, [], ◌∷◌, ◌++◌, some, Bytes, length, Returns, returns,
  Returns-bind, Returns-mono, Returns-some, arith,
}
use thrift_ls.Syntax.Lexer.{lex, is_eof}
use thrift_ls.Syntax.Lexer.Lossless.{lex-EndsWithEof}
use thrift_ls.Syntax.Lexer.Run.{EndsWithEof}
use thrift_ls.Syntax.Parser.State.Sealed.{Sealed, failures, failures-append}
use thrift_ls.Syntax.Parser.Errors.{
  Rising, at_offset, sort_errors-Rising, at_offset-append, at_offset-sort_errors,
  failures-sort_errors,
}
use thrift_ls.Syntax.Parser.Nodes.{Ordered, Tiled, parse_tokens-Laid}
use thrift_ls.Syntax.Parser.{parse_tokens, sort_errors, parse}
use thrift_ls.Syntax.Token.{Token, TokenKind, Error, is_kind, kind_code}
use thrift_ls.Syntax.Tree.{Document}

eof_kind : (k : TokenKind) → is_eof k ≡ true → is_kind k TokenKind.eof ≡ true
unfolding is_eof is_kind kind_code
eof_kind k h = ground arith

Sealed-last :
    (ts : List Token) (t : Token) → is_kind t.kind TokenKind.eof ≡ true → Sealed (ts ++ t ∷ [])
unfolding Sealed
Sealed-last [] t h = h
Sealed-last (u ∷ []) t h = h
Sealed-last (u ∷ v ∷ ts) t h = Sealed-last (v ∷ ts) t h

EndsWithEof-Sealed : (ts : List Token) → EndsWithEof ts → Sealed ts
EndsWithEof-Sealed ts e = rw e.split (Sealed-last e.before e.eof (eof_kind e.eof.kind e.is_eof_eq))

parse-Laid :
    (src : Bytes)
    → Returns
        (λ (doc, errs).
          Ordered 0 doc.nodes (length doc.tokens - 1)
          × (failures errs ≤ 0 → Tiled doc.tokens 0 doc.nodes))
        (parse src)
unfolding parse failures
parse-Laid src = Returns-bind (lex-EndsWithEof src) (λ (toks, lex_errs) e.
    Returns-bind (parse_tokens-Laid toks (EndsWithEof-Sealed toks e))
      (λ (doc, parse_errs) (same, o, t).
        let count = failures-sort_errors [] (lex_errs ++ parse_errs) in
        let sum = failures-append lex_errs parse_errs in
        returns (rw same o, λ n. rw same (t (omega (arith, count, sum))))))

-- For every source `Parse` ends, and every node of the document has tokens, all in front of the last one,
-- in order and none shared.
pub parse-Ordered :
    (src : Bytes) → Returns (λ (doc, errs). Ordered 0 doc.nodes (length doc.tokens - 1)) (parse src)
parse-Ordered src = Returns-mono (parse-Laid src) (λ (doc, errs) (o, _). o)

-- Errors: where `Lex` returns the errors `lex_errs` with its tokens, and `ParseTokens` the errors
-- `parse_errs` for these, the errors of `Parse` have rising offsets, and the ones at each offset are those
-- of the lexer, in their order, and then those of the parser.
pub at_offset-parse :
    (src : Bytes) (toks : List Token) (lex_errs : List Error) (doc : Document)
    (parse_errs : List Error)
    → lex src ≡ some (toks, lex_errs)
    → parse_tokens toks ≡ some (doc, parse_errs)
    → (errs : List Error) × (parse src ≡ some (doc, errs))
      × Rising 0 errs
      × ((o : ℕ) → at_offset o errs ≡ at_offset o lex_errs ++ at_offset o parse_errs)
unfolding parse Rising at_offset
at_offset-parse src toks lex_errs doc parse_errs l p =
    let parsed : parse src ≡ some (doc, sort_errors [] (lex_errs ++ parse_errs)) =
      rw l (rw p refl) in
    (
      sort_errors [] (lex_errs ++ parse_errs),
      parsed,
      sort_errors-Rising [] (lex_errs ++ parse_errs) tt,
      λ o.
          at_offset-sort_errors o [] (lex_errs ++ parse_errs) tt
          ∙ at_offset-append o lex_errs parse_errs,
    )

-- Where `Parse` reports no error but warnings, the nodes of the document hold all its tokens up to
-- TokenEOF but comments in front of a node or behind the last one.
pub parse-Tiled :
    (src : Bytes) (doc : Document) (errs : List Error)
    → parse src ≡ some (doc, errs)
    → failures errs ≡ 0
    → Tiled doc.tokens 0 doc.nodes
parse-Tiled src doc errs e n = (Returns-some (parse-Laid src) e).1 (omega (arith, n))
