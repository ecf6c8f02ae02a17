-- ===== src/Syntax/Parser/State.antt =====
-- syntax/parser.go: the parser's state and its token helpers. The place of the parser is the list of the
-- tokens from `pos` on, with `pos`. A step returns `none` where the source would index past its tokens,
-- or where the fuel of a loop runs out, which has no counterpart in the source.
pub mod Sealed
pub mod Moves
pub mod Steps
pub mod Rules
use Prim.Native.String.{String}
use thrift_ls.Common.{
  ℕ, zero, suc, ◌+◌, ◌-◌, Bool, true, false, not, ◌&&◌, ◌||◌, List, [], ◌∷◌, ◌++◌, Option, none,
  some, if◌then◌else◌, Bytes, length, ◌>>=◌, codes,
}
use thrift_ls.Syntax.Token.{
  Token, TokenKind, Severity, Error, Message, error, warning, expected, deprecated, is_comment,
  is_kind,
}
use thrift_ls.Syntax.Tree.{Identifier, NodeBase}

-- `parser`
pub record Parser : Type 0 where
  pub rest : List Token
  pub pos : ℕ
  pub errs : List Error

-- The comments in front of the next real token.
unfoldable pub comments : List Token → ℕ
comments [] = 0
comments (t ∷ ts) = let n = suc (comments ts) in if is_comment t.kind then n else 0

-- The tokens from the next real one on.
unfoldable pub reals : List Token → List Token
reals [] = []
reals (t ∷ ts) = let later = reals ts in if is_comment t.kind then later else t ∷ ts

-- `nextReal(p.pos)`
unfoldable pub next_real : Parser → ℕ
unfolding comments
next_real p = p.pos + comments p.rest

-- Past the last token, where the source has none.
abbrev no_token : Token
no_token = record {
  kind = TokenKind.eof;
  text = [];
  offset = 0;
  line = 0;
  col = 0;
  blank_lines_before = 0;
}

unfoldable pub head_or_none : List Token → Token
head_or_none [] = no_token
head_or_none (t ∷ ts) = t

-- `cur`
unfoldable pub cur : Parser → Token
unfolding reals head_or_none
cur p = head_or_none (reals p.rest)

-- `at`
unfoldable pub at : Parser → TokenKind → Bool
unfolding cur is_kind
at p k = is_kind (cur p).kind k

unfoldable pub step : Parser → List Token → Option (Token × Parser)
unfolding next_real
step p [] = none
step p (t ∷ ts) = some (t, record p { rest = ts; pos = suc (next_real p) })

-- `advance`
unfoldable pub advance : Parser → Option (Token × Parser)
unfolding step reals
advance p = step p (reals p.rest)

unfoldable pub tail_or_none : List Token → List Token
tail_or_none [] = []
tail_or_none (t ∷ ts) = ts

-- `peekAfter(nextReal(p.pos))`
unfoldable pub peek_after : Parser → TokenKind
unfolding reals head_or_none tail_or_none
peek_after p = (head_or_none (reals (tail_or_none (reals p.rest)))).kind

-- `errorfTok`
unfoldable pub error_tok : Token → Message → Parser → Parser
error_tok t m p =
    let e : Error = record {
      message = m;
      offset = t.offset;
      line = t.line;
      col = t.col;
      severity = error;
    } in
    record p { errs = p.errs ++ (e ∷ []) }

-- `errorfCur`
unfoldable pub error_cur : Message → Parser → Parser
unfolding error_tok cur
error_cur m p = error_tok (cur p) m p

-- `errorfCur("expected %s, got %q", what, p.cur().Text)`
unfoldable pub error_expected : String → Parser → Parser
unfolding error_cur
error_expected what p = error_cur (expected what (cur p).text) p

-- `warnf`
unfoldable pub warn : Token → String → Parser → Parser
warn t m p =
    let e : Error = record {
      message = deprecated m;
      offset = t.offset;
      line = t.line;
      col = t.col;
      severity = warning;
    } in
    record p { errs = p.errs ++ (e ∷ []) }

-- `accept`
unfoldable pub accept : TokenKind → Parser → Option (Option Token × Parser)
unfolding at advance
accept k p =
    let taken = advance p >>= λ (t, q). some (some t, q) in if at p k then taken else some (none, p)

-- `expect`
unfoldable pub expect : TokenKind → String → Parser → Option (Bool × Parser)
unfolding at advance error_expected
expect k what p =
    let taken = advance p >>= λ (t, q). some (true, q) in
    if at p k then taken else some (false, error_expected what p)

unfoldable pub contains : List TokenKind → TokenKind → Bool
unfolding is_kind
contains [] k = false
contains (l ∷ ls) k = is_kind k l || contains ls k

-- The loop of `synchronizeTo`.
unfoldable pub synchronize : ℕ → List TokenKind → Parser → Option Parser
unfolding at contains cur advance
synchronize zero kinds p = none
synchronize (suc f) kinds p =
    let later = advance p >>= λ (t, q). synchronize f kinds q in
    if at p TokenKind.eof then some p else if contains kinds (cur p).kind then some p else later

-- `synchronizeTo`; every round takes a token
unfoldable pub synchronize_to : List TokenKind → Parser → Option Parser
unfolding synchronize
synchronize_to kinds p = synchronize (suc (length p.rest)) kinds p

-- `recoverEntry`
unfoldable pub recover_entry : TokenKind → Parser → Option Parser
unfolding synchronize_to at advance
recover_entry term p = synchronize_to (TokenKind.comma ∷ TokenKind.semicolon ∷ term ∷ []) p >>= λ q.
    let past = advance q >>= λ (t, r). some r in
    if not (at q term) && not (at q TokenKind.eof) then past else some q

-- `acceptSeparator`; no separator is the kind 0
unfoldable pub accept_separator : Parser → Option (TokenKind × Parser)
unfolding at advance cur
accept_separator p =
    let taken = advance p >>= λ (t, q). some (t.kind, q) in
    if at p TokenKind.comma || at p TokenKind.semicolon then taken else some (TokenKind.invalid, p)

-- The range of a node from the token at the place of `p` to the one that `q` took last, `q.pos - 1`.
abbrev pub range : Parser → Parser → NodeBase
range p q = record { first = next_real p; last = q.pos - 1 }

-- `identifier`
unfoldable pub identifier : Parser → Option (Identifier × Parser)
unfolding advance next_real
identifier p = advance p >>= λ (t, q).
    some (record { base = record { first = next_real p; last = next_real p }; text = t.text }, q)

-- `expectIdentifier`
unfoldable pub expect_identifier : String → Parser → Option (Option Identifier × Parser)
unfolding at error_expected identifier
expect_identifier what p =
    let taken = identifier p >>= λ (i, q). some (some i, q) in
    if at p TokenKind.identifier then taken else some (none, error_expected what p)

-- `if x == nil { p.synchronizeTo(kinds); return nil }`, and what comes behind it
unfoldable pub need :
    {A B : Type 0}
    → List TokenKind
    → Option (Option A × Parser)
    → (A → Parser → Option (Option B × Parser))
    → Option (Option B × Parser)
unfolding synchronize_to
need kinds m k = m >>= λ (x, q). elim x [
  | none ↦ synchronize_to kinds q >>= λ r. some (none, r)
  | some a ↦ k a q
]

-- The same for `if !ok { … return nil }`.
unfoldable pub need_true :
    {B : Type 0}
    → List TokenKind
    → Option (Bool × Parser)
    → (Parser → Option (Option B × Parser))
    → Option (Option B × Parser)
unfolding synchronize_to
need_true kinds m k = m >>= λ (ok, q).
    let failed = synchronize_to kinds q >>= λ r. some (none, r) in
    let on = k q in if ok then on else failed
