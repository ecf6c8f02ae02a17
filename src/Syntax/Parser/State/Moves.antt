-- ===== src/Syntax/Parser/State/Moves.antt =====
-- syntax/parser.go: how the helpers move the place of the parser, for tokens that end in TokenEOF. A step
-- is measured from a place `p₀`: at least `k` tokens were taken and at least `e` errors were reported.
use thrift_ls.Common.{
  ℕ, suc, ◌+◌, ◌≤◌, ◌<◌, ◌≡◌, refl, ap, sym, ◌∙◌, ◌⊎◌, inl, inr, Bool, true, false, List, [], ◌∷◌,
  ◌++◌, length, append_assoc, length-append, Returns, returns, ltb, ltb→lt, Bool-cases, arith,
}
use Prim.Native.String.{String}
use thrift_ls.Syntax.Parser.State.{
  error_tok, error_cur, error_expected, warn, Parser, comments, reals, next_real, cur, at, advance,
  step, head_or_none,
}
use thrift_ls.Syntax.Token.{Token, TokenKind, Message, is_kind}
use thrift_ls.Syntax.Parser.State.Sealed.{
  Sealed, Sealed-reals, Sealed-tail, comments-append, failures, failures-append, reals-drop,
  reals-split,
}

pub record Moved (p₀ : Parser) (k e : ℕ) (p : Parser) : Type 0 where
  pub gone : List Token
  pub rest_eq : p₀.rest ≡ gone ++ p.rest
  pub pos_eq : p.pos ≡ p₀.pos + length gone
  pub taken : length p.rest + k ≤ length p₀.rest
  pub past : (k ≡ 0) ⊎ (next_real p₀ < p.pos)
  pub failed : failures p₀.errs + e ≤ failures p.errs
  pub sealed : Sealed p.rest

pub Moved-refl : {p : Parser} → Sealed p.rest → Moved p 0 0 p
Moved-refl {p} h = record {
  gone = [];
  rest_eq = refl;
  pos_eq = omega arith;
  taken = omega arith;
  past = inl refl;
  failed = omega arith;
  sealed = h;
}

pub next_real_le : {p₀ p : Parser} {k e : ℕ} → Moved p₀ k e p → next_real p₀ ≤ next_real p
unfolding next_real
next_real_le {p₀} {p} m =
    let c : comments p₀.rest ≤ length m.gone + comments p.rest =
      rw m.rest_eq (comments-append m.gone p.rest) in
    omega (arith, c, m.pos_eq)

pub Moved-trans :
    {p q r : Parser} {k e l d : ℕ} → Moved p k e q → Moved q l d r → Moved p (k + l) (e + d) r
Moved-trans {p} {q} {r} m n = record {
  gone = m.gone ++ n.gone;
  rest_eq = m.rest_eq ∙ ap (◌++◌ m.gone) n.rest_eq ∙ sym (append_assoc m.gone n.gone r.rest);
  pos_eq = omega (arith, m.pos_eq, n.pos_eq, length-append m.gone n.gone);
  taken = omega (arith, m.taken, n.taken);
  past =
      let h = m.past in
      let i = n.past in let j = next_real_le m in ground (arith, m.pos_eq, n.pos_eq);
  failed = omega (arith, m.failed, n.failed);
  sealed = n.sealed;
}

-- Fewer tokens, fewer errors.
pub Moved-le : {p q : Parser} {k e l d : ℕ} → l ≤ k → d ≤ e → Moved p k e q → Moved p l d q
Moved-le {p} {q} {k} {e} {l} {d} hk he m = record {
  gone = m.gone;
  rest_eq = m.rest_eq;
  pos_eq = m.pos_eq;
  taken = omega (arith, m.taken);
  past = let h = m.past in ground arith;
  failed = omega (arith, m.failed);
  sealed = m.sealed;
}

step_at :
    {p₀ : Parser} {k e : ℕ} (p : Parser)
    → Moved p₀ k e p
    → (ts cs : List Token) → p.rest ≡ cs ++ ts
    → length cs ≡ comments p.rest
    → Sealed ts
    → is_kind (head_or_none ts).kind TokenKind.eof ≡ false
    → Returns (λ (t, q). Moved p₀ (suc k) e q) (step p ts)
unfolding step head_or_none Sealed next_real
step_at p m [] cs split count h n = absurd h
step_at {p₀} p m (t ∷ ts) cs split count h n =
    let len : length p.rest ≡ length cs + suc (length ts) =
      ap length split ∙ length-append cs (t ∷ ts) in
    let far = next_real_le m in
    returns (record {
      gone = m.gone ++ (cs ++ t ∷ []);
      rest_eq =
          m.rest_eq
          ∙ ap (◌++◌ m.gone) (split ∙ sym (append_assoc cs (t ∷ []) ts))
          ∙ sym (append_assoc m.gone (cs ++ t ∷ []) ts);
      pos_eq =
          omega (
            arith,
            m.pos_eq,
            count,
            length-append m.gone (cs ++ t ∷ []),
            length-append cs (t ∷ []),
          );
      taken = omega (arith, m.taken, len);
      past = inr (omega (arith, far));
      failed = m.failed;
      sealed = Sealed-tail t ts h n;
    })

pub step-Moved :
    {p₀ p : Parser} {k e : ℕ}
    → Moved p₀ k e p
    → at p TokenKind.eof ≡ false
    → Returns (λ (t, q). Moved p₀ (suc k) e q) (advance p)
unfolding at cur advance
step-Moved {p₀} {p} m h =
    let (cs, split, count) = reals-split p.rest in
    step_at p m (reals p.rest) cs split count (Sealed-reals p.rest m.sealed) h

pub slack : {p q : Parser} {k e : ℕ} → Moved p (suc k) e q → Moved p k e q
slack m = Moved-le (omega arith) (omega arith) m

pub pardon : {p q : Parser} {k e : ℕ} → Moved p k (suc e) q → Moved p k e q
pardon m = Moved-le (omega arith) (omega arith) m

pub error_tok-Moved :
    {p₀ p : Parser} {k e : ℕ} (t : Token) (x : Message)
    → Moved p₀ k e p
    → Moved p₀ k (suc e) (error_tok t x p)
unfolding error_tok failures
error_tok-Moved {p₀} {p} t x m = record {
  gone = m.gone;
  rest_eq = m.rest_eq;
  pos_eq = m.pos_eq;
  taken = m.taken;
  past = m.past;
  failed = rw (failures-append p.errs) (omega (arith, m.failed));
  sealed = m.sealed;
}

pub warn-Moved :
    {p₀ p : Parser} {k e : ℕ} (t : Token) (x : String) → Moved p₀ k e p → Moved p₀ k e (warn t x p)
unfolding warn failures
warn-Moved {p₀} {p} t x m = record {
  gone = m.gone;
  rest_eq = m.rest_eq;
  pos_eq = m.pos_eq;
  taken = m.taken;
  past = m.past;
  failed = rw (failures-append p.errs) (omega (arith, m.failed));
  sealed = m.sealed;
}

pub error_cur-Moved :
    {p₀ p : Parser} {k e : ℕ} (x : Message) → Moved p₀ k e p → Moved p₀ k (suc e) (error_cur x p)
unfolding error_cur
error_cur-Moved {p₀} {p} x m = error_tok-Moved (cur p) x m

pub error_expected-Moved :
    {p₀ p : Parser} {k e : ℕ} (x : String)
    → Moved p₀ k e p
    → Moved p₀ k (suc e) (error_expected x p)
unfolding error_expected
error_expected-Moved x m = error_cur-Moved _ m

-- Where the current token passes a test that it did not pass before, a token was taken.
pub turned-Moved :
    {p₀ p : Parser} {k e : ℕ}
    → Moved p₀ k e p
    → (test : TokenKind → Bool) → test (cur p₀).kind ≡ false
    → test (cur p).kind ≡ true
    → Moved p₀ 1 e p
unfolding cur next_real
turned-Moved {p₀} {p} m test n y =
    let len : length p₀.rest ≡ length m.gone + length p.rest =
      ap length m.rest_eq ∙ length-append m.gone p.rest in
    let c : comments p₀.rest ≡ comments (m.gone ++ p.rest) = ap comments m.rest_eq in
    elim (Bool-cases (ltb (p₀.pos + comments p₀.rest) p.pos)) [
      | inl h ↦ record {
        gone = m.gone;
        rest_eq = m.rest_eq;
        pos_eq = m.pos_eq;
        taken = let i = ltb→lt (p₀.pos + comments p₀.rest) p.pos h in omega (arith, m.pos_eq, len);
        past = inr (ltb→lt (p₀.pos + comments p₀.rest) p.pos h);
        failed = m.failed;
        sealed = m.sealed;
      }
      | inr h ↦
          let i : length m.gone ≤ comments (m.gone ++ p.rest) = ground (arith, m.pos_eq) in
          let same : reals p₀.rest ≡ reals p.rest =
            ap reals m.rest_eq ∙ reals-drop m.gone p.rest i in
          absurd (cc)
    ]
