-- ===== src/Syntax/Parser/Values/Ends.antt =====
-- syntax/parser.go: `parseConstValue` ends.
use thrift_ls.Common.{
  ℕ, zero, suc, ◌+◌, ◌*◌, ◌≤◌, ◌≡◌, refl, false, some, length, Returns, returns, Returns-bind,
  Returns-if, arith, ◌>>=◌, ◌||◌, Returns-elim,
}
use thrift_ls.Syntax.Parser.State.{Parser, cur, at, recover_entry}
use thrift_ls.Syntax.Parser.State.Moves.{Moved, Moved-refl, step-Moved, error_expected-Moved, slack}
use thrift_ls.Syntax.Parser.State.Sealed.{Sealed}
use thrift_ls.Syntax.Parser.State.Steps.{
  Goes, Tried, advance-Goes, expect-Passed, recover_entry-Takes, accept_separator-Goes,
}
use thrift_ls.Syntax.Parser.State.Rules.{
  Outcome-elim, Checked-if, Passed-forget, Goes-after, Tried-after,
}
use thrift_ls.Syntax.Parser.Values.{
  scalar_kind, parse_scalar, const_value, list_items, map_items, parse_const_value,
}
use thrift_ls.Syntax.Token.{TokenKind, is_kind, kind_code}
use thrift_ls.Syntax.Tree.{ScalarKind}

scalar_not_eof :
    (k : TokenKind) (s : ScalarKind) → scalar_kind k ≡ some s → is_kind k TokenKind.eof ≡ false
unfolding scalar_kind is_kind kind_code
scalar_not_eof k s h = ground arith

-- What the three functions do with enough fuel.
abbrev ValueEnds : ℕ → Type 0
ValueEnds f =
    (p : Parser)
    → Sealed p.rest
    → 2 * length p.rest + 1 ≤ f
    → Returns (Tried p 0 0) (const_value f p)

abbrev ListEnds : ℕ → Type 0
ListEnds f =
    (p : Parser) → Sealed p.rest → 2 * length p.rest + 2 ≤ f → Returns (Goes p 0 0) (list_items f p)

abbrev MapEnds : ℕ → Type 0
MapEnds f =
    (p : Parser) → Sealed p.rest → 2 * length p.rest + 2 ≤ f → Returns (Goes p 0 0) (map_items f p)

module _ (f : ℕ) (values : ValueEnds f) (lists : ListEnds f) (maps : MapEnds f) where
  value_ends : ValueEnds (suc f)
  unfolding const_value parse_scalar at
  value_ends p s n =
      Returns-elim (scalar_kind (cur p).kind)
        (λ h.
          Returns-if (at p TokenKind.lbracket)
            (λ y. Returns-bind (advance-Goes (Moved-refl s) TokenKind.lbracket y refl) (λ (t, q) i.
              Returns-bind (Goes-after i (lists q i.sealed (omega (arith, i.taken)))) (λ (vs, r) j.
                Returns-bind (expect-Passed j TokenKind.rbracket _ refl)
                  (λ (ok, u) l. returns (Passed-forget ok l)))))
            (λ w.
              Returns-if (at p TokenKind.lbrace)
                (λ y.
                  Returns-bind (advance-Goes (Moved-refl s) TokenKind.lbrace y refl) (λ (t, q) i.
                    Returns-bind (Goes-after i (maps q i.sealed (omega (arith, i.taken))))
                      (λ (vs, r) j.
                        Returns-bind (expect-Passed j TokenKind.rbrace _ refl)
                          (λ (ok, u) l. returns (Passed-forget ok l)))))
                (λ z. returns (error_expected-Moved _ (Moved-refl s)))))
        (λ k h.
          Returns-bind (step-Moved (Moved-refl s) (scalar_not_eof (cur p).kind k h))
            (λ (t, q) i. returns i))

  -- The rounds behind an entry, well-formed or not.
  more_values :
      {p q : Parser} → 2 * length p.rest ≤ f → Moved p 1 0 q → Returns (Goes p 0 0) (list_items f q)
  more_values n m = Goes-after (slack m) (lists _ m.sealed (omega (arith, m.taken)))

  more_entries :
      {p q : Parser} → 2 * length p.rest ≤ f → Moved p 1 0 q → Returns (Goes p 0 0) (map_items f q)
  more_entries n m = Goes-after (slack m) (maps _ m.sealed (omega (arith, m.taken)))

  list_ends : ListEnds (suc f)
  unfolding list_items
  list_ends p s n =
      Returns-if (at p TokenKind.rbracket || at p TokenKind.eof) (λ y. returns (Moved-refl s))
        (λ z. Returns-bind (values p s (omega (arith, n))) (λ (x, q) i.
          Outcome-elim x i
            (λ j.
              Returns-bind (recover_entry-Takes TokenKind.rbracket z j)
                (λ r l. more_values (omega (arith, n)) l))
            (λ a j. Returns-bind (accept_separator-Goes j) (λ (k, r) l.
              Returns-bind (more_values (omega (arith, n)) l) (λ (vs, u) o. returns o)))))

  map_ends : MapEnds (suc f)
  unfolding map_items
  map_ends p s n =
      let recover : (at p TokenKind.rbrace || at p TokenKind.eof) ≡ false
          → (k e : ℕ) (q : Parser) → Moved p k e q
          → Returns (Goes p 0 0) (recover_entry TokenKind.rbrace q >>= λ r. map_items f r) =
        λ z k e q j.
          Returns-bind (recover_entry-Takes TokenKind.rbrace z j)
            (λ r l. more_entries (omega (arith, n)) l) in
      Returns-if (at p TokenKind.rbrace || at p TokenKind.eof) (λ y. returns (Moved-refl s))
        (λ z. Returns-bind (values p s (omega (arith, n))) (λ (x, q) i.
          Outcome-elim x i (λ j. recover z _ _ _ j)
            (λ a j. Returns-bind (expect-Passed j TokenKind.colon _ refl) (λ (ok, r) l.
              Checked-if ok l (λ o. recover z _ _ _ o)
                (λ o.
                  Returns-bind (Tried-after o (values r o.sealed (omega (arith, n, o.taken))))
                    (λ (y, t) w.
                      Outcome-elim y w (λ v. recover z _ _ _ v)
                        (λ b v. Returns-bind (accept_separator-Goes (slack (slack v))) (λ (c, u) g.
                          Returns-bind (more_entries (omega (arith, n)) g)
                            (λ (es, h) d. returns d)))))))))

all_end : (f : ℕ) → ValueEnds f × ListEnds f × MapEnds f
all_end zero = (
  (λ p s n. absurd (omega arith)),
  (λ p s n. absurd (omega arith)),
  (λ p s n. absurd (omega arith)),
)
all_end (suc f) =
    let (v, l, m) = all_end f in (value_ends f v l m, list_ends f v l m, map_ends f v l m)

pub parse_const_value-Tried :
    {p₀ p : Parser} {k e : ℕ} → Moved p₀ k e p → Returns (Tried p₀ k e) (parse_const_value p)
unfolding parse_const_value
parse_const_value-Tried {p = p} m =
    Tried-after m ((all_end (2 * length p.rest + 1)).0 p m.sealed (omega arith))
