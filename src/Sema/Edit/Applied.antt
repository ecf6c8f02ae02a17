-- ===== src/Sema/Edit/Applied.antt =====
-- sema/edit.go: what `Apply` returns.
use thrift_ls.Common.{◌+◌, ◌≡◌, subst, ◌∙◌, Bool, List, [], Bytes, length, arith}
use thrift_ls.Sema.Edit.Accept.{all_requested, ReadyFor, check_fixes-ReadyFor}
use thrift_ls.Sema.Edit.Count.{count, count-append, count-sort_by}
use thrift_ls.Sema.Edit.Splice.{Chain, replace_from, splice_all-replaces}
use thrift_ls.Sema.Edit.{
  Fix, Piece, sort_by, by_place, Checked, bad, good, check_fixes, Verdict, verdicts, pieces_in,
  early_in, late_in, Outcome, failed, done, finish, apply,
}
use thrift_ls.Sema.Edit.Chosen.{Chosen, verdicts-Chosen, sorted-Chain}

-- What `Apply` promises of its results.
pub record Applied (content : Bytes) (fixes : List Fix) (out : Bytes) (did skipped : List Fix)
    : Type 0 where
  pub pieces : List Piece
  in_order : Chain 0 (length content) pieces
  replaced : out ≡ replace_from 0 content pieces
  asked : (P : Piece → Bool) → count P pieces ≡ count P (all_requested (length content) did)
  parted : (P : Fix → Bool) → count P did + count P skipped ≡ count P fixes

pub Delivers : Bytes → List Fix → Outcome → Type 0
Delivers content fixes (failed t) = Unit
Delivers content fixes (done out did skipped) = Applied content fixes out did skipped

finish-Delivers :
    (content : Bytes) (fixes : List Fix) (vs : List Verdict)
    → Chosen (length content) [] vs fixes
    → Delivers content fixes (finish content vs)
unfolding finish Delivers
finish-Delivers content fixes vs c =
    let chain : Chain 0 (length content) (sort_by by_place (pieces_in vs)) =
      sorted-Chain (length content) vs fixes c in
    record {
      pieces = sort_by by_place (pieces_in vs);
      in_order = chain;
      replaced = splice_all-replaces content (sort_by by_place (pieces_in vs)) chain;
      asked = λ P. count-sort_by P by_place (pieces_in vs) ∙ c.same P;
      parted = λ P. omega (arith, c.parted P, count-append P (early_in vs) (late_in vs));
    }

deliver :
    (content : Bytes) (fixes : List Fix) (r : Checked)
    → ReadyFor (length content) fixes r
    → Delivers content fixes
        (elim r [ bad t ↦ failed t | good cs ↦ finish content (verdicts [] cs) ])
unfolding ReadyFor Delivers
deliver content fixes (bad t) h = tt
deliver content fixes (good cs) (h, e) = finish-Delivers content fixes (verdicts [] cs) (
    subst (Chosen (length content) [] (verdicts [] cs)) e
      (verdicts-Chosen (length content) [] cs tt h))

-- Where Apply does not fail, its output is the content with pieces put in place of their ranges all at
-- once. The pieces lie in the content, in order, none over another. They are, as often as each occurs, those
-- that the edits of the applied fixes ask for. Each fix is among the applied and the skipped ones
-- together as often as it was given.
pub apply-Delivers :
    (content : Bytes) (fixes : List Fix) → Delivers content fixes (apply content fixes)
unfolding apply
apply-Delivers content fixes =
    deliver content fixes (check_fixes (length content) fixes)
      (check_fixes-ReadyFor (length content) fixes)
