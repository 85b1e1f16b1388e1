-- ===== src/Gov/Ctrler/Orderly/EndBlock.antt =====
-- ctrlers/gov/ctrler_block.go: EndBlock succeeds on a ledger in order and leaves it in order.
use beatoz_go.Base.{
  ℕ, ◌≡◌, refl, sym, ◌∙◌, subst, Bool, true, false, Option, none, some, [], ◌∷◌, Result, ok,
  if◌then◌else◌,
}
use beatoz_go.Base.Bytes.{Bytes, bytes_eq, has_prefix}
use beatoz_go.Ledger.Keys.{
  ledger_key_proposal, ledger_key_frozen_prop, ledger_key_gov_params, key_prefix_proposal,
  key_prefix_frozen_prop,
}
use beatoz_go.Ledger.Map.{Store, IsMap}
use beatoz_go.Ledger.Map.Seek.{Seeker, IsListed}
use beatoz_go.Gov.Proposal.{Proposal}
use beatoz_go.Gov.Params.{GovParams}
use beatoz_go.Gov.Ctrler.{GovItem, proposal_item, GovCtrler, gov_keyed}
use beatoz_go.Gov.Ctrler.Blocks.{end_block}
use beatoz_go.Gov.Ctrler.Freeze.{judge}
use beatoz_go.Gov.Ctrler.Freeze.Views.{AreVotable, IsFrozenAt, freeze_proposals_exact}
use beatoz_go.Gov.Ctrler.Apply.{IsApplicable}
use beatoz_go.Gov.Ctrler.Apply.Views.{AreApplicable, IsApplied, due_now, apply_proposals_exact}
use beatoz_go.Gov.Ctrler.Orderly.{IsOpen, split_prefix, left_open-some, newly_ready}

if_none :
    (b : Bool) (o : Option GovItem) (i : GovItem) → (if b then none else o) ≡ some i → o ≡ some i
if_none true o i e = cc
if_none false o i e = e

open_not_frozen :
    (h : Bytes) → has_prefix (ledger_key_proposal h) (key_prefix_frozen_prop ∷ []) ≡ false
unfolding has_prefix ledger_key_proposal
open_not_frozen h = refl

params_not_open : (h : Bytes) → bytes_eq ledger_key_gov_params (ledger_key_proposal h) ≡ false
unfolding ledger_key_gov_params ledger_key_proposal bytes_eq
params_not_open h = refl

module _ (s : Store GovItem) (k : Seeker s) (m : IsMap s) (l : IsListed m k)
    (parse : Bytes → Result GovParams) where
  -- The side for execution: open proposals can be decided, and frozen ones applied.
  pub record IsOrderly (st : s.State) : Type 0 where
    pub is_valid : m.IsValid st
    pub open_ones :
        (h : Bytes) (item : GovItem)
        → m.view st true (ledger_key_proposal h) ≡ some item
        → (p : Proposal) × (item ≡ proposal_item p) × IsOpen parse (ledger_key_proposal h) p
    pub frozen_ones :
        (h : Bytes) (item : GovItem)
        → m.view st true (ledger_key_frozen_prop h) ≡ some item
        → IsApplicable parse (ledger_key_frozen_prop h) item

  after_freeze :
      (height : ℕ) (st st' : s.State)
      → IsOrderly st
      → IsFrozenAt s k m l parse height st st'
      → IsOrderly st'
  after_freeze height st st' ord f = record {
    is_valid = f.still_valid;
    open_ones = λ h item e. ord.open_ones h item (
        left_open-some (judge height (m.view st true (ledger_key_proposal h)))
          (m.view st true (ledger_key_proposal h)) item (sym (f.open_at h) ∙ e));
    frozen_ones = λ h item e.
        newly_ready parse height h (m.view st true (ledger_key_proposal h))
          (m.view st true (ledger_key_frozen_prop h)) item (λ i g. ord.open_ones h i g)
          (λ i g. ord.frozen_ones h i g) (sym (f.frozen_at h) ∙ e);
  }

  after_apply :
      (height : ℕ) (next : Option GovParams) (st st' : s.State)
      → IsOrderly st
      → IsApplied s k m l parse height next st st'
      → IsOrderly st'
  after_apply height next st st' ord a = record {
    is_valid = a.still_valid;
    open_ones = λ h item e.
        ord.open_ones h item
          (sym (a.elsewhere (ledger_key_proposal h) (open_not_frozen h) (params_not_open h)) ∙ e);
    frozen_ones = λ h item e. ord.frozen_ones h item (
        if_none (due_now height (m.view st true (ledger_key_frozen_prop h)))
          (m.view st true (ledger_key_frozen_prop h)) item (sym (a.frozen_at h) ∙ e));
  }

  votable : (st : s.State) → IsOrderly st → AreVotable s k m l parse st
  unfolding ledger_key_proposal
  votable st ord j item u e =
      let (h, is) = split_prefix key_prefix_proposal j u in
      let (p, is_p, o) = ord.open_ones h item (subst (λ y. m.view st true y ≡ some item) is e) in
      (p, is_p, is ∙ o.key_is, o.some_there)

  applicable : (st : s.State) → IsOrderly st → AreApplicable s k m l parse st
  unfolding ledger_key_frozen_prop
  applicable st ord j item u e =
      let (h, is) = split_prefix key_prefix_frozen_prop j u in
      subst (λ y. IsApplicable parse y item) (sym is)
        (ord.frozen_ones h item (subst (λ y. m.view st true y ≡ some item) is e))

  -- EndBlock at any height succeeds on a ledger in order, leaves it in order, and leaves the current
  -- parameters and the side for checking as they were.
  pub end_block-IsOrderly :
      (height : ℕ) (c : GovCtrler s k parse)
      → IsOrderly c.gov_state
      → (c' : GovCtrler s k parse) × (end_block s k parse height c ≡ (ok tt, c'))
        × IsOrderly c'.gov_state
        × (c'.gov_params ≡ c.gov_params)
        × ((j : Bytes) → m.view c'.gov_state false j ≡ m.view c.gov_state false j)
  unfolding end_block
  end_block-IsOrderly height c ord =
      let (keys, st1, froze, f) =
        freeze_proposals_exact s k m l parse height c ord.is_valid (votable c.gov_state ord) in
      let c1 : GovCtrler s k parse = record c { gov_state = st1 } in
      let ord1 = after_freeze height c.gov_state st1 ord f in
      let (done, next, st2, applied, next_is, a) =
        apply_proposals_exact s k m l parse height c1 ord1.is_valid (applicable st1 ord1) in
      (
        record c { new_gov_params = next; gov_state = st2 },
        rw (froze, applied) refl,
        after_apply height next st1 st2 ord1 a,
        refl,
        λ j. a.checking_side j ∙ f.checking_side j,
      )
