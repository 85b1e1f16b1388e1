-- ===== src/Gov/Ctrler/Blocks.antt =====
-- ctrlers/gov/{ctrler,ctrler_block,ctrler_punish}.go: what the governance controller does at the ends
-- of a block: it slashes voters, freezes the proposals whose voting is over, and applies the due ones.
use beatoz_go.Base.{
  ℕ, true, Option, none, some, List, [], ◌∷◌, ◌++◌, Result, ok, err, panic, Status, ◌>>=◌, ◌==◌,
  if◌then◌else◌,
}
use beatoz_go.Base.Words.{add64, slt64, sle64}
use beatoz_go.Base.Bytes.{Bytes}
use beatoz_go.Ledger.Mutable.{Action, attempt}
use beatoz_go.Ledger.Keys.{
  ledger_key_proposal, ledger_key_frozen_prop, ledger_key_gov_params, key_prefix_proposal,
  key_prefix_frozen_prop,
}
use beatoz_go.Ledger.Map.{Store}
use beatoz_go.Ledger.Map.Removal.{del_all}
use beatoz_go.Ledger.Map.Seek.{Seeker}
use beatoz_go.Gov.Proposal.{Proposal, find_voter, do_slash}
use beatoz_go.Gov.Majority.{update_major_option}
use beatoz_go.Gov.Params.{GovParams, merge_gov_params}
use beatoz_go.Gov.Ctrler.{
  GovItem, params_item, proposal_item, as_proposal, or_nil, proposal_govparams, GovCtrler, on_state,
}

-- What freezeProposals collects: the proposals to freeze, their keys, and the keys to remove.
pub record Frozen : Type 0 where
  pub new_frozens : List Proposal
  pub frozen_props : List Bytes
  pub removed_props : List Bytes

-- What applyProposals changes: the next parameters and the keys of what was applied.
pub record Applied : Type 0 where
  pub next_params : Option GovParams
  pub applied : List Bytes

-- What doSlash collects.
pub record Slashed : Type 0 where
  pub slash_power : ℕ
  pub updated : List Proposal

abbrev pub frozen_key : Proposal → Bytes
frozen_key p = ledger_key_frozen_prop p.header.tx_hash

abbrev pub proposal_key : Proposal → Bytes
proposal_key p = ledger_key_proposal p.header.tx_hash

module _ (s : Store GovItem) where
  -- The deferred writes, whose results are dropped.
  abbrev pub set_all : (Proposal → Bytes) → List Proposal → s.State → s.State
  set_all key [] st = st
  set_all key (p ∷ ps) st = set_all key ps (s.set (key p) (proposal_item p) true st).1

  -- The deferred write of the next parameters.
  abbrev pub set_params : Option GovParams → s.State → s.State
  set_params none st = st
  set_params (some g) st = (s.set ledger_key_gov_params (params_item g) true st).1

module _ (s : Store GovItem) (k : Seeker s) (parse_params : Bytes → Result GovParams) where
  -- The callback of freezeProposals.
  unfoldable pub freeze_one : ℕ → Bytes → GovItem → Frozen → Status × Frozen
  freeze_one height key item f = attempt (as_proposal item) f λ p.
      if slt64 p.header.end_voting_height height
      then (attempt (update_major_option p) f λ p'. elim p'.major_option [
        | some o ↦ (
          ok tt,
          record f {
            new_frozens = f.new_frozens ++ (p' ∷ []);
            frozen_props = f.frozen_props ++ (key ∷ []);
          },
        )
        | none ↦ (ok tt, record f { removed_props = f.removed_props ++ (key ∷ []) })
      ])
      else (ok tt, f)

  -- (*GovCtrler).freezeProposals, with its deferred writes.
  unfoldable pub freeze_proposals :
      ℕ → Action (GovCtrler s k parse_params) (List Bytes × List Bytes)
  unfolding freeze_one
  freeze_proposals height c =
      let (r, f) =
        k.seek Frozen (key_prefix_proposal ∷ []) (freeze_one height) true c.gov_state
          (record { new_frozens = []; frozen_props = []; removed_props = [] }) in
      let c' : (GovCtrler s k parse_params) = record c {
        gov_state =
            del_all s f.removed_props
              (del_all s f.frozen_props (set_all s frozen_key f.new_frozens c.gov_state));
      } in
      (do _ ← r; ok (f.frozen_props, f.removed_props), c')

  -- The callback of applyProposals. `g` is the current parameters, which it does not change.
  unfoldable pub apply_one : GovParams → ℕ → Bytes → GovItem → Applied → Status × Applied
  unfolding merge_gov_params
  apply_one g height key item a = attempt (as_proposal item) a λ p.
      let done : Applied = record a { applied = a.applied ++ (key ∷ []) } in
      if sle64 p.header.apply_height height
      then (if p.header.prop_type == proposal_govparams
          then (attempt (do o ← or_nil p.major_option; parse_params o.option) a
              λ g'. (ok tt, record done { next_params = some (merge_gov_params g g') }))
          else (ok tt, done))
      else (ok tt, a)

  -- (*GovCtrler).applyProposals, with its deferred writes.
  unfoldable pub apply_proposals : ℕ → Action (GovCtrler s k parse_params) (List Bytes)
  unfolding apply_one
  apply_proposals height c =
      let (r, a) =
        k.seek Applied (key_prefix_frozen_prop ∷ []) (apply_one c.gov_params height) true
          c.gov_state (record { next_params = c.new_gov_params; applied = [] }) in
      let c' : (GovCtrler s k parse_params) = record c {
        new_gov_params = a.next_params;
        gov_state = del_all s a.applied (set_params s a.next_params c.gov_state);
      } in
      (do _ ← r; ok a.applied, c')

  -- (*GovCtrler).EndBlock
  unfoldable pub end_block : ℕ → Action (GovCtrler s k parse_params) (Unit {0})
  end_block height c =
      let (r, c') = freeze_proposals height c in
      attempt r c'
        λ _. let (r', c'') = apply_proposals height c' in attempt r' c'' λ _. (ok tt, c'')

  -- (*GovCtrler).Commit; the ledger's own Commit is `commit_state`.
  unfoldable pub commit :
      Action s.State (Bytes × ℕ) → Action (GovCtrler s k parse_params) (Bytes × ℕ)
  commit commit_state c =
      let (r, c') = on_state s k parse_params commit_state c in
      attempt r c' λ saved. elim c.new_gov_params [
        | some g ↦ (ok saved, record c' { gov_params = g; new_gov_params = none })
        | none ↦ (ok saved, c')
      ]

  -- The callback of doSlash. The one error of DoSlash is a missing voter, which is excluded here.
  unfoldable pub slash_one : Bytes → ℕ → Bytes → GovItem → Slashed → Status × Slashed
  slash_one target rate key item a = attempt (as_proposal item) a λ p.
      elim (find_voter target p.header.voters) [
        | none ↦ (ok tt, a)
        | some v ↦ attempt (do_slash target rate p) a λ q. (
          ok tt,
          record { slash_power = add64 a.slash_power q.0; updated = a.updated ++ (q.1 ∷ []) },
        )
      ]

  -- (*GovCtrler).doSlash, with its deferred writes. What Seek returns is dropped.
  unfoldable pub slash_all : Bytes → Action (GovCtrler s k parse_params) ℕ
  unfolding slash_one
  slash_all target c =
      let (r, a) =
        k.seek Slashed (key_prefix_proposal ∷ []) (slash_one target c.gov_params.slash_rate) true
          c.gov_state (record { slash_power = 0; updated = [] }) in
      let c' : (GovCtrler s k parse_params) = record c {
        gov_state = set_all s proposal_key a.updated c.gov_state;
      } in
      elim r [
        | panic ↦ (panic, c')
        | err e ↦ (ok a.slash_power, c')
        | ok _ ↦ (ok a.slash_power, c')
      ]

  -- (*GovCtrler).BeginBlock, for the addresses of the block's Byzantine validators.
  unfoldable pub begin_block : List Bytes → Action (GovCtrler s k parse_params) (Unit {0})
  begin_block [] c = (ok tt, c)
  begin_block (target ∷ rest) c =
      let (r, c') = slash_all target c in
      elim r [ panic ↦ (panic, c') | err e ↦ begin_block rest c' | ok _ ↦ begin_block rest c' ]
