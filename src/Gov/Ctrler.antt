-- ===== src/Gov/Ctrler.antt =====
-- ctrlers/gov/{ctrler,ctrler_block,ctrler_punish}.go: the governance controller, over a state ledger
-- of parameters and proposals. Events and logs are left out.
pub mod Blocks
pub mod Writes
pub mod Votes
mod Tests
pub mod Orderly
pub mod Apply
pub mod Opening
pub mod Proposing
pub mod Sample
mod TrxTests
pub mod Freeze
use beatoz_go.Base.{
  ℕ, Bool, true, false, not, ◌&&◌, ◌||◌, Option, none, some, List, [], ◌∷◌, ◌++◌, Result, ok, err,
  panic, Status, fail_if, ◌>>=◌, ◌>>◌, ◌==◌, length, if◌then◌else◌, invalid_trx, no_right,
  duplicated_key, invalid_payload_type, invalid_payload_params, not_voting_period, unknown_trx_type,
  not_found_result, not_found_proposal, ordinary, ◌≡◌, refl,
}
use beatoz_go.Base.Words.{add64, slt64, sle64, slt32, to_int32}
use beatoz_go.Base.Bytes.{Bytes, bytes_eq, or_empty, has_prefix}
use beatoz_go.Ledger.Mutable.{Action, attempt}
use beatoz_go.Ledger.Keys.{
  ledger_key_proposal, ledger_key_frozen_prop, ledger_key_gov_params, key_prefix_proposal,
  key_prefix_frozen_prop, key_prefix_gov_params,
}
use beatoz_go.Ledger.Map.{Store, Keyed}
use beatoz_go.Ledger.Map.Removal.{del_all}
use beatoz_go.Ledger.Map.Seek.{Seeker}
use beatoz_go.Types.Trx.{Trx, Payload, ProposalPayload, proposal, voting, trx_proposal, trx_voting}
use beatoz_go.Gov.Proposal
use beatoz_go.Gov.Proposal.{
  Proposal, Voter, new_gov_proposal, add_option, add_voter, find_voter, is_voter, do_vote, do_slash,
  with_voters,
}
use beatoz_go.Gov.Majority.{update_major_option}
use beatoz_go.Gov.Params.{GovParams, empty_params, merge_gov_params}

-- The items of the ledger (defaultNewItemFor).
pub data GovItem : Type 0 where
  params_item : GovParams → GovItem
  proposal_item : Proposal → GovItem

-- defaultNewItemFor chooses the type of an item by the prefix of its key.
abbrev pub GovFits : Bytes → GovItem → Type 0
GovFits k (params_item g) = has_prefix k (key_prefix_gov_params ∷ []) ≡ true
GovFits k (proposal_item p) =
    (has_prefix k (key_prefix_proposal ∷ []) || has_prefix k (key_prefix_frozen_prop ∷ [])) ≡ true

instance abbrev pub gov_keyed : Keyed GovItem
gov_keyed = record { fits = GovFits }

pub params_fit : (g : GovParams) → GovFits ledger_key_gov_params (params_item g)
unfolding ledger_key_gov_params has_prefix
params_fit g = refl

pub proposal_fits : (h : Bytes) (p : Proposal) → GovFits (ledger_key_proposal h) (proposal_item p)
unfolding ledger_key_proposal has_prefix
proposal_fits h p = refl

pub frozen_fits : (h : Bytes) (p : Proposal) → GovFits (ledger_key_frozen_prop h) (proposal_item p)
unfolding ledger_key_frozen_prop has_prefix
frozen_fits h p = refl

-- `prop, _ := item.(*proposal.GovProposal)`: another item gives nil, whose methods panic.
abbrev pub as_proposal : GovItem → Result Proposal
as_proposal (params_item g) = panic
as_proposal (proposal_item p) = ok p

-- types.ZeroAddress()
abbrev pub zero_address : Bytes
zero_address = 0 ∷ 0 ∷ 0 ∷ 0 ∷ 0 ∷ 0 ∷ 0 ∷ 0 ∷ 0 ∷ 0 ∷ 0 ∷ 0 ∷ 0 ∷ 0 ∷ 0 ∷ 0 ∷ 0 ∷ 0 ∷ 0 ∷ 0 ∷ []

abbrev pub proposal_payload : Option Payload → Option ProposalPayload
proposal_payload (some (proposal pl)) = some pl
proposal_payload _ = none

abbrev pub voting_payload : Option Payload → Option (Bytes × ℕ)
voting_payload (some (voting txhash choice)) = some (txhash, choice)
voting_payload _ = none

-- A payload of another type is refused where it is checked, and a nil pointer where it is not.
abbrev pub or_payload_type {ℓ} : {A : Type ℓ} → Option A → Result A
or_payload_type none = err invalid_payload_type
or_payload_type (some a) = ok a

abbrev pub or_nil {ℓ} : {A : Type ℓ} → Option A → Result A
or_nil none = panic
or_nil (some a) = ok a

-- What Get returned must be ErrNotFoundResult.
abbrev pub absent {ℓ} : {A : Type ℓ} → Result A → Status
absent panic = panic
absent (err not_found_result) = ok tt
absent (err e) = err e
absent (ok a) = err duplicated_key

-- A proposal's validator as the voting power controller lists it: its address and power.
abbrev pub add_voters : List (Bytes × ℕ) → Proposal → Proposal
add_voters [] p = p
add_voters (v ∷ vs) p = add_voters vs (with_voters (add_voter v.0 v.1 p.header.voters) p)

abbrev pub add_options : List Bytes → Proposal → Proposal
add_options [] p = p
add_options (o ∷ os) p = add_options os (add_option o p)

-- PROPOSAL_GOVPARAMS
abbrev pub proposal_govparams : ℕ
proposal_govparams = 0x0101

module _ (s : Store GovItem) (k : Seeker s) (parse_params : Bytes → Result GovParams) where
  pub record GovCtrler : Type 0 where
    pub gov_params : GovParams
    pub new_gov_params : Option GovParams
    pub gov_state : s.State

  abbrev pub on_state : {A : Type 0} → Action s.State A → Action GovCtrler A
  on_state f c = let (r, st) = f c.gov_state in (r, record c { gov_state = st })

  -- (*GovCtrler).InitLedger
  unfoldable pub init_ledger : GovParams → Action GovCtrler (Unit {0})
  init_ledger g c =
      let c' : GovCtrler = record c { gov_params = g } in
      (
        ok tt,
        record c' { gov_state = (s.set ledger_key_gov_params (params_item g) true c.gov_state).1 },
      )

  -- `jsonx.Unmarshal(option, checkGovParams)` of each option.
  unfoldable pub check_options : List Bytes → Status
  check_options [] = ok tt
  check_options (o ∷ os) = elim (parse_params o) [
    | ok g ↦ check_options os
    | err e ↦ err invalid_payload_params
    | panic ↦ panic
  ]

  -- The checks of ValidateTrx on a proposal's payload.
  unfoldable pub check_proposal : GovParams → ℕ → ProposalPayload → Status
  check_proposal g height pl = do
    fail_if (sle64 pl.start_voting_height height) invalid_payload_params
    fail_if
        (slt64 g.max_voting_period_blocks pl.voting_period_blocks
          || slt64 pl.voting_period_blocks g.min_voting_period_blocks)
        invalid_payload_params
    if pl.opt_type == proposal_govparams then check_options pl.options else ok tt
    let end_height = add64 pl.start_voting_height pl.voting_period_blocks
    fail_if (slt64 end_height pl.start_voting_height) invalid_payload_params
    fail_if
        (slt64 pl.applying_height (add64 end_height g.lazy_applying_blocks)
          || slt64 pl.applying_height end_height)
        invalid_payload_params
    fail_if (length pl.options == 0) invalid_payload_params

  -- The checks of ValidateTrx on a vote.
  unfoldable pub check_vote : Bytes → ℕ → ℕ → Proposal → Status
  check_vote from choice height p = do
    fail_if (not (is_voter from p.header.voters)) no_right
    fail_if (slt32 choice 0 || not (slt32 choice (to_int32 (length p.options))))
        invalid_payload_params
    fail_if (slt64 p.header.end_voting_height height || slt64 height p.header.start_voting_height)
        not_voting_period

  -- The two cases of (*GovCtrler).ValidateTrx. `is_validator` is the voting power controller's.
  unfoldable pub validate_proposal :
      (Bytes → Bool) → Bool → ℕ → Bytes → Trx → Action GovCtrler (Unit {0})
  unfolding check_proposal
  validate_proposal is_validator exec height txhash tx c =
      attempt
        (do
          fail_if (not (bytes_eq (or_empty tx.to) zero_address)) invalid_trx
          fail_if (not (is_validator tx.from)) no_right
          or_payload_type (proposal_payload tx.payload))
        c
        λ pl.
          let (r, c') = on_state (s.get (ledger_key_proposal txhash) exec) c in
          attempt (absent r) c' λ _. (check_proposal c.gov_params height pl, c')

  unfoldable pub validate_voting : Bool → ℕ → Trx → Action GovCtrler (Unit {0})
  unfolding check_vote
  validate_voting exec height tx c =
      attempt
        (do
          fail_if (not (bytes_eq (or_empty tx.to) zero_address)) invalid_payload_params
          or_payload_type (voting_payload tx.payload))
        c
        λ pl.
          let (r, c') = on_state (s.get (ledger_key_proposal pl.0) exec) c in
          attempt r c'
            λ item. attempt (as_proposal item) c' λ p. (check_vote tx.from pl.1 height p, c')

  -- (*GovCtrler).ValidateTrx
  unfoldable pub validate_trx :
      (Bytes → Bool) → Bool → ℕ → Bytes → Trx → Action GovCtrler (Unit {0})
  unfolding validate_proposal validate_voting
  validate_trx is_validator exec height txhash tx c =
      if tx.type == trx_proposal
      then validate_proposal is_validator exec height txhash tx c
      else if tx.type == trx_voting
      then validate_voting exec height tx c
      else (err unknown_trx_type, c)

  -- (*GovCtrler).execProposing. `vals` and `total` are the voting power controller's validators.
  unfoldable pub exec_proposing :
      List (Bytes × ℕ) → ℕ → Bool → Bytes → Trx → Action GovCtrler (Unit {0})
  exec_proposing vals total exec txhash tx c =
      attempt
        (do
          pl ← or_nil (proposal_payload tx.payload)
          prop ←
              new_gov_proposal pl.opt_type txhash pl.start_voting_height pl.voting_period_blocks
                total pl.applying_height
          ok (add_options pl.options (add_voters vals prop)))
        c
        λ prop.
          on_state (s.set (ledger_key_proposal prop.header.tx_hash) (proposal_item prop) exec) c

  -- (*GovCtrler).execVoting
  unfoldable pub exec_voting : Bool → Trx → Action GovCtrler (Unit {0})
  exec_voting exec tx c = attempt (or_nil (voting_payload tx.payload)) c λ pl.
      let (r, c') = on_state (s.get (ledger_key_proposal pl.0) exec) c in
      attempt r c' λ item.
        attempt (do p ← as_proposal item; do_vote tx.from pl.1 p) c'
          λ prop.
            on_state (s.set (ledger_key_proposal prop.header.tx_hash) (proposal_item prop) exec) c'

  -- (*GovCtrler).ExecuteTrx
  unfoldable pub execute_trx :
      List (Bytes × ℕ) → ℕ → Bool → Bytes → Trx → Action GovCtrler (Unit {0})
  unfolding exec_proposing exec_voting
  execute_trx vals total exec txhash tx c =
      if tx.type == trx_proposal
      then exec_proposing vals total exec txhash tx c
      else if tx.type == trx_voting
      then exec_voting exec tx c
      else (err unknown_trx_type, c)

  -- (*GovCtrler).ReadProposal
  unfoldable pub read_proposal : Bytes → Bool → Action GovCtrler Proposal
  read_proposal txhash exec c =
      let (r, c') = on_state (s.get (ledger_key_proposal txhash) exec) c in
      elim r [
        | ok item ↦ (as_proposal item, c')
        | err not_found_result ↦ (err not_found_proposal, c')
        | err e ↦ (err e, c')
        | panic ↦ (panic, c')
      ]
