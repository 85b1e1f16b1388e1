-- ===== src/Gov/Ctrler/TrxTests.antt =====
-- The governance controller over a ledger in memory: its transactions.
use beatoz_go.Base.{
  ℕ, zero, suc, ◌≡◌, ◌<◌, ◌^◌, refl, ap, Bool, true, ◌&&◌, Option, none, some, List, [], ◌∷◌, ok,
  if◌then◌else◌, arith,
}
use beatoz_go.Base.Bytes.{Bytes, bytes_eq}
use beatoz_go.Ledger.Keys.{ledger_key_proposal}
use beatoz_go.Ledger.Map.{same_side}
use beatoz_go.Ledger.Map.Seek.{entry, entry_each}
use beatoz_go.Ledger.Map.Listing.{Lists, list_store, list_seeker, list_store-IsMap}
use beatoz_go.Types.Trx.{Trx, Payload, ProposalPayload, proposal, voting, trx_proposal, trx_voting}
use beatoz_go.Gov.Proposal.{Proposal, find_voter, is_voter}
use beatoz_go.Gov.Tally.{others, votes_for, votes_at}
use beatoz_go.Gov.Voting.{IsRecount}
use beatoz_go.Gov.Invariant.{IsTallied}
use beatoz_go.Gov.Ctrler.{
  GovItem, proposal_item, zero_address, check_options, validate_proposal, exec_proposing,
  validate_voting, exec_voting, gov_keyed,
}
use beatoz_go.Gov.Ctrler.Orderly.{key_hash}
use beatoz_go.Gov.Ctrler.Votes.{AreTallied, IsAccepted, exec_voting-validate_voting}
use beatoz_go.Gov.Ctrler.Proposing.{IsProposable, IsOpened}
use beatoz_go.Gov.Ctrler.Proposing.Run.{exec_proposing-validate_proposal}
use beatoz_go.Gov.Ctrler.Sample.{ctrler, lists, lists-IsValid, parse, prop}

abbrev vote : Trx
vote = record {
  version = 1;
  time = 0;
  nonce = 0;
  from = 2 ∷ [];
  to = some zero_address;
  amount = 0;
  gas = 0;
  gas_price = 0;
  type = trx_voting;
  payload = some (voting (7 ∷ []) 1);
  sig = none;
  payer = none;
  payer_sig = none;
}

prop-IsTallied : IsTallied prop
unfolding votes_for votes_at
prop-IsTallied = record {
  recounted = recounted;
  powers_fit = (omega arith, (omega arith, tt));
  choices_fit = (omega arith, (tt, tt));
}
  where
    recounted : IsRecount prop.header.voters prop.options
    recounted zero = refl
    recounted (suc zero) = refl
    recounted (suc (suc i)) = refl

lists-AreTallied :
    AreTallied
      (list_store GovItem)
      (list_seeker GovItem)
      (list_store-IsMap GovItem)
      parse
      true
      lists
lists-AreTallied h item e =
    entry_each
      (λ j i.
        (h : Bytes)
        → j ≡ ledger_key_proposal h
        → (p : Proposal) × (i ≡ proposal_item p) × (p.header.tx_hash ≡ h) × IsTallied p)
      (lists true) (ledger_key_proposal h) item
      ((λ h e. (prop, refl, key_hash (7 ∷ []) h e, prop-IsTallied)), tt) e h refl

choice_small : (h : Bytes) (n : ℕ) → vote.payload ≡ some (voting h n) → n < 2 ^ 32
choice_small h n e = omega (arith, ap choice_of e)
  where
    choice_of : Option Payload → ℕ
    choice_of (some (voting h n)) = n
    choice_of _ = 0

exec_voting-validate_voting_example :
    (a : IsAccepted
      (list_store GovItem)
      (list_seeker GovItem)
      (list_store-IsMap GovItem)
      parse
      true
      15
      vote
      lists)
    × (p' : Proposal) × (st : Lists GovItem) × (exec_voting
          (list_store GovItem)
          (list_seeker GovItem)
          parse
          true
          vote
          (validate_voting (list_store GovItem) (list_seeker GovItem) parse true 15 vote ctrler).1
        ≡ (ok tt, record ctrler { gov_state = st }))
    × (list_store-IsMap GovItem).IsValid st
    × IsTallied p'
    × (find_voter (2 ∷ []) p'.header.voters ≡ some (record a.voter { choice = a.choice }))
    × (others (2 ∷ []) p'.header.voters ≡ others (2 ∷ []) a.prop.header.voters)
    × (p'.header ≡ record a.prop.header { voters = p'.header.voters })
    × ((y : Bool) (j : Bytes)
        → entry j (st y) ≡ (
            if same_side true y && bytes_eq (ledger_key_proposal a.hash) j
            then some (proposal_item p')
            else entry j (lists y)))
unfolding validate_voting entry bytes_eq is_voter ledger_key_proposal
exec_voting-validate_voting_example =
    exec_voting-validate_voting (list_store GovItem) (list_seeker GovItem)
      (list_store-IsMap GovItem) parse true 15 vote ctrler lists-IsValid lists-AreTallied
      choice_small refl

abbrev propose : Trx
propose = record vote {
  type = trx_proposal;
  payload = some (
      proposal (record {
        start_voting_height = 20;
        voting_period_blocks = 30;
        applying_height = 60;
        opt_type = 257;
        options = (121 ∷ []) ∷ (110 ∷ []) ∷ [];
      }));
}

abbrev vals : List (Bytes × ℕ)
vals = (1 ∷ [], 10) ∷ (2 ∷ [], 4) ∷ []

exec_proposing-validate_proposal_example :
    (pl : ProposalPayload) × (p : Proposal) × (st : Lists GovItem) × (propose.payload
      ≡ some (proposal pl))
    × (◌≡◌ {A = Bool} true true)
    × (entry (ledger_key_proposal (9 ∷ [])) (lists true) ≡ none)
    × IsProposable ctrler.gov_params 15 pl
    × IsOpened vals 14 (9 ∷ []) pl p
    × (exec_proposing
          (list_store GovItem)
          (list_seeker GovItem)
          parse
          vals
          14
          true
          (9 ∷ [])
          propose
          (validate_proposal
            (list_store GovItem)
            (list_seeker GovItem)
            parse
            (λ a. true)
            true
            15
            (9 ∷ [])
            propose
            ctrler).1
        ≡ (ok tt, record ctrler { gov_state = st }))
    × (list_store-IsMap GovItem).IsValid st
    × ((y : Bool) (j : Bytes)
        → entry j (st y) ≡ (
            if same_side true y && bytes_eq (ledger_key_proposal (9 ∷ [])) j
            then some (proposal_item p)
            else entry j (lists y)))
unfolding validate_proposal entry bytes_eq check_options ledger_key_proposal
exec_proposing-validate_proposal_example =
    exec_proposing-validate_proposal (list_store GovItem) (list_seeker GovItem)
      (list_store-IsMap GovItem) parse (λ a. true) vals 14 true 15 (9 ∷ []) propose ctrler
      lists-IsValid (omega arith, (omega arith, tt)) refl
