-- ===== src/Gov/Ctrler/Proposing/Run.antt =====
-- ctrlers/gov/ctrler.go: a proposal that ValidateTrx accepts is created by ExecuteTrx.
use beatoz_go.Base.{
  ℕ, ◌≡◌, ◌≢◌, refl, sym, ap, ◌∙◌, Bool, true, false, not, ◌&&◌, Option, none, some, List, [],
  Result, ok, Status, fail_if, ◌>>=◌, ◌>>◌, if◌then◌else◌, invalid_trx, no_right,
}
use beatoz_go.Base.Bytes.{Bytes, bytes_eq, or_empty}
use beatoz_go.Ledger.Keys.{ledger_key_proposal}
use beatoz_go.Ledger.Mutable.{attempt}
use beatoz_go.Ledger.Map.{Store, IsMap, same_side, found_or_missing}
use beatoz_go.Ledger.Map.Seek.{Seeker}
use beatoz_go.Types.Trx.{Trx, Payload, ProposalPayload, proposal}
use beatoz_go.Gov.Proposal.{Proposal, new_gov_proposal}
use beatoz_go.Gov.Params.{GovParams}
use beatoz_go.Gov.Ctrler.{
  GovItem, proposal_item, zero_address, on_state, GovCtrler, proposal_payload, or_payload_type,
  absent, add_voters, add_options, check_proposal, validate_proposal, exec_proposing, gov_keyed,
  proposal_fits,
}
use beatoz_go.Gov.Ctrler.Proposing.{IsProposable, IsOpened, check_proposal_lem, open_proposal}
use beatoz_go.Gov.Ctrler.Opening.{PowersFit}

not-false : (b : Bool) → not b ≡ false → b ≡ true
not-false true e = refl
not-false false e = cc

module _ (s : Store GovItem) (k : Seeker s) (m : IsMap s) (parse : Bytes → Result GovParams) where
  payload_stage :
      (wrong lacks : Bool) (o : Option Payload) (c : GovCtrler s k parse)
      (next : ProposalPayload → Status × GovCtrler s k parse)
      → (attempt
          (do
            fail_if wrong invalid_trx
            fail_if lacks no_right
            or_payload_type (proposal_payload o))
          c
          next).0
        ≡ ok tt
      → (pl : ProposalPayload) × (o ≡ some (proposal pl))
        × (lacks ≡ false)
        × (attempt
              (do
                fail_if wrong invalid_trx
                fail_if lacks no_right
                or_payload_type (proposal_payload o))
              c
              next
            ≡ next pl)
  payload_stage true lacks o c next e = cc
  payload_stage false true o c next e = cc
  payload_stage false false none c next e = cc
  payload_stage false false (some (proposal pl)) c next e = (pl, refl, refl, refl)
  payload_stage false false (some _) c next e = cc

  absent_stage :
      (r : Result GovItem) (o : Option GovItem) (c : GovCtrler s k parse) (check : Status)
      → r ≡ found_or_missing o
      → (attempt (absent r) c λ _. (check, c)).0 ≡ ok tt
      → (o ≡ none) × (check ≡ ok tt) × ((attempt (absent r) c λ _. (check, c)).1 ≡ c)
  absent_stage r none c check is e = (refl, (rw is at e), rw is refl)
  absent_stage r (some i) c check is e = cc (rw is at e)

  key_ne_nil : (h : Bytes) → ledger_key_proposal h ≢ []
  unfolding ledger_key_proposal
  key_ne_nil h e = cc

  exec_proposing_run :
      (vals : List (Bytes × ℕ)) (total : ℕ) (x : Bool) (txhash : Bytes) (tx : Trx)
      (c : GovCtrler s k parse) (pl : ProposalPayload) (p : Proposal)
      → tx.payload ≡ some (proposal pl)
      → (do
        prop ←
            new_gov_proposal pl.opt_type txhash pl.start_voting_height pl.voting_period_blocks total
              pl.applying_height
        ok (add_options pl.options (add_voters vals prop)))
        ≡ ok p
      → p.header.tx_hash ≡ txhash
      → (s.set (ledger_key_proposal txhash) (proposal_item p) x c.gov_state).0 ≡ ok tt
      → exec_proposing s k parse vals total x txhash tx c ≡ (
        ok tt,
        record c {
          gov_state = (s.set (ledger_key_proposal txhash) (proposal_item p) x c.gov_state).1;
        },
      )
  unfolding exec_proposing
  exec_proposing_run vals total x txhash tx c pl p is made hash_is done =
      rw (is, made)
        (ap (λ q. on_state s k parse (s.set (ledger_key_proposal q) (proposal_item p) x) c) hash_is
          ∙ rw done refl)

  -- A proposal that ValidateTrx accepts is of a validator, under a hash that is not taken, starts
  -- after the height, does not end before it starts, is not applied before it ends, and has options.
  -- ExecuteTrx then stores a tallied proposal under that hash: its voters are the validators, its
  -- options those of the payload, without votes. Nothing else changes.
  pub exec_proposing-validate_proposal :
      (is_validator : Bytes → Bool) (vals : List (Bytes × ℕ)) (total : ℕ) (x : Bool) (height : ℕ)
      (txhash : Bytes) (tx : Trx) (c : GovCtrler s k parse)
      → m.IsValid c.gov_state
      → PowersFit vals
      → (validate_proposal s k parse is_validator x height txhash tx c).0 ≡ ok tt
      → (pl : ProposalPayload) × (p : Proposal) × (st : s.State) × (tx.payload ≡ some (proposal pl))
        × (is_validator tx.from ≡ true)
        × (m.view c.gov_state x (ledger_key_proposal txhash) ≡ none)
        × IsProposable c.gov_params height pl
        × IsOpened vals total txhash pl p
        × (exec_proposing s k parse vals total x txhash tx
              (validate_proposal s k parse is_validator x height txhash tx c).1
            ≡ (ok tt, record c { gov_state = st }))
        × m.IsValid st
        × ((y : Bool) (j : Bytes)
            → m.view st y j ≡ (
                if same_side x y && bytes_eq (ledger_key_proposal txhash) j
                then some (proposal_item p)
                else m.view c.gov_state y j))
  unfolding validate_proposal
  exec_proposing-validate_proposal is_validator vals total x height txhash tx c valid fit e =
      let key = ledger_key_proposal txhash in
      let (pl, is, has_right, step) =
        payload_stage (not (bytes_eq (or_empty tx.to) zero_address)) (not (is_validator tx.from))
          tx.payload c _ e in
      let e1 = sym (ap (λ o. o.0) step) ∙ e in
      let (seen, valid1, same1) = m.get_view key x c.gov_state (key_ne_nil txhash) valid in
      let st1 = (s.get key x c.gov_state).1 in
      let (free, checked, left) =
        absent_stage (s.get key x c.gov_state).0 (m.view c.gov_state x key)
          (record c { gov_state = st1 }) (check_proposal s k parse c.gov_params height pl) seen
          e1 in
      let (p, made, opened) = open_proposal vals total txhash pl fit in
      let (done, valid2, same2) =
        m.set_view key (proposal_item p) x st1 (key_ne_nil txhash) (proposal_fits txhash p)
          valid1 in
      let ran =
        exec_proposing_run vals total x txhash tx (record c { gov_state = st1 }) pl p is made
          opened.hash_is done in
      (
        pl,
        p,
        (s.set key (proposal_item p) x st1).1,
        is,
        not-false (is_validator tx.from) has_right,
        free,
        check_proposal_lem s k parse c.gov_params height pl checked,
        opened,
        rw (ap (λ o. o.1) step ∙ left) ran,
        valid2,
        λ y j. same2 y j ∙ rw (same1 y j) refl,
      )
