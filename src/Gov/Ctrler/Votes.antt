-- ===== src/Gov/Ctrler/Votes.antt =====
-- ctrlers/gov/ctrler.go: a vote that ValidateTrx accepts is counted by ExecuteTrx.
use beatoz_go.Base.{
  ℕ, ◌<◌, ◌^◌, ◌≡◌, ◌≢◌, refl, sym, ap, ◌∙◌, subst, Bool, true, false, not, ◌&&◌, Option, none,
  some, List, [], ◌∷◌, Result, ok, err, panic, Status, fail_if, ◌>>◌, if◌then◌else◌, Bool-cases,
  inl, inr, arith, length, invalid_payload_params,
}
use beatoz_go.Base.Words.{slt64}
use beatoz_go.Base.Bytes.{Bytes, bytes_eq, or_empty}
use beatoz_go.Ledger.Keys.{ledger_key_proposal}
use beatoz_go.Ledger.Mutable.{attempt}
use beatoz_go.Ledger.Map.{Store, IsMap, same_side, found_or_missing}
use beatoz_go.Ledger.Map.Seek.{Seeker}
use beatoz_go.Types.Trx.{Trx, Payload, voting}
use beatoz_go.Gov.Proposal.{Proposal, Voter, is_choice, find_voter, is_voter, do_vote}
use beatoz_go.Gov.Tally.{others}
use beatoz_go.Gov.Invariant.{IsTallied, do_vote-IsTallied}
use beatoz_go.Gov.Params.{GovParams}
use beatoz_go.Gov.Ctrler.{
  GovItem, proposal_item, params_item, zero_address, as_proposal, on_state, GovCtrler,
  voting_payload, or_payload_type, check_vote, validate_voting, exec_voting, gov_keyed,
  proposal_fits,
}

find_voter-is_voter :
    (addr : Bytes) (vs : List Voter)
    → is_voter addr vs ≡ true
    → (v : Voter) × (find_voter addr vs ≡ some v)
unfolding is_voter find_voter
find_voter-is_voter addr [] e = cc
find_voter-is_voter addr (v ∷ vs) e = elim (Bool-cases (bytes_eq v.address addr)) [
  | inl here ↦ (v, rw here refl)
  | inr later ↦ rw later (find_voter-is_voter addr vs (rw later at e))
]

-- What the checks of a vote establish.
pub record MayVote (from : Bytes) (choice height : ℕ) (p : Proposal) : Type 0 where
  pub is_listed : is_voter from p.header.voters ≡ true
  pub chosen : is_choice choice ≡ true
  pub in_range : choice < length p.options
  pub not_late : slt64 p.header.end_voting_height height ≡ false
  pub not_early : slt64 height p.header.start_voting_height ≡ false

check_vote_lem :
    (s : Store GovItem) (k : Seeker s) (parse : Bytes → Result GovParams) (from : Bytes)
    (choice height : ℕ) (p : Proposal)
    → choice < 2 ^ 32
    → check_vote s k parse from choice height p ≡ ok tt
    → MayVote from choice height p
unfolding check_vote
check_vote_lem s k parse from choice height p h e = ground arith

module _ (s : Store GovItem) (k : Seeker s) (m : IsMap s) (parse : Bytes → Result GovParams) where
  -- The open proposals of one side are stored under their own hashes and tallied.
  abbrev pub AreTallied : Bool → s.State → Type 0
  AreTallied x st =
      (h : Bytes) (item : GovItem)
      → m.view st x (ledger_key_proposal h) ≡ some item
      → (p : Proposal) × (item ≡ proposal_item p) × (p.header.tx_hash ≡ h) × IsTallied p

  -- What an accepted vote finds.
  pub record IsAccepted (x : Bool) (height : ℕ) (tx : Trx) (st : s.State) : Type 0 where
    pub hash : Bytes
    pub choice : ℕ
    pub prop : Proposal
    pub voter : Voter
    pub payload_is : tx.payload ≡ some (voting hash choice)
    pub stored : m.view st x (ledger_key_proposal hash) ≡ some (proposal_item prop)
    pub hash_is : prop.header.tx_hash ≡ hash
    pub tallied : IsTallied prop
    pub may_vote : MayVote tx.from choice height prop
    pub voter_is : find_voter tx.from prop.header.voters ≡ some voter

  -- The two stages of the checks, where they succeed.
  payload_stage :
      (wrong : Bool) (o : Option Payload) (c : GovCtrler s k parse)
      (next : Bytes × ℕ → Status × GovCtrler s k parse)
      → (attempt
          (do fail_if wrong invalid_payload_params; or_payload_type (voting_payload o))
          c
          next).0
        ≡ ok tt
      → (h : Bytes) × (n : ℕ) × (o ≡ some (voting h n))
        × (attempt
              (do fail_if wrong invalid_payload_params; or_payload_type (voting_payload o))
              c
              next
            ≡ next (h, n))
  payload_stage true o c next e = cc
  payload_stage false none c next e = cc
  payload_stage false (some (voting h n)) c next e = (h, n, refl, refl)
  payload_stage false (some _) c next e = cc

  item_stage :
      (r : Result GovItem) (c : GovCtrler s k parse) (from : Bytes) (choice height : ℕ)
      → (attempt r c λ item.
          attempt (as_proposal item) c λ p. (check_vote s k parse from choice height p, c)).0
        ≡ ok tt
      → (p : Proposal) × (r ≡ ok (proposal_item p))
        × (check_vote s k parse from choice height p ≡ ok tt)
  item_stage panic c from choice height e = cc
  item_stage (err x) c from choice height e = cc
  item_stage (ok (params_item g)) c from choice height e = cc
  item_stage (ok (proposal_item p)) c from choice height e = (p, refl, e)

  item_stage-state :
      (r : Result GovItem) (c : GovCtrler s k parse) (from : Bytes) (choice height : ℕ)
      → (attempt r c λ item.
          attempt (as_proposal item) c λ p. (check_vote s k parse from choice height p, c)).1
        ≡ c
  item_stage-state panic c from choice height = refl
  item_stage-state (err x) c from choice height = refl
  item_stage-state (ok (params_item g)) c from choice height = refl
  item_stage-state (ok (proposal_item p)) c from choice height = refl

  found_item :
      (r : Result GovItem) (o : Option GovItem) (item : GovItem)
      → r ≡ found_or_missing o
      → r ≡ ok item
      → o ≡ some item
  found_item r none item e f = cc
  found_item r (some i) item e f = cc

  key_ne_nil : (h : Bytes) → ledger_key_proposal h ≢ []
  unfolding ledger_key_proposal
  key_ne_nil h e = cc

  validate_voting_lem :
      (x : Bool) (height : ℕ) (tx : Trx) (c : GovCtrler s k parse)
      → m.IsValid c.gov_state
      → AreTallied x c.gov_state
      → ((h : Bytes) (n : ℕ) → tx.payload ≡ some (voting h n) → n < 2 ^ 32)
      → (validate_voting s k parse x height tx c).0 ≡ ok tt
      → (a : IsAccepted x height tx c.gov_state) × ((validate_voting s k parse x height tx c).1
          ≡ record c { gov_state = (s.get (ledger_key_proposal a.hash) x c.gov_state).1 })
  unfolding validate_voting
  validate_voting_lem x height tx c valid tallied small e =
      let wrong : Bool = not (bytes_eq (or_empty tx.to) zero_address) in
      let (h, n, is, step) = payload_stage wrong tx.payload c _ e in
      let e1 = sym (ap (λ o. o.0) step) ∙ e in
      let (r, st') = s.get (ledger_key_proposal h) x c.gov_state in
      let (p, got, checked) = item_stage r (record c { gov_state = st' }) tx.from n height e1 in
      let (seen, valid', same) =
        m.get_view (ledger_key_proposal h) x c.gov_state (key_ne_nil h) valid in
      let there =
        found_item r (m.view c.gov_state x (ledger_key_proposal h)) (proposal_item p) seen got in
      let may = check_vote_lem s k parse tx.from n height p (small h n is) checked in
      let (q, is_q, hash_is, tallied_q) = tallied h (proposal_item p) there in
      let (v, found) = find_voter-is_voter tx.from p.header.voters may.is_listed in
      let p_is_q : p ≡ q =
        ap (λ i. elim i as (λ x. Proposal) [ proposal_item y ↦ y | params_item g ↦ p ]) is_q in
      (
        record {
          hash = h;
          choice = n;
          prop = p;
          voter = v;
          payload_is = is;
          stored = there;
          hash_is = rw p_is_q hash_is;
          tallied = subst IsTallied (sym p_is_q) tallied_q;
          may_vote = may;
          voter_is = found;
        },
        ap (λ o. o.1) step ∙ item_stage-state r (record c { gov_state = st' }) tx.from n height,
      )

  exec_voting_run :
      (x : Bool) (tx : Trx) (c : GovCtrler s k parse) (h : Bytes) (n : ℕ) (p p' : Proposal)
      → tx.payload ≡ some (voting h n)
      → (s.get (ledger_key_proposal h) x c.gov_state).0 ≡ ok (proposal_item p)
      → do_vote tx.from n p ≡ ok p'
      → p'.header.tx_hash ≡ h
      → (s.set
          (ledger_key_proposal h)
          (proposal_item p')
          x
          (s.get (ledger_key_proposal h) x c.gov_state).1).0
        ≡ ok tt
      → exec_voting s k parse x tx c ≡ (
        ok tt,
        record c {
          gov_state =
              (s.set
                (ledger_key_proposal h)
                (proposal_item p')
                x
                (s.get (ledger_key_proposal h) x c.gov_state).1).1;
        },
      )
  unfolding exec_voting
  exec_voting_run x tx c h n p p' is got voted hash_is done =
      let c' : GovCtrler s k parse = record c {
        gov_state = (s.get (ledger_key_proposal h) x c.gov_state).1;
      } in
      rw (is, got, voted)
        (ap (λ q. on_state s k parse (s.set (ledger_key_proposal q) (proposal_item p') x) c')
            hash_is
          ∙ rw done refl)

  -- On a ledger whose open proposals are tallied: a vote that ValidateTrx accepts, of a voter for an
  -- option within the voting period, ExecuteTrx counts. The voter has the choice, the other voters
  -- and the header are as they were, the votes are the recount again, and only the proposal's entry
  -- on the side asked for changes.
  pub exec_voting-validate_voting :
      (x : Bool) (height : ℕ) (tx : Trx) (c : GovCtrler s k parse)
      → m.IsValid c.gov_state
      → AreTallied x c.gov_state
      → ((h : Bytes) (n : ℕ) → tx.payload ≡ some (voting h n) → n < 2 ^ 32)
      → (validate_voting s k parse x height tx c).0 ≡ ok tt
      → (a : IsAccepted x height tx c.gov_state) × (p' : Proposal) × (st : s.State) × (exec_voting s
            k parse x tx
            (validate_voting s k parse x height tx c).1
          ≡ (ok tt, record c { gov_state = st }))
        × m.IsValid st
        × IsTallied p'
        × (find_voter tx.from p'.header.voters ≡ some (record a.voter { choice = a.choice }))
        × (others tx.from p'.header.voters ≡ others tx.from a.prop.header.voters)
        × (p'.header ≡ record a.prop.header { voters = p'.header.voters })
        × ((y : Bool) (j : Bytes)
            → m.view st y j ≡ (
                if same_side x y && bytes_eq (ledger_key_proposal a.hash) j
                then some (proposal_item p')
                else m.view c.gov_state y j))
  exec_voting-validate_voting x height tx c valid tallied small e =
      let (a, left) = validate_voting_lem x height tx c valid tallied small e in
      let (p', voted, tallied', has, rest, length_same, header_is) =
        do_vote-IsTallied tx.from a.choice a.prop a.voter a.tallied a.voter_is a.may_vote.chosen
          a.may_vote.in_range in
      let key = ledger_key_proposal a.hash in
      let (seen1, valid1, same1) = m.get_view key x c.gov_state (key_ne_nil a.hash) valid in
      let st1 = (s.get key x c.gov_state).1 in
      let (seen2, valid2, same2) = m.get_view key x st1 (key_ne_nil a.hash) valid1 in
      let st2 = (s.get key x st1).1 in
      let (done, valid3, same3) =
        m.set_view key (proposal_item p') x st2 (key_ne_nil a.hash) (proposal_fits a.hash p')
          valid2 in
      let got = seen2 ∙ ap found_or_missing (same1 x key ∙ a.stored) in
      let hash_is : p'.header.tx_hash ≡ a.hash = ap (λ q. q.tx_hash) header_is ∙ a.hash_is in
      let ran =
        exec_voting_run x tx (record c { gov_state = st1 }) a.hash a.choice a.prop p' a.payload_is
          got voted hash_is done in
      (
        a,
        p',
        (s.set key (proposal_item p') x st2).1,
        rw left ran,
        valid3,
        tallied',
        has,
        rest,
        header_is,
        λ y j. same3 y j ∙ rw (same2 y j, same1 y j) refl,
      )
