-- ===== src/Gov/Ctrler/Proposing.antt =====
-- ctrlers/gov/ctrler.go: the proposal that an accepted transaction creates.
pub mod Run
use beatoz_go.Base.{
  ℕ, zero, suc, ◌<◌, ◌^◌, ◌≡◌, ◌≢◌, refl, sym, ap, ◌∙◌, subst, Bool, true, false, not, ◌&&◌, ◌||◌,
  Option, none, some, List, [], ◌∷◌, ◌++◌, Result, ok, err, panic, Status, fail_if, ◌>>=◌, ◌>>◌,
  if◌then◌else◌, Bool-cases, Option-cases, inl, inr, ◌==◌, arith, length, invalid_trx, no_right,
  duplicated_key, not_found_result, XError,
}
use mathlib.Core.List.{append_assoc, append-nil}
use beatoz_go.Base.Words.{add64, slt64, sle64, div64}
use beatoz_go.Base.Bytes.{Bytes, bytes_eq, bytes_eq_sound, or_empty}
use beatoz_go.Ledger.Keys.{ledger_key_proposal}
use beatoz_go.Ledger.Mutable.{attempt}
use beatoz_go.Ledger.Map.{Store, IsMap, same_side, found_or_missing}
use beatoz_go.Ledger.Map.Seek.{Seeker}
use beatoz_go.Types.Trx.{Trx, Payload, ProposalPayload, proposal}
use beatoz_go.Gov.Proposal.{
  Proposal, Voter, VoteOption, not_choice, majority_of, new_gov_proposal, add_option, add_voter,
  find_voter, with_voters,
}
use beatoz_go.Gov.Tally.{votes_for, votes_at, changed}
use beatoz_go.Gov.Voting.{IsRecount, InRange}
use beatoz_go.Gov.Invariant.{IsTallied, All}
use beatoz_go.Gov.Params.{GovParams}
use beatoz_go.Gov.Ctrler.{
  GovItem, proposal_item, zero_address, on_state, GovCtrler, proposal_payload, or_payload_type,
  or_nil, absent, add_voters, add_options, check_proposal, validate_proposal, exec_proposing,
  gov_keyed,
}
use beatoz_go.Gov.Ctrler.Opening.{
  All-add_voters, IsFresh, NoVotes-fresh, NoVotes-votes_at, PowersFit, add_options_lem,
  add_voters_lem, as_voter, find_voter-add_voters, fresh_options, votes_for-fresh,
}

majority_total : (total : ℕ) → (n : ℕ) × (majority_of total ≡ ok n)
unfolding div64
majority_total total = (_, refl)

-- What ValidateTrx establishes of a payload's heights and options.
pub record IsProposable (g : GovParams) (height : ℕ) (pl : ProposalPayload) : Type 0 where
  pub starts_later : slt64 height pl.start_voting_height ≡ true
  pub long_enough : slt64 pl.voting_period_blocks g.min_voting_period_blocks ≡ false
  pub short_enough : slt64 g.max_voting_period_blocks pl.voting_period_blocks ≡ false
  pub ends_after_start :
      slt64 (add64 pl.start_voting_height pl.voting_period_blocks) pl.start_voting_height ≡ false
  pub applies_after_end :
      slt64 pl.applying_height (add64 pl.start_voting_height pl.voting_period_blocks) ≡ false
  pub has_options : pl.options ≢ []

later : (a b : ℕ) → sle64 a b ≡ false → slt64 b a ≡ true
later a b h = ground arith

some_options : (os : List Bytes) → (length os == 0) ≡ false → os ≢ []
some_options [] h e = cc
some_options (o ∷ os) h e = cc

-- A chain of checks succeeds if each does.
fail_if_passed {ℓ} :
    {A : Type ℓ} (b : Bool) (x : XError) (rest : Result A) (a : A)
    → (do fail_if b x; rest) ≡ ok a
    → (b ≡ false) × (rest ≡ ok a)
fail_if_passed true x rest a e = cc
fail_if_passed false x rest a e = (refl, e)

fail_if_last : (b : Bool) (x : XError) → fail_if b x ≡ ok tt → b ≡ false
fail_if_last true x e = cc
fail_if_last false x e = refl

step_passed : (first rest : Status) → (first >> rest) ≡ ok tt → (first ≡ ok tt) × (rest ≡ ok tt)
step_passed panic rest e = cc
step_passed (err x) rest e = cc
step_passed (ok _) rest e = (refl, e)

or_false : (a b : Bool) → (a || b) ≡ false → (a ≡ false) × (b ≡ false)
or_false true b e = cc
or_false false b e = (refl, e)

check_proposal_lem :
    (s : Store GovItem) (k : Seeker s) (parse : Bytes → Result GovParams) (g : GovParams)
    (height : ℕ) (pl : ProposalPayload)
    → check_proposal s k parse g height pl ≡ ok tt
    → IsProposable g height pl
unfolding check_proposal
check_proposal_lem s k parse g height pl e =
    let (a, e1) = fail_if_passed _ _ _ tt e in
    let (b, e2) = fail_if_passed _ _ _ tt e1 in
    let (c, e3) = step_passed _ _ e2 in
    let (d, e4) = fail_if_passed _ _ _ tt e3 in
    let (f, e5) = fail_if_passed _ _ _ tt e4 in
    let n = fail_if_last _ _ e5 in
    let (b1, b2) = or_false _ _ b in
    let (f1, f2) = or_false _ _ f in
    record {
      starts_later = later pl.start_voting_height height a;
      long_enough = b2;
      short_enough = b1;
      ends_after_start = d;
      applies_after_end = f2;
      has_options = some_options pl.options n;
    }

-- A new proposal: its voters are the validators, its options those of the payload, without votes.
pub record IsOpened (vals : List (Bytes × ℕ)) (total : ℕ) (txhash : Bytes) (pl : ProposalPayload)
    (p : Proposal) : Type 0 where
  pub hash_is : p.header.tx_hash ≡ txhash
  pub total_is : p.header.total_voting_power ≡ total
  pub voters_are : (addr : Bytes) → find_voter addr p.header.voters ≡ as_voter addr vals
  pub options_are : p.options ≡ fresh_options pl.options
  pub start_is : p.header.start_voting_height ≡ pl.start_voting_height
  pub end_is : p.header.end_voting_height ≡ add64 pl.start_voting_height pl.voting_period_blocks
  pub apply_is : p.header.apply_height ≡ pl.applying_height
  pub tallied : IsTallied p

InRange-unset : (n : ℕ) (c : ℕ) → c ≡ not_choice → InRange n c
InRange-unset n c e = rw e tt

All-tallied :
    (vs : List Voter) (n : ℕ)
    → All IsFresh vs
    → All (λ v. v.power < 2 ^ 64) vs × All (λ v. InRange n v.choice) vs
All-tallied [] n a = (tt, tt)
All-tallied (v ∷ vs) n ((unset, h), a) =
    let (b, c) = All-tallied vs n a in ((h, b), (InRange-unset n v.choice unset, c))

open_proposal :
    (vals : List (Bytes × ℕ)) (total : ℕ) (txhash : Bytes) (pl : ProposalPayload)
    → PowersFit vals
    → (p : Proposal) × ((do
      prop ←
          new_gov_proposal pl.opt_type txhash pl.start_voting_height pl.voting_period_blocks total
            pl.applying_height
      ok (add_options pl.options (add_voters vals prop)))
        ≡ ok p)
      × IsOpened vals total txhash pl p
unfolding new_gov_proposal as_voter find_voter
open_proposal vals total txhash pl fit =
    let (n, majority) = majority_total total in
    let bare : Proposal = record {
      header = record {
        prop_type = pl.opt_type;
        tx_hash = txhash;
        start_voting_height = pl.start_voting_height;
        end_voting_height = add64 pl.start_voting_height pl.voting_period_blocks;
        apply_height = pl.applying_height;
        total_voting_power = total;
        majority_power = n;
        voters = [];
      };
      options = [];
      major_option = none;
    } in
    let vs = (add_voters vals bare).header.voters in
    let made : Proposal = record (with_voters vs bare) { options = fresh_options pl.options } in
    let is_made : add_options pl.options (add_voters vals bare) ≡ made =
      ap (add_options pl.options) (add_voters_lem vals bare)
      ∙ add_options_lem pl.options (with_voters vs bare) in
    let fresh = All-add_voters vals bare fit tt in
    let (fits, choices) = All-tallied vs (length (fresh_options pl.options)) fresh in
    (
      made,
      rw majority (ap ok is_made),
      record {
        hash_is = refl;
        total_is = refl;
        voters_are = λ addr. find_voter-add_voters addr vals bare;
        options_are = refl;
        start_is = refl;
        end_is = refl;
        apply_is = refl;
        tallied = record {
          recounted = λ i.
              rw (votes_for-fresh i vs fresh)
                (NoVotes-votes_at i (fresh_options pl.options) (NoVotes-fresh pl.options));
          powers_fit = fits;
          choices_fit = choices;
        };
      },
    )
