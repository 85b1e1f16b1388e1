-- ===== src/Gov/Proposal.antt =====
-- ctrlers/gov/proposal/{proposal,header,option}.go: a proposal, its voters and options. An int64 or
-- int32 is its bit pattern.
use beatoz_go.Base.{
  ℕ, zero, suc, ◌-◌, ◌^◌, Bool, false, ◌||◌, Option, none, some, List, [], ◌∷◌, ◌++◌, Result, ok,
  err, panic, not_found_voter, ◌>>=◌, ltb, ◌==◌, if◌then◌else◌,
}
use beatoz_go.Base.Words.{add64, sub64, mul64, div64, sle64, from_int32}
use beatoz_go.Base.Bytes.{Bytes, bytes_eq}

-- NOT_CHOICE, -1
abbrev pub not_choice : ℕ
not_choice = 2 ^ 32 - 1

-- `choice >= 0`
abbrev pub is_choice : ℕ → Bool
is_choice c = ltb c (2 ^ 31)

-- VoterProto
pub record Voter : Type 0 where
  pub address : Bytes
  pub power : ℕ
  pub choice : ℕ

-- VoteOptionProto
pub record VoteOption : Type 0 where
  pub option : Bytes
  pub votes : ℕ

-- GovProposalHeaderProto
pub record Header : Type 0 where
  pub prop_type : ℕ
  pub tx_hash : Bytes
  pub start_voting_height : ℕ
  pub end_voting_height : ℕ
  pub apply_height : ℕ
  pub total_voting_power : ℕ
  pub majority_power : ℕ
  pub voters : List Voter

-- GovProposal; the majority option is the one it was when it was chosen.
pub record Proposal : Type 0 where
  pub header : Header
  pub options : List VoteOption
  pub major_option : Option VoteOption

-- `(total * 2) / 3`
abbrev pub majority_of : ℕ → Result ℕ
majority_of total = div64 (mul64 total 2) 3

unfoldable pub new_gov_proposal : ℕ → Bytes → ℕ → ℕ → ℕ → ℕ → Result Proposal
new_gov_proposal prop_type txhash start blocks total applying = do
  majority ← majority_of total
  ok (record {
    header = record {
      prop_type = prop_type;
      tx_hash = txhash;
      start_voting_height = start;
      end_voting_height = add64 start blocks;
      apply_height = applying;
      total_voting_power = total;
      majority_power = majority;
      voters = [];
    };
    options = [];
    major_option = none;
  })

-- (*GovProposal).AddOption
unfoldable pub add_option : Bytes → Proposal → Proposal
add_option opt p = record p { options = p.options ++ (record { option = opt; votes = 0 } ∷ []) }

-- findVoter: the first with the address.
unfoldable pub find_voter : Bytes → List Voter → Option Voter
find_voter addr [] = none
find_voter addr (v ∷ vs) =
    let rest = find_voter addr vs in if bytes_eq v.address addr then some v else rest

-- IsVoter
unfoldable pub is_voter : Bytes → List Voter → Bool
is_voter addr [] = false
is_voter addr (v ∷ vs) = bytes_eq v.address addr || is_voter addr vs

-- addVoter
unfoldable pub add_voter : Bytes → ℕ → List Voter → List Voter
unfolding find_voter
add_voter addr power vs = elim (find_voter addr vs) [
  | some v ↦ vs
  | none ↦ vs ++ (record { address = addr; power = power; choice = not_choice } ∷ [])
]

-- removeVoter: the last with the address.
unfoldable pub remove_voter : Bytes → List Voter → List Voter
unfolding is_voter
remove_voter addr [] = []
remove_voter addr (v ∷ vs) =
    let rest = remove_voter addr vs in
    if is_voter addr vs then v ∷ rest else if bytes_eq v.address addr then vs else v ∷ rest

-- SumVotingPowers
unfoldable pub sum_voting_powers : List Voter → ℕ
sum_voting_powers [] = 0
sum_voting_powers (v ∷ vs) = add64 v.power (sum_voting_powers vs)

-- The voter that findVoter points to becomes `v'`.
unfoldable pub put_voter : Bytes → Voter → List Voter → List Voter
put_voter addr v' [] = []
put_voter addr v' (v ∷ vs) =
    let rest = put_voter addr v' vs in if bytes_eq v.address addr then v' ∷ vs else v ∷ rest

-- A method on `Options[i]`; an index out of range panics.
unfoldable pub at_option :
    ℕ → (VoteOption → VoteOption) → List VoteOption → Result (List VoteOption)
at_option i f [] = panic
at_option zero f (o ∷ os) = ok (f o ∷ os)
at_option (suc i) f (o ∷ os) = do os' ← at_option i f os; ok (o ∷ os')

-- (*VoteOptionProto).DoVote and CancelVote
abbrev pub vote_for : ℕ → VoteOption → VoteOption
vote_for power o = record o { votes = add64 o.votes power }

abbrev pub cancel_vote_for : ℕ → VoteOption → VoteOption
cancel_vote_for power o = record o { votes = sub64 o.votes power }

-- (*GovProposal).cancelVote
unfoldable pub cancel_vote : Voter → List VoteOption → Result (Voter × List VoteOption)
cancel_vote v os =
    if is_choice v.choice
    then (do
      os' ← at_option v.choice (cancel_vote_for v.power) os
      ok (record v { choice = not_choice }, os'))
    else ok (v, os)

-- (*GovProposal).doVote
unfoldable pub do_vote_of : Voter → ℕ → List VoteOption → Result (Voter × List VoteOption)
do_vote_of v choice os =
    if is_choice choice
    then (do os' ← at_option choice (vote_for v.power) os; ok (record v { choice = choice }, os'))
    else ok (v, os)

abbrev pub with_voters : List Voter → Proposal → Proposal
with_voters vs p = record p { header = record p.header { voters = vs } }

-- (*GovProposal).DoVote. A panic ends the process, with whatever it has changed.
unfoldable pub do_vote : Bytes → ℕ → Proposal → Result Proposal
do_vote addr choice p = elim (find_voter addr p.header.voters) [
  | none ↦ err not_found_voter
  | some v ↦ if v.choice == choice then ok p else (do
    (v1, os1) ← cancel_vote v p.options
    (v2, os2) ← do_vote_of v1 choice os1
    ok (record (with_voters (put_voter addr v2 p.header.voters) p) { options = os2 }))
]

-- `slash <= 0` makes it the whole power.
unfoldable pub slash_of : ℕ → ℕ → Result ℕ
slash_of power rate = do
  slash ← div64 (mul64 power (from_int32 rate)) 100
  ok (if sle64 slash 0 then power else slash)

unfoldable pub settle_voter :
    Bytes → ℕ → Voter → List VoteOption → List Voter → Result (List Voter × List VoteOption)
settle_voter addr choice v os vs =
    if sle64 v.power 0
    then ok (remove_voter addr (put_voter addr v vs), os)
    else if is_choice choice
    then (do (v', os') ← do_vote_of v choice os; ok (put_voter addr v' vs, os'))
    else ok (put_voter addr v vs, os)

-- (*GovProposal).DoSlash
unfoldable pub do_slash : Bytes → ℕ → Proposal → Result (ℕ × Proposal)
do_slash addr rate p = elim (find_voter addr p.header.voters) [
  | none ↦ err not_found_voter
  | some v ↦ do
    (v1, os1) ← cancel_vote v p.options
    slash ← slash_of v1.power rate
    (vs, os2) ←
        settle_voter addr v.choice (record v1 { power = sub64 v1.power slash }) os1 p.header.voters
    majority ← majority_of (sub64 p.header.total_voting_power slash)
    ok (
      slash,
      record p {
        options = os2;
        header = record p.header {
          voters = vs;
          total_voting_power = sub64 p.header.total_voting_power slash;
          majority_power = majority;
        };
      },
    )
]
