-- ===== src/Gov/Tests.antt =====
-- Votes and slashes on a proposal with two options, and the theorems there.
use beatoz_go.Base.{zero, suc, ◌≡◌, refl, none, some, [], ◌∷◌, ok, length, arith}
use beatoz_go.Base.Bytes.{bytes_eq}
use beatoz_go.Gov.Proposal.{
  Voter, VoteOption, Proposal, not_choice, find_voter, is_voter, put_voter, at_option, cancel_vote,
  do_vote_of, do_vote, do_slash,
}
use beatoz_go.Gov.Tally.{others, votes_for, votes_at}
use beatoz_go.Gov.Voting.{IsRecount}
use beatoz_go.Gov.Invariant.{IsTallied, do_vote-IsTallied}
use beatoz_go.Gov.Settle.{slashed}
use beatoz_go.Gov.Slash.{IsSlashed, do_slash-IsTallied}

abbrev alice : Voter
alice = record { address = 1 ∷ []; power = 10; choice = 0 }

abbrev bob : Voter
bob = record { address = 2 ∷ []; power = 4; choice = not_choice }

abbrev yes_option : VoteOption
yes_option = record { option = 121 ∷ []; votes = 10 }

abbrev no_option : VoteOption
no_option = record { option = 110 ∷ []; votes = 0 }

-- Alice has voted for the first option, Bob has not voted.
abbrev voting : Proposal
voting = record {
  header = record {
    prop_type = 513;
    tx_hash = [];
    start_voting_height = 10;
    end_voting_height = 20;
    apply_height = 30;
    total_voting_power = 14;
    majority_power = 9;
    voters = alice ∷ bob ∷ [];
  };
  options = yes_option ∷ no_option ∷ [];
  major_option = none;
}

voting-IsTallied : IsTallied voting
unfolding votes_for votes_at
voting-IsTallied = record {
  recounted = recounted;
  powers_fit = (omega arith, (omega arith, tt));
  choices_fit = (omega arith, (tt, tt));
}
  where
    recounted : IsRecount voting.header.voters voting.options
    recounted zero = refl
    recounted (suc zero) = refl
    recounted (suc (suc i)) = refl

-- Bob votes for the second option, then Alice does.
votes_run :
    (p : Proposal) × (p' : Proposal) × (do_vote (2 ∷ []) 1 voting ≡ ok p)
    × (do_vote (1 ∷ []) 1 p ≡ ok p')
    × (votes_at 0 p'.options ≡ some 0)
    × (votes_at 1 p'.options ≡ some 14)
unfolding do_vote find_voter put_voter cancel_vote do_vote_of at_option votes_at bytes_eq
votes_run = (_, _, refl, refl, refl, refl)

do_vote-IsTallied_example :
    (p' : Proposal) × (do_vote (1 ∷ []) 1 voting ≡ ok p')
    × IsTallied p'
    × (find_voter (1 ∷ []) p'.header.voters ≡ some (record alice { choice = 1 }))
    × (others (1 ∷ []) p'.header.voters ≡ others (1 ∷ []) voting.header.voters)
    × (length p'.options ≡ length voting.options)
    × (p'.header ≡ record voting.header { voters = p'.header.voters })
unfolding find_voter bytes_eq
do_vote-IsTallied_example =
    do_vote-IsTallied (1 ∷ []) 1 voting alice voting-IsTallied refl refl (omega arith)

do_slash-IsTallied_example :
    (p' : Proposal) × (do_slash (1 ∷ []) 50 voting ≡ ok (slashed 10 50, p'))
    × IsSlashed (1 ∷ []) alice (slashed 10 50) voting p'
unfolding find_voter is_voter others bytes_eq
do_slash-IsTallied_example =
    do_slash-IsTallied (1 ∷ []) 50 voting alice voting-IsTallied refl refl (omega arith)
      (omega arith) (omega arith) (omega arith) (omega arith)
