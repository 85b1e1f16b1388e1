-- ===== src/Gov/Ctrler/Sample.antt =====
-- A governance controller in memory for the tests, with one open proposal.
use beatoz_go.Base.{◌≢◌, refl, none, [], ◌∷◌, Result, ok, length}
use beatoz_go.Base.Bytes.{Bytes, has_prefix}
use beatoz_go.Ledger.Keys.{ledger_key_proposal}
use beatoz_go.Ledger.Map.Seek.{entry}
use beatoz_go.Ledger.Map.Listing.{Lists, list_store, list_seeker, list_store-IsMap}
use beatoz_go.Gov.Proposal.{Voter, Proposal, not_choice}
use beatoz_go.Gov.Params.{GovParams, empty_params}
use beatoz_go.Gov.Ctrler.{GovItem, proposal_item, GovCtrler, gov_keyed}

-- Every option is read as parameters with one field set.
abbrev pub parse : Bytes → Result GovParams
parse b = ok (record empty_params { slash_rate = length b })

abbrev pub alice : Voter
alice = record { address = 1 ∷ []; power = 10; choice = 0 }

abbrev pub bob : Voter
bob = record { address = 2 ∷ []; power = 4; choice = not_choice }

-- Alice has voted for the first of two options.
abbrev pub prop : Proposal
prop = record {
  header = record {
    prop_type = 257;
    tx_hash = 7 ∷ [];
    start_voting_height = 10;
    end_voting_height = 20;
    apply_height = 30;
    total_voting_power = 14;
    majority_power = 9;
    voters = alice ∷ bob ∷ [];
  };
  options =
      record { option = 121 ∷ []; votes = 10 } ∷ record { option = 110 ∷ 111 ∷ []; votes = 0 } ∷ [];
  major_option = none;
}

-- The proposal is open on both sides.
abbrev pub lists : Lists GovItem
lists x = (ledger_key_proposal (7 ∷ []), proposal_item prop) ∷ []

abbrev pub ctrler : GovCtrler (list_store GovItem) (list_seeker GovItem) parse
ctrler = record {
  gov_params = record empty_params { max_voting_period_blocks = 100; slash_rate = 50 };
  new_gov_params = none;
  gov_state = lists;
}

pub lists-IsValid : (list_store-IsMap GovItem).IsValid lists
unfolding entry has_prefix
lists-IsValid x = (refl, refl, tt)

pub prop-options : prop.options ≢ []
prop-options e = cc
