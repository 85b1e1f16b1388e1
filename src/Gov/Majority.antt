-- ===== src/Gov/Majority.antt =====
-- ctrlers/gov/proposal: the choice of the majority option. The order of options is by votes, the
-- most first; sort.Sort is insertion sort, as it is in Go up to 12 elements, so that options with
-- equal votes stay in their order.
pub mod Choice
use beatoz_go.Base.{
  ℕ, ◌≡◌, refl, ap, Bool, true, false, Option, none, some, List, [], ◌∷◌, Result, ok, panic, ltb,
  if◌then◌else◌, Bool-cases, inl, inr,
}
use beatoz_go.Base.Words.{slt64, sle64}
use beatoz_go.Gov.Proposal.{VoteOption, Proposal}

-- Less: `x` before `y`.
abbrev pub more_votes : VoteOption → VoteOption → Bool
more_votes x y = slt64 y.votes x.votes

-- One step of the sort: `o` moves back over the options with less votes.
unfoldable pub insert_option : VoteOption → List VoteOption → List VoteOption
insert_option o [] = o ∷ []
insert_option o (p ∷ ps) =
    let rest = insert_option o ps in if more_votes p o then p ∷ rest else o ∷ p ∷ ps

unfoldable pub sort_options : List VoteOption → List VoteOption
sort_options [] = []
sort_options (o ∷ os) = insert_option o (sort_options os)

-- The choice among the sorted options; without options the first one's index is out of range.
abbrev pub choose_first : Proposal → List VoteOption → Result Proposal
choose_first p [] = panic
choose_first p (o ∷ os) = ok (
    if sle64 p.header.majority_power o.votes
    then record p { options = o ∷ os; major_option = some o }
    else record p { options = o ∷ os })

-- (*GovProposal).UpdateMajorOption; what it returns is the major option of the result.
unfoldable pub update_major_option : Proposal → Result Proposal
unfolding sort_options
update_major_option p = choose_first p (sort_options p.options)
