-- ===== src/Gov/Ctrler/Tests.antt =====
-- The governance controller over a ledger in memory: what it does at the end of a block.
use beatoz_go.Base.{◌≡◌, refl, true, false, Option, none, some, List, [], ◌∷◌, ok, length}
use beatoz_go.Base.Bytes.{Bytes, bytes_eq, has_prefix}
use beatoz_go.Ledger.Keys.{ledger_key_proposal, ledger_key_frozen_prop}
use beatoz_go.Ledger.Map.Seek.{entry, entry_each}
use beatoz_go.Ledger.Map.Listing.{
  Lists, list_store, list_seeker, list_store-IsMap, list_store-IsListed,
}
use beatoz_go.Gov.Proposal.{Proposal}
use beatoz_go.Gov.Majority.{update_major_option}
use beatoz_go.Gov.Majority.Choice.{IsChosen, update_major_option_exact}
use beatoz_go.Gov.Params.{GovParams, empty_params}
use beatoz_go.Gov.Ctrler.{GovItem, proposal_item, GovCtrler, gov_keyed}
use beatoz_go.Gov.Ctrler.Blocks.{freeze_proposals, apply_proposals, end_block}
use beatoz_go.Gov.Ctrler.Freeze.{IsVotable}
use beatoz_go.Gov.Ctrler.Freeze.Views.{AreVotable, IsFrozenAt, freeze_proposals_exact}
use beatoz_go.Gov.Ctrler.Apply.{IsApplicable, last_asked, or_next}
use beatoz_go.Gov.Ctrler.Apply.Views.{AreApplicable, IsApplied, apply_proposals_exact}
use beatoz_go.Gov.Ctrler.Orderly.EndBlock.{IsOrderly, end_block-IsOrderly}
use beatoz_go.Gov.Ctrler.Sample.{ctrler, lists, lists-IsValid, parse, prop, prop-options}

update_major_option_exact_example :
    (p' : Proposal) × (update_major_option prop ≡ ok p') × IsChosen prop p'
update_major_option_exact_example = update_major_option_exact prop prop-options

lists-AreVotable :
    AreVotable
      (list_store GovItem)
      (list_seeker GovItem)
      (list_store-IsMap GovItem)
      (list_store-IsListed GovItem)
      parse
      lists
lists-AreVotable j item u e =
    entry_each IsVotable (lists true) j item ((prop, refl, refl, prop-options), tt) e

freeze_proposals_exact_example :
    (keys : List Bytes × List Bytes) × (st : Lists GovItem) × (freeze_proposals
        (list_store GovItem)
        (list_seeker GovItem)
        parse
        21
        ctrler
      ≡ (ok keys, record ctrler { gov_state = st }))
    × IsFrozenAt
        (list_store GovItem)
        (list_seeker GovItem)
        (list_store-IsMap GovItem)
        (list_store-IsListed GovItem)
        parse
        21
        lists
        st
freeze_proposals_exact_example =
    freeze_proposals_exact (list_store GovItem) (list_seeker GovItem) (list_store-IsMap GovItem)
      (list_store-IsListed GovItem) parse 21 ctrler lists-IsValid lists-AreVotable

-- Two frozen proposals for parameters are due at height 30: the second one's option counts.
abbrev decided : Bytes → Bytes → Proposal
decided hash option = record prop {
  header = record prop.header { tx_hash = hash };
  major_option = some (record { option = option; votes = 10 });
}

abbrev frozen_lists : Lists GovItem
frozen_lists x =
    (ledger_key_frozen_prop (8 ∷ []), proposal_item (decided (8 ∷ []) (1 ∷ [])))
    ∷ (ledger_key_frozen_prop (9 ∷ []), proposal_item (decided (9 ∷ []) (1 ∷ 2 ∷ [])))
    ∷ []

frozen-IsValid : (list_store-IsMap GovItem).IsValid frozen_lists
unfolding entry has_prefix ledger_key_frozen_prop bytes_eq
frozen-IsValid x = (refl, refl, (refl, refl, tt))

frozen_ready :
    (hash option : Bytes)
    → IsApplicable parse (ledger_key_frozen_prop hash) (proposal_item (decided hash option))
frozen_ready hash option = (
  decided hash option,
  refl,
  refl,
  λ e. (
    record { option = option; votes = 10 },
    record empty_params { slash_rate = length option },
    refl,
    refl,
  ),
)

frozen-AreApplicable :
    AreApplicable
      (list_store GovItem)
      (list_seeker GovItem)
      (list_store-IsMap GovItem)
      (list_store-IsListed GovItem)
      parse
      frozen_lists
frozen-AreApplicable j item u e =
    entry_each (IsApplicable parse) (frozen_lists true) j item
      (frozen_ready (8 ∷ []) (1 ∷ []), (frozen_ready (9 ∷ []) (1 ∷ 2 ∷ []), tt)) e

apply_proposals_exact_example :
    (keys : List Bytes) × (next : Option GovParams) × (st : Lists GovItem) × (apply_proposals
        (list_store GovItem)
        (list_seeker GovItem)
        parse
        30
        (record ctrler { gov_state = frozen_lists })
      ≡ (ok keys, record ctrler { new_gov_params = next; gov_state = st }))
    × (next
        ≡ or_next ctrler.gov_params none (
            last_asked parse 30
              ((list_store-IsListed GovItem).entries frozen_lists (18 ∷ []))
              none))
    × IsApplied
        (list_store GovItem)
        (list_seeker GovItem)
        (list_store-IsMap GovItem)
        (list_store-IsListed GovItem)
        parse
        30
        next
        frozen_lists
        st
apply_proposals_exact_example =
    apply_proposals_exact (list_store GovItem) (list_seeker GovItem) (list_store-IsMap GovItem)
      (list_store-IsListed GovItem) parse 30 (record ctrler { gov_state = frozen_lists })
      frozen-IsValid frozen-AreApplicable

abbrev Orderly : Lists GovItem → Type 0
Orderly =
    IsOrderly (list_store GovItem) (list_seeker GovItem) (list_store-IsMap GovItem)
      (list_store-IsListed GovItem) parse

frozen-IsOrderly : Orderly frozen_lists
unfolding entry ledger_key_frozen_prop ledger_key_proposal bytes_eq
frozen-IsOrderly = record {
  is_valid = frozen-IsValid;
  open_ones = λ h item e. cc e;
  frozen_ones = λ h item e.
      entry_each (IsApplicable parse) (frozen_lists true) (ledger_key_frozen_prop h) item
        (frozen_ready (8 ∷ []) (1 ∷ []), (frozen_ready (9 ∷ []) (1 ∷ 2 ∷ []), tt)) e;
}

end_block-IsOrderly_example :
    (c' : GovCtrler (list_store GovItem) (list_seeker GovItem) parse) × (end_block
        (list_store GovItem)
        (list_seeker GovItem)
        parse
        30
        (record ctrler { gov_state = frozen_lists })
      ≡ (ok tt, c'))
    × Orderly c'.gov_state
    × (c'.gov_params ≡ ctrler.gov_params)
    × ((j : Bytes)
        → (list_store-IsMap GovItem).view c'.gov_state false j ≡ entry j (frozen_lists false))
end_block-IsOrderly_example =
    end_block-IsOrderly (list_store GovItem) (list_seeker GovItem) (list_store-IsMap GovItem)
      (list_store-IsListed GovItem) parse 30 (record ctrler { gov_state = frozen_lists })
      frozen-IsOrderly
