-- ===== src/Gov/Ctrler/Freeze.antt =====
-- ctrlers/gov/ctrler.go: what freezeProposals does to the ledger.
pub mod Keys
pub mod Views
use beatoz_go.Base.{
  ℕ, ◌≡◌, ◌≢◌, refl, sym, ap, ◌∙◌, subst, Bool, true, false, ◌&&◌, ◌||◌, Option, none, some, List,
  [], ◌∷◌, ◌++◌, Status, Result, ok, Option-cases, if◌then◌else◌, Bool-cases, inl, inr, ◌==◌, arith,
}
use mathlib.Core.List.{append_assoc, append-nil}
use beatoz_go.Base.Words.{slt64}
use beatoz_go.Base.Bytes.{Bytes, bytes_eq, has_prefix, bytes_eq_sound, bytes_eq_refl}
use beatoz_go.Ledger.Keys.{
  ledger_key_proposal, ledger_key_frozen_prop, key_prefix_proposal, key_prefix_frozen_prop,
}
use beatoz_go.Ledger.Map.{Store, IsMap}
use beatoz_go.Ledger.Map.Removal.{NotEmpty, del_all, del_all_lem, drop_view, listed}
use beatoz_go.Ledger.Map.Seek.{
  Seeker, IsListed, visit, entry, AreUnder, EachEntry, each_entry, entry_not_here, entry_is_here,
}
use beatoz_go.Gov.Proposal.{Proposal, VoteOption}
use beatoz_go.Gov.Params.{GovParams}
use beatoz_go.Gov.Majority.{update_major_option}
use beatoz_go.Gov.Majority.Choice.{IsChosen, update_major_option_exact}
use beatoz_go.Gov.Ctrler.{GovItem, proposal_item, params_item, GovCtrler, gov_keyed}
use beatoz_go.Gov.Ctrler.Blocks.{Frozen, frozen_key, freeze_one, freeze_proposals, set_all}
use beatoz_go.Gov.Ctrler.Writes.{View, put_view, put_view_cong, set_all_lem}

-- What becomes of an open proposal at the end of a block.
pub data Verdict : Type 0 where
  keep : Verdict
  freeze : Proposal → Verdict
  remove : Verdict

abbrev pub by_major : Proposal → Verdict
by_major p = elim p.major_option [ some o ↦ freeze p | none ↦ remove ]

-- Up to its last voting height a proposal is kept; after it, the majority option decides.
abbrev pub verdict : ℕ → GovItem → Verdict
verdict height (params_item g) = keep
verdict height (proposal_item p) =
    if slt64 p.header.end_voting_height height
    then elim (update_major_option p) [ ok p' ↦ by_major p' | _ ↦ keep ]
    else keep

abbrev pub judge : ℕ → Option GovItem → Verdict
judge height none = keep
judge height (some i) = verdict height i

abbrev pub left_open : Verdict → Option GovItem → Option GovItem
left_open keep o = o
left_open _ o = none

abbrev pub newly_frozen : Verdict → Option GovItem → Option GovItem
newly_frozen (freeze p) o = some (proposal_item p)
newly_frozen _ o = o

-- An open proposal is stored under its own hash and has options.
abbrev pub IsVotable : Bytes → GovItem → Type 0
IsVotable key item =
    (p : Proposal) × (item ≡ proposal_item p)
    × (key ≡ ledger_key_proposal p.header.tx_hash)
    × (p.options ≢ [])

abbrev pub news_of : Verdict → List Proposal → List Proposal
news_of (freeze p) ps = p ∷ ps
news_of _ ps = ps

abbrev pub frozen_of : Verdict → Bytes → List Bytes → List Bytes
frozen_of (freeze p) k ks = k ∷ ks
frozen_of _ k ks = ks

abbrev pub removed_of : Verdict → Bytes → List Bytes → List Bytes
removed_of remove k ks = k ∷ ks
removed_of _ k ks = ks

abbrev pub news : ℕ → List (Bytes × GovItem) → List Proposal
news height [] = []
news height (e ∷ es) = news_of (verdict height e.1) (news height es)

abbrev pub frozens : ℕ → List (Bytes × GovItem) → List Bytes
frozens height [] = []
frozens height (e ∷ es) = frozen_of (verdict height e.1) e.0 (frozens height es)

abbrev pub removeds : ℕ → List (Bytes × GovItem) → List Bytes
removeds height [] = []
removeds height (e ∷ es) = removed_of (verdict height e.1) e.0 (removeds height es)

-- One entry as the callback collects it.
abbrev pub collect : Verdict → Bytes → Frozen → Frozen
collect keep key f = f
collect (freeze p) key f = record f {
  new_frozens = f.new_frozens ++ (p ∷ []);
  frozen_props = f.frozen_props ++ (key ∷ []);
}
collect remove key f = record f { removed_props = f.removed_props ++ (key ∷ []) }

decided :
    (key : Bytes) (p : Proposal) (f : Frozen) (o : Option VoteOption)
    → ◌≡◌ {A = Status × Frozen}
        (elim o as (λ x. Status × Frozen) [
          | none ↦ (ok tt, record f { removed_props = f.removed_props ++ (key ∷ []) })
          | some x ↦ (
            ok tt,
            record f {
              new_frozens = f.new_frozens ++ (p ∷ []);
              frozen_props = f.frozen_props ++ (key ∷ []);
            },
          )
        ])
        (ok tt, collect (elim o as (λ x. Verdict) [ none ↦ remove | some x ↦ freeze p ]) key f)
decided key p f none = refl
decided key p f (some o) = refl

module _ (s : Store GovItem) (k : Seeker s) (parse : Bytes → Result GovParams) where
  freeze_proposal_lem :
      (height : ℕ) (key : Bytes) (p : Proposal) (f : Frozen)
      → p.options ≢ []
      → freeze_one s k parse height key (proposal_item p) f
        ≡ (ok tt, collect (verdict height (proposal_item p)) key f)
  unfolding freeze_one
  freeze_proposal_lem height key p f some_there =
      elim (Bool-cases (slt64 p.header.end_voting_height height)) [
        | inr voting ↦ rw voting refl
        | inl expired ↦
            let (p', ran, chosen) = update_major_option_exact p some_there in
            rw (expired, ran) (decided key p' f p'.major_option)
      ]

  freeze_one_lem :
      (height : ℕ) (key : Bytes) (item : GovItem) (f : Frozen)
      → IsVotable key item
      → freeze_one s k parse height key item f ≡ (ok tt, collect (verdict height item) key f)
  freeze_one_lem height key item f (p, is, at, some_there) =
      rw is (freeze_proposal_lem height key p f some_there)

  -- The walk over the open proposals collects what the verdicts say.
  visit-freeze_one :
      (height : ℕ) (es : List (Bytes × GovItem)) (f : Frozen)
      → EachEntry IsVotable es
      → visit (freeze_one s k parse height) es f ≡ (
        ok tt,
        record {
          new_frozens = f.new_frozens ++ news height es;
          frozen_props = f.frozen_props ++ frozens height es;
          removed_props = f.removed_props ++ removeds height es;
        },
      )
  unfolding visit
  visit-freeze_one height [] f a = simp append-nil
  visit-freeze_one height (e ∷ es) f (votable, a) = rw (freeze_one_lem height e.0 e.1 f votable) (
      visit-freeze_one height es (collect (verdict height e.1) e.0 f) a
      ∙ joined (verdict height e.1) e.0 (news height es) (frozens height es) (removeds height es))
    where
      joined :
          (v : Verdict) (key : Bytes) (ns : List Proposal) (fs rs : List Bytes)
          → ◌≡◌ {A = Status × Frozen}
              (
                ok tt,
                record {
                  new_frozens = (collect v key f).new_frozens ++ ns;
                  frozen_props = (collect v key f).frozen_props ++ fs;
                  removed_props = (collect v key f).removed_props ++ rs;
                },
              )
              (
                ok tt,
                record {
                  new_frozens = f.new_frozens ++ news_of v ns;
                  frozen_props = f.frozen_props ++ frozen_of v key fs;
                  removed_props = f.removed_props ++ removed_of v key rs;
                },
              )
      joined keep key ns fs rs = refl
      joined (freeze p) key ns fs rs = simp append_assoc
      joined remove key ns fs rs = simp append_assoc
