-- ===== src/Gov/Ctrler/Orderly.antt =====
-- ctrlers/gov: EndBlock over a ledger in order.
pub mod EndBlock
use beatoz_go.Base.{
  ℕ, ◌≡◌, ◌≢◌, refl, sym, ap, ◌∙◌, subst, Bool, true, false, ◌&&◌, ◌⊎◌, Option, none, some, List,
  [], ◌∷◌, Result, ok, err, panic, if◌then◌else◌, Bool-cases, Option-cases, inl, inr, ◌==◌, ==_iff,
  arith,
}
use mathlib.Core.Option.{some-injective}
use beatoz_go.Base.Words.{slt64}
use beatoz_go.Base.Bytes.{Bytes, bytes_eq, has_prefix}
use beatoz_go.Ledger.Keys.{
  ledger_key_proposal, ledger_key_frozen_prop, ledger_key_gov_params, key_prefix_proposal,
  key_prefix_frozen_prop,
}
use beatoz_go.Ledger.Map.{Store, IsMap}
use beatoz_go.Ledger.Map.Seek.{Seeker, IsListed}
use beatoz_go.Gov.Proposal.{Proposal, VoteOption}
use beatoz_go.Gov.Params.{GovParams}
use beatoz_go.Gov.Majority.{update_major_option}
use beatoz_go.Gov.Majority.Choice.{Each, Among, IsChosen, update_major_option_exact}
use beatoz_go.Gov.Ctrler.{GovItem, proposal_item, params_item, proposal_govparams, GovCtrler}
use beatoz_go.Gov.Ctrler.Blocks.{freeze_proposals, apply_proposals, end_block}
use beatoz_go.Gov.Ctrler.Freeze.{
  Verdict, keep, freeze, remove, verdict, judge, left_open, newly_frozen, by_major,
}
use beatoz_go.Gov.Ctrler.Freeze.Views.{AreVotable, IsFrozenAt, freeze_proposals_exact}
use beatoz_go.Gov.Ctrler.Apply.{IsApplicable}
use beatoz_go.Gov.Ctrler.Apply.Views.{AreApplicable, IsApplied, due_now, apply_proposals_exact}

Each-Among :
    (P : VoteOption → Type 0) (o : VoteOption) (os : List VoteOption) → Each P os → Among o os → P o
Each-Among P o [] a h = absurd h
Each-Among P o (p ∷ ps) (b, a) (inl e) = subst P (sym e) b
Each-Among P o (p ∷ ps) (b, a) (inr h) = Each-Among P o ps a h

pub split_prefix : (x : ℕ) (j : Bytes) → has_prefix j (x ∷ []) ≡ true → (h : Bytes) × (j ≡ x ∷ h)
unfolding has_prefix
split_prefix x [] e = cc
split_prefix x (b ∷ h) e = (h, ap (λ y. y ∷ h) (ground (arith, e)))

pub left_open-some :
    (v : Verdict) (o : Option GovItem) (i : GovItem) → left_open v o ≡ some i → o ≡ some i
left_open-some keep o i e = e
left_open-some (freeze p) o i e = cc
left_open-some remove o i e = cc

pub key_hash : (g h : Bytes) → ledger_key_proposal g ≡ ledger_key_proposal h → g ≡ h
unfolding ledger_key_proposal
key_hash g h e = ap tail e
  where
    tail : Bytes → Bytes
    tail [] = []
    tail (b ∷ bs) = bs

-- A verdict of freezing comes from UpdateMajorOption.
by_major_freeze : (q p : Proposal) → by_major q ≡ freeze p → (q ≡ p) × (by_major q ≡ freeze q)
by_major_freeze q p e = go q.major_option e
  where
    go :
        (o : Option VoteOption)
        → (elim o as (λ x. Verdict) [ some y ↦ freeze q | none ↦ remove ]) ≡ freeze p
        → (q ≡ p) × ((elim o as (λ x. Verdict) [ some y ↦ freeze q | none ↦ remove ]) ≡ freeze q)
    go none e = cc
    go (some o) e =
        (ap (λ v. elim v as (λ x. Proposal) [ freeze y ↦ y | keep ↦ q | remove ↦ q ]) e, refl)

verdict_freeze :
    (height : ℕ) (p p' : Proposal)
    → verdict height (proposal_item p) ≡ freeze p'
    → (update_major_option p ≡ ok p') × (by_major p' ≡ freeze p')
verdict_freeze height p p' e = elim (Bool-cases (slt64 p.header.end_voting_height height)) [
  | inr voting ↦ cc (rw voting at e)
  | inl expired ↦ go (update_major_option p) refl (rw expired at e)
]
  where
    go :
        (r : Result Proposal)
        → update_major_option p ≡ r
        → (elim r as (λ x. Verdict) [ ok q ↦ by_major q | _ ↦ keep ]) ≡ freeze p'
        → (update_major_option p ≡ ok p') × (by_major p' ≡ freeze p')
    go panic is e = cc
    go (err x) is e = cc
    go (ok q) is e =
        let (same, major) = by_major_freeze q p' e in
        (is ∙ ap ok same, subst (λ y. by_major y ≡ freeze y) same major)

module _ (parse : Bytes → Result GovParams) where
  -- The options of a proposal for parameters can be read.
  abbrev pub IsReadable : Proposal → Type 0
  IsReadable p =
      (p.header.prop_type == proposal_govparams) ≡ true
      → Each (λ o. (g : GovParams) × (parse o.option ≡ ok g)) p.options

  -- An open proposal: under its own hash, with options that can be read, and not decided.
  pub record IsOpen (key : Bytes) (p : Proposal) : Type 0 where
    pub key_is : key ≡ ledger_key_proposal p.header.tx_hash
    pub some_there : p.options ≢ []
    pub undecided : p.major_option ≡ none
    pub readable : IsReadable p

  -- What UpdateMajorOption decides of an open proposal can be applied.
  decided_ready :
      (key : Bytes) (p p' : Proposal)
      → IsOpen key p
      → update_major_option p ≡ ok p'
      → by_major p' ≡ freeze p'
      → (p'.header.prop_type == proposal_govparams) ≡ true
      → (o : VoteOption) × (g : GovParams) × (p'.major_option ≡ some o) × (parse o.option ≡ ok g)
  decided_ready key p p' open_p ran major params =
      let (q, ran', chosen) = update_major_option_exact p open_p.some_there in
      let same : q ≡ p' =
        ap (λ r. elim r as (λ x. Proposal) [ ok y ↦ y | _ ↦ q ]) (sym ran' ∙ ran) in
      let chosen' : IsChosen p p' = subst (λ x. IsChosen p x) same chosen in
      elim chosen'.choice [
        | inl (o, found, among, reached, most) ↦
            let type_is : (p.header.prop_type == proposal_govparams) ≡ true =
              rw⁻¹ chosen'.same_header params in
            let (g, read) =
              Each-Among (λ o. (g : GovParams) × (parse o.option ≡ ok g)) o p.options
                (open_p.readable type_is) among in
            (o, g, found, read)
        | inr (stays, missed) ↦ absurd (not_frozen (stays ∙ open_p.undecided))
      ]
    where
      not_frozen : p'.major_option ≡ none → ⊥
      not_frozen e = cc (rw e at major)

  decided_hash :
      (key : Bytes) (p p' : Proposal)
      → IsOpen key p
      → update_major_option p ≡ ok p'
      → p'.header.tx_hash ≡ p.header.tx_hash
  decided_hash key p p' open_p ran =
      let (q, ran', chosen) = update_major_option_exact p open_p.some_there in
      let same : q ≡ p' =
        ap (λ r. elim r as (λ x. Proposal) [ ok y ↦ y | _ ↦ q ]) (sym ran' ∙ ran) in
      ap (λ y. y.header.tx_hash) (sym same) ∙ ap (λ y. y.tx_hash) chosen.same_header

  -- Freezing what was open under a hash gives what can be applied under that hash.
  pub newly_ready :
      (height : ℕ) (h : Bytes) (o old : Option GovItem) (item : GovItem)
      → ((i : GovItem)
          → o ≡ some i
          → (p : Proposal) × (i ≡ proposal_item p) × IsOpen (ledger_key_proposal h) p)
      → ((i : GovItem) → old ≡ some i → IsApplicable parse (ledger_key_frozen_prop h) i)
      → newly_frozen (judge height o) old ≡ some item
      → IsApplicable parse (ledger_key_frozen_prop h) item
  newly_ready height h none old item was were e = were item e
  newly_ready height h (some i) old item was were e =
      let (p, is, open_p) = was i refl in
      go p open_p (verdict height (proposal_item p)) refl
        (subst (λ y. newly_frozen (verdict height y) old ≡ some item) is e)
    where
      go :
          (p : Proposal)
          → IsOpen (ledger_key_proposal h) p
          → (v : Verdict) → verdict height (proposal_item p) ≡ v
          → newly_frozen v old ≡ some item
          → IsApplicable parse (ledger_key_frozen_prop h) item
      go p open_p keep is e = were item e
      go p open_p remove is e = were item e
      go p open_p (freeze p') is e =
          let (ran, major) = verdict_freeze height p p' is in
          (
            p',
            sym (some-injective (proposal_item p') item e),
            ap ledger_key_frozen_prop (
                key_hash h p.header.tx_hash open_p.key_is
                ∙ sym (decided_hash (ledger_key_proposal h) p p' open_p ran)),
            decided_ready (ledger_key_proposal h) p p' open_p ran major,
          )
