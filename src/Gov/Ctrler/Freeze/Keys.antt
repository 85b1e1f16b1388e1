-- ===== src/Gov/Ctrler/Freeze/Keys.antt =====
-- ctrlers/gov/ctrler.go: which keys freezeProposals writes and removes.
use beatoz_go.Base.{
  ℕ, ◌≡◌, ◌≢◌, refl, sym, ◌∙◌, subst, Bool, true, false, ◌||◌, ◌⊎◌, Option, none, some, List, [],
  ◌∷◌, if◌then◌else◌, Bool-cases, inl, inr, ◌==◌, arith,
}
use beatoz_go.Base.Words.{slt64}
use beatoz_go.Base.Bytes.{Bytes, bytes_eq, bytes_eq_sound}
use beatoz_go.Ledger.Keys.{
  ledger_key_proposal, ledger_key_frozen_prop, key_prefix_proposal, key_prefix_frozen_prop,
}
use beatoz_go.Ledger.Map.Removal.{NotEmpty, listed}
use beatoz_go.Ledger.Map.Seek.{entry, AreUnder, EachEntry}
use beatoz_go.Gov.Proposal.{Proposal, VoteOption}
use beatoz_go.Gov.Majority.Choice.{update_major_option_exact}
use beatoz_go.Gov.Ctrler.{GovItem, proposal_item}
use beatoz_go.Gov.Ctrler.Blocks.{frozen_key}
use beatoz_go.Gov.Ctrler.Writes.{View, put_view}
use beatoz_go.Gov.Ctrler.Freeze.{
  Verdict, keep, freeze, remove, by_major, verdict, judge, left_open, newly_frozen, IsVotable, news,
  frozens, removeds, frozen_of, removed_of,
}

by_major_cases : (p : Proposal) → (by_major p ≡ freeze p) ⊎ (by_major p ≡ remove)
by_major_cases p = go p.major_option
  where
    go :
        (o : Option VoteOption)
        → ((elim o as (λ x. Verdict) [ some y ↦ freeze p | none ↦ remove ]) ≡ freeze p)
          ⊎ ((elim o as (λ x. Verdict) [ some y ↦ freeze p | none ↦ remove ]) ≡ remove)
    go none = inr refl
    go (some o) = inl refl

-- A proposal that is frozen has the hash under which it was open.
pub data Judged (key : Bytes) (v : Verdict) : Type 0 where
  kept : v ≡ keep → Judged key v
  removed : v ≡ remove → Judged key v
  frozen : (p : Proposal) → v ≡ freeze p → key ≡ ledger_key_proposal p.header.tx_hash → Judged key v

judge_proposal :
    (height : ℕ) (p : Proposal)
    → p.options ≢ []
    → Judged (ledger_key_proposal p.header.tx_hash) (verdict height (proposal_item p))
judge_proposal height p some_there = elim (Bool-cases (slt64 p.header.end_voting_height height)) [
  | inr voting ↦ kept (rw voting refl)
  | inl expired ↦
      let (p', ran, chosen) = update_major_option_exact p some_there in
      elim (by_major_cases p') [
        | inl major ↦ frozen p' (rw (expired, ran) major) (rw chosen.same_header refl)
        | inr minor ↦ removed (rw (expired, ran) minor)
      ]
]

pub verdict_cases :
    (height : ℕ) (key : Bytes) (item : GovItem)
    → IsVotable key item
    → Judged key (verdict height item)
verdict_cases height key item (p, is, at, some_there) =
    rw (is, at) (judge_proposal height p some_there)

-- The keys that are written begin with the prefix of the frozen proposals.
pub put_view_elsewhere :
    (ps : List Proposal) (v : View) (b : ℕ) (h : Bytes)
    → (b == key_prefix_frozen_prop) ≡ false
    → put_view frozen_key ps v (b ∷ h) ≡ v (b ∷ h)
unfolding ledger_key_frozen_prop bytes_eq
put_view_elsewhere [] v b h e = refl
put_view_elsewhere (p ∷ ps) v b h e =
    put_view_elsewhere ps (λ j. if bytes_eq (frozen_key p) j then some (proposal_item p) else v j) b
      h e
    ∙ ground (arith, e)

pub put_view_nil : (ps : List Proposal) (v : View) → put_view frozen_key ps v [] ≡ v []
unfolding ledger_key_frozen_prop bytes_eq
put_view_nil [] v = refl
put_view_nil (p ∷ ps) v =
    put_view_nil ps (λ j. if bytes_eq (frozen_key p) j then some (proposal_item p) else v j)

abbrev pub is_gone : Verdict → Bool
is_gone keep = false
is_gone _ = true

frozen_same :
    (g h : Bytes) → bytes_eq (ledger_key_frozen_prop g) (ledger_key_frozen_prop h) ≡ bytes_eq g h
unfolding ledger_key_frozen_prop bytes_eq
frozen_same g h = ground arith

proposal_same :
    (g h : Bytes) → bytes_eq (ledger_key_proposal g) (ledger_key_proposal h) ≡ bytes_eq g h
unfolding ledger_key_proposal bytes_eq
proposal_same g h = ground arith

-- A proposal's two keys fall together with another's two keys.
same_hash :
    (key h : Bytes) (p : Proposal) (b : Bool)
    → key ≡ ledger_key_proposal p.header.tx_hash
    → bytes_eq key (ledger_key_proposal h) ≡ b
    → bytes_eq (frozen_key p) (ledger_key_frozen_prop h) ≡ b
same_hash key h p b at e =
    frozen_same p.header.tx_hash h ∙ sym (proposal_same p.header.tx_hash h) ∙ (rw at at e)

-- The frozen proposals that are written are those of the verdicts.
pub put_view-news :
    (height : ℕ) (h : Bytes) (es : List (Bytes × GovItem)) (v : View) (prefix : Bytes)
    → EachEntry IsVotable es
    → AreUnder prefix es
    → put_view frozen_key (news height es) v (ledger_key_frozen_prop h)
      ≡ newly_frozen
          (judge height (entry (ledger_key_proposal h) es))
          (v (ledger_key_frozen_prop h))
unfolding entry
put_view-news height h [] v prefix a u = refl
put_view-news height h (e ∷ es) v prefix (votable, a) (under, apart, u) =
    let with_frozen : Proposal → View =
      λ p j. if bytes_eq (frozen_key p) j then some (proposal_item p) else v j in
    elim (Bool-cases (bytes_eq e.0 (ledger_key_proposal h))) [
      | inl here ↦
          let gone : entry (ledger_key_proposal h) es ≡ none =
            subst (λ j. entry j es ≡ none) (bytes_eq_sound e.0 (ledger_key_proposal h) here)
              apart in
          let ih : (w : View)
              → put_view frozen_key (news height es) w (ledger_key_frozen_prop h)
                ≡ w (ledger_key_frozen_prop h) =
            λ w. put_view-news height h es w prefix a u ∙ rw gone refl in
          elim (verdict_cases height e.0 e.1 votable) [
            | kept is ↦ rw (here, is) (ih v)
            | removed is ↦ rw (here, is) (ih v)
            | frozen p is at ↦
                rw (here, is) (ih (with_frozen p) ∙ rw (same_hash e.0 h p true at here) refl)
          ]
      | inr other ↦ elim (verdict_cases height e.0 e.1 votable) [
        | kept is ↦ rw (other, is) (put_view-news height h es v prefix a u)
        | removed is ↦ rw (other, is) (put_view-news height h es v prefix a u)
        | frozen p is at ↦
            rw (other, is)
              (put_view-news height h es (with_frozen p) prefix a u
                ∙ rw (same_hash e.0 h p false at other) refl)
      ]
    ]

-- The keys that are removed are those of the proposals that are judged.
unlisted :
    (height : ℕ) (j : Bytes) (es : List (Bytes × GovItem))
    → entry j es ≡ none
    → (listed j (frozens height es) ≡ false) × (listed j (removeds height es) ≡ false)
unfolding entry
unlisted height j [] h = (refl, refl)
unlisted height j (e ∷ es) h = elim (Bool-cases (bytes_eq e.0 j)) [
  | inl here ↦ cc (rw here at h)
  | inr other ↦
      let (a, b) = unlisted height j es (rw other at h) in grown (verdict height e.1) a b other
]
  where
    grown :
        (v : Verdict)
        → listed j (frozens height es) ≡ false
        → listed j (removeds height es) ≡ false
        → bytes_eq e.0 j ≡ false
        → (listed j (frozen_of v e.0 (frozens height es)) ≡ false)
          × (listed j (removed_of v e.0 (removeds height es)) ≡ false)
    grown keep a b o = (a, b)
    grown (freeze p) a b o = (rw (o, a) refl, b)
    grown remove a b o = (a, rw (o, b) refl)

pub listed_gone :
    (height : ℕ) (j : Bytes) (es : List (Bytes × GovItem)) (prefix : Bytes)
    → AreUnder prefix es
    → (listed j (frozens height es) || listed j (removeds height es))
      ≡ is_gone (judge height (entry j es))
unfolding entry
listed_gone height j [] prefix u = refl
listed_gone height j (e ∷ es) prefix (under, apart, u) = elim (Bool-cases (bytes_eq e.0 j)) [
  | inl here ↦
      let gone : entry j es ≡ none =
        subst (λ x. entry x es ≡ none) (bytes_eq_sound e.0 j here) apart in
      let (a, b) = unlisted height j es gone in rw here (first (verdict height e.1) a b here)
  | inr other ↦ rw other (later (verdict height e.1) other ∙ listed_gone height j es prefix u)
]
  where
    first :
        (v : Verdict)
        → listed j (frozens height es) ≡ false
        → listed j (removeds height es) ≡ false
        → bytes_eq e.0 j ≡ true
        → (listed j (frozen_of v e.0 (frozens height es))
            || listed j (removed_of v e.0 (removeds height es)))
          ≡ is_gone v
    first keep a b h = rw (a, b) refl
    first (freeze p) a b h = rw h refl
    first remove a b h = rw (h, a) refl

    later :
        (v : Verdict)
        → bytes_eq e.0 j ≡ false
        → (listed j (frozen_of v e.0 (frozens height es))
            || listed j (removed_of v e.0 (removeds height es)))
          ≡ (listed j (frozens height es) || listed j (removeds height es))
    later keep h = refl
    later (freeze p) h = rw h refl
    later remove h = rw h refl

-- The keys that are removed begin with the prefix of the open proposals.
pub other_prefix :
    (b : ℕ) (h g : Bytes)
    → (b == key_prefix_proposal) ≡ false
    → bytes_eq (ledger_key_proposal g) (b ∷ h) ≡ false
unfolding ledger_key_proposal bytes_eq
other_prefix b h g e = ground (arith, e)

key_ne_nil : (g : Bytes) → ledger_key_proposal g ≢ []
unfolding ledger_key_proposal
key_ne_nil g e = cc

pub not_nil : (g : Bytes) → bytes_eq (ledger_key_proposal g) [] ≡ false
unfolding ledger_key_proposal bytes_eq
not_nil g = refl

pub unlisted_elsewhere :
    (height : ℕ) (j : Bytes) (es : List (Bytes × GovItem))
    → EachEntry IsVotable es
    → ((g : Bytes) → bytes_eq (ledger_key_proposal g) j ≡ false)
    → (listed j (frozens height es) || listed j (removeds height es)) ≡ false
unlisted_elsewhere height j [] a apart = refl
unlisted_elsewhere height j (e ∷ es) ((p, is, at, some_there), a) apart =
    skipped (verdict height e.1) (rw at (apart p.header.tx_hash))
    ∙ unlisted_elsewhere height j es a apart
  where
    skipped :
        (v : Verdict)
        → bytes_eq e.0 j ≡ false
        → (listed j (frozen_of v e.0 (frozens height es))
            || listed j (removed_of v e.0 (removeds height es)))
          ≡ (listed j (frozens height es) || listed j (removeds height es))
    skipped keep h = refl
    skipped (freeze p) h = rw h refl
    skipped remove h = rw h refl

pub keys_NotEmpty :
    (height : ℕ) (es : List (Bytes × GovItem))
    → EachEntry IsVotable es
    → NotEmpty (frozens height es) × NotEmpty (removeds height es)
keys_NotEmpty height [] a = (tt, tt)
keys_NotEmpty height (e ∷ es) ((p, is, at, some_there), a) =
    let (f, r) = keys_NotEmpty height es a in
    grown (verdict height e.1) f r (rw at (key_ne_nil p.header.tx_hash))
  where
    grown :
        (v : Verdict)
        → NotEmpty (frozens height es)
        → NotEmpty (removeds height es)
        → e.0 ≢ []
        → NotEmpty (frozen_of v e.0 (frozens height es))
          × NotEmpty (removed_of v e.0 (removeds height es))
    grown keep f r h = (f, r)
    grown (freeze p) f r h = ((h, f), r)
    grown remove f r h = (f, (h, r))

pub dropped_twice :
    (a b : Bool) (o : Option GovItem)
    → (if b then none else if a then none else o) ≡ (if a || b then none else o)
dropped_twice true true o = refl
dropped_twice true false o = refl
dropped_twice false true o = refl
dropped_twice false false o = refl

pub left_open_gone :
    (v : Verdict) (o : Option GovItem) → (if is_gone v then none else o) ≡ left_open v o
left_open_gone keep o = refl
left_open_gone (freeze p) o = refl
left_open_gone remove o = refl
