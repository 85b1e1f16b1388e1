-- ===== src/Gov/Ctrler/Apply.antt =====
-- ctrlers/gov/ctrler.go: what applyProposals does to the parameters and the ledger.
pub mod Views
use beatoz_go.Base.{
  ℕ, ◌≡◌, ◌≢◌, refl, sym, ap, ◌∙◌, subst, Bool, true, false, ◌&&◌, ◌||◌, Option, none, some, List,
  [], ◌∷◌, ◌++◌, Status, Result, ok, if◌then◌else◌, Bool-cases, inl, inr, ◌==◌, arith,
}
use mathlib.Core.List.{append_assoc, append-nil}
use beatoz_go.Base.Words.{sle64}
use beatoz_go.Base.Bytes.{Bytes, bytes_eq, has_prefix, bytes_eq_sound, bytes_eq_refl, bytes_eq_sym}
use beatoz_go.Ledger.Keys.{ledger_key_frozen_prop, ledger_key_gov_params, key_prefix_frozen_prop}
use beatoz_go.Ledger.Map.{Store, IsMap}
use beatoz_go.Ledger.Map.Removal.{NotEmpty, del_all, del_all_lem, drop_view, listed}
use beatoz_go.Ledger.Map.Seek.{Seeker, IsListed, visit, entry, AreUnder, EachEntry, each_entry}
use beatoz_go.Gov.Proposal.{Proposal, VoteOption}
use beatoz_go.Gov.Params.{GovParams, merge_gov_params}
use beatoz_go.Gov.Ctrler.{
  GovItem, proposal_item, params_item, proposal_govparams, GovCtrler, gov_keyed,
}
use beatoz_go.Gov.Ctrler.Blocks.{Applied, apply_one, apply_proposals, set_params}
use beatoz_go.Gov.Ctrler.Writes.{View}

-- Whether a frozen proposal is due, and what a due one asks for.
abbrev pub is_due : ℕ → GovItem → Bool
is_due height (params_item g) = false
is_due height (proposal_item p) = sle64 p.header.apply_height height

abbrev pub due_keys : ℕ → List (Bytes × GovItem) → List Bytes
due_keys height [] = []
due_keys height (e ∷ es) =
    let rest = due_keys height es in if is_due height e.1 then e.0 ∷ rest else rest

-- The next parameters, where some are asked for: merged into the current ones.
abbrev pub or_next : GovParams → Option GovParams → Option GovParams → Option GovParams
or_next g init none = init
or_next g init (some g') = some (merge_gov_params g g')

-- One entry as the callback takes it.
abbrev taken : GovParams → Bool → Option GovParams → Bytes → Applied → Applied
taken g false asks key a = a
taken g true asks key a = record {
  applied = a.applied ++ (key ∷ []);
  next_params = or_next g a.next_params asks;
}

abbrev pub or_earlier : Option GovParams → Option GovParams → Option GovParams
or_earlier acc none = acc
or_earlier acc (some g) = some g

now :
    (g : GovParams) (a : Applied) (init acc asks : Option GovParams)
    → a.next_params ≡ or_next g init acc
    → or_next g a.next_params asks ≡ or_next g init (or_earlier acc asks)
now g a init acc none e = e
now g a init acc (some g') e = refl

module _ (parse : Bytes → Result GovParams) where
  abbrev pub parsed : Option VoteOption → Option GovParams
  parsed none = none
  parsed (some o) = elim (parse o.option) [ ok g ↦ some g | _ ↦ none ]

  -- The parameters that a proposal for them asks for; others ask for none.
  abbrev pub asked : GovItem → Option GovParams
  asked (params_item g) = none
  asked (proposal_item p) =
      if p.header.prop_type == proposal_govparams then parsed p.major_option else none

  -- The parameters asked for by the last due proposal for parameters, the earlier due ones left out.
  unfoldable pub last_asked : ℕ → List (Bytes × GovItem) → Option GovParams → Option GovParams
  last_asked height [] acc = acc
  last_asked height (e ∷ es) acc =
      last_asked height es (if is_due height e.1 then or_earlier acc (asked e.1) else acc)

  -- A frozen proposal is stored under its own hash; one for parameters has a majority option that
  -- the parser reads.
  abbrev pub IsApplicable : Bytes → GovItem → Type 0
  IsApplicable key item =
      (p : Proposal) × (item ≡ proposal_item p)
      × (key ≡ ledger_key_frozen_prop p.header.tx_hash)
      × ((p.header.prop_type == proposal_govparams) ≡ true
          → (o : VoteOption) × (g : GovParams) × (p.major_option ≡ some o)
            × (parse o.option ≡ ok g))

  module _ (s : Store GovItem) (k : Seeker s) where
    apply_one_lem :
        (g : GovParams) (height : ℕ) (key : Bytes) (item : GovItem) (a : Applied)
        → IsApplicable key item
        → apply_one s k parse g height key item a
          ≡ (ok tt, taken g (is_due height item) (asked item) key a)
    unfolding apply_one
    apply_one_lem g height key item a (p, is, at, ready) = rw is (on p ready)
      where
        on :
            (p : Proposal)
            → ((p.header.prop_type == proposal_govparams) ≡ true
                → (o : VoteOption) × (g : GovParams) × (p.major_option ≡ some o)
                  × (parse o.option ≡ ok g))
            → apply_one s k parse g height key (proposal_item p) a
              ≡ (ok tt, taken g (is_due height (proposal_item p)) (asked (proposal_item p)) key a)
        on p ready = elim (Bool-cases (sle64 p.header.apply_height height)) [
          | inr early ↦ rw (early, apply_one) refl
          | inl due ↦ elim (Bool-cases (p.header.prop_type == proposal_govparams)) [
            | inr other ↦ rw (due, other, apply_one) refl
            | inl params ↦
                let (o, g', major, read) = ready params in
                rw (due, params, major, parsed, read, apply_one) refl
          ]
        ]

    visit-apply_one :
        (g : GovParams) (height : ℕ) (es : List (Bytes × GovItem)) (a : Applied)
        (init acc : Option GovParams)
        → EachEntry IsApplicable es
        → a.next_params ≡ or_next g init acc
        → visit (apply_one s k parse g height) es a ≡ (
          ok tt,
          record {
            applied = a.applied ++ due_keys height es;
            next_params = or_next g init (last_asked height es acc);
          },
        )
    unfolding visit last_asked
    visit-apply_one g height [] a init acc all e = rw (append-nil a.applied, sym e) refl
    visit-apply_one g height (e ∷ es) a init acc (applicable, all) is =
        rw (apply_one_lem g height e.0 e.1 a applicable) (elim (Bool-cases (is_due height e.1)) [
          | inr early ↦ rw early (visit-apply_one g height es a init acc all is)
          | inl due ↦
              let a1 : Applied = taken g true (asked e.1) e.0 a in
              rw due (
                visit-apply_one g height es a1 init (or_earlier acc (asked e.1)) all
                  (now g a init acc (asked e.1) is)
                ∙ ap
                    (λ l. (
                      ok tt,
                      record {
                        applied = l;
                        next_params =
                            or_next g init (last_asked height es (or_earlier acc (asked e.1)));
                      },
                    ))
                    (append_assoc a.applied (e.0 ∷ []) (due_keys height es)))
        ])
