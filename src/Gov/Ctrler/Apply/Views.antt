-- ===== src/Gov/Ctrler/Apply/Views.antt =====
-- ctrlers/gov/ctrler.go: the ledger and the next parameters after applyProposals.
use beatoz_go.Base.{
  ℕ, ◌≡◌, ◌≢◌, refl, sym, ◌∙◌, subst, Bool, true, false, Option, none, some, List, [], ◌∷◌, Result,
  ok, if◌then◌else◌, Bool-cases, inl, inr, arith,
}
use beatoz_go.Base.Bytes.{Bytes, bytes_eq, has_prefix, bytes_eq_sound, bytes_eq_refl}
use beatoz_go.Ledger.Keys.{ledger_key_frozen_prop, ledger_key_gov_params, key_prefix_frozen_prop}
use beatoz_go.Ledger.Map.{Store, IsMap}
use beatoz_go.Ledger.Map.Removal.{NotEmpty, del_all, del_all_lem, listed}
use beatoz_go.Ledger.Map.Seek.{Seeker, IsListed, entry, AreUnder, EachEntry, each_entry}
use beatoz_go.Gov.Params.{GovParams}
use beatoz_go.Gov.Ctrler.{GovItem, params_item, GovCtrler, gov_keyed, params_fit}
use beatoz_go.Gov.Ctrler.Blocks.{Applied, apply_one, apply_proposals, set_params}
use beatoz_go.Gov.Ctrler.Apply.{
  is_due, last_asked, IsApplicable, due_keys, or_next, visit-apply_one,
}

abbrev pub due_now : ℕ → Option GovItem → Bool
due_now height none = false
due_now height (some i) = is_due height i

-- What is written under the parameters' key.
abbrev pub or_params : Option GovParams → Option GovItem → Option GovItem
or_params none o = o
or_params (some g) o = some (params_item g)

unlisted :
    (height : ℕ) (j : Bytes) (es : List (Bytes × GovItem))
    → entry j es ≡ none
    → listed j (due_keys height es) ≡ false
unfolding entry
unlisted height j [] h = refl
unlisted height j (e ∷ es) h = elim (Bool-cases (bytes_eq e.0 j)) [
  | inl here ↦ cc (rw here at h)
  | inr other ↦ elim (Bool-cases (is_due height e.1)) [
    | inl due ↦ rw (due, other) (unlisted height j es (rw other at h))
    | inr early ↦ rw early (unlisted height j es (rw other at h))
  ]
]

listed_due :
    (height : ℕ) (j : Bytes) (es : List (Bytes × GovItem)) (prefix : Bytes)
    → AreUnder prefix es
    → listed j (due_keys height es) ≡ due_now height (entry j es)
unfolding entry
listed_due height j [] prefix u = refl
listed_due height j (e ∷ es) prefix (under, apart, u) = elim (Bool-cases (bytes_eq e.0 j)) [
  | inl here ↦
      let gone =
        unlisted height j es (subst (λ x. entry x es ≡ none) (bytes_eq_sound e.0 j here) apart) in
      elim (Bool-cases (is_due height e.1)) [
        | inl due ↦ rw (due, here, due) refl
        | inr early ↦ rw (early, here, early, gone) refl
      ]
  | inr other ↦ elim (Bool-cases (is_due height e.1)) [
    | inl due ↦ rw (due, other) (listed_due height j es prefix u)
    | inr early ↦ rw (early, other) (listed_due height j es prefix u)
  ]
]

unlisted_elsewhere :
    (parse : Bytes → Result GovParams) (height : ℕ) (j : Bytes) (es : List (Bytes × GovItem))
    → EachEntry (IsApplicable parse) es
    → ((h : Bytes) → bytes_eq (ledger_key_frozen_prop h) j ≡ false)
    → listed j (due_keys height es) ≡ false
unlisted_elsewhere parse height j [] a apart = refl
unlisted_elsewhere parse height j (e ∷ es) ((p, is, at, ready), a) apart =
    let off : bytes_eq e.0 j ≡ false = rw at (apart p.header.tx_hash) in
    elim (Bool-cases (is_due height e.1)) [
      | inl due ↦ rw (due, off) (unlisted_elsewhere parse height j es a apart)
      | inr early ↦ rw early (unlisted_elsewhere parse height j es a apart)
    ]

frozen_ne_nil : (h : Bytes) → ledger_key_frozen_prop h ≢ []
unfolding ledger_key_frozen_prop
frozen_ne_nil h e = cc

keys_NotEmpty :
    (parse : Bytes → Result GovParams) (height : ℕ) (es : List (Bytes × GovItem))
    → EachEntry (IsApplicable parse) es
    → NotEmpty (due_keys height es)
keys_NotEmpty parse height [] a = tt
keys_NotEmpty parse height (e ∷ es) ((p, is, at, ready), a) =
    let ne : e.0 ≢ [] = rw at (frozen_ne_nil p.header.tx_hash) in
    elim (Bool-cases (is_due height e.1)) [
      | inl due ↦ rw due (ne, keys_NotEmpty parse height es a)
      | inr early ↦ rw early (keys_NotEmpty parse height es a)
    ]

apart_from_params : (h : Bytes) → bytes_eq (ledger_key_frozen_prop h) ledger_key_gov_params ≡ false
unfolding ledger_key_frozen_prop ledger_key_gov_params bytes_eq
apart_from_params h = refl

params_apart : (h : Bytes) → bytes_eq ledger_key_gov_params (ledger_key_frozen_prop h) ≡ false
unfolding ledger_key_frozen_prop ledger_key_gov_params bytes_eq
params_apart h = refl

params_ne_nil : ledger_key_gov_params ≢ []
unfolding ledger_key_gov_params
params_ne_nil e = cc

under_frozen :
    (h : Bytes) → has_prefix (ledger_key_frozen_prop h) (key_prefix_frozen_prop ∷ []) ≡ true
unfolding has_prefix ledger_key_frozen_prop
under_frozen h = refl

not_under :
    (j h : Bytes)
    → has_prefix j (key_prefix_frozen_prop ∷ []) ≡ false
    → bytes_eq (ledger_key_frozen_prop h) j ≡ false
unfolding has_prefix ledger_key_frozen_prop bytes_eq
not_under [] h e = refl
not_under (b ∷ j) h e = ground (arith, e)

module _ (s : Store GovItem) (k : Seeker s) (m : IsMap s) (l : IsListed m k)
    (parse : Bytes → Result GovParams) where
  abbrev pub AreApplicable : s.State → Type 0
  AreApplicable st =
      (j : Bytes) (item : GovItem)
      → has_prefix j (key_prefix_frozen_prop ∷ []) ≡ true
      → m.view st true j ≡ some item
      → IsApplicable parse j item

  set_params_lem :
      (next : Option GovParams) (st : s.State)
      → m.IsValid st
      → m.IsValid (set_params s next st)
        × ((j : Bytes)
            → m.view (set_params s next st) true j ≡ (
                if bytes_eq ledger_key_gov_params j
                then or_params next (m.view st true j)
                else m.view st true j))
        × ((j : Bytes) → m.view (set_params s next st) false j ≡ m.view st false j)
  set_params_lem none st v = (v, λ j. same (bytes_eq ledger_key_gov_params j), λ j. refl)
    where
      same : {o : Option GovItem} (b : Bool) → o ≡ (if b then o else o)
      same true = refl
      same false = refl
  set_params_lem (some g) st v =
      let (done, v', seen) =
        m.set_view ledger_key_gov_params (params_item g) true st params_ne_nil (params_fit g) v in
      (v', λ j. seen true j, λ j. seen false j)

  -- The ledger after applyProposals at a height, with the next parameters.
  pub record IsApplied (height : ℕ) (next : Option GovParams) (st st' : s.State) : Type 0 where
    pub still_valid : m.IsValid st'
    pub frozen_at :
        (h : Bytes)
        → m.view st' true (ledger_key_frozen_prop h) ≡ (
            if due_now height (m.view st true (ledger_key_frozen_prop h))
            then none
            else m.view st true (ledger_key_frozen_prop h))
    pub params_at :
        m.view st' true ledger_key_gov_params
        ≡ or_params next (m.view st true ledger_key_gov_params)
    pub elsewhere :
        (j : Bytes)
        → has_prefix j (key_prefix_frozen_prop ∷ []) ≡ false
        → bytes_eq ledger_key_gov_params j ≡ false
        → m.view st' true j ≡ m.view st true j
    pub checking_side : (j : Bytes) → m.view st' false j ≡ m.view st false j

  -- Over a ledger whose frozen proposals are stored under their own hashes, those for parameters
  -- with a majority option that the parser reads: applyProposals succeeds and removes the frozen
  -- proposals that are due. Only the last due proposal for parameters counts: the next parameters
  -- are its option merged into the current ones, whatever the earlier due ones asked for, and they
  -- are stored. The current parameters and all else are as they were.
  pub apply_proposals_exact :
      (height : ℕ) (c : GovCtrler s k parse)
      → m.IsValid c.gov_state
      → AreApplicable c.gov_state
      → (keys : List Bytes) × (next : Option GovParams) × (st : s.State) × (apply_proposals s k
            parse height c
          ≡ (ok keys, record c { new_gov_params = next; gov_state = st }))
        × (next
            ≡ or_next c.gov_params c.new_gov_params (
                last_asked parse height (l.entries c.gov_state (key_prefix_frozen_prop ∷ [])) none))
        × IsApplied height next c.gov_state st
  unfolding apply_proposals
  apply_proposals_exact height c valid applicable =
      let st = c.gov_state in
      let prefix : Bytes = key_prefix_frozen_prop ∷ [] in
      let found : List (Bytes × GovItem) = l.entries st prefix in
      let under = l.entries_under st prefix valid in
      let ready =
        each_entry (IsApplicable parse) prefix found under
          (λ j i u g. applicable j i u (l.entries_view st prefix j valid u ∙ g)) in
      let start : Applied = record { next_params = c.new_gov_params; applied = [] } in
      let next = or_next c.gov_params c.new_gov_params (last_asked parse height found none) in
      let run =
        l.seek_entries Applied prefix (apply_one s k parse c.gov_params height) st start valid
        ∙ visit-apply_one parse s k c.gov_params height found start c.new_gov_params none ready
            refl in
      let st1 = set_params s next st in
      let (v1, on1, off1) = set_params_lem next st valid in
      let (v2, on2, off2) =
        del_all_lem s m (due_keys height found) st1 (keys_NotEmpty parse height found ready) v1 in
      (
        due_keys height found,
        next,
        del_all s (due_keys height found) st1,
        rw run refl,
        refl,
        record {
          still_valid = v2;
          frozen_at = λ h.
              on2 (ledger_key_frozen_prop h)
              ∙ rw
                  (
                    listed_due height (ledger_key_frozen_prop h) found prefix under,
                    sym (
                        l.entries_view st prefix (ledger_key_frozen_prop h) valid (under_frozen h)),
                    on1 (ledger_key_frozen_prop h),
                    params_apart h,
                  )
                  refl;
          params_at =
              on2 ledger_key_gov_params
              ∙ rw
                  (
                    unlisted_elsewhere parse height ledger_key_gov_params found ready
                        apart_from_params,
                    on1 ledger_key_gov_params,
                    bytes_eq_refl ledger_key_gov_params,
                  )
                  refl;
          elsewhere = λ j p q.
              on2 j
              ∙ rw (unlisted_elsewhere parse height j found ready (λ h. not_under j h p), on1 j, q)
                  refl;
          checking_side = λ j. off2 j ∙ off1 j;
        },
      )
