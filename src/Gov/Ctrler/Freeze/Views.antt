-- ===== src/Gov/Ctrler/Freeze/Views.antt =====
-- ctrlers/gov/ctrler.go: the ledger after freezeProposals.
use beatoz_go.Base.{
  ℕ, ◌≡◌, ◌≢◌, refl, ◌∙◌, true, false, ◌||◌, none, some, List, [], ◌∷◌, Result, ok, if◌then◌else◌,
  ◌==◌, arith,
}
use beatoz_go.Base.Bytes.{Bytes, bytes_eq, has_prefix}
use beatoz_go.Ledger.Keys.{
  ledger_key_proposal, ledger_key_frozen_prop, key_prefix_proposal, key_prefix_frozen_prop,
}
use beatoz_go.Ledger.Map.{Store, IsMap}
use beatoz_go.Ledger.Map.Removal.{del_all, del_all_lem, drop_view, listed}
use beatoz_go.Ledger.Map.Seek.{Seeker, IsListed, entry, EachEntry, each_entry}
use beatoz_go.Gov.Proposal.{Proposal}
use beatoz_go.Gov.Params.{GovParams}
use beatoz_go.Gov.Ctrler.{frozen_fits, GovItem, GovCtrler, gov_keyed}
use beatoz_go.Gov.Ctrler.Blocks.{Frozen, frozen_key, freeze_one, freeze_proposals, set_all}
use beatoz_go.Gov.Ctrler.Writes.{View, put_view, set_all_lem}
use beatoz_go.Gov.Ctrler.Freeze.{
  judge, left_open, newly_frozen, IsVotable, news, frozens, removeds, visit-freeze_one,
}
use beatoz_go.Gov.Ctrler.Freeze.Keys.{
  put_view-news, put_view_elsewhere, put_view_nil, listed_gone, unlisted_elsewhere, keys_NotEmpty,
  dropped_twice, left_open_gone, other_prefix, not_nil,
}

module _ (s : Store GovItem) (k : Seeker s) (m : IsMap s) (l : IsListed m k)
    (parse : Bytes → Result GovParams) where
  -- The open proposals for execution are stored under their own hashes and have options.
  abbrev pub AreVotable : s.State → Type 0
  AreVotable st =
      (j : Bytes) (item : GovItem)
      → has_prefix j (key_prefix_proposal ∷ []) ≡ true
      → m.view st true j ≡ some item
      → IsVotable j item

  under_proposal :
      (h : Bytes) → has_prefix (ledger_key_proposal h) (key_prefix_proposal ∷ []) ≡ true
  unfolding has_prefix ledger_key_proposal
  under_proposal h = refl

  module _ (height : ℕ) (st : s.State) (valid : m.IsValid st) (votable : AreVotable st) where
    abbrev es : List (Bytes × GovItem)
    es = l.entries st (key_prefix_proposal ∷ [])

    es-IsVotable : EachEntry IsVotable es
    es-IsVotable =
        each_entry IsVotable (key_prefix_proposal ∷ []) es
          (l.entries_under st (key_prefix_proposal ∷ []) valid)
          (λ j i u g. votable j i u (l.entries_view st (key_prefix_proposal ∷ []) j valid u ∙ g))

    abbrev written : View
    written = put_view frozen_key (news height es) (m.view st true)

    drops :
        (j : Bytes)
        → drop_view (removeds height es) (drop_view (frozens height es) written) j ≡ (
            if listed j (frozens height es) || listed j (removeds height es)
            then none
            else written j)
    drops j =
        dropped_twice (listed j (frozens height es)) (listed j (removeds height es)) (written j)

    -- At the key of an open proposal, at that of a frozen one, and elsewhere.
    removed_open :
        (h : Bytes)
        → drop_view
            (removeds height es)
            (drop_view (frozens height es) written)
            (ledger_key_proposal h)
          ≡ left_open
              (judge height (m.view st true (ledger_key_proposal h)))
              (m.view st true (ledger_key_proposal h))
    removed_open h =
        let seen =
          l.entries_view st (key_prefix_proposal ∷ []) (ledger_key_proposal h) valid
            (under_proposal h) in
        drops (ledger_key_proposal h)
        ∙ rw
            (
              listed_gone height (ledger_key_proposal h) es (key_prefix_proposal ∷ [])
                  (l.entries_under st (key_prefix_proposal ∷ []) valid),
              written_open h,
              seen,
            )
            (left_open_gone (judge height (entry (ledger_key_proposal h) es))
              (entry (ledger_key_proposal h) es))
      where
        written_open :
            (h : Bytes) → written (ledger_key_proposal h) ≡ m.view st true (ledger_key_proposal h)
        written_open h =
            unfold ledger_key_proposal in
            put_view_elsewhere (news height es) (m.view st true) key_prefix_proposal h refl

    removed_frozen :
        (h : Bytes)
        → drop_view
            (removeds height es)
            (drop_view (frozens height es) written)
            (ledger_key_frozen_prop h)
          ≡ newly_frozen
              (judge height (m.view st true (ledger_key_proposal h)))
              (m.view st true (ledger_key_frozen_prop h))
    removed_frozen h =
        let seen =
          l.entries_view st (key_prefix_proposal ∷ []) (ledger_key_proposal h) valid
            (under_proposal h) in
        drops (ledger_key_frozen_prop h)
        ∙ rw (unlisted_elsewhere height (ledger_key_frozen_prop h) es es-IsVotable (apart h), seen)
            (put_view-news height h es (m.view st true) (key_prefix_proposal ∷ []) es-IsVotable
              (l.entries_under st (key_prefix_proposal ∷ []) valid))
      where
        apart : (h g : Bytes) → bytes_eq (ledger_key_proposal g) (ledger_key_frozen_prop h) ≡ false
        apart h g = unfold ledger_key_frozen_prop in other_prefix key_prefix_frozen_prop h g refl

    removed_elsewhere :
        (j : Bytes)
        → has_prefix j (key_prefix_proposal ∷ []) ≡ false
        → has_prefix j (key_prefix_frozen_prop ∷ []) ≡ false
        → drop_view (removeds height es) (drop_view (frozens height es) written) j
          ≡ m.view st true j
    unfolding has_prefix
    removed_elsewhere [] p f =
        drops []
        ∙ rw (unlisted_elsewhere height [] es es-IsVotable not_nil)
            (put_view_nil (news height es) (m.view st true))
    removed_elsewhere (b ∷ h) p f =
        let not_open : (b == key_prefix_proposal) ≡ false = ground (arith, p) in
        let not_frozen : (b == key_prefix_frozen_prop) ≡ false = ground (arith, f) in
        drops (b ∷ h)
        ∙ rw (unlisted_elsewhere height (b ∷ h) es es-IsVotable (λ g. other_prefix b h g not_open))
            (put_view_elsewhere (news height es) (m.view st true) b h not_frozen)

  -- The ledger after freezeProposals at a height.
  pub record IsFrozenAt (height : ℕ) (st st' : s.State) : Type 0 where
    pub still_valid : m.IsValid st'
    pub open_at :
        (h : Bytes)
        → m.view st' true (ledger_key_proposal h)
          ≡ left_open
              (judge height (m.view st true (ledger_key_proposal h)))
              (m.view st true (ledger_key_proposal h))
    pub frozen_at :
        (h : Bytes)
        → m.view st' true (ledger_key_frozen_prop h)
          ≡ newly_frozen
              (judge height (m.view st true (ledger_key_proposal h)))
              (m.view st true (ledger_key_frozen_prop h))
    pub elsewhere :
        (j : Bytes)
        → has_prefix j (key_prefix_proposal ∷ []) ≡ false
        → has_prefix j (key_prefix_frozen_prop ∷ []) ≡ false
        → m.view st' true j ≡ m.view st true j
    pub checking_side : (j : Bytes) → m.view st' false j ≡ m.view st false j

  frozen_key_ne : (p : Proposal) → frozen_key p ≢ []
  unfolding ledger_key_frozen_prop
  frozen_key_ne p e = cc

  -- Over a ledger whose open proposals are stored under their own hashes and have options,
  -- freezeProposals succeeds and changes no parameters. An open proposal whose last voting height is
  -- below the height is gone from the open ones; where UpdateMajorOption gives it a majority option
  -- it stands among the frozen ones under the same hash. All else is as it was.
  pub freeze_proposals_exact :
      (height : ℕ) (c : GovCtrler s k parse)
      → m.IsValid c.gov_state
      → AreVotable c.gov_state
      → (keys : List Bytes × List Bytes) × (st : s.State) × (freeze_proposals s k parse height c
          ≡ (ok keys, record c { gov_state = st }))
        × IsFrozenAt height c.gov_state st
  unfolding freeze_proposals
  freeze_proposals_exact height c valid votable =
      let st = c.gov_state in
      let found : List (Bytes × GovItem) = l.entries st (key_prefix_proposal ∷ []) in
      let open_ones = es-IsVotable height st valid votable in
      let run =
        l.seek_entries Frozen (key_prefix_proposal ∷ []) (freeze_one s k parse height) st
          (record { new_frozens = []; frozen_props = []; removed_props = [] }) valid
        ∙ visit-freeze_one s k parse height found
            (record { new_frozens = []; frozen_props = []; removed_props = [] }) open_ones in
      let (ne_f, ne_r) = keys_NotEmpty height found open_ones in
      let st1 = set_all s frozen_key (news height found) st in
      let st2 = del_all s (frozens height found) st1 in
      let st3 = del_all s (removeds height found) st2 in
      let (v1, on1, off1) =
        set_all_lem s k m frozen_key (news height found) st frozen_key_ne
          (λ p. frozen_fits p.header.tx_hash p) valid in
      let (v2, on2, off2) = del_all_lem s m (frozens height found) st1 ne_f v1 in
      let (v3, on3, off3) = del_all_lem s m (removeds height found) st2 ne_r v2 in
      let all : (j : Bytes)
          → m.view st3 true j
            ≡ drop_view (removeds height found)
                (drop_view (frozens height found) (written height st valid votable)) j =
        λ j. rw (on3 j, on2 j, on1 j) refl in
      (
        (frozens height found, removeds height found),
        st3,
        rw run refl,
        record {
          still_valid = v3;
          open_at = λ h. all (ledger_key_proposal h) ∙ removed_open height st valid votable h;
          frozen_at =
              λ h. all (ledger_key_frozen_prop h) ∙ removed_frozen height st valid votable h;
          elsewhere = λ j p f. all j ∙ removed_elsewhere height st valid votable j p f;
          checking_side = λ j. off3 j ∙ off2 j ∙ off1 j;
        },
      )
