-- ===== src/Ledger/Mutable/Restore.antt =====
-- RevertToSnapshot puts back what the log of (*MutableLedger) holds.
use beatoz_go.Base.{
  ◌≡◌, ◌≢◌, refl, ap, ◌∙◌, Option, none, some, [], ◌∷◌, ◌++◌, ok, length, drop, drop-append, inr,
}
use beatoz_go.Base.Bytes.{Bytes}
use mathlib.Core.Option.{some-injective}
use beatoz_go.Ledger.Iavl.{Iavl, Items, IsHealthy}
use beatoz_go.Ledger.Mutable.Cache.{IsCoherent, update-IsCoherent}
use beatoz_go.Ledger.View.{update, undo, update_cong}
use beatoz_go.Ledger.Revisions
use beatoz_go.Ledger.Revisions.{KvPair, RevisionList, not_past_end, revert-append}
use beatoz_go.Ledger.Mutable.{Ledger, restore, restore_all, revert_to_snapshot}

-- A value that was overwritten can be decoded again.
abbrev pub Decodes : (it : Items) → Bytes → Option Bytes → Type 0
Decodes it k none = Unit
Decodes it k (some v) = (i : it.Item) × (it.decode k v ≡ ok i)

abbrev pub Restorable : Items → RevisionList → Type 0
Restorable it [] = Unit
Restorable it (r ∷ rs) = (r.0 ≢ []) × Decodes it r.0 r.1 × Restorable it rs

module _ (db : Iavl) (it : Items) (H : IsHealthy db) where
  abbrev pub Restored : KvPair → Ledger db it → Ledger db it → Type 0
  Restored r l l' =
      (restore db it r l ≡ (ok tt, l'))
      × ((j : Bytes) → H.view l'.tree j ≡ update (H.view l.tree) r.0 r.1 j)
      × (l'.revisions ≡ l.revisions)
      × (IsCoherent db it H l → IsCoherent db it H l')

  restore_lem :
      (r : KvPair) (l : Ledger db it)
      → r.0 ≢ []
      → Decodes it r.0 r.1
      → (l' : Ledger db it) × Restored r l l'
  unfolding restore
  restore_lem ([], o) l h d = absurd (h refl)
  restore_lem (b ∷ bs, some v) l h d =
      let (t', e, w) = H.set_view l.tree (b ∷ bs) v in
      let l' : Ledger db it = record {
        tree = t';
        revisions = l.revisions;
        cached = update l.cached (b ∷ bs) (some d.0);
      } in
      (
        l',
        (
          rw (e, d.1) refl,
          w,
          refl,
          λ c.
              update-IsCoherent db it H (b ∷ bs) (some v) (some d.0) l l' c w (λ j. refl)
                (λ i p. inr (d.1 ∙ ap ok (some-injective _ _ p))),
        ),
      )
  restore_lem (b ∷ bs, none) l h d =
      let (t', e, w) = H.remove_view l.tree (b ∷ bs) in
      let l' : Ledger db it = record {
        tree = t';
        revisions = l.revisions;
        cached = update l.cached (b ∷ bs) none;
      } in
      (
        l',
        (
          rw e refl,
          w,
          refl,
          λ c. update-IsCoherent db it H (b ∷ bs) none none l l' c w (λ j. refl) (λ i p. cc),
        ),
      )

  abbrev pub RestoredAll : RevisionList → Ledger db it → Ledger db it → Type 0
  RestoredAll rs l l' =
      (restore_all db it rs l ≡ (ok tt, l'))
      × ((j : Bytes) → H.view l'.tree j ≡ undo rs (H.view l.tree) j)
      × (l'.revisions ≡ l.revisions)
      × (IsCoherent db it H l → IsCoherent db it H l')

  pub restore_all_lem :
      (rs : RevisionList) (l : Ledger db it)
      → Restorable it rs
      → (l' : Ledger db it) × RestoredAll rs l l'
  unfolding restore_all
  restore_all_lem [] l h = (l, (refl, λ j. refl, refl, λ c. c))
  restore_all_lem (r ∷ rs) l h =
      let (m, p) = restore_all_lem rs l h.2 in
      let (l', q) = restore_lem r m h.0 h.1 in
      (
        l',
        (
          rw (p.0) (q.0),
          λ j. q.1 j ∙ update_cong (H.view m.tree) (undo rs (H.view l.tree)) r.0 r.1 j (p.1 j),
          q.2 ∙ p.2,
          λ c. q.3 (p.3 c),
        ),
      )

  -- What reverting leaves, when the log is `base` followed by `extra`.
  pub revert_lem :
      (base extra : RevisionList) (l : Ledger db it)
      → l.revisions ≡ base ++ extra
      → Restorable it extra
      → (l' : Ledger db it) × (revert_to_snapshot db it (length base) l ≡ (ok tt, l'))
        × ((j : Bytes) → H.view l'.tree j ≡ undo extra (H.view l.tree) j)
        × (l'.revisions ≡ base)
        × (IsCoherent db it H l → IsCoherent db it H l')
  unfolding revert_to_snapshot
  revert_lem base extra l e h =
      let (m, p) = restore_all_lem extra l h in
      (
        record m { revisions = base },
        rw
            (
              not_past_end base extra l.revisions e,
              ap (drop (length base)) e ∙ drop-append base extra,
              p.0,
              ap (λ rs. Revisions.revert rs (length base)) (p.2 ∙ e) ∙ revert-append base extra,
            )
            refl,
        p.1,
        refl,
        λ c. record { at = (p.3 c).at },
      )
