-- ===== src/Ledger/Mem/History.antt =====
-- What RevertToSnapshot undoes in (*MemLedger), and what it does not.
use beatoz_go.Base.{
  ℕ, ◌≡◌, ◌≢◌, refl, sym, ap, ◌∙◌, inl, inr, false, Option, none, some, List, [], ◌∷◌, ◌++◌, ok,
  err, Status, not_found_result, length, drop, drop-append, Bool-cases, Option-cases, if◌then◌else◌,
}
use beatoz_go.Base.Bytes.{Bytes, bytes_eq, or_empty}
use beatoz_go.Ledger.Iavl.{Iavl, Items, IsHealthy, View}
use beatoz_go.Ledger.View.{
  update, undo, undo-append, undo_cong, update_cong, undo_one, put_same, at_self,
}
use beatoz_go.Ledger.Revisions
use beatoz_go.Ledger.Revisions.{RevisionList, not_past_end, revert-append}
use beatoz_go.Ledger.Mutable.{Action, attempt, or_not_found}
use beatoz_go.Ledger.Mem.{
  Ledger, get, find_raw_bytes, stored, set, del, snapshot, restore_all, revert_to_snapshot,
}
use mathlib.Core.List.{append-nil, append_assoc}

abbrev pub layered : Option (Option Bytes) → Option Bytes → Option Bytes
layered none o = o
layered (some o) _ = o

-- Every logged key has a byte.
abbrev pub HasKeys : RevisionList → Type 0
HasKeys [] = Unit
HasKeys (r ∷ rs) = (r.0 ≢ []) × HasKeys rs

HasKeys-append : (xs ys : RevisionList) → HasKeys xs → HasKeys ys → HasKeys (xs ++ ys)
HasKeys-append [] ys h k = k
HasKeys-append (x ∷ xs) ys h k = (h.0, HasKeys-append xs ys h.1 k)

abbrev pub AreStorable : (it : Items) → List (Bytes × it.Item) → Type 0
AreStorable it [] = Unit
AreStorable it ((k, i) ∷ ws) =
    (k ≢ []) × ((b : ℕ) × (bs : Bytes) × (it.encode i ≡ ok (b ∷ bs))) × AreStorable it ws

module _ (db : Iavl) (it : Items) where
  unfoldable pub set_all : List (Bytes × it.Item) → Action (Ledger db it) (Unit {0})
  unfolding set
  set_all [] l = (ok tt, l)
  set_all ((k, i) ∷ ws) l = let (r, l') = set db it k i l in attempt r l' (λ _. set_all ws l')

module _ (db : Iavl) (it : Items) (H : IsHealthy db) where
  -- What a read sees: memStorage over the saved version.
  abbrev pub view : Ledger db it → View
  view l k = layered (l.mem_storage k) (H.view_at l.immu_tree k)

  -- There is a saved version under memStorage: the tree is not nil.
  abbrev pub IsOpened : Ledger db it → Type 0
  IsOpened l = db.is_nil l.immu_tree ≡ false

  stored_lem : (l : Ledger db it) (k : Bytes) → IsOpened l → stored db it l k ≡ ok (view l k)
  unfolding stored
  stored_lem l k op = elim (Option-cases (l.mem_storage k)) [
    | inl absent ↦ rw (absent, stored) (H.get_at_view l.immu_tree k op)
    | inr (o, present) ↦ rw (present, stored) refl
  ]

  pub find_raw_bytes_lem :
      (k : Bytes) (l : Ledger db it)
      → IsOpened l
      → k ≢ []
      → find_raw_bytes db it l k ≡ or_not_found (view l k)
  unfolding find_raw_bytes
  find_raw_bytes_lem [] l op ne = absurd (ne refl)
  find_raw_bytes_lem (c ∷ cs) l op ne = rw (stored_lem l (c ∷ cs) op) refl

  get_missing :
      (k : Bytes) (l : Ledger db it)
      → IsOpened l
      → k ≢ []
      → view l k ≡ none
      → get db it k l ≡ err not_found_result
  unfolding get
  get_missing k l op ne e = rw (find_raw_bytes_lem k l op ne, e) refl

  view-update :
      (l : Ledger db it) (k : Bytes) (o : Option Bytes) (revs : RevisionList) (j : Bytes)
      → view (record l { mem_storage = update l.mem_storage k (some o); revisions = revs }) j
        ≡ (if bytes_eq k j then o else view l j)
  view-update l k o revs j = elim (Bool-cases (bytes_eq k j)) [
    | inl same ↦ rw same refl
    | inr other ↦ rw other refl
  ]

  -- What Set and Del show to later reads.
  abbrev pub Shows : Bytes → Option Bytes → Ledger db it → Status × Ledger db it → Type 0
  Shows k o l (r, l') =
      (r ≡ ok tt)
      × ((j : Bytes) → view l' j ≡ (if bytes_eq k j then o else view l j))
      × (l'.immu_tree ≡ l.immu_tree)

  pub set-Shows :
      (k : Bytes) (i : it.Item) (l : Ledger db it) (b : Bytes)
      → IsOpened l
      → k ≢ []
      → it.encode i ≡ ok b
      → Shows k (some b) l (set db it k i l)
  unfolding set
  set-Shows [] i l b op ne e = absurd (ne refl)
  set-Shows (c ∷ cs) i l b op ne e =
      let k : Bytes = c ∷ cs in
      elim (Bool-cases (bytes_eq (or_empty (view l k)) b)) [
        | inl same ↦
            rw (stored_lem l (c ∷ cs) op, e, same)
              (refl, view-update l k (some b) l.revisions, refl)
        | inr changed ↦
            rw (stored_lem l (c ∷ cs) op, e, changed)
              (refl, view-update l k (some b) (Revisions.push l.revisions k (view l k)), refl)
      ]

  pub del-Shows : (k : Bytes) (l : Ledger db it) → k ≢ [] → Shows k none l (del db it k l)
  unfolding del
  del-Shows [] l ne = absurd (ne refl)
  del-Shows (c ∷ cs) l ne =
      let k : Bytes = c ∷ cs in
      elim (Option-cases (l.mem_storage (c ∷ cs))) [
        | inl absent ↦ rw absent (refl, view-update l k none l.revisions, refl)
        | inr (o, present) ↦
            rw present (refl, view-update l k none (Revisions.push l.revisions k o), refl)
      ]

  restore_all_lem :
      (rs : RevisionList) (l : Ledger db it)
      → HasKeys rs
      → (l' : Ledger db it) × (restore_all db it rs l ≡ (ok tt, l'))
        × ((j : Bytes) → view l' j ≡ undo rs (view l) j)
        × (l'.revisions ≡ l.revisions)
        × (l'.immu_tree ≡ l.immu_tree)
  unfolding restore_all
  restore_all_lem [] l h = (l, refl, λ j. refl, refl, refl)
  restore_all_lem (([], o) ∷ rs) l h = absurd (h.0 refl)
  restore_all_lem ((c ∷ cs, o) ∷ rs) l h =
      let (m, e, w, f, tree) = restore_all_lem rs l h.1 in
      (
        record m { mem_storage = update m.mem_storage (c ∷ cs) (some o) },
        rw e refl,
        λ j.
            view-update m (c ∷ cs) o m.revisions j
            ∙ update_cong (view m) (undo rs (view l)) (c ∷ cs) o j (w j),
        f,
        tree,
      )

  revert_lem :
      (base extra : RevisionList) (l : Ledger db it)
      → l.revisions ≡ base ++ extra
      → HasKeys extra
      → (l' : Ledger db it) × (revert_to_snapshot db it (length base) l ≡ (ok tt, l'))
        × ((j : Bytes) → view l' j ≡ undo extra (view l) j)
        × (l'.revisions ≡ base)
        × (l'.immu_tree ≡ l.immu_tree)
  unfolding revert_to_snapshot
  revert_lem base extra l e h =
      let (m, e', w, f, tree) = restore_all_lem extra l h in
      (
        record m { revisions = base },
        rw
            (
              not_past_end base extra l.revisions e,
              ap (drop (length base)) e ∙ drop-append base extra,
              e',
              ap (λ rs. Revisions.revert rs (length base)) (f ∙ e) ∙ revert-append base extra,
            )
            refl,
        w,
        refl,
        tree,
      )

  -- From `l` to `l'` the log grew by `extra`, which undoes the change.
  record IsLogged (l l' : Ledger db it) : Type 0 where
    extra : RevisionList
    appended : l'.revisions ≡ l.revisions ++ extra
    undone : (j : Bytes) → undo extra (view l') j ≡ view l j
    keys : HasKeys extra
    opened : IsOpened l'

  IsLogged-trans : (k l m : Ledger db it) → IsLogged k l → IsLogged l m → IsLogged k m
  IsLogged-trans k l m p q = record {
    extra = p.extra ++ q.extra;
    appended =
        q.appended
        ∙ ap (λ revs. revs ++ q.extra) p.appended
        ∙ append_assoc k.revisions p.extra q.extra;
    undone = λ j.
        undo-append p.extra q.extra (view m) j
        ∙ undo_cong p.extra (undo q.extra (view m)) (view l) q.undone j
        ∙ p.undone j;
    keys = HasKeys-append p.extra q.extra p.keys q.keys;
    opened = q.opened;
  }

  set_lem :
      (k : Bytes) (i : it.Item) (l : Ledger db it) (b : ℕ) (bs : Bytes)
      → IsOpened l
      → k ≢ []
      → it.encode i ≡ ok (b ∷ bs)
      → (l' : Ledger db it) × (set db it k i l ≡ (ok tt, l')) × IsLogged l l'
  unfolding set
  set_lem [] i l b bs op ne e = absurd (ne refl)
  set_lem (c ∷ cs) i l b bs op ne e =
      let k : Bytes = c ∷ cs in
      let quiet : Ledger db it = record l {
        mem_storage = update l.mem_storage k (some (some (b ∷ bs)));
      } in
      let logged : Ledger db it = record quiet {
        revisions = Revisions.push l.revisions k (view l k);
      } in
      elim (Bool-cases (bytes_eq (or_empty (view l k)) (b ∷ bs))) [
        | inl same ↦ (
          quiet,
          rw (stored_lem l (c ∷ cs) op, e, same) refl,
          record {
            extra = [];
            appended = sym (append-nil l.revisions);
            undone = λ j.
                put_same (view l) (view quiet) k b bs j
                  (view-update l k (some (b ∷ bs)) l.revisions j) same;
            keys = tt;
            opened = op;
          },
        )
        | inr changed ↦ (
          logged,
          rw (stored_lem l (c ∷ cs) op, e, changed) refl,
          record {
            extra = (k, view l k) ∷ [];
            appended = refl;
            undone = λ j.
                undo_one (view l) (view logged) k (some (b ∷ bs)) j
                  (view-update l k (some (b ∷ bs)) (Revisions.push l.revisions k (view l k)) j);
            keys = (ne, tt);
            opened = op;
          },
        )
      ]

  set_all_lem :
      (ws : List (Bytes × it.Item)) (l : Ledger db it)
      → IsOpened l
      → AreStorable it ws
      → (l' : Ledger db it) × (set_all db it ws l ≡ (ok tt, l')) × IsLogged l l'
  unfolding set_all
  set_all_lem [] l op h = (
    l,
    refl,
    record {
      extra = [];
      appended = sym (append-nil l.revisions);
      undone = λ j. refl;
      keys = tt;
      opened = op;
    },
  )
  set_all_lem ((k, i) ∷ ws) l op h =
      let (m, e, p) = set_lem k i l h.1.0 h.1.1 op h.0 h.1.2 in
      let (l', e', q) = set_all_lem ws m p.opened h.2 in (l', rw e e', IsLogged-trans l m l' p q)

  -- On a saved version whose database serves it, any Sets after a snapshot (of items that encode to a byte or
  -- more, under keys of a byte or more) succeed, and the revert to the snapshot succeeds and leaves
  -- every key with the value, or the absence, that a read saw before, and the log as it was.
  pub revert_to_snapshot-set_all :
      (ws : List (Bytes × it.Item)) (l : Ledger db it)
      → IsOpened l
      → AreStorable it ws
      → (m : Ledger db it) × (l' : Ledger db it) × (set_all db it ws l ≡ (ok tt, m))
        × (revert_to_snapshot db it (snapshot db it l) m ≡ (ok tt, l'))
        × ((j : Bytes) → view l' j ≡ view l j)
        × (l'.revisions ≡ l.revisions)
  unfolding snapshot
  revert_to_snapshot-set_all ws l op h =
      let (m, e, p) = set_all_lem ws l op h in
      let (l', e', w, f, tree) = revert_lem l.revisions p.extra m p.appended p.keys in
      (m, l', e, e', λ j. w j ∙ p.undone j, f)

  -- A Del of a key that the saved version holds and memStorage has no entry for is not logged:
  -- the revert to a snapshot taken just before succeeds, and the key, which a read found before,
  -- stays deleted, so that Get fails with the missing result.
  pub revert_to_snapshot-del_lost :
      (k v : Bytes) (l : Ledger db it)
      → IsOpened l
      → k ≢ []
      → l.mem_storage k ≡ none
      → H.view_at l.immu_tree k ≡ some v
      → (m : Ledger db it) × (l' : Ledger db it) × (del db it k l ≡ (ok tt, m))
        × (revert_to_snapshot db it (snapshot db it l) m ≡ (ok tt, l'))
        × (find_raw_bytes db it l k ≡ ok v)
        × (get db it k l' ≡ err not_found_result)
  unfolding snapshot del get
  revert_to_snapshot-del_lost [] v l op ne e h = absurd (ne refl)
  revert_to_snapshot-del_lost (c ∷ cs) v l op ne e h =
      let m : Ledger db it = record l { mem_storage = update l.mem_storage (c ∷ cs) (some none) } in
      let (l', e', w, f, tree) = revert_lem l.revisions [] m (sym (append-nil l.revisions)) tt in
      (
        m,
        l',
        rw e refl,
        e',
        find_raw_bytes_lem (c ∷ cs) l op ne
            ∙ ap or_not_found (ap (λ o. layered o (H.view_at l.immu_tree (c ∷ cs))) e ∙ h),
        get_missing (c ∷ cs) l' (ap db.is_nil tree ∙ op) ne (
            w (c ∷ cs)
            ∙ view-update l (c ∷ cs) none l.revisions (c ∷ cs)
            ∙ at_self (c ∷ cs) none (view l (c ∷ cs))),
      )
