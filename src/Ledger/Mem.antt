-- ===== src/Ledger/Mem.antt =====
-- ledger/v1/mem_ledger.go: the ledger for checking and simulation, over a saved version that it
-- does not change.
pub mod History
use beatoz_go.Base.{
  ℕ, Bool, true, false, Option, none, some, List, [], ◌∷◌, Result, ok, err, panic, Status,
  not_found_result, length, ltb, drop, if◌then◌else◌, ◌>>=◌,
}
use beatoz_go.Base.Bytes.{Bytes, bytes_eq, or_empty}
use beatoz_go.Ledger.Iavl.{Iavl, Items}
use beatoz_go.Ledger.View.{update}
use beatoz_go.Ledger.Revisions
use beatoz_go.Ledger.Revisions.{KvPair, RevisionList}
use beatoz_go.Ledger.Mutable.{Action, attempt, keystr, or_not_found, Callback, seek_loop}
use beatoz_go.Ledger.Mutable

-- `mem_storage k` is `memStorage[string(k)]`: no entry, an entry that is nil, or a value.
pub record MemLedger (Immutable : Type 0) : Type 0 where
  pub immu_tree : Immutable
  pub mem_storage : Bytes → Option (Option Bytes)
  pub revisions : RevisionList

module _ (db : Iavl) (it : Items) where
  abbrev pub Ledger : Type 0
  Ledger = MemLedger db.Immutable

  -- NewMemLedgerAt
  unfoldable pub new_mem_ledger_at : ℕ → Mutable.Ledger db it → Result Ledger
  unfolding Mutable.get_read_only_tree
  new_mem_ledger_at ver from = do
    tree ← if ltb 0 ver then Mutable.get_read_only_tree db it from ver else ok db.nil_tree
    ok (record { immu_tree = tree; mem_storage = λ k. none; revisions = [] })

  -- The value under a key: that of memStorage if it has an entry, or else the tree's.
  unfoldable pub stored : Ledger → Bytes → Result (Option Bytes)
  stored l key = elim (l.mem_storage key) [ some bz ↦ ok bz | none ↦ db.get_at l.immu_tree key ]

  -- (*MemLedger).findRawBytes
  unfoldable pub find_raw_bytes : Ledger → Bytes → Result Bytes
  unfolding stored
  find_raw_bytes l key = do ks ← keystr key; bz ← stored l ks; or_not_found bz

  -- (*MemLedger).Get
  unfoldable pub get : Bytes → Ledger → Result it.Item
  unfolding find_raw_bytes
  get key l = do bz ← find_raw_bytes l key; it.decode key bz

  -- (*MemLedger).Iterate, over every entry in ascending order.
  unfoldable pub iterate : {C : Type 0} → Callback it.Item C → Ledger → C → Status × C
  unfolding seek_loop
  iterate cb l c =
      if db.is_nil l.immu_tree
      then (err not_found_result, c)
      else attempt (db.iterator_at l.immu_tree [] true) c (λ entries. seek_loop it [] cb entries c)

  -- (*MemLedger).Seek
  unfoldable pub seek : {C : Type 0} → Bytes → Bool → Callback it.Item C → Ledger → C → Status × C
  unfolding seek_loop
  seek prefix ascending cb l c =
      if db.is_nil l.immu_tree
      then (err not_found_result, c)
      else attempt (db.iterator_at l.immu_tree prefix ascending) c
          (λ entries. seek_loop it prefix cb entries c)

  -- (*MemLedger).Set
  unfoldable pub set : Bytes → it.Item → Action Ledger (Unit {0})
  unfolding stored
  set key item l = attempt (keystr key) l λ ks. attempt (stored l ks) l λ old_val.
      attempt (it.encode item) l λ new_val.
        let l' : Ledger =
          if bytes_eq (or_empty old_val) new_val
          then l
          else record l { revisions = Revisions.push l.revisions key old_val } in
        (ok tt, record l' { mem_storage = update l'.mem_storage ks (some (some new_val)) })

  -- (*MemLedger).Del
  unfoldable pub del : Bytes → Action Ledger (Unit {0})
  del key l = attempt (keystr key) l λ ks.
      let l' : Ledger = elim (l.mem_storage ks) [
        | some old_val ↦ record l { revisions = Revisions.push l.revisions key old_val }
        | none ↦ l
      ] in
      (ok tt, record l' { mem_storage = update l'.mem_storage ks (some none) })

  -- (*MemLedger).Snapshot
  unfoldable pub snapshot : Ledger → ℕ
  snapshot l = Revisions.snapshot l.revisions

  -- `for i := len(restores) - 1; i >= 0; i--`
  unfoldable pub restore_all : RevisionList → Action Ledger (Unit {0})
  restore_all [] l = (ok tt, l)
  restore_all (r ∷ rs) l =
      let (s, l') = restore_all rs l in
      attempt s l' λ _.
        attempt (keystr r.0) l'
          λ ks. (ok tt, record l' { mem_storage = update l'.mem_storage ks (some r.1) })

  -- (*MemLedger).RevertToSnapshot
  unfoldable pub revert_to_snapshot : ℕ → Action Ledger (Unit {0})
  unfolding restore_all
  revert_to_snapshot snap l =
      if ltb (length l.revisions) snap
      then (panic, l)
      else (let (s, l') = restore_all (drop snap l.revisions) l in
          attempt s l' λ _.
            attempt (Revisions.revert l'.revisions snap) l'
              λ revs. (ok tt, record l' { revisions = revs }))
