-- ===== src/Ledger/Mutable.antt =====
-- ledger/v1/mutable_ledger.go: the ledger that is committed. Each method takes the ledger and
-- returns its result with the ledger that it leaves.
pub mod Restore
pub mod History
pub mod Cache
pub mod Exact
use beatoz_go.Base.{
  ℕ, Bool, true, false, Option, none, some, List, [], ◌∷◌, Result, ok, err, panic, Status,
  not_found_result, length, ltb, drop, if◌then◌else◌, ◌>>=◌,
}
use beatoz_go.Base.Bytes.{Bytes, bytes_eq, has_prefix, or_empty}
use beatoz_go.Ledger.Iavl.{Iavl, Items}
use beatoz_go.Ledger.View.{update}
use beatoz_go.Ledger.Revisions
use beatoz_go.Ledger.Revisions.{KvPair, RevisionList}

-- The fields that change. `cached k` is `cachedObjs[string(k)]`.
pub record MutableLedger (Tree Item : Type 0) : Type 0 where
  pub tree : Tree
  pub revisions : RevisionList
  pub cached : Bytes → Option Item

-- A call that changes the ledger and may fail; an early return keeps what was written before it.
abbrev pub Action : Type 0 → Type 0 → Type 0
Action S A = S → Result A × S

abbrev pub attempt {ℓ} :
    {S : Type 0} {A : Type ℓ} {B : Type 0} → Result A → S → (A → Result B × S) → Result B × S
attempt (ok a) s k = k a
attempt (err e) s k = (err e, s)
attempt panic s k = (panic, s)

-- `unsafe.String(&key[0], len(key))` indexes the first byte.
abbrev pub keystr : Bytes → Result Bytes
keystr [] = panic
keystr (b ∷ bs) = ok (b ∷ bs)

-- `if bz == nil { return ErrNotFoundResult }`
abbrev pub or_not_found : Option Bytes → Result Bytes
or_not_found none = err not_found_result
or_not_found (some b) = ok b

-- The loop of Seek and Iterate: decode each entry and hand it to the callback, until the prefix
-- ends or something fails. The callback's own state is `C`.
abbrev pub Callback : Type 0 → Type 0 → Type 0
Callback Item C = Bytes → Item → C → Status × C

module _ (it : Items) {C : Type 0} where
  unfoldable pub seek_loop : Bytes → Callback it.Item C → List (Bytes × Bytes) → C → Status × C
  seek_loop prefix cb [] c = (ok tt, c)
  seek_loop prefix cb (e ∷ rest) c = elim (has_prefix e.0 prefix) [
    | false ↦ (ok tt, c)
    | true ↦
        attempt (it.decode e.0 e.1) c
          (λ item. let (r, c') = cb e.0 item c in attempt r c' (λ _. seek_loop prefix cb rest c'))
  ]

module _ (db : Iavl) (it : Items) where
  abbrev pub Ledger : Type 0
  Ledger = MutableLedger db.Tree it.Item

  -- (*MutableLedger).get
  unfoldable pub get_stored : Ledger → Bytes → Result it.Item
  get_stored l key = do found ← db.get l.tree key; bz ← or_not_found found; it.decode key bz

  -- (*MutableLedger).Get
  unfoldable pub get : Bytes → Action Ledger it.Item
  unfolding get_stored
  get key l = attempt (keystr key) l λ ks. elim (l.cached ks) [
    | some obj ↦ (ok obj, l)
    | none ↦
        attempt (get_stored l key) l
          (λ item. (ok item, record l { cached = update l.cached ks (some item) }))
  ]

  -- (*MutableLedger).Iterate, over every entry in ascending order.
  unfoldable pub iterate : {C : Type 0} → Callback it.Item C → Ledger → C → Status × C
  unfolding seek_loop
  iterate cb l c = attempt (db.iterator l.tree [] true) c (λ entries. seek_loop it [] cb entries c)

  -- (*MutableLedger).Seek
  unfoldable pub seek : {C : Type 0} → Bytes → Bool → Callback it.Item C → Ledger → C → Status × C
  unfolding seek_loop
  seek prefix ascending cb l c =
      attempt (db.iterator l.tree prefix ascending) c (λ entries. seek_loop it prefix cb entries c)

  -- (*MutableLedger).set
  unfoldable pub set_stored : Bytes → it.Item → Action Ledger (Unit {0})
  set_stored key item l = attempt (db.get l.tree key) l λ old_val.
      attempt (it.encode item) l λ new_val. attempt (db.set l.tree key new_val) l λ tree. (
        ok tt,
        if bytes_eq (or_empty old_val) new_val
            then record l { tree = tree }
            else record l { tree = tree; revisions = Revisions.push l.revisions key old_val },
      )

  -- (*MutableLedger).Set
  unfoldable pub set : Bytes → it.Item → Action Ledger (Unit {0})
  unfolding set_stored
  set key item l =
      let (r, l') = set_stored key item l in
      attempt r l' λ _.
        attempt (keystr key) l'
          λ ks. (ok tt, record l' { cached = update l'.cached ks (some item) })

  -- (*MutableLedger).Del
  unfoldable pub del : Bytes → Action Ledger (Unit {0})
  del key l = attempt (db.remove l.tree key) l λ removal.
      let (old_val, removed, tree) = removal in
      let l' : Ledger =
        if removed
        then record l { tree = tree; revisions = Revisions.push l.revisions key old_val }
        else record l { tree = tree } in
      attempt (keystr key) l' λ ks. (ok tt, record l' { cached = update l'.cached ks none })

  -- (*MutableLedger).Snapshot
  unfoldable pub snapshot : Ledger → ℕ
  snapshot l = Revisions.snapshot l.revisions

  -- The body of the loop of RevertToSnapshot, on one logged revision.
  unfoldable pub restore : KvPair → Action Ledger (Unit {0})
  restore (key, some val) l = attempt (db.set l.tree key val) l λ tree.
      let l' : Ledger = record l { tree = tree } in
      attempt (it.decode key val) l' λ item.
        attempt (keystr key) l'
          λ ks. (ok tt, record l' { cached = update l'.cached ks (some item) })
  restore (key, none) l = attempt (db.remove l.tree key) l λ removal.
      let l' : Ledger = record l { tree = removal.2 } in
      attempt (keystr key) l' λ ks. (ok tt, record l' { cached = update l'.cached ks none })

  -- `for i := len(restores) - 1; i >= 0; i--`
  unfoldable pub restore_all : RevisionList → Action Ledger (Unit {0})
  unfolding restore
  restore_all [] l = (ok tt, l)
  restore_all (r ∷ rs) l = let (s, l') = restore_all rs l in attempt s l' (λ _. restore r l')

  -- (*MutableLedger).RevertToSnapshot
  unfoldable pub revert_to_snapshot : ℕ → Action Ledger (Unit {0})
  unfolding restore_all
  revert_to_snapshot snap l =
      if ltb (length l.revisions) snap
      then (panic, l)
      else (let (s, l') = restore_all (drop snap l.revisions) l in
          attempt s l' λ _.
            attempt (Revisions.revert l'.revisions snap) l'
              λ revs. (ok tt, record l' { revisions = revs }))

  -- (*MutableLedger).Commit
  unfoldable pub commit : Action Ledger (Bytes × ℕ)
  commit l = attempt (db.save_version l.tree) l λ saved.
      let (hash, version, tree) = saved in
      (
        ok (hash, version),
        record { tree = tree; revisions = Revisions.reset l.revisions; cached = λ k. none },
      )

  -- (*MutableLedger).Version
  unfoldable pub version : Ledger → ℕ
  version l = db.version l.tree

  -- (*MutableLedger).GetReadOnlyTree
  unfoldable pub get_read_only_tree : Ledger → ℕ → Result db.Immutable
  get_read_only_tree l ver = db.get_immutable l.tree ver
