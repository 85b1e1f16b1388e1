-- ===== src/Ledger/State.antt =====
-- ledger/v1/state_ledger.go: the committed ledger, used to execute blocks, beside the one that
-- checks and simulates over the last saved version. `exec` chooses between them.
pub mod Separation
pub mod Commit
use beatoz_go.Base.{ℕ, Bool, true, false, Result, ok, Status, if◌then◌else◌, ◌>>=◌}
use beatoz_go.Base.Bytes.{Bytes}
use beatoz_go.Ledger.Iavl.{Iavl, Items}
use beatoz_go.Ledger.Mutable
use beatoz_go.Ledger.Mutable.{Action, attempt, Callback}
use beatoz_go.Ledger.Mem

module _ (db : Iavl) (it : Items) where
  pub record StateLedger : Type 0 where
    pub commit_ledger : Mutable.Ledger db it
    pub imitable_ledger : Mem.Ledger db it

  -- NewStateLedger, on a ledger that NewMutableLedger opened.
  unfoldable pub new_state_ledger : Mutable.Ledger db it → Result StateLedger
  unfolding Mutable.version Mem.new_mem_ledger_at
  new_state_ledger opened = do
    imitable ← Mem.new_mem_ledger_at db it (Mutable.version db it opened) opened
    ok (record { commit_ledger = opened; imitable_ledger = imitable })

  -- A method of the chosen ledger, with the other one left alone (getLedger).
  unfoldable pub on_commit : {A : Type 0} → Action (Mutable.Ledger db it) A → Action StateLedger A
  on_commit f s = let (r, l) = f s.commit_ledger in (r, record s { commit_ledger = l })

  unfoldable pub on_imitable : {A : Type 0} → Action (Mem.Ledger db it) A → Action StateLedger A
  on_imitable f s = let (r, l) = f s.imitable_ledger in (r, record s { imitable_ledger = l })

  -- (*StateLedger).Version
  unfoldable pub version : StateLedger → ℕ
  unfolding Mutable.version
  version s = Mutable.version db it s.commit_ledger

  -- (*StateLedger).Get
  unfoldable pub get : Bytes → Bool → Action StateLedger it.Item
  unfolding Mutable.get Mem.get on_commit on_imitable
  get key true s = on_commit (Mutable.get db it key) s
  get key false s = (Mem.get db it key s.imitable_ledger, s)

  -- (*StateLedger).Iterate
  unfoldable pub iterate : {C : Type 0} → Callback it.Item C → Bool → StateLedger → C → Status × C
  unfolding Mutable.iterate Mem.iterate
  iterate cb true s c = Mutable.iterate db it cb s.commit_ledger c
  iterate cb false s c = Mem.iterate db it cb s.imitable_ledger c

  -- (*StateLedger).Seek
  unfoldable pub seek :
      {C : Type 0} → Bytes → Bool → Callback it.Item C → Bool → StateLedger → C → Status × C
  unfolding Mutable.seek Mem.seek
  seek prefix ascending cb true s c = Mutable.seek db it prefix ascending cb s.commit_ledger c
  seek prefix ascending cb false s c = Mem.seek db it prefix ascending cb s.imitable_ledger c

  -- (*StateLedger).Set
  unfoldable pub set : Bytes → it.Item → Bool → Action StateLedger (Unit {0})
  unfolding Mutable.set Mem.set on_commit on_imitable
  set key item true s = on_commit (Mutable.set db it key item) s
  set key item false s = on_imitable (Mem.set db it key item) s

  -- (*StateLedger).Del
  unfoldable pub del : Bytes → Bool → Action StateLedger (Unit {0})
  unfolding Mutable.del Mem.del on_commit on_imitable
  del key true s = on_commit (Mutable.del db it key) s
  del key false s = on_imitable (Mem.del db it key) s

  -- (*StateLedger).Snapshot
  unfoldable pub snapshot : Bool → StateLedger → ℕ
  unfolding Mutable.snapshot Mem.snapshot
  snapshot true s = Mutable.snapshot db it s.commit_ledger
  snapshot false s = Mem.snapshot db it s.imitable_ledger

  -- (*StateLedger).RevertToSnapshot
  unfoldable pub revert_to_snapshot : ℕ → Bool → Action StateLedger (Unit {0})
  unfolding Mutable.revert_to_snapshot Mem.revert_to_snapshot on_commit on_imitable
  revert_to_snapshot snap true s = on_commit (Mutable.revert_to_snapshot db it snap) s
  revert_to_snapshot snap false s = on_imitable (Mem.revert_to_snapshot db it snap) s

  -- (*StateLedger).Commit. Where the new version cannot be opened, Go has set imitableLedger to nil
  -- and returns the error; the model keeps the old one there.
  unfoldable pub commit : Action StateLedger (Bytes × ℕ)
  unfolding Mutable.commit Mem.new_mem_ledger_at
  commit s =
      let (r, l) = Mutable.commit db it s.commit_ledger in
      let s' : StateLedger = record s { commit_ledger = l } in
      attempt r s' λ saved.
        attempt (Mem.new_mem_ledger_at db it saved.1 l) s'
          λ imitable. (ok saved, record s' { imitable_ledger = imitable })

  -- (*StateLedger).ImitableLedgerAt
  unfoldable pub imitable_ledger_at : ℕ → StateLedger → Result (Mem.Ledger db it)
  unfolding Mem.new_mem_ledger_at
  imitable_ledger_at height s = Mem.new_mem_ledger_at db it height s.commit_ledger
