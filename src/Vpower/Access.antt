-- ===== src/Vpower/Access.antt =====
-- ctrlers/vpower/ctrler_vpower.go: the reads and writes of the ledger of voting power, and the walk
-- over its delegatees. The Go reads give nil where an item has another type, and its use panics.
use beatoz_go.Base.{Bool, ℕ, List, [], ◌∷◌, ◌++◌, Result, ok, panic, ◌>>=◌}
use beatoz_go.Base.Bytes.{Bytes}
use beatoz_go.Ledger.Mutable.{Action, attempt}
use beatoz_go.Ledger.Keys.{ledger_key_delegatee, ledger_key_vpower, key_prefix_delegatee}
use beatoz_go.Ledger.Map.{Store}
use beatoz_go.Ledger.Map.Seek.{Seeker}
use beatoz_go.Vpower.Chunks.{
  VPower, Delegatee, FrozenVPower, VpowerItem, vpower_item, delegatee_item, frozen_item, count_item,
}

abbrev pub as_vpower : VpowerItem → Result VPower
as_vpower (vpower_item v) = ok v
as_vpower _ = panic

abbrev pub as_delegatee : VpowerItem → Result Delegatee
as_delegatee (delegatee_item d) = ok d
as_delegatee _ = panic

abbrev pub as_frozen : VpowerItem → Result FrozenVPower
as_frozen (frozen_item f) = ok f
as_frozen _ = panic

abbrev pub as_count : VpowerItem → Result ℕ
as_count (count_item n) = ok n
as_count _ = panic

module _ (s : Store VpowerItem) where
  -- readDelegatee
  unfoldable pub read_delegatee : Bytes → Bool → Action s.State Delegatee
  read_delegatee addr exec st =
      let (r, st') = s.get (ledger_key_delegatee addr) exec st in
      (do item ← r; as_delegatee item, st')

  -- writeDelegatee
  abbrev pub write_delegatee : Delegatee → Bool → Action s.State (Unit {0})
  write_delegatee d exec = s.set d.key (delegatee_item d) exec

  -- removeDelegatee
  abbrev pub remove_delegatee : Bytes → Bool → Action s.State (Unit {0})
  remove_delegatee addr exec = s.del (ledger_key_delegatee addr) exec

  -- readVPower
  unfoldable pub read_vpower : Bytes → Bytes → Bool → Action s.State VPower
  read_vpower from to exec st =
      let (r, st') = s.get (ledger_key_vpower from to) exec st in (do item ← r; as_vpower item, st')

  -- writeVPower
  abbrev pub write_vpower : VPower → Bool → Action s.State (Unit {0})
  write_vpower v exec = s.set v.key (vpower_item v) exec

  -- removeVPower
  abbrev pub remove_vpower : Bytes → Bytes → Bool → Action s.State (Unit {0})
  remove_vpower from to exec = s.del (ledger_key_vpower from to) exec

  -- loadDelegatees
  unfoldable pub load_delegatees : Seeker s → Bool → s.State → Result (List Delegatee)
  load_delegatees k exec st =
      let (r, ds) =
        k.seek (List Delegatee) (key_prefix_delegatee ∷ [])
          (λ key item ds. attempt (as_delegatee item) ds λ d. (ok tt, ds ++ (d ∷ []))) exec st [] in
      do _ ← r; ok ds
