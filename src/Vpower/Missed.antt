-- ===== src/Vpower/Missed.antt =====
-- ctrlers/vpower/ctrler_vpower.go: how many blocks each validator has missed. A count is an int64.
use beatoz_go.Base.{Bool, ℕ, List, [], ◌∷◌, ◌++◌, Result, ok, err, ◌>>=◌, not_found_result}
use beatoz_go.Base.Words.{add64}
use beatoz_go.Base.Bytes.{Bytes}
use beatoz_go.Ledger.Mutable.{Action, attempt}
use beatoz_go.Ledger.Keys.{ledger_key_missed_block_count, key_prefix_missed_block_count}
use beatoz_go.Ledger.Map.{Store}
use beatoz_go.Ledger.Map.Seek.{Seeker}
use beatoz_go.Vpower.Chunks.{VpowerItem, count_item}
use beatoz_go.Vpower.Access.{as_count}

abbrev pub or_no_count : Result ℕ → Result ℕ
or_no_count (err not_found_result) = ok 0
or_no_count r = r

module _ (s : Store VpowerItem) where
  -- getMissedBlockCount
  unfoldable pub get_missed_block_count : Bytes → Bool → Action s.State ℕ
  get_missed_block_count addr exec st =
      let (r, st') = s.get (ledger_key_missed_block_count addr) exec st in
      (do item ← r; as_count item, st')

  -- setMissedBlockCount
  abbrev pub set_missed_block_count : Bytes → ℕ → Bool → Action s.State (Unit {0})
  set_missed_block_count addr c exec =
      s.set (ledger_key_missed_block_count addr) (count_item c) exec

  -- addMissedBlockCount; its callers look at the count only where there is no error.
  unfoldable pub add_missed_block_count : Bytes → Bool → Action s.State ℕ
  add_missed_block_count addr exec st =
      let (r, st') = get_missed_block_count addr exec st in
      attempt (or_no_count r) st' λ c.
        let (r', st'') = set_missed_block_count addr (add64 c 1) exec st' in
        (do _ ← r'; ok (add64 c 1), st'')

  abbrev del_each : List Bytes → Bool → s.State → s.State
  del_each [] exec st = st
  del_each (key ∷ keys) exec st = del_each keys exec (s.del key exec st).1

  -- resetAllMissedBlockCount, with its deferred removals.
  unfoldable pub reset_all_missed_block_count : Seeker s → Bool → Action s.State (Unit {0})
  reset_all_missed_block_count k exec st =
      let (r, keys) =
        k.seek (List Bytes) (key_prefix_missed_block_count ∷ [])
          (λ key item keys. (ok tt, keys ++ (key ∷ []))) exec st [] in
      (r, del_each keys exec st)
