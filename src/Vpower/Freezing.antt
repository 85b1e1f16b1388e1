-- ===== src/Vpower/Freezing.antt =====
-- ctrlers/vpower/ctrler_vpower.go: power that is unbonded is frozen until the height of its refund,
-- when unfreezePowerChunk pays it back.
pub mod Refund
mod Tests
use beatoz_go.Base.{
  ℕ, Bool, true, List, [], ◌∷◌, ◌++◌, Result, ok, err, panic, ◌>>=◌, not_found_result, ltb, length,
  take, drop, if◌then◌else◌,
}
use beatoz_go.Base.Words.{add64}
use beatoz_go.Base.Bytes.{Bytes}
use beatoz_go.Ledger.Mutable.{Action, attempt}
use beatoz_go.Ledger.Keys.{ledger_key_frozen_vpower}
use beatoz_go.Ledger.Map.{Store}
use beatoz_go.Ledger.Map.Seek.{Seeker}
use beatoz_go.Ledger.Map.Removal.{del_all}
use beatoz_go.Types.Unit.{power_to_amount}
use beatoz_go.Types.Account.{Account}
use beatoz_go.Account.{reward}
use beatoz_go.Vpower.Chunks.{PowerChunk, FrozenVPower, VpowerItem, frozen_item}
use beatoz_go.Vpower.Access.{as_frozen}

-- newFrozenVPower
abbrev pub new_frozen_vpower : ℕ → FrozenVPower
new_frozen_vpower power = record { refund_power = power; power_chunks = [] }

-- The frozen power that Get found, or a new one where there is none.
abbrev pub or_new_frozen : Result VpowerItem → Result FrozenVPower
or_new_frozen panic = panic
or_new_frozen (err not_found_result) = ok (new_frozen_vpower 0)
or_new_frozen (err e) = err e
or_new_frozen (ok item) = as_frozen item

-- `for _, pc := range pcs { frozen.RefundPower += pc.Power }`
unfoldable pub add_powers : List PowerChunk → ℕ → ℕ
add_powers [] n = n
add_powers (c ∷ cs) n = add_powers cs (add64 n c.power)

-- `key[9:29]`: prefix, height, address.
unfoldable pub address_of : Bytes → Result Bytes
address_of key = if ltb (length key) 29 then panic else ok (take 20 (drop 9 key))

module _ (s : Store VpowerItem) where
  -- freezePowerChunkList
  unfoldable pub freeze_power_chunk_list :
      Bytes → List PowerChunk → ℕ → Bool → Action s.State (Unit {0})
  freeze_power_chunk_list from pcs refund_height exec st =
      let (r, st') = s.get (ledger_key_frozen_vpower refund_height from) exec st in
      attempt (or_new_frozen r) st' λ f.
        s.set (ledger_key_frozen_vpower refund_height from)
          (frozen_item (record {
            refund_power = add_powers pcs f.refund_power;
            power_chunks = f.power_chunks ++ pcs;
          }))
          exec st'

  -- freezePowerChunk
  unfoldable pub freeze_power_chunk : Bytes → PowerChunk → ℕ → Bool → Action s.State (Unit {0})
  freeze_power_chunk from pc refund_height exec st =
      let (r, st') = s.get (ledger_key_frozen_vpower refund_height from) exec st in
      attempt (or_new_frozen r) st' λ f.
        s.set (ledger_key_frozen_vpower refund_height from)
          (frozen_item (record {
            refund_power = add64 f.refund_power pc.power;
            power_chunks = f.power_chunks ++ (pc ∷ []);
          }))
          exec st'

  module _ (k : Seeker s) (a : Store Account) where
    -- The callback of _unfreezePowerChunk.
    unfoldable pub unfreeze_one : Bytes → VpowerItem → Action (List Bytes × a.State) (Unit {0})
    unfreeze_one key item (removed, acct) =
        attempt (as_frozen item) (removed, acct)
          λ f.
            attempt (address_of key) (removed, acct)
              λ from.
                let (r, acct') = reward a from (power_to_amount f.refund_power) true acct in
                attempt r (removed, acct') λ _. (ok tt, (removed ++ (key ∷ []), acct'))

    -- _unfreezePowerChunk, with its deferred removals.
    unfoldable pub unfreeze_power_chunk : ℕ → Action (s.State × a.State) (Unit {0})
    unfreeze_power_chunk refund_height (st, acct) =
        let (r, (removed, acct')) =
          k.seek (List Bytes × a.State) (ledger_key_frozen_vpower refund_height []) unfreeze_one
            true st ([], acct) in
        (r, (del_all s removed st, acct'))
