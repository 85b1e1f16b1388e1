-- ===== src/Vpower/Tests.antt =====
-- A block's changes of voting power, a bonded chunk, and the theorems there.
use beatoz_go.Base.{
  ℕ, ◌≡◌, ◌≢◌, refl, Bool, true, false, not, ◌&&◌, none, some, List, [], ◌∷◌, ok, if◌then◌else◌,
  arith,
}
use beatoz_go.Base.Bytes.{Bytes, bytes_eq, bytes_lt}
use beatoz_go.Ledger.Map.{Store, IsMap, same_side}
use beatoz_go.Ledger.Map.Pair.{pair_store, pair_store-IsMap}
use beatoz_go.Vpower.Limiter.{VPowerLimiter, reset, IsCounting}
use beatoz_go.Vpower.Block.{check_all, IsLimited, block_keeps_rate}
use beatoz_go.Vpower.Chunks.{
  PowerChunk, VPower, Delegatee, VpowerItem, vpower_item, delegatee_item, add_power_with_tx_hash,
  del_power_with_tx_hash, has_delegator, is_empty, sum_power_chunk, Bonding, bond_power_chunk,
  unbond_power_chunk, vpower_keyed,
}
use beatoz_go.Vpower.Sums.{IsSummed, add_del-IsSummed}
use beatoz_go.Vpower.Bonding.{unbond_power_chunk-bond_power_chunk}
use beatoz_go.Vpower.Valset.{
  update_validators, select_validators, apply_updates, power_of, insert, sort, take, less_by_power,
}
use beatoz_go.Vpower.Selection.{apply_updates-update_validators}
use beatoz_go.Vpower.Ranking.{select_validators_lem}
use beatoz_go.Base.Words.{slt64}

abbrev limiter : VPowerLimiter
limiter = record {
  last_total_power = 90;
  estimated_total_power = 100;
  adding_power = 10;
  subing_power = 0;
  allow_rate = 33;
}

limiter-IsCounting : IsCounting limiter
limiter-IsCounting = record {
  adds_up = refl;
  remains = omega arith;
  last_small = omega arith;
  total_small = omega arith;
  rate_fits = omega arith;
}

block_keeps_rate_example :
    IsLimited 90 33 0 (check_all ((10, true) ∷ (50, true) ∷ (20, false) ∷ []) (reset 90 33 limiter))
block_keeps_rate_example =
    block_keeps_rate 90 33 ((10, true) ∷ (50, true) ∷ (20, false) ∷ []) limiter (omega arith)
      (omega arith) (omega arith)

abbrev alice : Bytes
alice = 1 ∷ []

abbrev chunk : PowerChunk
chunk = record { power = 7; height = 3; tx_hash = 9 ∷ [] }

abbrev alice_power : VPower
alice_power = record {
  sum_power = 7;
  power_chunks = chunk ∷ [];
  key = 5 ∷ 1 ∷ [];
  from = alice;
  to = 2 ∷ [];
}

abbrev validator : Delegatee
validator = record {
  pub_key = [];
  delegators = alice ∷ [];
  sum_power = 7;
  self_power = 0;
  key = 4 ∷ 2 ∷ [];
  addr = 2 ∷ [];
}

abbrev store : Store VpowerItem
store = pair_store VpowerItem

abbrev is_map : IsMap store
is_map = pair_store-IsMap VpowerItem

abbrev bonding : Bonding store
bonding = record { dgtee = validator; vpow = alice_power; st = λ x k. none }

alice_power-IsSummed : IsSummed alice_power
unfolding sum_power_chunk
alice_power-IsSummed = record { chunks_fit = (omega arith, tt); summed = refl }

add_del-IsSummed_example :
    IsSummed (add_power_with_tx_hash 5 4 (8 ∷ []) alice_power)
    × IsSummed (del_power_with_tx_hash (8 ∷ []) alice_power).1
add_del-IsSummed_example =
    add_del-IsSummed 5 4 (8 ∷ []) alice_power (omega arith) alice_power-IsSummed

key_there : (k : ℕ) (ks : Bytes) → (k ∷ ks) ≢ []
key_there k ks e = cc

delegates : has_delegator alice validator.delegators ≡ not (is_empty alice_power.power_chunks)
unfolding has_delegator bytes_eq
delegates = refl

unbond_power_chunk-bond_power_chunk_example :
    (b1 : Bonding store) × (b2 : Bonding store) × (bond_power_chunk store 5 4 (8 ∷ []) true bonding
      ≡ (ok tt, b1))
    × (unbond_power_chunk store (8 ∷ []) true b1
        ≡ (ok (record { power = 5; height = 4; tx_hash = 8 ∷ [] }), b2))
    × (b2.dgtee ≡ validator)
    × (b2.vpow ≡ alice_power)
    × Unit {0}
    × ((y : Bool) (j : Bytes)
        → b2.st y j ≡ (
            if same_side true y && bytes_eq validator.key j
            then some (delegatee_item validator)
            else if same_side true y && bytes_eq alice_power.key j
            then some (vpower_item alice_power)
            else none))
unbond_power_chunk-bond_power_chunk_example =
    unbond_power_chunk-bond_power_chunk store is_map 5 4 (8 ∷ []) true bonding tt
      (key_there 5 (1 ∷ [])) (key_there 4 (2 ∷ [])) delegates (omega arith) (omega arith)
      (omega arith) (omega arith)

abbrev delegatee : ℕ → ℕ → Delegatee
delegatee key power = record validator { pub_key = key ∷ []; sum_power = power }

-- Three delegatees, and a last set of two, of which one loses its place and one changes its power.
abbrev delegatees : List Delegatee
delegatees = delegatee 3 40 ∷ delegatee 1 20 ∷ delegatee 2 30 ∷ []

abbrev last_validators : List Delegatee
last_validators = delegatee 3 35 ∷ delegatee 1 20 ∷ []

apply_updates-update_validators_example :
    apply_updates
      (1 ∷ [])
      (update_validators delegatees last_validators 2).0
      (power_of (1 ∷ []) last_validators)
    ≡ power_of (1 ∷ []) (update_validators delegatees last_validators 2).1
unfolding power_of bytes_eq
apply_updates-update_validators_example =
    apply_updates-update_validators (1 ∷ []) delegatees last_validators 2 (refl, (refl, (refl, tt)))
      (refl, (refl, (refl, tt))) (refl, (refl, tt))

select_validators_lem_example : slt64 30 20 ≡ false
unfolding power_of bytes_eq bytes_lt select_validators take insert sort less_by_power
select_validators_lem_example =
    select_validators_lem (2 ∷ []) (1 ∷ []) 30 20 2 delegatees (refl, (refl, (refl, tt))) refl refl
      refl
