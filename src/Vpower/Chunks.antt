-- ===== src/Vpower/Chunks.antt =====
-- ctrlers/vpower/{vpower,delegatee,vpower_frozen}.go: voting power in chunks, delegatees and frozen
-- power, and the bonding of ctrler_vpower.go. An int64 is its bit pattern.
use beatoz_go.Base.{
  ℕ, Bool, true, false, ◌||◌, Option, none, some, List, [], ◌∷◌, ◌++◌, ok, err, Status,
  not_found_stake, if◌then◌else◌, ◌≡◌,
}
use beatoz_go.Base.Words.{add64, sub64}
use beatoz_go.Base.Bytes.{Bytes, bytes_eq}
use beatoz_go.Ledger.Keys.{ledger_key_vpower}
use beatoz_go.Ledger.Map.{Store, Keyed}
use beatoz_go.Ledger.Mutable.{Action, attempt}

-- PowerChunkProto
pub record PowerChunk : Type 0 where
  pub power : ℕ
  pub height : ℕ
  pub tx_hash : Bytes

pub record VPower : Type 0 where
  pub sum_power : ℕ
  pub power_chunks : List PowerChunk
  pub key : Bytes
  pub from : Bytes
  pub to : Bytes

pub record Delegatee : Type 0 where
  pub pub_key : Bytes
  pub delegators : List Bytes
  pub sum_power : ℕ
  pub self_power : ℕ
  pub key : Bytes
  pub addr : Bytes

pub record FrozenVPower : Type 0 where
  pub refund_power : ℕ
  pub power_chunks : List PowerChunk

unfoldable pub new_vpower : Bytes → Bytes → VPower
new_vpower from to = record {
  sum_power = 0;
  power_chunks = [];
  key = ledger_key_vpower from to;
  from = from;
  to = to;
}

-- findPowerChunk
unfoldable pub find_power_chunk : Bytes → List PowerChunk → Option PowerChunk
find_power_chunk txhash [] = none
find_power_chunk txhash (c ∷ cs) =
    let rest = find_power_chunk txhash cs in if bytes_eq c.tx_hash txhash then some c else rest

-- addPowerWithTxHash
unfoldable pub add_power_with_tx_hash : ℕ → ℕ → Bytes → VPower → VPower
add_power_with_tx_hash power height txhash x = record x {
  power_chunks =
      x.power_chunks ++ (record { power = power; height = height; tx_hash = txhash } ∷ []);
  sum_power = add64 x.sum_power power;
}

-- The loop of delPowerWithTxHash: the last chunk with the hash, and the chunks without it.
unfoldable pub take_chunk : Bytes → List PowerChunk → Option (PowerChunk × List PowerChunk)
take_chunk txhash [] = none
take_chunk txhash (c ∷ cs) = elim (take_chunk txhash cs) [
  | some (found, rest) ↦ some (found, c ∷ rest)
  | none ↦ if bytes_eq txhash c.tx_hash then some (c, cs) else none
]

-- delPowerWithTxHash
unfoldable pub del_power_with_tx_hash : Bytes → VPower → Option PowerChunk × VPower
del_power_with_tx_hash txhash x = elim (take_chunk txhash x.power_chunks) [
  | none ↦ (none, x)
  | some (pc, rest) ↦
      (some pc, record x { power_chunks = rest; sum_power = sub64 x.sum_power pc.power })
]

-- sumPowerChunk
unfoldable pub sum_power_chunk : List PowerChunk → ℕ
sum_power_chunk [] = 0
sum_power_chunk (c ∷ cs) = add64 c.power (sum_power_chunk cs)

-- addPower and delPower
unfoldable pub add_power : Bytes → ℕ → Delegatee → Delegatee
add_power from pow x = record x {
  sum_power = add64 x.sum_power pow;
  self_power = if bytes_eq from x.addr then add64 x.self_power pow else x.self_power;
}

unfoldable pub del_power : Bytes → ℕ → Delegatee → Delegatee
del_power from pow x = record x {
  sum_power = sub64 x.sum_power pow;
  self_power = if bytes_eq from x.addr then sub64 x.self_power pow else x.self_power;
}

-- hasDelegator
unfoldable pub has_delegator : Bytes → List Bytes → Bool
has_delegator from [] = false
has_delegator from (d ∷ ds) = bytes_eq d from || has_delegator from ds

-- addDelegator
unfoldable pub add_delegator : Bytes → Delegatee → Delegatee
add_delegator from x =
    if has_delegator from x.delegators
    then x
    else record x { delegators = x.delegators ++ (from ∷ []) }

-- The loop of delDelegator: the last one that is equal goes.
unfoldable pub drop_delegator : Bytes → List Bytes → List Bytes
drop_delegator from [] = []
drop_delegator from (d ∷ ds) =
    let rest = drop_delegator from ds in
    if has_delegator from ds then d ∷ rest else if bytes_eq d from then ds else d ∷ rest

unfoldable pub del_delegator : Bytes → Delegatee → Delegatee
del_delegator from x = record x { delegators = drop_delegator from x.delegators }

-- appendPowerChunks
unfoldable pub append_power_chunks : List PowerChunk → FrozenVPower → FrozenVPower
append_power_chunks [] x = x
append_power_chunks (c ∷ cs) x = append_power_chunks cs (record x {
  refund_power = add64 x.refund_power c.power;
  power_chunks = x.power_chunks ++ (c ∷ []);
})

-- The items of the ledger of voting power.
pub data VpowerItem : Type 0 where
  vpower_item : VPower → VpowerItem
  delegatee_item : Delegatee → VpowerItem
  frozen_item : FrozenVPower → VpowerItem
  count_item : ℕ → VpowerItem

-- A voting power and a delegatee carry the key that they were decoded under.
abbrev pub VpowerFits : Bytes → VpowerItem → Type 0
VpowerFits k (vpower_item w) = w.key ≡ k
VpowerFits k (delegatee_item d) = d.key ≡ k
VpowerFits k (frozen_item f) = Unit {0}
VpowerFits k (count_item n) = Unit {0}

instance abbrev pub vpower_keyed : Keyed VpowerItem
vpower_keyed = record { fits = VpowerFits }

abbrev pub is_empty : List PowerChunk → Bool
is_empty [] = true
is_empty (c ∷ cs) = false

module _ (s : Store VpowerItem) where
  -- The two objects that a call changes, and the ledger.
  pub record Bonding : Type 0 where
    pub dgtee : Delegatee
    pub vpow : VPower
    pub st : s.State

  -- bondPowerChunk
  unfoldable pub bond_power_chunk : ℕ → ℕ → Bytes → Bool → Action Bonding (Unit {0})
  bond_power_chunk power height txhash exec b =
      let vpow' : VPower = add_power_with_tx_hash power height txhash b.vpow in
      let (r, st') = s.set vpow'.key (vpower_item vpow') exec b.st in
      attempt r (record b { vpow = vpow'; st = st' })
        λ _.
          let dgtee' : Delegatee = add_delegator vpow'.from (add_power vpow'.from power b.dgtee) in
          let (r', st'') = s.set b.dgtee.key (delegatee_item dgtee') exec st' in
          (r', record { dgtee = dgtee'; vpow = vpow'; st = st'' })

  -- unbondPowerChunk
  unfoldable pub unbond_power_chunk : Bytes → Bool → Action Bonding PowerChunk
  unbond_power_chunk txhash exec b =
      let (found, vpow') = del_power_with_tx_hash txhash b.vpow in
      elim found [
        | none ↦ (err not_found_stake, b)
        | some pc ↦
            let lowered : Delegatee = del_power b.vpow.from pc.power b.dgtee in
            let gone : Bool = is_empty vpow'.power_chunks in
            let dgtee' : Delegatee = if gone then del_delegator b.vpow.from lowered else lowered in
            let stored : Status × s.State =
              if gone
              then s.del b.vpow.key exec b.st
              else s.set b.vpow.key (vpower_item vpow') exec b.st in
            attempt stored.0 (record { dgtee = dgtee'; vpow = vpow'; st = stored.1 })
              λ _.
                let (r', st'') = s.set b.dgtee.key (delegatee_item dgtee') exec stored.1 in
                attempt r' (record { dgtee = dgtee'; vpow = vpow'; st = st'' })
                  λ _. (ok pc, record { dgtee = dgtee'; vpow = vpow'; st = st'' })
      ]
