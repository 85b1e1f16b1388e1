-- ===== src/Vpower/Bonding.antt =====
-- ctrlers/vpower/ctrler_vpower.go: bonding a power chunk and unbonding it, over a ledger that is a
-- pair of maps.
use beatoz_go.Base.{
  ℕ, ◌<◌, ◌^◌, ◌≡◌, ◌≢◌, refl, ap, ◌∙◌, Bool, true, false, not, ◌&&◌, Option, none, some, List, [],
  ◌∷◌, ◌++◌, ok, if◌then◌else◌, Bool-cases, inl, inr, arith,
}
use beatoz_go.Base.Words.{add64, sub64}
use beatoz_go.Base.Bytes.{Bytes, bytes_eq, bytes_eq_refl}
use beatoz_go.Ledger.Map.{Store, IsMap, same_side}
use beatoz_go.Vpower.Chunks.{
  PowerChunk, VPower, Delegatee, VpowerItem, vpower_item, delegatee_item, add_power_with_tx_hash,
  del_power_with_tx_hash, has_delegator, add_delegator, drop_delegator, del_delegator, add_power,
  del_power, is_empty, Bonding, bond_power_chunk, unbond_power_chunk, vpower_keyed, VpowerFits,
}
use beatoz_go.Vpower.Sums.{del_power_with_tx_hash-add_power_with_tx_hash}

has_delegator-append :
    (from : Bytes) (ds : List Bytes) → has_delegator from (ds ++ (from ∷ [])) ≡ true
unfolding has_delegator
has_delegator-append from [] = rw (bytes_eq_refl from) refl
has_delegator-append from (d ∷ ds) = ground (arith, has_delegator-append from ds)

drop_delegator-append :
    (from : Bytes) (ds : List Bytes)
    → has_delegator from ds ≡ false
    → drop_delegator from (ds ++ (from ∷ [])) ≡ ds
unfolding drop_delegator has_delegator
drop_delegator-append from [] h = rw (bytes_eq_refl from) refl
drop_delegator-append from (d ∷ ds) h =
    rw (has_delegator-append from ds, drop_delegator-append from ds (ground (arith, h))) refl

word_back : (n power : ℕ) → n < 2 ^ 64 → power < 2 ^ 64 → sub64 (add64 n power) power ≡ n
word_back n power h k = omega arith

self_back :
    (from : Bytes) (power : ℕ) (d : Delegatee)
    → d.self_power < 2 ^ 64
    → power < 2 ^ 64
    → (let raised = if bytes_eq from d.addr then add64 d.self_power power else d.self_power in
        if bytes_eq from d.addr then sub64 raised power else raised)
      ≡ d.self_power
self_back from power d h k = elim (Bool-cases (bytes_eq from d.addr)) [
  | inl own ↦ rw own (word_back d.self_power power h k)
  | inr other ↦ rw other refl
]

-- The delegatee once the power of `from` is added and taken away again: `gone` is whether that was all
-- its power.
restored :
    (from : Bytes) (power : ℕ) (d : Delegatee) (gone : Bool)
    → has_delegator from d.delegators ≡ not gone
    → power < 2 ^ 64
    → d.sum_power < 2 ^ 64
    → d.self_power < 2 ^ 64
    → (let lowered : Delegatee =
          del_power from power (add_delegator from (add_power from power d)) in
        if gone then del_delegator from lowered else lowered)
      ≡ d
unfolding add_power del_power add_delegator del_delegator
restored from power d true h k a b =
    rw (h, del_power, add_delegator, add_power, del_delegator)
      (λ i. record d {
        delegators = drop_delegator-append from d.delegators h i;
        sum_power = word_back d.sum_power power a k i;
        self_power = self_back from power d b k i;
      })
restored from power d false h k a b =
    rw (h, del_power, add_delegator, add_power)
      (λ i. record d {
        sum_power = word_back d.sum_power power a k i;
        self_power = self_back from power d b k i;
      })

key-add_delegator : (from : Bytes) (d : Delegatee) → (add_delegator from d).key ≡ d.key
unfolding add_delegator
key-add_delegator from d = elim (Bool-cases (has_delegator from d.delegators)) [
  | inl there ↦ rw there refl
  | inr absent ↦ rw absent refl
]

key-add_power : (from : Bytes) (power : ℕ) (d : Delegatee) → (add_power from power d).key ≡ d.key
unfolding add_power
key-add_power from power d = refl

module _ (s : Store VpowerItem) (M : IsMap s) where
  abbrev Puts : Bool → Bytes → Option VpowerItem → s.State → s.State → Type 0
  Puts x k o st st' =
      (y : Bool) (j : Bytes)
      → M.view st' y j ≡ (if same_side x y && bytes_eq k j then o else M.view st y j)

  set_item :
      (k : Bytes) (i : VpowerItem) (x : Bool) (st : s.State)
      → k ≢ []
      → VpowerFits k i
      → M.IsValid st
      → (st' : s.State) × (s.set k i x st ≡ (ok tt, st')) × M.IsValid st' × Puts x k (some i) st st'
  set_item k i x st ne f v =
      let (r, v', p) = M.set_view k i x st ne f v in
      ((s.set k i x st).1, λ n. (r n, (s.set k i x st).1), v', p)

  -- How unbondPowerChunk leaves the entry of the voting power.
  store_left :
      (k : Bytes) (w : VPower) (x : Bool) (st : s.State) (gone : Bool)
      → k ≢ []
      → w.key ≡ k
      → M.IsValid st
      → (st' : s.State) × ((if gone then s.del k x st else s.set k (vpower_item w) x st)
          ≡ (ok tt, st'))
        × M.IsValid st'
        × Puts x k (if gone then none else some (vpower_item w)) st st'
  store_left k w x st true ne f v =
      let (r, v', p) = M.del_view k x st ne v in
      ((s.del k x st).1, λ n. (r n, (s.del k x st).1), v', p)
  store_left k w x st false ne f v = set_item k (vpower_item w) x st ne f v

  bond_run :
      (power height : ℕ) (txhash : Bytes) (x : Bool) (b : Bonding s) (st1 st2 : s.State)
      → s.set b.vpow.key (vpower_item (add_power_with_tx_hash power height txhash b.vpow)) x b.st
        ≡ (ok tt, st1)
      → s.set b.dgtee.key
          (delegatee_item (add_delegator b.vpow.from (add_power b.vpow.from power b.dgtee)))
          x
          st1
        ≡ (ok tt, st2)
      → bond_power_chunk s power height txhash x b ≡ (
        ok tt,
        record {
          dgtee = add_delegator b.vpow.from (add_power b.vpow.from power b.dgtee);
          vpow = add_power_with_tx_hash power height txhash b.vpow;
          st = st2;
        },
      )
  unfolding bond_power_chunk add_power_with_tx_hash
  bond_run power height txhash x b st1 st2 e1 e2 = rw (e1, e2, bond_power_chunk) refl

  unbond_run :
      (txhash : Bytes) (x : Bool) (b : Bonding s) (pc : PowerChunk) (w : VPower) (d : Delegatee)
      (st1 st2 : s.State)
      → del_power_with_tx_hash txhash b.vpow ≡ (some pc, w)
      → (if is_empty w.power_chunks
          then s.del b.vpow.key x b.st
          else s.set b.vpow.key (vpower_item w) x b.st)
        ≡ (ok tt, st1)
      → (let lowered : Delegatee = del_power b.vpow.from pc.power b.dgtee in
          if is_empty w.power_chunks then del_delegator b.vpow.from lowered else lowered)
        ≡ d
      → s.set b.dgtee.key (delegatee_item d) x st1 ≡ (ok tt, st2)
      → unbond_power_chunk s txhash x b ≡ (ok pc, record { dgtee = d; vpow = w; st = st2 })
  unfolding unbond_power_chunk
  unbond_run txhash x b pc w d st1 st2 e1 e2 e3 e4 =
      rw (e1, e1, e2, e3, e4, unbond_power_chunk) refl

  -- A power that was bonded is unbonded: on accounts of the ledger that agree (the holder is a delegator
  -- exactly when it has chunks, and the sums are int64 words), bondPowerChunk and then unbondPowerChunk
  -- with the same hash both succeed. The second returns the chunk of the first, the delegatee and the
  -- voting power are as they were before the first, and the ledger's side holds the two again, the
  -- voting power only if it has chunks; all other entries and the other side are as they were.
  pub unbond_power_chunk-bond_power_chunk :
      (power height : ℕ) (txhash : Bytes) (x : Bool) (b : Bonding s)
      → M.IsValid b.st
      → b.vpow.key ≢ []
      → b.dgtee.key ≢ []
      → has_delegator b.vpow.from b.dgtee.delegators ≡ not (is_empty b.vpow.power_chunks)
      → power < 2 ^ 64
      → b.vpow.sum_power < 2 ^ 64
      → b.dgtee.sum_power < 2 ^ 64
      → b.dgtee.self_power < 2 ^ 64
      → (b1 : Bonding s) × (b2 : Bonding s) × (bond_power_chunk s power height txhash x b
          ≡ (ok tt, b1))
        × (unbond_power_chunk s txhash x b1
            ≡ (ok (record { power = power; height = height; tx_hash = txhash }), b2))
        × (b2.dgtee ≡ b.dgtee)
        × (b2.vpow ≡ b.vpow)
        × M.IsValid b2.st
        × ((y : Bool) (j : Bytes)
            → M.view b2.st y j ≡ (
                if same_side x y && bytes_eq b.dgtee.key j
                then some (delegatee_item b.dgtee)
                else if same_side x y && bytes_eq b.vpow.key j
                then (if is_empty b.vpow.power_chunks then none else some (vpower_item b.vpow))
                else M.view b.st y j))
  unfolding add_power_with_tx_hash
  unbond_power_chunk-bond_power_chunk power height txhash x b v kv kd agree hp hv hd hs =
      let w : VPower = add_power_with_tx_hash power height txhash b.vpow in
      let d : Delegatee = add_delegator b.vpow.from (add_power b.vpow.from power b.dgtee) in
      let same_key : d.key ≡ b.dgtee.key =
        key-add_delegator b.vpow.from (add_power b.vpow.from power b.dgtee)
        ∙ key-add_power b.vpow.from power b.dgtee in
      let gone : Bool = is_empty b.vpow.power_chunks in
      let (st1, e1, v1, p1) = set_item b.vpow.key (vpower_item w) x b.st kv refl v in
      let (st2, e2, v2, p2) = set_item b.dgtee.key (delegatee_item d) x st1 kd same_key v1 in
      let (st3, e3, v3, p3) = store_left b.vpow.key b.vpow x st2 gone kv refl v2 in
      let (st4, e4, v4, p4) = set_item b.dgtee.key (delegatee_item b.dgtee) x st3 kd refl v3 in
      let b1 : Bonding s = record { dgtee = d; vpow = w; st = st2 } in
      (
        b1,
        record { dgtee = b.dgtee; vpow = b.vpow; st = st4 },
        bond_run power height txhash x b st1 st2 e1 e2,
        unbond_run txhash x b1 (record { power = power; height = height; tx_hash = txhash }) b.vpow
            b.dgtee st3 st4
            (del_power_with_tx_hash-add_power_with_tx_hash power height txhash b.vpow hv hp) e3
            (restored b.vpow.from power b.dgtee gone agree hp hd hs)
            (ap (λ k. s.set k (delegatee_item b.dgtee) x st3) same_key ∙ e4),
        refl,
        refl,
        v4,
        λ y j.
            settle (same_side x y && bytes_eq b.dgtee.key j)
              (same_side x y && bytes_eq b.vpow.key j) _ _ _ _ _ _ _ _ _ (p4 y j) (p3 y j) (p2 y j)
              (p1 y j),
      )
    where
      settle :
          (p q : Bool) (o4 o3 o2 o1 o a b c d : Option VpowerItem)
          → o4 ≡ (if p then a else o3)
          → o3 ≡ (if q then b else o2)
          → o2 ≡ (if p then c else o1)
          → o1 ≡ (if q then d else o)
          → o4 ≡ (if p then a else if q then b else o)
      settle p q o4 o3 o2 o1 o a b c d e4 e3 e2 e1 = ground arith
