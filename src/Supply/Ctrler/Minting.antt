-- ===== src/Supply/Ctrler/Minting.antt =====
-- ctrlers/supply/{ctrler_mint,ctrler_block}.go: EndBlock, which adds what was issued to the rewards
-- and to the total supply, and writes the latter to the ledger.
use beatoz_go.Base.{
  ℕ, ◌+◌, ◌%◌, ◌<◌, ◌^◌, ◌≡◌, ◌≢◌, refl, sym, ap, ◌∙◌, subst, true, false, Option, some, List, [],
  Result, ok, Bool-cases, inl, inr, arith,
}
use beatoz_go.Base.Words.{add256}
use beatoz_go.Base.Bytes.{Bytes, bytes_eq, bytes_eq_refl}
use beatoz_go.Ledger.Keys.{ledger_key_reward, ledger_key_total_supply}
use beatoz_go.Ledger.Map.{Store, IsMap}
use beatoz_go.Supply.Total
use beatoz_go.Supply.Total.{Supply, reset_changed}
use beatoz_go.Supply.Mint.{
  Decimals, MintedReward, ReqMint, RespMint, MintParams, Weights, compute_issuance_and_reward,
}
use beatoz_go.Supply.Mint.Sum.{sum_of, IsSummed, compute-IsSummed}
use beatoz_go.Supply.Ctrler.{
  SupplyItem, supply_item, SupplyCtrler, is_mint_height, wait_mint, save_supply, end_block,
  supply_keyed, total_fits,
}
use beatoz_go.Supply.Ctrler.Distribution.{
  AreRewards, Grows, HasRoom, OnlyRewards, IsEntry, reward_entry, dist_reward_lem, reward_in,
}

total_ne_nil : ledger_key_total_supply ≢ []
unfolding ledger_key_total_supply
total_ne_nil e = cc

pub total_apart : (b : Bytes) → bytes_eq (ledger_key_reward b) ledger_key_total_supply ≡ false
unfolding ledger_key_reward ledger_key_total_supply bytes_eq
total_apart b = refl

apart_total : (b : Bytes) → bytes_eq ledger_key_total_supply (ledger_key_reward b) ≡ false
unfolding ledger_key_reward ledger_key_total_supply bytes_eq
apart_total b = refl

module _ (s : Store SupplyItem) (M : IsMap s) where
  -- The ledger holds the total supply of the controller.
  abbrev pub IsSaved : SupplyCtrler s → Type 0
  IsSaved c =
      M.view c.supply_state true ledger_key_total_supply ≡ some (supply_item c.last_total_supply)

  -- A total supply that is not changed is saved.
  abbrev pub IsInSync : SupplyCtrler s → Type 0
  IsInSync c = c.last_total_supply.changed ≡ false → IsSaved c

  -- The rewards, and the side for checking, are the same.
  abbrev pub SameRewards : SupplyCtrler s → SupplyCtrler s → Type 0
  SameRewards c c' =
      ((b : Bytes)
        → reward_entry s M c'.supply_state true b ≡ reward_entry s M c.supply_state true b)
      × ((j : Bytes) → M.view c'.supply_state false j ≡ M.view c.supply_state false j)

  save_supply_lem :
      (c : SupplyCtrler s)
      → M.IsValid c.supply_state
      → IsInSync c
      → (c' : SupplyCtrler s) × (save_supply s c ≡ (ok tt, c'))
        × M.IsValid c'.supply_state
        × IsSaved c'
        × (c'.last_total_supply ≡ reset_changed c.last_total_supply)
        × SameRewards c c'
  unfolding save_supply
  save_supply_lem c v sync = elim (Bool-cases c.last_total_supply.changed) [
    | inl changed ↦
        let total : Supply = reset_changed c.last_total_supply in
        let (e1, v1, w1) =
          M.set_view ledger_key_total_supply (supply_item total) true c.supply_state total_ne_nil
            (total_fits total) v in
        (
          record {
            supply_state =
                (s.set ledger_key_total_supply (supply_item total) true c.supply_state).1;
            last_total_supply = total;
          },
          rw (changed, e1) refl,
          v1,
          w1 true ledger_key_total_supply ∙ rw (bytes_eq_refl ledger_key_total_supply) refl,
          refl,
          (λ b. w1 true (ledger_key_reward b) ∙ rw (apart_total b) refl, λ j. w1 false j),
        )
    | inr kept ↦ (c, rw kept refl, v, sync kept, unchanged kept, (λ b. refl, λ j. refl))
  ]
    where
      unchanged :
          c.last_total_supply.changed ≡ false
          → c.last_total_supply ≡ reset_changed c.last_total_supply
      unchanged k = ap (λ b. record c.last_total_supply { changed = b }) k

  changed-IsInSync : (c : SupplyCtrler s) → c.last_total_supply.changed ≡ true → IsInSync c
  changed-IsInSync c t n = cc

  wait_mint_lem :
      (h : ℕ) (m : RespMint) (c : SupplyCtrler s)
      → h < 2 ^ 63
      → IsSummed m
      → M.IsValid c.supply_state
      → AreRewards s M h true c.supply_state
      → HasRoom s M m.rewards c.supply_state
      → c.last_total_supply.total_supply + sum_of m.rewards < 2 ^ 256
      → (c' : SupplyCtrler s) × (wait_mint s h (some (ok m)) c ≡ (ok tt, c'))
        × M.IsValid c'.supply_state
        × AreRewards s M h true c'.supply_state
        × Grows s M m.rewards c.supply_state c'.supply_state
        × OnlyRewards s M c.supply_state c'.supply_state
        × (c'.last_total_supply.total_supply ≡ c.last_total_supply.total_supply + sum_of m.rewards)
        × (c'.last_total_supply.changed ≡ true)
  unfolding wait_mint
  wait_mint_lem h m c hh sums v a room most =
      let (st, e, v1, a1, g1, o1) = dist_reward_lem s M m.rewards h c.supply_state hh v a room in
      (
        record {
          supply_state = st;
          last_total_supply = Total.add h m.sum_minted_amt c.last_total_supply;
        },
        rw e refl,
        v1,
        a1,
        g1,
        o1,
        added m.sum_minted_amt (sum_of m.rewards) c.last_total_supply.total_supply sums.sum_is most,
        refl,
      )
    where
      added :
          (sum all total : ℕ)
          → sum ≡ all % 2 ^ 256
          → total + all < 2 ^ 256
          → add256 total sum ≡ total + all
      added sum all total e most = omega arith

  end_block_steps :
      (h cycle : ℕ) (resp : Option (Result RespMint)) (c c1 c2 : SupplyCtrler s)
      → is_mint_height h cycle ≡ ok true
      → wait_mint s h resp c ≡ (ok tt, c1)
      → save_supply s c1 ≡ (ok tt, c2)
      → end_block s cycle h resp c ≡ (ok tt, c2)
  unfolding end_block
  end_block_steps h cycle resp c c1 c2 due e1 e2 = rw (due, e1, e2) refl

  module _ (d : Decimals)
      (fits : (x : d.Decimal) (n : ℕ) → d.to_uint256 x ≡ ok n → n < 2 ^ 256) where
    -- What EndBlock leaves after minting.
    pub record IsMinted (h : ℕ) (ns : List MintedReward) (c c' : SupplyCtrler s) : Type 0 where
      pub valid : M.IsValid c'.supply_state
      pub are_rewards : AreRewards s M h true c'.supply_state
      pub grows : Grows s M ns c.supply_state c'.supply_state
      pub total_is :
          c'.last_total_supply.total_supply ≡ c.last_total_supply.total_supply + sum_of ns
      pub saved : IsSaved c'
      pub checking_same :
          (j : Bytes) → M.view c'.supply_state false j ≡ M.view c.supply_state false j

    -- EndBlock of a height at which the supply is inflated, given what the routine answers to any
    -- request: on a ledger of rewards that are not past the height, and where neither an address's
    -- reward nor the total supply would exceed 2 ^ 256, it succeeds. Each address's reward grows by
    -- exactly its amounts, the total supply by exactly their sum, and the new total supply is in the
    -- ledger. The side for checking is as it was.
    pub end_block-IsMinted :
        (weigh : ReqMint → Result (Weights d)) (g : MintParams) (req : ReqMint) (m : RespMint)
        (h cycle : ℕ) (c : SupplyCtrler s)
        → compute_issuance_and_reward d weigh g req ≡ ok m
        → is_mint_height h cycle ≡ ok true
        → h < 2 ^ 63
        → M.IsValid c.supply_state
        → AreRewards s M h true c.supply_state
        → HasRoom s M m.rewards c.supply_state
        → c.last_total_supply.total_supply + sum_of m.rewards < 2 ^ 256
        → (c' : SupplyCtrler s) × (end_block s cycle h
              (some (compute_issuance_and_reward d weigh g req))
              c
            ≡ (ok tt, c'))
          × IsMinted h m.rewards c c'
    end_block-IsMinted weigh g req m h cycle c answer due hh v a room most =
        let sums = compute-IsSummed d fits weigh g req m answer in
        let (c1, e1, v1, a1, g1, o1, t1, ch1) = wait_mint_lem h m c hh sums v a room most in
        let (c2, e2, v2, saved, reset, (same, check)) =
          save_supply_lem c1 v1 (λ n. changed-IsInSync c1 ch1 n) in
        (
          c2,
          rw answer (end_block_steps h cycle (some (ok m)) c c1 c2 due e1 e2),
          record {
            valid = v2;
            are_rewards = λ b. subst (IsEntry h b) (sym (same b)) (a1 b);
            grows = λ b. ap (λ o. (reward_in b o).cumulated) (same b) ∙ g1 b;
            total_is = ap (λ t. t.total_supply) reset ∙ t1;
            saved = saved;
            checking_same = λ j. check j ∙ o1.0 j;
          },
        )
