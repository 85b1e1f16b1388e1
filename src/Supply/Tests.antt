-- ===== src/Supply/Tests.antt =====
-- Rewards, minting, burns and withdrawals in memory, and the theorems there.
use beatoz_go.Base.{
  ℕ, ◌+◌, ◌-◌, ◌*◌, ◌/◌, ◌%◌, ◌<◌, ◌^◌, ◌≡◌, refl, Bool, true, false, none, some, [], ◌∷◌, Result,
  ok, err, panic, invalid_amount, ltb, ◌==◌, if◌then◌else◌, Bool-cases, inl, inr, arith,
}
use beatoz_go.Base.Words.{neg256}
use beatoz_go.Base.Bytes.{Bytes, bytes_eq, bytes_eq_sound}
use beatoz_go.Ledger.Keys.{ledger_key_account, ledger_key_reward}
use beatoz_go.Ledger.Map.{Store, IsMap}
use beatoz_go.Ledger.Map.Pair.{Pair, pair_store, pair_store-IsMap}
use beatoz_go.Types.Account.{Account}
use beatoz_go.Types.Trx
use beatoz_go.Types.Trx.{Trx, trx_withdraw}
use beatoz_go.Account.Sample.{
  accounts_store, accounts_map, account_of, accounts_of, accounts_of-IsBook, owner_account,
}
use beatoz_go.Account.Books.{balance_at}
use beatoz_go.Supply.Reward.{Reward}
use beatoz_go.Supply.Reward.Balance.{
  issue, slash, withdraw, run_all, IsBalanced, run_all-IsBalanced,
}
use beatoz_go.Supply.Total.{new_supply}
use beatoz_go.Supply.Mint.{
  Decimals, ReqMint, RespMint, MintParams, Weights, decimal_sd, share_of, share_rewards,
  compute_issuance_and_reward,
}
use beatoz_go.Supply.Ctrler.{
  SupplyItem, reward_item, SupplyCtrler, is_mint_height, validate_trx, execute_trx, end_block, burn,
  supply_keyed,
}
use beatoz_go.Supply.Ctrler.Distribution.{AreRewards, HasRoom, cumulated_at}
use beatoz_go.Supply.Ctrler.Minting.{IsMinted, end_block-IsMinted}
use beatoz_go.Supply.Ctrler.Burning.{burn_all, burnt, burn_all_bounded}
use beatoz_go.Supply.Ctrler.Withdrawal.Settled.{IsWithdrawn, execute_trx-validate_trx}
use beatoz_go.Account.{account_keyed}

abbrev alice : Bytes
alice = 1 ∷ []

abbrev bob : Bytes
bob = 2 ∷ []

abbrev alice_reward : Reward
alice_reward = record {
  address = alice;
  height = 5;
  issued = 40;
  slashed = 0;
  withdrawn = 0;
  cumulated = 40;
}

run_all-IsBalanced_example :
    (r : Reward) × (run_all 6 (issue 10 ∷ withdraw 20 ∷ slash 5 ∷ []) alice_reward ≡ ok r)
    × (r.height ≡ 6)
    × (r.address ≡ alice)
    × IsBalanced 40 r
run_all-IsBalanced_example =
    run_all-IsBalanced 6 (issue 10) (withdraw 20 ∷ slash 5 ∷ []) alice_reward
      (omega arith, (omega arith, (omega arith, tt))) refl

abbrev store : Store SupplyItem
store = pair_store SupplyItem

abbrev is_map : IsMap store
is_map = pair_store-IsMap SupplyItem

-- Alice has a reward on both sides.
abbrev rewards : Pair SupplyItem
rewards x k = if bytes_eq (ledger_key_reward alice) k then some (reward_item alice_reward) else none

abbrev ctrler : SupplyCtrler store
ctrler = record {
  supply_state = rewards;
  last_total_supply = record new_supply { total_supply = 900; adjust_supply = 900 };
}

burn_all_bounded_example :
    let c = burn_all store ((7, 100) ∷ (8, 800) ∷ []) ctrler in
    (0 < c.last_total_supply.total_supply)
    × (c.last_total_supply.total_supply + burnt store ((7, 100) ∷ (8, 800) ∷ []) 900 ≡ 900)
    × ((h amt : ℕ)
        → (burn store h amt c).0
          ≡ (if ltb amt c.last_total_supply.total_supply then ok tt else err invalid_amount))
burn_all_bounded_example =
    burn_all_bounded store ((7, 100) ∷ (8, 800) ∷ []) ctrler (omega arith) (omega arith)

-- Whole numbers as decimals; the growth factor is 1.
abbrev whole : Decimals
whole = record {
  Fx = ℕ;
  fx_of_int = λ n. n;
  Decimal = ℕ;
  to_decimal = λ n. n;
  of_int = λ n. n;
  of_big = λ n. n;
  of_permil = λ n. n;
  add = λ a b. a + b;
  sub = λ a b. a - b;
  mul = λ a b. a * b;
  div = λ a b. a / b;
  pow = λ a b. 0;
  neg = λ a. a;
  floor = λ a. a;
  is_negative = λ a. false;
  quo_rem = λ a b. if b == 0 then panic else ok (a / b);
  to_uint256 = λ a. ok (a % 2 ^ 256);
}

whole_fits : (x n : ℕ) → whole.to_uint256 x ≡ ok n → n < 2 ^ 256
whole_fits x n e = omega (arith, same)
  where
    same : x % 2 ^ 256 ≡ n
    same = cc

-- Alice and Bob weigh the same.
abbrev weigh : ReqMint → Result (Weights whole)
weigh req = ok (record {
  sum_weight = 2;
  val_weight = 1;
  beneficiaries =
      record { address = alice; weight = 1; sign_rate = 1; is_validator = false }
      ∷ record { address = bob; weight = 1; sign_rate = 1; is_validator = true }
      ∷ [];
})

abbrev params : MintParams
params = record {
  validator_reward_rate = 10;
  max_total_supply = 1000;
  inflation_weight_permil = 290;
}

abbrev request : ReqMint
request = record {
  height = 10;
  last_total_supply = 900;
  last_adjusted_supply = 900;
  last_adjusted_height = 1;
}

abbrev response : RespMint
response = record { sum_minted_amt = 100; rewards = (alice, 50) ∷ (bob, 50) ∷ [] }

answers : compute_issuance_and_reward whole weigh params request ≡ ok response
unfolding compute_issuance_and_reward decimal_sd share_of share_rewards
answers = refl

rewards-AreRewards : (x : Bool) → AreRewards store is_map 10 x rewards
unfolding ledger_key_reward bytes_eq
rewards-AreRewards x addr = elim (Bool-cases (bytes_eq alice addr)) [
  | inl same ↦ rw same (bytes_eq_sound alice addr same, omega arith, refl, omega arith)
  | inr other ↦ rw other tt
]

few :
    (p q : Bool) (old : ℕ)
    → old < 41
    → old + ((if p then 50 else 0) + ((if q then 50 else 0) + 0)) < 2 ^ 256
few true true old h = omega arith
few true false old h = omega arith
few false true old h = omega arith
few false false old h = omega arith

few_cumulated : (addr : Bytes) → cumulated_at store is_map rewards true addr < 41
unfolding ledger_key_reward bytes_eq
few_cumulated addr = elim (Bool-cases (bytes_eq alice addr)) [
  | inl same ↦ rw same (omega arith)
  | inr other ↦ rw other (omega arith)
]

has_room : HasRoom store is_map response.rewards rewards
has_room b = few (bytes_eq alice b) (bytes_eq bob b) _ (few_cumulated b)

due : is_mint_height 10 5 ≡ ok true
unfolding is_mint_height
due = refl

end_block-IsMinted_example :
    (c' : SupplyCtrler store) × (end_block store 5 10
        (some (compute_issuance_and_reward whole weigh params request))
        ctrler
      ≡ (ok tt, c'))
    × IsMinted store is_map whole whole_fits 10 response.rewards ctrler c'
end_block-IsMinted_example =
    end_block-IsMinted store is_map whole whole_fits weigh params request response 10 5 ctrler
      answers due (omega arith) tt (rewards-AreRewards true) has_room (omega arith)

abbrev withdrawal : Trx
withdrawal = record {
  version = 1;
  time = 0;
  nonce = 0;
  from = alice;
  to = none;
  amount = 0;
  gas = 4000;
  gas_price = 250000000000;
  type = trx_withdraw;
  payload = some (Trx.withdraw 30);
  sig = none;
  payer = none;
  payer_sig = none;
}

accepted : (validate_trx store true withdrawal ctrler).0 ≡ ok alice_reward
unfolding validate_trx ledger_key_reward bytes_eq
accepted = refl

can_take :
    (amt : ℕ)
    → withdrawal.payload ≡ some (Trx.withdraw amt)
    → (neg256 amt ≡ false)
      × (balance_at accounts_store accounts_map (accounts_of alice) true alice + amt < 2 ^ 256)
unfolding ledger_key_account bytes_eq
can_take amt e = (ground (arith, same), omega (arith, same))
  where
    same : 30 ≡ amt
    same = cc

execute_trx-validate_trx_example :
    (amt : ℕ) × (c2 : SupplyCtrler store) × (st2 : Pair Account) × (withdrawal.payload
      ≡ some (Trx.withdraw amt))
    × (execute_trx store accounts_store alice_reward 10 true withdrawal
          ((validate_trx store true withdrawal ctrler).1, accounts_of alice)
        ≡ (ok tt, (c2, st2)))
    × IsWithdrawn store is_map accounts_store accounts_map 10 true alice amt ctrler c2
        (accounts_of alice)
        st2
execute_trx-validate_trx_example =
    execute_trx-validate_trx store is_map accounts_store accounts_map true withdrawal alice_reward
      10 ctrler (accounts_of alice) (account_of alice) (omega arith) tt (rewards-AreRewards true)
      (accounts_of-IsBook alice) accepted (owner_account alice true) can_take
