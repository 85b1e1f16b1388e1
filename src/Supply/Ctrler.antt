-- ===== src/Supply/Ctrler.antt =====
-- ctrlers/supply/{ctrler,ctrler_block,ctrler_burn,ctrler_reward,ctrler_mint}.go: the supply
-- controller, over a state ledger of the total supply and the rewards. The request that BeginBlock
-- sends and the response that EndBlock receives are values; events and logs are left out.
pub mod Distribution
pub mod Minting
pub mod Burning
pub mod Withdrawal
use beatoz_go.Base.{
  ℕ, Bool, true, false, not, Option, none, some, List, [], ◌∷◌, Result, ok, err, panic, Status,
  fail_if, ◌>>=◌, ◌>>◌, ◌==◌, ltb, leb, ◌%◌, if◌then◌else◌, invalid_trx, invalid_amount,
  invalid_payload_type, unknown_trx_type, not_found_result, ◌≡◌, refl,
}
use beatoz_go.Base.Words.{slt64, abs64}
use beatoz_go.Base.Bytes.{Bytes, has_prefix}
use beatoz_go.Ledger.Mutable.{Action, attempt}
use beatoz_go.Ledger.Keys.{
  ledger_key_total_supply, ledger_key_reward, key_prefix_total_supply, key_prefix_reward,
}
use beatoz_go.Ledger.Map.{Store, Keyed}
use beatoz_go.Types.Account.{Account}
use beatoz_go.Types.Trx.{Trx, Payload, trx_withdraw}
use beatoz_go.Types.Trx
use beatoz_go.Account
use beatoz_go.Supply.Reward
use beatoz_go.Supply.Reward.{Reward, new_reward}
use beatoz_go.Supply.Total
use beatoz_go.Supply.Total.{Supply, adjust_add, adjust_sub, reset_changed}
use beatoz_go.Supply.Mint.{MintedReward, ReqMint, RespMint}

-- The items of the ledger (defaultNewItem).
pub data SupplyItem : Type 0 where
  supply_item : Supply → SupplyItem
  reward_item : Reward → SupplyItem

-- defaultNewItem chooses the type of an item by the prefix of its key.
abbrev pub SupplyFits : Bytes → SupplyItem → Type 0
SupplyFits k (supply_item t) = has_prefix k (key_prefix_total_supply ∷ []) ≡ true
SupplyFits k (reward_item r) = has_prefix k (key_prefix_reward ∷ []) ≡ true

instance abbrev pub supply_keyed : Keyed SupplyItem
supply_keyed = record { fits = SupplyFits }

pub total_fits : (t : Supply) → SupplyFits ledger_key_total_supply (supply_item t)
unfolding ledger_key_total_supply has_prefix
total_fits t = refl

pub reward_fits : (addr : Bytes) (r : Reward) → SupplyFits (ledger_key_reward addr) (reward_item r)
unfolding ledger_key_reward has_prefix
reward_fits addr r = refl

-- `rwd, _ := item.(*Reward)`, where nil is used at once, or `item.(*Reward)`.
abbrev pub as_reward : SupplyItem → Result Reward
as_reward (supply_item s) = panic
as_reward (reward_item r) = ok r

-- The reward that Get found, or a new one where there is none.
abbrev pub or_new_reward : Bytes → Result SupplyItem → Result Reward
or_new_reward addr panic = panic
or_new_reward addr (err not_found_result) = ok (new_reward addr)
or_new_reward addr (err e) = err e
or_new_reward addr (ok (reward_item r)) = ok r
or_new_reward addr (ok (supply_item s)) = ok (new_reward addr)

abbrev pub withdraw_payload : Option Payload → Option ℕ
withdraw_payload (some (Trx.withdraw amt)) = some amt
withdraw_payload _ = none

abbrev pub or_err {ℓ} : {A : Type ℓ} → Result A → Option A → Result A
or_err e none = e
or_err e (some a) = ok a

-- `height > 0 && height % cycle == 0` on int64; a zero cycle panics.
unfoldable pub is_mint_height : ℕ → ℕ → Result Bool
is_mint_height height cycle =
    if slt64 0 height
    then (if cycle == 0 then panic else ok (height % abs64 cycle == 0))
    else ok false

module _ (s : Store SupplyItem) where
  pub record SupplyCtrler : Type 0 where
    pub supply_state : s.State
    pub last_total_supply : Supply

  abbrev pub on_state : {A : Type 0} → Action s.State A → Action SupplyCtrler A
  on_state f c = let (r, st) = f c.supply_state in (r, record c { supply_state = st })

  -- (*SupplyCtrler).InitLedger
  unfoldable pub init_ledger : ℕ → Action SupplyCtrler (Unit {0})
  init_ledger amt c = (ok tt, record c { last_total_supply = adjust_add 1 amt c.last_total_supply })

  -- (*SupplyCtrler).ValidateTrx; the reward it returns is the context's ValidateResult.
  unfoldable pub validate_trx : Bool → Trx → Action SupplyCtrler Reward
  validate_trx exec tx c =
      if tx.type == trx_withdraw
      then attempt
          (do
            fail_if (not (tx.amount == 0)) invalid_trx
            or_err (err invalid_payload_type) (withdraw_payload tx.payload))
          c
          (λ amt.
            let (r, c') = on_state (s.get (ledger_key_reward tx.from) exec) c in
            (
              do
                item ← r
                rwd ← as_reward item
                fail_if (ltb rwd.cumulated amt) invalid_trx
                ok rwd,
              c',
            ))
      else (err unknown_trx_type, c)

  -- The write of withdrawReward.
  unfoldable pub put_reward : Reward → Bool → Action s.State (Unit {0})
  put_reward rwd exec =
      if rwd.cumulated == 0
      then s.del (ledger_key_reward rwd.address) exec
      else s.set (ledger_key_reward rwd.address) (reward_item rwd) exec

  module _ (a : Store Account) where
    -- (*SupplyCtrler).withdrawReward
    unfoldable pub withdraw_reward :
        Reward → ℕ → ℕ → Bool → Action (SupplyCtrler × a.State) (Unit {0})
    withdraw_reward curr amt height exec (c, st) =
        attempt (Reward.withdraw amt height curr) (c, st)
          λ rwd.
            let (r, c') = on_state (put_reward rwd exec) c in
            attempt r (c', st)
              λ _. let (r', st') = Account.reward a rwd.address amt exec st in (r', (c', st'))

    -- (*SupplyCtrler).ExecuteTrx, with the reward that ValidateTrx found.
    unfoldable pub execute_trx :
        Reward → ℕ → Bool → Trx → Action (SupplyCtrler × a.State) (Unit {0})
    execute_trx found height exec tx c =
        if tx.type == trx_withdraw
        then attempt (or_err panic (withdraw_payload tx.payload)) c
            (λ amt. withdraw_reward found amt height exec c)
        else (err unknown_trx_type, c)

  -- (*SupplyCtrler).requestMint
  abbrev pub request_mint : ℕ → SupplyCtrler → ReqMint
  request_mint height c = record {
    height = height;
    last_total_supply = c.last_total_supply.total_supply;
    last_adjusted_supply = c.last_total_supply.adjust_supply;
    last_adjusted_height = c.last_total_supply.adjust_height;
  }

  -- (*SupplyCtrler).BeginBlock: the request that it sends, if any.
  unfoldable pub begin_block : ℕ → ℕ → SupplyCtrler → Result (Option ReqMint)
  begin_block cycle height c = do
    due ← is_mint_height height cycle
    ok (if due then some (request_mint height c) else none)

  -- One reward of distRewardToState.
  unfoldable pub dist_one : ℕ → MintedReward → Action s.State (Unit {0})
  dist_one height n st =
      let (r, st') = s.get (ledger_key_reward n.0) true st in
      attempt (do rwd ← or_new_reward n.0 r; Reward.issue n.1 height rwd) st'
        λ rwd. s.set (ledger_key_reward n.0) (reward_item rwd) true st'

  -- (*SupplyCtrler).distRewardToState
  unfoldable pub dist_reward_to_state : List MintedReward → ℕ → Action s.State (Unit {0})
  dist_reward_to_state [] height st = (ok tt, st)
  dist_reward_to_state (n ∷ ns) height st =
      let (r, st') = dist_one height n st in attempt r st' λ _. dist_reward_to_state ns height st'

  -- (*SupplyCtrler).waitMint, for what it receives: `none` from a closed channel. A pool address
  -- changes nothing but a log line in distReward.
  unfoldable pub wait_mint : ℕ → Option (Result RespMint) → Action SupplyCtrler (Unit {0})
  wait_mint height none c = (err not_found_result, c)
  wait_mint height (some resp) c = attempt resp c λ m.
      let (r, c') = on_state (dist_reward_to_state m.rewards height) c in
      attempt r c' λ _. (
        ok tt,
        record c' { last_total_supply = Total.add height m.sum_minted_amt c'.last_total_supply },
      )

  -- The last step of EndBlock. The flag is not part of the encoded item, and the cached one is the
  -- controller's own object, so that the reset reaches it.
  unfoldable pub save_supply : Action SupplyCtrler (Unit {0})
  save_supply c =
      if c.last_total_supply.changed
      then (let total = reset_changed c.last_total_supply in
          let (r, c') = on_state (s.set ledger_key_total_supply (supply_item total) true) c in
          attempt r c' λ _. (ok tt, record c' { last_total_supply = total }))
      else (ok tt, c)

  -- (*SupplyCtrler).EndBlock
  unfoldable pub end_block : ℕ → ℕ → Option (Result RespMint) → Action SupplyCtrler (Unit {0})
  end_block cycle height resp c = attempt (is_mint_height height cycle) c λ due.
      let minted : Status × SupplyCtrler = elim due [
        | true ↦ wait_mint height resp c
        | false ↦ (ok tt, c)
      ] in
      let (r, c') = minted in attempt r c' λ _. save_supply c'

  -- (*SupplyCtrler).Commit; the ledger's own Commit is `commit_state`.
  abbrev pub commit : Action s.State (Bytes × ℕ) → Action SupplyCtrler (Bytes × ℕ)
  commit commit_state c = on_state commit_state c

  -- (*SupplyCtrler).Burn
  unfoldable pub burn : ℕ → ℕ → Action SupplyCtrler (Unit {0})
  burn height amt c =
      if leb c.last_total_supply.total_supply amt
      then (err invalid_amount, c)
      else (ok tt, record c { last_total_supply = adjust_sub height amt c.last_total_supply })

  -- (*SupplyCtrler).readReward
  unfoldable pub read_reward : Bytes → Action SupplyCtrler Reward
  read_reward addr c =
      let (r, c') = on_state (s.get (ledger_key_reward addr) true) c in
      (do item ← r; as_reward item, c')
