-- ===== src/Vpower/Ctrler.antt =====
-- ctrlers/vpower/{ctrler,ctrler_block}.go: the voting power controller: staking, unstaking and the
-- steps of a block, over a state ledger of voting power. Events and logs are left out.
pub mod Execution
pub mod Blocks
pub mod Staking
mod Tests
use beatoz_go.Base.{
  zero, suc, ◌++◌, ℕ, ◌/◌, ◌-◌, ◌%◌, ◌^◌, Bool, true, false, not, ◌||◌, Option, none, some, List,
  [], ◌∷◌, Result, ok, err, panic, Status, fail_if, ◌>>=◌, ◌>>◌, ◌==◌, length, if◌then◌else◌,
  invalid_trx, overflow, ordinary, not_found_delegatee, not_found_stake, not_found_result,
  invalid_payload_params, unknown_trx_type, XError,
}
use beatoz_go.Base.Words.{add64, sub64, mul64, div64, slt64, sle64, low64, neg256, from_int32}
use beatoz_go.Base.Bytes.{Bytes, bytes_eq, or_empty}
use beatoz_go.Ledger.Keys.{ledger_key_delegatee}
use beatoz_go.Ledger.Mutable.{Action, attempt}
use beatoz_go.Ledger.Map.{Store}
use beatoz_go.Ledger.Map.Seek.{Seeker}
use beatoz_go.Types.Unit.{amount_per_power, power_to_amount}
use beatoz_go.Types.Account
use beatoz_go.Types.Account.{Account}
use beatoz_go.Types.Trx
use beatoz_go.Types.Trx.{Trx, Payload, trx_staking, trx_unstaking}
use beatoz_go.Account.{set_account, add_balance}
use beatoz_go.Supply.Ctrler.{is_mint_height}
use beatoz_go.Vpower.Chunks.{
  PowerChunk, VPower, Delegatee, VpowerItem, new_vpower, find_power_chunk, has_delegator, Bonding,
  bond_power_chunk, unbond_power_chunk,
}
use beatoz_go.Vpower.Access.{
  read_delegatee, read_vpower, remove_delegatee, remove_vpower, load_delegatees,
}
use beatoz_go.Vpower.Freezing.{freeze_power_chunk, freeze_power_chunk_list, unfreeze_power_chunk}
use beatoz_go.Vpower.Missed.{add_missed_block_count, reset_all_missed_block_count}
use beatoz_go.Vpower.Slashing.{do_slash}
use beatoz_go.Vpower.Limiter
use beatoz_go.Vpower.Limiter.{VPowerLimiter, check_limit}
use beatoz_go.Vpower.Valset.{ValidatorUpdate, select_validators, update_validators}

-- The governance parameters that the controller reads.
pub record StakingParams : Type 0 where
  pub min_validator_power : ℕ
  pub min_delegator_power : ℕ
  pub min_self_power_rate : ℕ
  pub max_updatable_power_rate : ℕ
  pub max_validator_cnt : ℕ
  pub lazy_unbonding_blocks : ℕ
  pub inflation_cycle_blocks : ℕ
  pub min_signed_blocks : ℕ
  pub slash_rate : ℕ
  pub dead_address : Bytes

-- bondingTrxOpt: what ValidateTrx leaves for ExecuteTrx.
pub record BondingTrxOpt : Type 0 where
  pub dgtee : Option Delegatee
  pub vpow : Option VPower
  pub tx_power : ℕ

-- Get's result where a missing entry is no error.
abbrev pub or_absent {ℓ} : {A : Type ℓ} → Result A → Result (Option A)
or_absent panic = panic
or_absent (err not_found_result) = ok none
or_absent (err e) = err e
or_absent (ok a) = ok (some a)

-- `if xerr != nil { return e.Wrap(xerr) }`
abbrev pub or_err_as {ℓ} : {A : Type ℓ} → XError → Result A → Result A
or_err_as e (err _) = err e
or_err_as e r = r

abbrev pub or_result {ℓ} : {A : Type ℓ} → Result A → Option A → Result A
or_result r none = r
or_result r (some a) = ok a

-- `ctx.Tx.Payload.(*TrxPayloadUnstaking).TxHash`
abbrev pub unstaking_hash : Option Payload → Result (Option Bytes)
unstaking_hash (some (Trx.unstaking h)) = ok h
unstaking_hash _ = panic

-- The power that an amount buys, as ValidateTrx computes it.
unfoldable pub power_of_amount : ℕ → Result ℕ
power_of_amount amount = do
  let q = amount / amount_per_power
  fail_if (q == 0 || neg256 q) invalid_trx
  fail_if (not (amount % amount_per_power == 0)) invalid_trx
  fail_if (sle64 (low64 q) 0) overflow
  ok (low64 q)

-- The checks of ValidateTrx on a bonding and its delegatee; the power that the delegatee has.
unfoldable pub check_bonding : StakingParams → Bool → ℕ → Option Delegatee → Result ℕ
check_bonding p true tx_power none = do
  fail_if (slt64 tx_power p.min_validator_power) invalid_trx
  ok 0
check_bonding p true tx_power (some d) = do
  fail_if (slt64 (add64 tx_power d.self_power) p.min_validator_power) invalid_trx
  ok d.sum_power
check_bonding p false tx_power none = err not_found_delegatee
check_bonding p false tx_power (some d) = do
  fail_if (slt64 tx_power p.min_delegator_power) invalid_trx
  rate ← div64 (mul64 d.self_power 100) (add64 d.sum_power tx_power)
  fail_if (slt64 rate (from_int32 p.min_self_power_rate)) ordinary
  ok d.sum_power

-- sumPowerOfValidators
abbrev pub sum_power_of_validators : List Delegatee → ℕ → ℕ
sum_power_of_validators [] total = total
sum_power_of_validators (v ∷ vs) total = sum_power_of_validators vs (add64 total v.sum_power)

-- IsValidator
abbrev pub is_validator : Bytes → List Delegatee → Bool
is_validator addr [] = false
is_validator addr (v ∷ vs) = bytes_eq v.addr addr || is_validator addr vs

module _ (s : Store VpowerItem) where
  pub record VPowerCtrler : Type 0 where
    pub vpower_state : s.State
    pub all_delegatees : List Delegatee
    pub last_validators : List Delegatee
    pub vpow_limiter : VPowerLimiter

  abbrev pub on_state : {A : Type 0} → Action s.State A → Action VPowerCtrler A
  on_state f c = let (r, st) = f c.vpower_state in (r, record c { vpower_state = st })

  abbrev pub on_limiter : Action VPowerLimiter (Unit {0}) → Action VPowerCtrler (Unit {0})
  on_limiter f c = let (r, l) = f c.vpow_limiter in (r, record c { vpow_limiter = l })

  -- LoadDelegatees
  unfoldable pub load : Seeker s → ℕ → Action VPowerCtrler (Unit {0})
  load k max_val_cnt c = attempt (load_delegatees s k true c.vpower_state) c λ ds. (
    ok tt,
    record c { all_delegatees = ds; last_validators = (select_validators ds max_val_cnt).0 },
  )

  -- The staking case of ValidateTrx.
  unfoldable pub validate_staking : StakingParams → Bool → Trx → Action VPowerCtrler BondingTrxOpt
  validate_staking p exec tx c = attempt (power_of_amount tx.amount) c λ tx_power.
      let (r, c') = on_state (read_delegatee s (or_empty tx.to) exec) c in
      attempt (or_absent r) c' λ d.
        attempt
          (do
            total ← check_bonding p (bytes_eq tx.from (or_empty tx.to)) tx_power d
            fail_if (slt64 (sub64 (2 ^ 63 - 1) tx_power) total) overflow)
          c'
          λ _.
            let (r', c'') = on_limiter (check_limit tx_power Limiter.add_power) c' in
            attempt r' c'' λ _. (ok (record { dgtee = d; vpow = none; tx_power = tx_power }), c'')

  -- The unstaking case of ValidateTrx.
  unfoldable pub validate_unstaking : Bool → Trx → Action VPowerCtrler BondingTrxOpt
  validate_unstaking exec tx c =
      let (r, c1) = on_state (read_delegatee s (or_empty tx.to) exec) c in
      attempt (or_err_as not_found_delegatee r) c1 λ d.
        attempt
          (do
            h ← unstaking_hash tx.payload
            fail_if (not (length (or_empty h) == 32)) invalid_payload_params
            ok (or_empty h))
          c1
          λ txhash.
            let (r', c2) = on_state (read_vpower s tx.from (or_empty tx.to) exec) c1 in
            attempt (or_err_as not_found_stake r') c2 λ v.
              attempt (or_result (err not_found_stake) (find_power_chunk txhash v.power_chunks)) c2
                λ pc.
                  let (r'', c3) = on_limiter (check_limit pc.power Limiter.sub_power) c2 in
                  attempt r'' c3
                    λ _. (ok (record { dgtee = some d; vpow = some v; tx_power = pc.power }), c3)

  -- ValidateTrx
  unfoldable pub validate_trx : StakingParams → Bool → Trx → Action VPowerCtrler BondingTrxOpt
  validate_trx p exec tx c =
      if tx.type == trx_staking
      then validate_staking p exec tx c
      else if tx.type == trx_unstaking
      then validate_unstaking exec tx c
      else (err unknown_trx_type, c)
