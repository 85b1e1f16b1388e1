-- ===== src/Vpower/Ctrler/Tests.antt =====
-- A stake and a slash in memory, and the theorems there.
use beatoz_go.Base.{◌≡◌, refl, false, none, some, [], ◌∷◌, ok, arith}
use mathlib.Core.Bool.{xor}
use beatoz_go.Base.Words.{div64}
use beatoz_go.Base.Bytes.{Bytes, bytes_eq}
use beatoz_go.Ledger.Keys.{ledger_key_delegatee}
use beatoz_go.Ledger.Map.{Store, IsMap}
use beatoz_go.Ledger.Map.Pair.{pair_store, pair_store-IsMap}
use beatoz_go.Types.Trx.{Trx, trx_staking}
use beatoz_go.Vpower.Chunks.{VPower, VpowerItem, vpower_keyed}
use beatoz_go.Vpower.Limiter.{check_limit, check_total_power}
use beatoz_go.Vpower.Access.{read_delegatee}
use beatoz_go.Vpower.Slashing.{Slashed, slash_vpower}
use beatoz_go.Vpower.Slashing.Sums.{Covers, IsSlashed, slash_vpower_exact}
use beatoz_go.Vpower.Ctrler.{
  StakingParams, BondingTrxOpt, VPowerCtrler, power_of_amount, check_bonding, validate_staking,
  validate_trx,
}
use beatoz_go.Vpower.Ctrler.Staking.{IsStakeable, validate_trx-IsStakeable}

abbrev alice : Bytes
alice = 1 ∷ []

abbrev params : StakingParams
params = record {
  min_validator_power = 5;
  min_delegator_power = 1;
  min_self_power_rate = 50;
  max_updatable_power_rate = 30;
  max_validator_cnt = 21;
  lazy_unbonding_blocks = 10;
  inflation_cycle_blocks = 100;
  min_signed_blocks = 50;
  slash_rate = 10;
  dead_address = [];
}

abbrev store : Store VpowerItem
store = pair_store VpowerItem

abbrev is_map : IsMap store
is_map = pair_store-IsMap VpowerItem

-- No delegatee yet; 100 units of power may change by 30 percent.
abbrev ctrler : VPowerCtrler store
ctrler = record {
  vpower_state = λ x k. none;
  all_delegatees = [];
  last_validators = [];
  vpow_limiter = record {
    last_total_power = 100;
    estimated_total_power = 100;
    adding_power = 0;
    subing_power = 0;
    allow_rate = 30;
  };
}

-- Alice stakes ten units of power on herself.
abbrev stake : Trx
stake = record {
  version = 1;
  time = 0;
  nonce = 0;
  from = alice;
  to = some alice;
  amount = 10_000_000_000_000_000_000;
  gas = 4000;
  gas_price = 250000000000;
  type = trx_staking;
  payload = none;
  sig = none;
  payer = none;
  payer_sig = none;
}

abbrev bonding : BondingTrxOpt
bonding = record { dgtee = none; vpow = none; tx_power = 10 }

accepted : (validate_trx store params false stake ctrler).0 ≡ ok bonding
unfolding validate_trx validate_staking power_of_amount check_bonding read_delegatee check_limit
    check_total_power ledger_key_delegatee bytes_eq div64 xor
accepted = refl

validate_trx-IsStakeable_example :
    IsStakeable store is_map params false stake bonding ctrler
      (validate_trx store params false stake ctrler).1
validate_trx-IsStakeable_example =
    validate_trx-IsStakeable store is_map params false stake ctrler bonding refl tt (omega arith)
      accepted

abbrev own_power : VPower
own_power = record {
  sum_power = 150;
  power_chunks =
      record { power = 100; height = 1; tx_hash = [] }
      ∷ record { power = 50; height = 2; tx_hash = [] }
      ∷ [];
  key = [];
  from = alice;
  to = alice;
}

abbrev before : Slashed
before = record {
  dgtee = record {
    pub_key = [];
    delegators = alice ∷ [];
    sum_power = 200;
    self_power = 150;
    key = [];
    addr = alice;
  };
  slashed_power = 0;
}

covered : Covers (bytes_eq alice alice) 150 150 before
covered = record {
  sum_small = omega arith;
  total_small = omega arith;
  self_small = omega arith;
  slashed_small = omega arith;
  in_sum = omega arith;
  in_total = omega arith;
  in_self = λ e. omega arith;
}

slash_vpower_exact_example :
    (v' : VPower) × (z' : Slashed) × (slash_vpower 10 alice own_power before ≡ ok (v', z'))
    × IsSlashed 10 (bytes_eq alice alice) own_power v' before z'
slash_vpower_exact_example = slash_vpower_exact 10 alice own_power before (omega arith) refl covered
