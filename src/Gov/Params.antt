-- ===== src/Gov/Params.antt =====
-- ctrlers/types/gov_params.go: the governance parameters, and the merge of a proposal's parameters
-- into the current ones. An integer is its bit pattern; a nil slice is `none`.
use beatoz_go.Base.{ℕ, Option, none, some, ◌==◌, if◌then◌else◌}
use beatoz_go.Base.Bytes.{Bytes}

-- GovParamsProto
pub record GovParams : Type 0 where
  pub version : ℕ
  pub empty_block_interval_secs : ℕ
  pub max_validator_cnt : ℕ
  pub min_validator_power : ℕ
  pub min_delegator_power : ℕ
  pub max_validators_of_delegator : ℕ
  pub max_delegators_of_validator : ℕ
  pub min_self_power_rate : ℕ
  pub max_updatable_power_rate : ℕ
  pub max_individual_power_rate : ℕ
  pub min_bonding_blocks : ℕ
  pub min_signed_blocks : ℕ
  pub lazy_unbonding_blocks : ℕ
  pub max_total_supply : Option Bytes
  pub inflation_weight_permil : ℕ
  pub inflation_cycle_blocks : ℕ
  pub bonding_blocks_weight_permil : ℕ
  pub ripening_blocks : ℕ
  pub reward_pool_address : Option Bytes
  pub dead_address : Option Bytes
  pub validator_reward_rate : ℕ
  pub tx_fee_reward_rate : ℕ
  pub slash_rate : ℕ
  pub gas_price : Option Bytes
  pub min_trx_gas : ℕ
  pub block_size_limit : ℕ
  pub block_gas_limit : ℕ
  pub min_voting_period_blocks : ℕ
  pub max_voting_period_blocks : ℕ
  pub lazy_applying_blocks : ℕ

-- &GovParams{}
abbrev pub empty_params : GovParams
empty_params = record {
  version = 0;
  empty_block_interval_secs = 0;
  max_validator_cnt = 0;
  min_validator_power = 0;
  min_delegator_power = 0;
  max_validators_of_delegator = 0;
  max_delegators_of_validator = 0;
  min_self_power_rate = 0;
  max_updatable_power_rate = 0;
  max_individual_power_rate = 0;
  min_bonding_blocks = 0;
  min_signed_blocks = 0;
  lazy_unbonding_blocks = 0;
  max_total_supply = none;
  inflation_weight_permil = 0;
  inflation_cycle_blocks = 0;
  bonding_blocks_weight_permil = 0;
  ripening_blocks = 0;
  reward_pool_address = none;
  dead_address = none;
  validator_reward_rate = 0;
  tx_fee_reward_rate = 0;
  slash_rate = 0;
  gas_price = none;
  min_trx_gas = 0;
  block_size_limit = 0;
  block_gas_limit = 0;
  min_voting_period_blocks = 0;
  max_voting_period_blocks = 0;
  lazy_applying_blocks = 0;
}

-- The body of MergeGovParams' loop on one field: a zero value takes the old one.
abbrev pub merge_number : ℕ → ℕ → ℕ
merge_number old new = if new == 0 then old else new

abbrev pub merge_slice : Option Bytes → Option Bytes → Option Bytes
merge_slice old none = old
merge_slice old (some b) = some b

-- MergeGovParams: what becomes of `toParams`. The reflection is over the fields above.
unfoldable pub merge_gov_params : GovParams → GovParams → GovParams
merge_gov_params old new = record {
  version = merge_number old.version new.version;
  empty_block_interval_secs =
      merge_number old.empty_block_interval_secs new.empty_block_interval_secs;
  max_validator_cnt = merge_number old.max_validator_cnt new.max_validator_cnt;
  min_validator_power = merge_number old.min_validator_power new.min_validator_power;
  min_delegator_power = merge_number old.min_delegator_power new.min_delegator_power;
  max_validators_of_delegator =
      merge_number old.max_validators_of_delegator new.max_validators_of_delegator;
  max_delegators_of_validator =
      merge_number old.max_delegators_of_validator new.max_delegators_of_validator;
  min_self_power_rate = merge_number old.min_self_power_rate new.min_self_power_rate;
  max_updatable_power_rate = merge_number old.max_updatable_power_rate new.max_updatable_power_rate;
  max_individual_power_rate =
      merge_number old.max_individual_power_rate new.max_individual_power_rate;
  min_bonding_blocks = merge_number old.min_bonding_blocks new.min_bonding_blocks;
  min_signed_blocks = merge_number old.min_signed_blocks new.min_signed_blocks;
  lazy_unbonding_blocks = merge_number old.lazy_unbonding_blocks new.lazy_unbonding_blocks;
  max_total_supply = merge_slice old.max_total_supply new.max_total_supply;
  inflation_weight_permil = merge_number old.inflation_weight_permil new.inflation_weight_permil;
  inflation_cycle_blocks = merge_number old.inflation_cycle_blocks new.inflation_cycle_blocks;
  bonding_blocks_weight_permil =
      merge_number old.bonding_blocks_weight_permil new.bonding_blocks_weight_permil;
  ripening_blocks = merge_number old.ripening_blocks new.ripening_blocks;
  reward_pool_address = merge_slice old.reward_pool_address new.reward_pool_address;
  dead_address = merge_slice old.dead_address new.dead_address;
  validator_reward_rate = merge_number old.validator_reward_rate new.validator_reward_rate;
  tx_fee_reward_rate = merge_number old.tx_fee_reward_rate new.tx_fee_reward_rate;
  slash_rate = merge_number old.slash_rate new.slash_rate;
  gas_price = merge_slice old.gas_price new.gas_price;
  min_trx_gas = merge_number old.min_trx_gas new.min_trx_gas;
  block_size_limit = merge_number old.block_size_limit new.block_size_limit;
  block_gas_limit = merge_number old.block_gas_limit new.block_gas_limit;
  min_voting_period_blocks = merge_number old.min_voting_period_blocks new.min_voting_period_blocks;
  max_voting_period_blocks = merge_number old.max_voting_period_blocks new.max_voting_period_blocks;
  lazy_applying_blocks = merge_number old.lazy_applying_blocks new.lazy_applying_blocks;
}
