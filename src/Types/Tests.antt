-- ===== src/Types/Tests.antt =====
-- The theorems on units, accounts, transactions and block gas, at concrete values.
use beatoz_go.Base.{◌+◌, ◌≡◌, ◌↔◌, none, some, [], ◌∷◌, ok, arith}
use beatoz_go.Base.Bytes.{Bytes}
use beatoz_go.Types.Account.{Account, new_account, clone, clone-eq_iff}
use beatoz_go.Types.Trx.{Trx, validate, IsAcceptable, validate_iff, trx_transfer}
use beatoz_go.Types.Counter.{counter, counter-IsCounter}
use beatoz_go.Types.BlockGas.{
  BlockGas, set_block_gas_limit, use_all, get_block_gas_remained, get_block_gas_used,
  block_gas_conserved,
}

abbrev rich : Account
rich = record (new_account (1 ∷ [])) { balance = 100 }

clone-eq_iff_example : (clone rich ≡ rich) ↔ (◌≡◌ {A = Bytes} rich.doc_url [])
clone-eq_iff_example = clone-eq_iff rich

abbrev address : Bytes
address =
    1 ∷ 2 ∷ 3 ∷ 4 ∷ 5 ∷ 6 ∷ 7 ∷ 8 ∷ 9 ∷ 10 ∷ 11 ∷ 12 ∷ 13 ∷ 14 ∷ 15 ∷ 16 ∷ 17 ∷ 18 ∷ 19 ∷ 20 ∷ []

abbrev signed : Trx
signed = record {
  version = 1;
  time = 0;
  nonce = 0;
  from = address;
  to = some address;
  amount = 10;
  gas = 4000;
  gas_price = 250000000000;
  type = trx_transfer;
  payload = none;
  sig = some (1 ∷ []);
  payer = none;
  payer_sig = none;
}

validate_iff_example : (validate signed ≡ ok tt) ↔ IsAcceptable signed
validate_iff_example = validate_iff signed (omega arith)

abbrev block : BlockGas counter
block = record { block_gas_limit = 100; block_gas_pool = 60; fee_sum = 0; txs_cnt = 0 }

block_gas_conserved_example :
    (b' : BlockGas counter) × (set_block_gas_limit counter 100 block ≡ ok b')
    × (get_block_gas_remained counter b' ≡ 100)
    × (get_block_gas_used counter (use_all counter (30 ∷ 90 ∷ 50 ∷ []) b') ≡ 80)
    × (get_block_gas_used counter (use_all counter (30 ∷ 90 ∷ 50 ∷ []) b')
          + get_block_gas_remained counter (use_all counter (30 ∷ 90 ∷ 50 ∷ []) b')
        ≡ 100)
block_gas_conserved_example =
    block_gas_conserved counter counter-IsCounter 100 (30 ∷ 90 ∷ 50 ∷ []) block (omega arith)
