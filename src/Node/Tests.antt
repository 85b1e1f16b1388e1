-- ===== src/Node/Tests.antt =====
-- A transfer through the executor on accounts in memory, and the theorems at concrete transactions.
use beatoz_go.Base.{
  ℕ, ◌≡◌, ◌↔◌, refl, true, none, some, [], ◌∷◌, ok, err, insufficient_fund, invalid_payload_params,
  if◌then◌else◌, ◌==◌, arith,
}
use beatoz_go.Base.Bytes.{bytes_eq}
use beatoz_go.Ledger.Map.{Store, IsMap}
use beatoz_go.Ledger.Map.Pair.{pair_store, pair_store-IsMap}
use beatoz_go.Types.Unit.{gas_to_fee}
use beatoz_go.Types.Account.{Account, new_account}
use beatoz_go.Types.Trx.{Trx, trx_transfer, trx_staking}
use beatoz_go.Types.BlockGas.{get_block_gas_remained}
use beatoz_go.Types.Counter.{counter}
use beatoz_go.Account.{Objects, account_keyed}
use beatoz_go.Node.{
  TrxContext, World, Handler, Handlers, common_validation, handler_of, is_handled_by_evm,
  post_run_trx, run_trx, execute_sync,
}
use beatoz_go.Node.Validation.{IsPayable, common_validation_iff}
use beatoz_go.Node.Execution.{IsCharged, run_trx-post_run_trx, run_trx_failed}
use beatoz_go.Node.Settlement.{IsOwnTransfer, IsSettled, transfer_settles}

abbrev store : Store Account
store = pair_store Account

abbrev is_map : IsMap store
is_map = pair_store-IsMap Account

abbrev alice : Account
alice = record (new_account (1 ∷ [])) { balance = 100_000; nonce = 3 }

abbrev bob : Account
bob = record (new_account (2 ∷ [])) { balance = 5 }

-- Alice's account object is at 0, Bob's at 1.
abbrev objects : Objects
objects q = if q == 0 then alice else bob

abbrev world : World store counter (Unit {0})
world = record {
  objs = objects;
  accts = λ x k. none;
  block = record { block_gas_limit = 10_000; block_gas_pool = 9_000; fee_sum = 0; txs_cnt = 0 };
  gas_used = 0;
  other = tt;
}

abbrev transfer_trx : Trx
transfer_trx = record {
  version = 1;
  time = 0;
  nonce = 3;
  from = 1 ∷ [];
  to = some (2 ∷ []);
  amount = 50;
  gas = 4_000;
  gas_price = 10;
  type = trx_transfer;
  payload = none;
  sig = some (1 ∷ []);
  payer = none;
  payer_sig = none;
}

abbrev context : TrxContext
context = record { tx = transfer_trx; exec = true; sender = 0; receiver = 1; payer = 0 }

-- A handler that fails, and one that succeeds and empties the sender's object.
abbrev failing : Handler store counter (Unit {0})
failing = record { validate = λ c w. ok tt; execute = λ c w. (err invalid_payload_params, w) }

abbrev emptying : Handler store counter (Unit {0})
emptying = record {
  validate = λ c w. ok tt;
  execute = λ c w. (ok tt, record w { objs = λ q. record alice { balance = 0 } });
}

abbrev handlers : Handlers store counter (Unit {0})
handlers = record { gov = failing; supply = failing; vpower = emptying; evm = failing }

abbrev staking_context : TrxContext
staking_context = record context { tx = record transfer_trx { type = trx_staking } }

payable : IsPayable store counter (Unit {0}) context world
unfolding bytes_eq get_block_gas_remained
payable = record {
  gas_left = omega arith;
  gas_fits = omega arith;
  nonce_is_next = refl;
  funded = omega arith;
}

own_transfer : IsOwnTransfer store is_map counter (Unit {0}) handlers context world
unfolding bytes_eq get_block_gas_remained
own_transfer = record {
  is_transfer = refl;
  pays_itself = refl;
  two_objects = refl;
  two_addresses = refl;
  has_no_code = refl;
  gas_small = omega arith;
  gas_left_small = omega arith;
  fee_small = omega arith;
  amount_small = omega arith;
  balance_fits = omega arith;
  receiver_has_room = omega arith;
}

common_validation_iff_example :
    (common_validation store counter (Unit {0}) context world ≡ ok tt)
    ↔ IsPayable store counter (Unit {0}) context world
unfolding get_block_gas_remained
common_validation_iff_example =
    common_validation_iff store counter (Unit {0}) context world (omega arith) (omega arith)
      (omega arith) (omega arith)

transfer_settles_example :
    (w' : World store counter (Unit {0})) × (execute_sync store counter
        (Unit {0})
        handlers
        context
        world
      ≡ (ok tt, w'))
    × IsSettled store is_map counter (Unit {0}) handlers context world w'
transfer_settles_example =
    transfer_settles store is_map counter (Unit {0}) handlers context world own_transfer payable tt

run_trx-post_run_trx_example :
    (w' : World store counter (Unit {0})) × (post_run_trx store counter
        (Unit {0})
        staking_context
        (emptying.execute staking_context world).1
      ≡ (err insufficient_fund, w'))
    × (run_trx store counter (Unit {0}) handlers staking_context world ≡ (ok tt, w'))
    × ((q : ℕ) → w'.objs q ≡ record alice { balance = 0 })
    × (w'.accts ≡ world.accts)
unfolding handler_of is_handled_by_evm gas_to_fee
run_trx-post_run_trx_example =
    run_trx-post_run_trx store is_map counter (Unit {0}) handlers emptying staking_context world
      (emptying.execute staking_context world).1 refl refl refl (omega arith) (omega arith)

run_trx_failed_example :
    (w' : World store counter (Unit {0})) × (run_trx store counter
        (Unit {0})
        (record handlers { vpower = failing })
        staking_context
        world
      ≡ (err invalid_payload_params, w'))
    × IsCharged store is_map counter (Unit {0}) staking_context (gas_to_fee 4_000 10) world w'
unfolding handler_of is_handled_by_evm gas_to_fee
run_trx_failed_example =
    run_trx_failed store is_map counter (Unit {0}) (record handlers { vpower = failing }) failing
      staking_context world world invalid_payload_params refl refl refl refl refl tt
