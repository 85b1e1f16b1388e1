-- ===== src/Node.antt =====
-- node/trx_executor.go and ctrlers/types/trx_ctx.go: the executor of transactions, over the account
-- controller. The controllers of governance, supply, voting power and the EVM are parameters.
pub mod Validation
pub mod Execution
pub mod Settlement
mod Tests
use beatoz_go.Base.{
  ℕ, ◌≡◌, Bool, true, false, not, ◌&&◌, ◌||◌, Option, none, some, Result, ok, err, panic, Status,
  invalid_gas, unknown_trx_type, fail_if, ◌>>=◌, ◌>>◌, ◌==◌, if◌then◌else◌,
}
use beatoz_go.Base.Words.{add256, mul256, slt64, sle64}
use beatoz_go.Base.Bytes.{Bytes, bytes_eq}
use beatoz_go.Ledger.Mutable.{attempt}
use beatoz_go.Ledger.Map.{Store}
use beatoz_go.Types.Unit.{gas_to_fee}
use beatoz_go.Types.Account.{Account, check_balance, check_nonce, sub_balance, add_nonce}
use beatoz_go.Types.Trx.{
  Trx, is_nil, trx_transfer, trx_staking, trx_unstaking, trx_proposal, trx_voting, trx_contract,
  trx_setdoc, trx_withdraw,
}
use beatoz_go.Types.BlockGas.{GasPool, BlockGas, get_block_gas_remained, use_block_gas}
use beatoz_go.Account.{Objects, put, at_pointer, set_account, validate_trx, execute_trx}

-- TrxContext: the pointers to the account objects of the sender, the receiver and the payer.
pub record TrxContext : Type 0 where
  pub tx : Trx
  pub exec : Bool
  pub sender : ℕ
  pub receiver : ℕ
  pub payer : ℕ

module _ (s : Store Account) (p : GasPool) (Other : Type 0) where
  -- What the execution of a transaction reads and changes: the account objects of its context, the
  -- account ledger, the gas of the block, ctx.GasUsed, and what the other controllers keep.
  pub record World : Type 0 where
    pub objs : Objects
    pub accts : s.State
    pub block : BlockGas p
    pub gas_used : ℕ
    pub other : Other

  -- ITrxHandler
  pub record Handler : Type 0 where
    pub validate : TrxContext → World → Status
    pub execute : TrxContext → World → Status × World

  pub record Handlers : Type 0 where
    pub gov : Handler
    pub supply : Handler
    pub vpower : Handler
    pub evm : Handler

  -- The account controller as a handler of transactions.
  abbrev pub acct_handler : Handler
  acct_handler = record {
    validate = λ c w. validate_trx c.tx;
    execute = λ c w.
        let (r, done, accts) =
          execute_trx s c.tx c.exec c.sender (some c.receiver) (w.objs, w.accts) in
        (r, record w { objs = done; accts = accts });
  }

  -- (*TrxContext).IsHandledByEVM
  unfoldable pub is_handled_by_evm : TrxContext → World → Bool
  is_handled_by_evm c w =
      (c.tx.type == trx_contract)
      || ((c.tx.type == trx_transfer) && not (is_nil (w.objs c.receiver).code))

  -- The fee that commonValidation asks for.
  abbrev pub fee_asked : Trx → ℕ
  fee_asked tx = mul256 tx.gas_price tx.gas

  -- commonValidation
  unfoldable pub common_validation : TrxContext → World → Status
  common_validation c w =
      let remained = get_block_gas_remained p w.block in
      let from : Account = w.objs c.sender in
      let by : Account = w.objs c.payer in
      do
        fail_if (sle64 remained 0 || slt64 remained c.tx.gas) invalid_gas
        if not (bytes_eq from.address by.address)
            then (do check_balance (fee_asked c.tx) by; check_balance c.tx.amount from)
            else check_balance (add256 (fee_asked c.tx) c.tx.amount) from
        check_nonce c.tx.nonce from

  -- The handler that the switches of validateTrx and runTrx choose.
  abbrev pub is_gov : ℕ → Bool
  is_gov type = (type == trx_proposal) || (type == trx_voting)

  abbrev pub is_acct : ℕ → Bool
  is_acct type = (type == trx_transfer) || (type == trx_setdoc)

  abbrev pub is_vpower : ℕ → Bool
  is_vpower type = (type == trx_staking) || (type == trx_unstaking)

  module _ (h : Handlers) where
    -- validateTrx
    unfoldable pub validate_trx_by : TrxContext → World → Status
    validate_trx_by c w = do
      common_validation c w
      if is_gov c.tx.type
          then h.gov.validate c w
          else if is_acct c.tx.type
          then acct_handler.validate c w
          else if c.tx.type == trx_withdraw
          then h.supply.validate c w
          else if is_vpower c.tx.type
          then h.vpower.validate c w
          else if c.tx.type == trx_contract
          then h.evm.validate c w
          else err unknown_trx_type

    -- The switch of runTrx: `none` is its default case, which sets no error of its own.
    unfoldable pub handler_of : TrxContext → World → Option Handler
    handler_of c w =
        if c.tx.type == trx_contract
        then some h.evm
        else if is_gov c.tx.type
        then some h.gov
        else if is_acct c.tx.type
        then (if is_handled_by_evm c w then some h.evm else some acct_handler)
        else if c.tx.type == trx_withdraw
        then some h.supply
        else if is_vpower c.tx.type
        then some h.vpower
        else none

  -- The gas of postRunTrx: the EVM has charged the block's gas itself.
  abbrev pub charge_gas : TrxContext → World → World
  charge_gas c w =
      if is_handled_by_evm c w
      then w
      else record w { gas_used = c.tx.gas; block = (use_block_gas p c.tx.gas w.block).1 }

  -- postRunTrx
  unfoldable pub post_run_trx : TrxContext → World → Status × World
  post_run_trx c w0 =
      let w : World = charge_gas c w0 in
      let (r, paid) =
        at_pointer (sub_balance (gas_to_fee w.gas_used c.tx.gas_price)) c.payer w.objs in
      attempt r (record w { objs = paid })
        λ _.
          let done : Objects = put paid c.sender (add_nonce (paid c.sender)) in
          let (r', accts) = set_account s (done c.sender) c.exec w.accts in
          attempt r' (record w { objs = done; accts = accts })
            λ _.
              if not (bytes_eq (done c.sender).address (done c.payer).address)
              then (let (r'', accts') = set_account s (done c.payer) c.exec accts in
                  (r'', record w { objs = done; accts = accts' }))
              else (ok tt, record w { objs = done; accts = accts })

  abbrev pub has_no_error : Status → Bool
  has_no_error (err e) = false
  has_no_error _ = true

  -- What a call with result `r` returns after its deferred function: a panic goes on, an error is
  -- dropped.
  abbrev pub deferred : Status → Status × World → Status × World
  deferred r (ok u, w) = (r, w)
  deferred r (err e, w) = (r, w)
  deferred r (panic, w) = (panic, w)

  -- runTrx. Its result has no name, so the error that the deferred function assigns to the local
  -- variable is not returned.
  unfoldable pub run_trx : Handlers → TrxContext → World → Status × World
  run_trx h c w = elim (handler_of h c w) [
    | none ↦ deferred (err unknown_trx_type) (post_run_trx c w)
    | some handler ↦
        let (r, w') = handler.execute c w in
        if c.exec || has_no_error r then deferred r (post_run_trx c w') else (r, w')
  ]

  -- (*TrxExecutor).ExecuteSync
  unfoldable pub execute_sync : Handlers → TrxContext → World → Status × World
  execute_sync h c w = attempt (validate_trx_by h c w) w (λ _. run_trx h c w)
