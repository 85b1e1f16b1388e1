-- ===== src/Node/Execution.antt =====
-- node/trx_executor.go: runTrx, postRunTrx and ExecuteSync.
use beatoz_go.Base.{
  ℕ, ◌<◌, ◌^◌, ◌≡◌, refl, ap, Bool, true, false, ◌||◌, some, ok, err, XError, insufficient_fund,
  ==_iff, ◌==◌, if◌then◌else◌, Bool-cases, inl, inr, ◌⊎◌, arith,
}
use beatoz_go.Base.Words.{add64, sub256}
use beatoz_go.Base.Bytes.{bytes_eq_refl}
use beatoz_go.Ledger.Map.{Store, IsMap}
use beatoz_go.Types.Unit.{gas_to_fee}
use beatoz_go.Types.Account.{Account, sub_balance, add_nonce}
use beatoz_go.Types.BlockGas.{GasPool, use_block_gas}
use beatoz_go.Account.{put, account_keyed}
use beatoz_go.Account.Lookup.{outcome, debit, Puts, set_account_lem}
use beatoz_go.Account.Execution.{same_self, sub_balance_ok}
use beatoz_go.Node.{
  TrxContext, World, Handler, Handlers, is_handled_by_evm, handler_of, post_run_trx, run_trx,
  has_no_error, deferred,
}

-- The sender's account once it has paid a fee and its nonce is used.
abbrev pub charged : ℕ → Account → Account
charged fee a = record a { balance = sub256 a.balance fee; nonce = add64 a.nonce 1 }

module _ (s : Store Account) (M : IsMap s) (p : GasPool) (Other : Type 0) where
  -- After a charge: the gas, the sender's object and its entry in the ledger are the only changes.
  pub record IsCharged (c : TrxContext) (fee : ℕ) (w w' : World s p Other) : Type 0 where
    pub gas_taken : w'.gas_used ≡ c.tx.gas
    pub block_charged : w'.block ≡ (use_block_gas p c.tx.gas w.block).1
    pub sender_charged : w'.objs c.sender ≡ charged fee (w.objs c.sender)
    pub others_kept : (q : ℕ) → ((c.sender == q) ≡ true) ⊎ (w'.objs q ≡ w.objs q)
    pub ledger_valid : M.IsValid w'.accts
    pub ledger_written :
        Puts s M c.exec (w.objs c.sender).address (charged fee (w.objs c.sender)) w.accts w'.accts
    pub rest_kept : w'.other ≡ w.other

  pub post_run_self :
      (c : TrxContext) (w : World s p Other)
      → c.payer ≡ c.sender
      → is_handled_by_evm s p Other c w ≡ false
      → outcome (gas_to_fee c.tx.gas c.tx.gas_price) (w.objs c.sender).balance ≡ ok tt
      → M.IsValid w.accts
      → (w' : World s p Other) × (post_run_trx s p Other c w ≡ (ok tt, w'))
        × IsCharged c (gas_to_fee c.tx.gas c.tx.gas_price) w w'
  unfolding post_run_trx add_nonce
  post_run_self c w own evm covers v =
      let fee : ℕ = gas_to_fee c.tx.gas c.tx.gas_price in
      let a : Account = w.objs c.sender in
      let paid = sub_balance_ok fee a covers in
      let (accts, stored, v', puts) = set_account_lem s M (charged fee a) c.exec w.accts v in
      (
        record w {
          objs = put (put w.objs c.sender (debit fee a)) c.sender (charged fee a);
          accts = accts;
          block = (use_block_gas p c.tx.gas w.block).1;
          gas_used = c.tx.gas;
        },
        rw (evm, own, paid, same_self c.sender, stored, bytes_eq_refl a.address, post_run_trx) refl,
        record {
          gas_taken = refl;
          block_charged = refl;
          sender_charged = rw (same_self c.sender) refl;
          others_kept = λ q. elim (Bool-cases (c.sender == q)) [
            | inl same ↦ inl same
            | inr other ↦ inr (rw other refl)
          ];
          ledger_valid = v';
          ledger_written = puts;
          rest_kept = refl;
        },
      )

  sub_balance_short :
      (amt : ℕ) (a : Account)
      → a.balance < amt
      → amt < 2 ^ 255
      → sub_balance amt a ≡ (err insufficient_fund, a)
  unfolding sub_balance
  sub_balance_short amt a short small = ground arith

  post_run_short :
      (c : TrxContext) (w : World s p Other)
      → is_handled_by_evm s p Other c w ≡ false
      → (w.objs c.payer).balance < gas_to_fee c.tx.gas c.tx.gas_price
      → gas_to_fee c.tx.gas c.tx.gas_price < 2 ^ 255
      → (w' : World s p Other) × (post_run_trx s p Other c w ≡ (err insufficient_fund, w'))
        × ((q : ℕ) → w'.objs q ≡ w.objs q)
        × (w'.accts ≡ w.accts)
        × (w'.block ≡ (use_block_gas p c.tx.gas w.block).1)
  unfolding post_run_trx
  post_run_short c w evm short small =
      let paid =
        sub_balance_short (gas_to_fee c.tx.gas c.tx.gas_price) (w.objs c.payer) short small in
      (
        record w {
          objs = put w.objs c.payer (w.objs c.payer);
          gas_used = c.tx.gas;
          block = (use_block_gas p c.tx.gas w.block).1;
        },
        rw (evm, paid, post_run_trx) refl,
        λ q. elim (Bool-cases (c.payer == q)) [
          | inl same ↦ rw same (ap w.objs ((==_iff c.payer q).0 same))
          | inr other ↦ rw other refl
        ],
        refl,
        refl,
      )

  -- A charge that fails is not reported: if a transaction's handler, other than the EVM, succeeds and
  -- leaves its payer with less than the fee (below 2 ^ 255), runTrx still returns success, although
  -- the objects and the ledger are as the handler left them: no fee is paid and no nonce is used.
  pub run_trx-post_run_trx :
      (h : Handlers s p Other) (k : Handler s p Other) (c : TrxContext) (w w1 : World s p Other)
      → handler_of s p Other h c w ≡ some k
      → k.execute c w ≡ (ok tt, w1)
      → is_handled_by_evm s p Other c w1 ≡ false
      → (w1.objs c.payer).balance < gas_to_fee c.tx.gas c.tx.gas_price
      → gas_to_fee c.tx.gas c.tx.gas_price < 2 ^ 255
      → (w' : World s p Other) × (post_run_trx s p Other c w1 ≡ (err insufficient_fund, w'))
        × (run_trx s p Other h c w ≡ (ok tt, w'))
        × ((q : ℕ) → w'.objs q ≡ w1.objs q)
        × (w'.accts ≡ w1.accts)
  unfolding run_trx
  run_trx-post_run_trx h k c w w1 handler ran evm short small =
      let (w', posted, objs, accts, block) = post_run_short c w1 evm short small in
      (w', posted, rw (handler, ran, always c.exec, posted, run_trx) refl, objs, accts)
    where
      always : (x : Bool) → (x || true) ≡ true
      always true = refl
      always false = refl

  -- A failed transaction pays too: if a handler other than the EVM fails, and the sender pays for
  -- itself and can, then in execution runTrx returns the handler's error, and takes the fee, the
  -- block's gas and the nonce, in the sender's object and in the ledger. In checking it changes
  -- nothing more than the handler did.
  pub run_trx_failed :
      (h : Handlers s p Other) (k : Handler s p Other) (c : TrxContext) (w w1 : World s p Other)
      (e : XError)
      → handler_of s p Other h c w ≡ some k
      → k.execute c w ≡ (err e, w1)
      → c.payer ≡ c.sender
      → is_handled_by_evm s p Other c w1 ≡ false
      → outcome (gas_to_fee c.tx.gas c.tx.gas_price) (w1.objs c.sender).balance ≡ ok tt
      → M.IsValid w1.accts
      → (w' : World s p Other) × (run_trx s p Other h c w ≡ (err e, w'))
        × (if c.exec then IsCharged c (gas_to_fee c.tx.gas c.tx.gas_price) w1 w' else (w' ≡ w1))
  unfolding run_trx
  run_trx_failed h k c w w1 e handler ran own evm covers v =
      let (w', ends, z) = by_side c.exec in (w', rw (handler, ran, run_trx) ends, z)
    where
      by_side :
          (x : Bool)
          → (w' : World s p Other) × ((if x || has_no_error s p Other (err e)
                then deferred s p Other (err e) (post_run_trx s p Other c w1)
                else (err e, w1))
              ≡ (err e, w'))
            × (if x then IsCharged c (gas_to_fee c.tx.gas c.tx.gas_price) w1 w' else (w' ≡ w1))
      by_side true =
          let (w', posted, z) = post_run_self c w1 own evm covers v in
          (w', ap (deferred s p Other (err e)) posted, z)
      by_side false = (w1, refl, refl)
