-- ===== src/Node/Settlement.antt =====
-- node/trx_executor.go: a transfer through ExecuteSync.
use beatoz_go.Base.{
  ℕ, ◌+◌, ◌-◌, ◌*◌, ◌%◌, ◌≤◌, ◌<◌, ◌^◌, ◌≡◌, refl, sym, ap, ◌∙◌, Bool, true, false, ◌&&◌, ◌||◌,
  Option, none, some, ok, ◌==◌, if◌then◌else◌, inl, inr, arith,
}
use native.Mathlib.Nat.{mod-eq_of_lt, mul_comm}
use beatoz_go.Base.Words.{add64}
use beatoz_go.Base.Bytes.{Bytes, bytes_eq, bytes_eq_refl}
use beatoz_go.Ledger.Keys.{ledger_key_account}
use beatoz_go.Ledger.Map.{Store, IsMap, same_side}
use beatoz_go.Types.Unit.{gas_to_fee}
use beatoz_go.Types.Account.{Account}
use beatoz_go.Types.Trx.{Trx, trx_transfer}
use beatoz_go.Types.BlockGas.{GasPool, use_block_gas, get_block_gas_remained}
use beatoz_go.Account.{Objects, validate_trx, transfer, account_keyed}
use beatoz_go.Account.Lookup.{outcome, debit, credit, Puts}
use beatoz_go.Account.Transfer.{PutsTwo}
use beatoz_go.Account.Books.{account_at, key_apart}
use beatoz_go.Account.Execution.{execute_transfer}
use beatoz_go.Node.{
  TrxContext, World, Handler, Handlers, acct_handler, is_handled_by_evm, validate_trx_by,
  handler_of, post_run_trx, run_trx, execute_sync,
}
use beatoz_go.Node.Validation.{IsPayable, common_validation_iff}
use beatoz_go.Node.Execution.{charged, post_run_self}

outcome_ok : (amt b : ℕ) → amt < 2 ^ 255 → amt ≤ b → outcome amt b ≡ ok tt
outcome_ok amt b h le = ground arith

fee_exact : (gas price : ℕ) → price * gas < 2 ^ 254 → gas_to_fee gas price ≡ price * gas
unfolding gas_to_fee
fee_exact gas price h = ap (λ n. n % 2 ^ 256) (mul_comm gas price) ∙ mod-eq_of_lt (omega arith)

debit_exact :
    (amt : ℕ) (a : Account)
    → amt ≤ a.balance
    → a.balance < 2 ^ 256
    → (debit amt a).balance ≡ a.balance - amt
debit_exact amt a le h = omega arith

charged-debit :
    (amt fee : ℕ) (a : Account)
    → fee + amt ≤ a.balance
    → a.balance < 2 ^ 256
    → charged fee (debit amt a)
      ≡ record a { balance = a.balance - (amt + fee); nonce = add64 a.nonce 1 }
charged-debit amt fee a le h =
    ap (λ n. record a { balance = n; nonce = add64 a.nonce 1 }) (omega arith)

credit_exact :
    (amt : ℕ) (b : Account)
    → b.balance + amt < 2 ^ 256
    → credit amt b ≡ record b { balance = b.balance + amt }
credit_exact amt b h = ap (λ n. record b { balance = n }) (mod-eq_of_lt h)

-- A transfer's two writes and then the payer's.
written_thrice :
    (s : Store Account) (M : IsMap s) (x : Bool) (paid got done : Account) (st st1 st2 : s.State)
    → paid.address ≡ done.address
    → PutsTwo s M x paid got st st1
    → Puts s M x done.address done st1 st2
    → (y : Bool) (j : Bytes)
    → account_at s M st2 y j ≡ (
        if same_side x y && bytes_eq done.address j
        then some done
        else if same_side x y && bytes_eq got.address j
        then some got
        else account_at s M st y j)
written_thrice s M x paid got done st st1 st2 e two one y j =
    one y (ledger_key_account j)
    ∙ rw (two y (ledger_key_account j), e, key_apart done.address j, key_apart got.address j)
        (absorb (same_side x y && bytes_eq done.address j) (same_side x y && bytes_eq got.address j)
          _ _ _ _)
  where
    absorb :
        (p q : Bool) (a b c d : Option Account)
        → (if p then a else if q then b else if p then c else d)
          ≡ (if p then a else if q then b else d)
    absorb p q a b c d = ground arith

module _ (s : Store Account) (M : IsMap s) (p : GasPool) (Other : Type 0)
    (h : Handlers s p Other) where
  -- A context whose sender pays for a transfer to another account, which has no code; the amounts are
  -- small enough for no sum to wrap.
  pub record IsOwnTransfer (c : TrxContext) (w : World s p Other) : Type 0 where
    pub is_transfer : c.tx.type ≡ trx_transfer
    pub pays_itself : c.payer ≡ c.sender
    pub two_objects : (c.sender == c.receiver) ≡ false
    pub two_addresses : bytes_eq (w.objs c.sender).address (w.objs c.receiver).address ≡ false
    pub has_no_code : (w.objs c.receiver).code ≡ none
    pub gas_small : c.tx.gas < 2 ^ 63
    pub gas_left_small : get_block_gas_remained p w.block < 2 ^ 63
    pub fee_small : c.tx.gas_price * c.tx.gas < 2 ^ 254
    pub amount_small : c.tx.amount < 2 ^ 254
    pub balance_fits : (w.objs c.sender).balance < 2 ^ 256
    pub receiver_has_room : (w.objs c.receiver).balance + c.tx.amount < 2 ^ 256

  abbrev pub fee_of : Trx → ℕ
  fee_of tx = tx.gas_price * tx.gas

  abbrev pub sender_after : Trx → Account → Account
  sender_after tx a = record a {
    balance = a.balance - (tx.amount + fee_of tx);
    nonce = add64 a.nonce 1;
  }

  abbrev pub receiver_after : Trx → Account → Account
  receiver_after tx b = record b { balance = b.balance + tx.amount }

  -- The transfer is done, the fee is paid and the nonce is used, in the objects and in the ledger.
  pub record IsSettled (c : TrxContext) (w w' : World s p Other) : Type 0 where
    pub sender_settled : w'.objs c.sender ≡ sender_after c.tx (w.objs c.sender)
    pub receiver_settled : w'.objs c.receiver ≡ receiver_after c.tx (w.objs c.receiver)
    pub gas_taken : w'.gas_used ≡ c.tx.gas
    pub block_charged : w'.block ≡ (use_block_gas p c.tx.gas w.block).1
    pub ledger_valid : M.IsValid w'.accts
    pub ledger_settled :
        (y : Bool) (j : Bytes)
        → account_at s M w'.accts y j ≡ (
            if same_side c.exec y && bytes_eq (w.objs c.sender).address j
            then some (sender_after c.tx (w.objs c.sender))
            else if same_side c.exec y && bytes_eq (w.objs c.receiver).address j
            then some (receiver_after c.tx (w.objs c.receiver))
            else account_at s M w.accts y j)
    pub rest_kept : w'.other ≡ w.other

  validates :
      (c : TrxContext) (w : World s p Other)
      → IsOwnTransfer c w
      → IsPayable s p Other c w
      → validate_trx_by s p Other h c w ≡ ok tt
  unfolding validate_trx_by validate_trx
  validates c w o v =
      let checked =
        (common_validation_iff s p Other c w o.gas_small o.gas_left_small (omega arith)
            (omega arith)).1
          v in
      rw (checked, o.is_transfer, validate_trx_by, validate_trx) refl

  own_funds :
      (c : TrxContext) (w : World s p Other)
      → IsOwnTransfer c w
      → IsPayable s p Other c w
      → fee_of c.tx + c.tx.amount ≤ (w.objs c.sender).balance
  own_funds c w o v = rw (o.pays_itself, bytes_eq_refl (w.objs c.sender).address) at v.funded

  handled :
      (c : TrxContext) (w : World s p Other)
      → c.tx.type ≡ trx_transfer
      → (w.objs c.receiver).code ≡ none
      → (is_handled_by_evm s p Other c w ≡ false)
        × (handler_of s p Other h c w ≡ some (acct_handler s p Other))
  unfolding handler_of is_handled_by_evm
  handled c w t n = (rw (t, n) refl, rw (t, n) refl)

  sync_run :
      (k : Handler s p Other) (c : TrxContext) (w w1 w2 : World s p Other)
      → validate_trx_by s p Other h c w ≡ ok tt
      → handler_of s p Other h c w ≡ some k
      → k.execute c w ≡ (ok tt, w1)
      → post_run_trx s p Other c w1 ≡ (ok tt, w2)
      → execute_sync s p Other h c w ≡ (ok tt, w2)
  unfolding execute_sync run_trx
  sync_run k c w w1 w2 checked handler ran posted =
      rw (checked, handler, ran, always c.exec, posted, execute_sync, run_trx) refl
    where
      always : (x : Bool) → (x || true) ≡ true
      always true = refl
      always false = refl

  -- A valid transfer goes through: ExecuteSync of a transfer whose sender pays for itself, to another
  -- account with no code, on which commonValidation's conditions hold, succeeds whatever the other
  -- handlers do. The sender's balance falls by the amount and the fee together and its nonce rises by
  -- one, the receiver's balance rises by the amount, and the ledger's side of the call holds just
  -- these two accounts anew; the gas is charged to the block. The fee and the amount are below
  -- 2 ^ 254, and the receiver's balance does not pass 2 ^ 256.
  pub transfer_settles :
      (c : TrxContext) (w : World s p Other)
      → IsOwnTransfer c w
      → IsPayable s p Other c w
      → M.IsValid w.accts
      → (w' : World s p Other) × (execute_sync s p Other h c w ≡ (ok tt, w')) × IsSettled c w w'
  transfer_settles c w o v valid =
      let a : Account = w.objs c.sender in
      let b : Account = w.objs c.receiver in
      let fee : ℕ = gas_to_fee c.tx.gas c.tx.gas_price in
      let fee_is : fee ≡ fee_of c.tx = fee_exact c.tx.gas c.tx.gas_price o.fee_small in
      let funds = own_funds c w o v in
      let (evm, handler) = handled c w o.is_transfer o.has_no_code in
      let (accts, ran, (at_from, at_to, others), valid1, stored) =
        execute_transfer s M c.tx c.exec c.sender c.receiver w.objs w.accts o.is_transfer
          (outcome_ok c.tx.amount a.balance (omega arith) (omega (arith, funds))) o.two_objects
          valid in
      let done : Objects = (transfer c.sender c.receiver c.tx.amount w.objs).1 in
      let w1 : World s p Other = record w { objs = done; accts = accts } in
      let (evm1, _) =
        handled c w1 o.is_transfer (ap (λ (x : Account). x.code) at_to ∙ o.has_no_code) in
      let left = debit_exact c.tx.amount a (omega (arith, funds)) o.balance_fits in
      let (w2, charged_ok, z) =
        post_run_self s M p Other c w1 o.pays_itself evm1
          (ap (λ (x : Account). outcome fee x.balance) at_from
            ∙ outcome_ok fee (debit c.tx.amount a).balance (omega (arith, fee_is))
                (omega (arith, fee_is, left, funds)))
          valid1 in
      let paid : charged fee (done c.sender) ≡ sender_after c.tx a =
        ap (charged fee) at_from
        ∙ ap (λ n. charged n (debit c.tx.amount a)) fee_is
        ∙ charged-debit c.tx.amount (fee_of c.tx) a funds o.balance_fits in
      let got : done c.receiver ≡ receiver_after c.tx b =
        at_to ∙ credit_exact c.tx.amount b o.receiver_has_room in
      (
        w2,
        sync_run (acct_handler s p Other) c w w1 w2 (validates c w o v) handler
            (ap (λ r. (r.0, record w { objs = r.1; accts = r.2 })) ran) charged_ok,
        record {
          sender_settled = z.sender_charged ∙ paid;
          receiver_settled = elim (z.others_kept c.receiver) [
            | inl same ↦ cc
            | inr kept ↦ kept ∙ got
          ];
          gas_taken = z.gas_taken;
          block_charged = z.block_charged;
          ledger_valid = z.ledger_valid;
          ledger_settled = λ y j.
              written_thrice s M c.exec (debit c.tx.amount a) (credit c.tx.amount b)
                (charged fee (done c.sender)) w.accts accts w2.accts
                (sym (ap (λ (x : Account). x.address) at_from)) stored z.ledger_written y j
              ∙ ap (first y j (credit c.tx.amount b)) paid
              ∙ ap (λ x. first y j x (sender_after c.tx a))
                  (credit_exact c.tx.amount b o.receiver_has_room);
          rest_kept = z.rest_kept;
        },
      )
    where
      first : Bool → Bytes → Account → Account → Option Account
      first y j got x =
          if same_side c.exec y && bytes_eq x.address j
          then some x
          else if same_side c.exec y && bytes_eq got.address j
          then some got
          else account_at s M w.accts y j
