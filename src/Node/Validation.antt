-- ===== src/Node/Validation.antt =====
-- node/trx_executor.go: commonValidation.
use beatoz_go.Base.{
  ◌+◌, ◌*◌, ◌≤◌, ◌<◌, ◌^◌, ◌≡◌, ◌↔◌, ok, if◌then◌else◌, Bool-cases, inl, inr, arith,
}
use native.Mathlib.Nat.{mod-eq_of_lt}
use beatoz_go.Base.Bytes.{bytes_eq}
use beatoz_go.Ledger.Map.{Store}
use beatoz_go.Types.Account.{Account, check_balance, check_nonce}
use beatoz_go.Types.BlockGas.{GasPool, get_block_gas_remained}
use beatoz_go.Node.{TrxContext, World, common_validation, fee_asked}

module _ (s : Store Account) (p : GasPool) (Other : Type 0) where
  -- What a transaction needs of its sender, its payer and the block, in numbers that do not wrap.
  pub record IsPayable (c : TrxContext) (w : World s p Other) : Type 0 where
    pub gas_left : 0 < get_block_gas_remained p w.block
    pub gas_fits : c.tx.gas ≤ get_block_gas_remained p w.block
    pub nonce_is_next : (w.objs c.sender).nonce ≡ c.tx.nonce
    pub funded :
        if bytes_eq (w.objs c.sender).address (w.objs c.payer).address
        then c.tx.gas_price * c.tx.gas + c.tx.amount ≤ (w.objs c.sender).balance
        else (c.tx.gas_price * c.tx.gas ≤ (w.objs c.payer).balance)
          × (c.tx.amount ≤ (w.objs c.sender).balance)

  -- commonValidation accepts a transaction exactly when the block has gas left, and enough for it,
  -- the nonce is the sender's, and the funds are there: the fee and the amount in the sender's
  -- balance if it pays itself, and otherwise the fee in the payer's and the amount in the sender's.
  -- The gas and the gas remaining are int64 that are not negative, and the fee and the amount are
  -- below 2 ^ 255.
  pub common_validation_iff :
      (c : TrxContext) (w : World s p Other)
      → c.tx.gas < 2 ^ 63
      → get_block_gas_remained p w.block < 2 ^ 63
      → c.tx.gas_price * c.tx.gas < 2 ^ 255
      → c.tx.amount < 2 ^ 255
      → (common_validation s p Other c w ≡ ok tt) ↔ IsPayable c w
  unfolding common_validation check_balance check_nonce
  common_validation_iff c w hg hr hf ha =
      elim (Bool-cases (bytes_eq (w.objs c.sender).address (w.objs c.payer).address)) [
        | inl own ↦ (λ e. ground (arith, fee), λ v. ground (arith, fee))
        | inr other ↦ (λ e. ground (arith, fee), λ v. ground (arith, fee))
      ]
    where
      fee : fee_asked s p Other c.tx ≡ c.tx.gas_price * c.tx.gas
      fee = mod-eq_of_lt (omega arith)
