-- ===== src/Types/Trx.antt =====
-- ctrlers/types/trx.go: transactions, their conversion from protobuf and their own validation.
-- An int64 or int32 is its bit pattern; a nil slice is `none`.
use beatoz_go.Base.{
  ℕ, ◌<◌, ◌^◌, ◌≡◌, ◌↔◌, ◌⊎◌, Bool, true, false, not, ◌&&◌, ◌||◌, Option, none, some, List, ok,
  Status, invalid_address, invalid_amount, invalid_gas_price, invalid_trx_type,
  invalid_payload_type, invalid_trx_sig, length, fail_if, ◌>>◌, ◌==◌, arith,
}
use beatoz_go.Base.Words.{slt32, neg256}
use beatoz_go.Base.Bytes.{Bytes}

abbrev pub addr_size : ℕ
addr_size = 20

abbrev pub trx_transfer : ℕ
trx_transfer = 1

abbrev pub trx_staking : ℕ
trx_staking = 2

abbrev pub trx_unstaking : ℕ
trx_unstaking = 3

abbrev pub trx_proposal : ℕ
trx_proposal = 4

abbrev pub trx_voting : ℕ
trx_voting = 5

abbrev pub trx_contract : ℕ
trx_contract = 6

abbrev pub trx_setdoc : ℕ
trx_setdoc = 7

abbrev pub trx_withdraw : ℕ
trx_withdraw = 8

abbrev pub trx_min_type : ℕ
trx_min_type = trx_transfer

abbrev pub trx_max_type : ℕ
trx_max_type = trx_withdraw

-- TrxPayloadProposal
pub record ProposalPayload : Type 0 where
  pub start_voting_height : ℕ
  pub voting_period_blocks : ℕ
  pub applying_height : ℕ
  pub opt_type : ℕ
  pub options : List Bytes

-- The types that implement ITrxPayload.
pub data Payload : Type 0 where
  asset_transfer : Payload
  staking : Payload
  unstaking : Option Bytes → Payload
  proposal : ProposalPayload → Payload
  voting : Bytes → ℕ → Payload
  contract : Bytes → Payload
  set_doc : Bytes → Bytes → Payload
  withdraw : ℕ → Payload

-- ITrxPayload.Type
abbrev pub payload_type : Payload → ℕ
payload_type asset_transfer = trx_transfer
payload_type staking = trx_staking
payload_type (unstaking _) = trx_unstaking
payload_type (proposal _) = trx_proposal
payload_type (voting _ _) = trx_voting
payload_type (contract _) = trx_contract
payload_type (set_doc _ _) = trx_setdoc
payload_type (withdraw _) = trx_withdraw

pub record Trx : Type 0 where
  pub version : ℕ
  pub time : ℕ
  pub nonce : ℕ
  pub from : Bytes
  pub to : Option Bytes
  pub amount : ℕ
  pub gas : ℕ
  pub gas_price : ℕ
  pub type : ℕ
  pub payload : Option Payload
  pub sig : Option Bytes
  pub payer : Option Bytes
  pub payer_sig : Option Bytes

-- `len(x)` of a slice that may be nil.
abbrev pub len : Option Bytes → ℕ
len none = 0
len (some b) = length b

abbrev pub is_nil {ℓ} : {A : Type ℓ} → Option A → Bool
is_nil none = true
is_nil (some a) = false

-- `tx.Payload != nil && tx.Type != tx.Payload.Type()`
abbrev pub payload_differs : Option Payload → ℕ → Bool
payload_differs none type = false
payload_differs (some p) type = not (type == payload_type p)

-- (*Trx).Validate
unfoldable pub validate : Trx → Status
validate tx = do
  fail_if (not (length tx.from == addr_size)) invalid_address
  fail_if (not (len tx.to == addr_size) && (not (tx.type == trx_contract) || not (is_nil tx.to)))
      invalid_address
  fail_if (neg256 tx.amount) invalid_amount
  fail_if (neg256 tx.gas_price) invalid_gas_price
  fail_if (slt32 tx.type trx_min_type && slt32 trx_max_type tx.type) invalid_trx_type
  fail_if (payload_differs tx.payload tx.type) invalid_payload_type
  fail_if (is_nil tx.sig) invalid_trx_sig
  fail_if (not (is_nil tx.payer) && not (len tx.payer == addr_size)) invalid_address
  fail_if (not (is_nil tx.payer) && is_nil tx.payer_sig) invalid_trx_sig

-- What Validate accepts. The type is not restricted: no type is both below the least and above the
-- greatest.
pub record IsAcceptable (tx : Trx) : Type 0 where
  pub from_size : length tx.from ≡ addr_size
  pub to_size : (len tx.to ≡ addr_size) ⊎ ((tx.type ≡ trx_contract) × (tx.to ≡ none))
  pub amount_fits : tx.amount < 2 ^ 255
  pub price_fits : tx.gas_price < 2 ^ 255
  pub payload_fits : payload_differs tx.payload tx.type ≡ false
  pub is_signed : is_nil tx.sig ≡ false
  pub payer_fits : (tx.payer ≡ none) ⊎ ((len tx.payer ≡ addr_size) × (is_nil tx.payer_sig ≡ false))

-- Validate accepts a transaction exactly when its sender has 20 bytes, its receiver too or is nil in
-- a contract transaction, its amount and gas price are below 2 ^ 255, a payload has the
-- transaction's type, a signature is there, and a payer, if any, has 20 bytes and a signature. The
-- type itself is not restricted.
pub validate_iff : (tx : Trx) → tx.type < 2 ^ 32 → (validate tx ≡ ok tt) ↔ IsAcceptable tx
unfolding validate
validate_iff tx h = (λ e. ground arith, λ v. ground arith)
