-- ===== src/Types/TrxProto.antt =====
-- ctrlers/types/trx.go: (*Trx).fromProto, which gives a decoded transaction its payload.
use beatoz_go.Base.{
  ℕ, ◌≤◌, ◌≡◌, false, not, ◌||◌, Option, none, some, Result, ok, err, invalid_payload_type, fail_if,
  ◌>>=◌, ◌>>◌, chain_succeeds, ◌==◌, if◌then◌else◌, arith,
}
use beatoz_go.Base.Bytes.{Bytes, or_empty}
use beatoz_go.Types.Trx.{
  Trx, Payload, ProposalPayload, unstaking, withdraw, proposal, voting, contract, set_doc, is_nil,
  payload_differs, trx_transfer, trx_staking, trx_unstaking, trx_proposal, trx_voting, trx_contract,
  trx_setdoc, trx_withdraw, trx_min_type, trx_max_type,
}

-- The message that protobuf unmarshals.
pub record TrxProto : Type 0 where
  pub version : ℕ
  pub time : ℕ
  pub nonce : ℕ
  pub from : Bytes
  pub to : Option Bytes
  pub x_amount : Option Bytes
  pub gas : ℕ
  pub x_gas_price : Option Bytes
  pub type : ℕ
  pub x_payload : Option Bytes
  pub sig : Option Bytes
  pub payer : Option Bytes
  pub payer_sig : Option Bytes

-- What the Decode methods of the payloads unmarshal, and uint256's SetBytes.
pub record Decoders : Type 0 where
  pub set_bytes : Bytes → ℕ
  pub decode_unstaking : Option Bytes → Result (Option Bytes)
  pub decode_withdraw : Option Bytes → Result ℕ
  pub decode_proposal : Option Bytes → Result ProposalPayload
  pub decode_voting : Option Bytes → Result (Bytes × ℕ)
  pub decode_contract : Option Bytes → Result Bytes
  pub decode_set_doc : Option Bytes → Result (Bytes × Bytes)

module _ (d : Decoders) where
  -- The switch over the transaction's type.
  unfoldable pub payload_of : ℕ → Option Bytes → Result (Option Payload)
  payload_of type bz =
      if (type == trx_transfer) || (type == trx_staking)
      then (do fail_if (not (is_nil bz)) invalid_payload_type; ok none)
      else if type == trx_unstaking
      then (do h ← d.decode_unstaking bz; ok (some (unstaking h)))
      else if type == trx_withdraw
      then (do amt ← d.decode_withdraw bz; ok (some (withdraw amt)))
      else if type == trx_proposal
      then (do p ← d.decode_proposal bz; ok (some (proposal p)))
      else if type == trx_voting
      then (do v ← d.decode_voting bz; ok (some (voting v.0 v.1)))
      else if type == trx_contract
      then (do c ← d.decode_contract bz; ok (some (contract c)))
      else if type == trx_setdoc
      then (do doc ← d.decode_set_doc bz; ok (some (set_doc doc.0 doc.1)))
      else err invalid_payload_type

  -- (*Trx).fromProto
  unfoldable pub from_proto : TrxProto → Result Trx
  from_proto pm = do
    payload ← payload_of pm.type pm.x_payload
    ok (record {
      version = pm.version;
      time = pm.time;
      nonce = pm.nonce;
      from = pm.from;
      to = pm.to;
      amount = d.set_bytes (or_empty pm.x_amount);
      gas = pm.gas;
      gas_price = d.set_bytes (or_empty pm.x_gas_price);
      type = pm.type;
      payload = payload;
      sig = pm.sig;
      payer = pm.payer;
      payer_sig = pm.payer_sig;
    })

  payload_of_lem :
      (type : ℕ) (bz : Option Bytes) (p : Option Payload)
      → payload_of type bz ≡ ok p
      → (trx_min_type ≤ type)
        × (type ≤ trx_max_type)
        × (payload_differs p type ≡ false)
        × (is_nil p ≡ ((type == trx_transfer) || (type == trx_staking)))
  unfolding payload_of
  payload_of_lem type bz p e = ground arith

  -- A transaction that was decoded has a type of the range that Validate means to check, and exactly
  -- the payload that its type calls for: none in a transfer or a staking, and otherwise one of its
  -- own type.
  pub from_proto-type :
      (pm : TrxProto) (tx : Trx)
      → from_proto pm ≡ ok tx
      → (trx_min_type ≤ tx.type)
        × (tx.type ≤ trx_max_type)
        × (payload_differs tx.payload tx.type ≡ false)
        × (is_nil tx.payload ≡ ((tx.type == trx_transfer) || (tx.type == trx_staking)))
  unfolding from_proto
  from_proto-type pm tx e =
      let (p, built, found) = chain_succeeds (payload_of pm.type pm.x_payload) _ tx e in
      ground (arith, payload_of_lem pm.type pm.x_payload p found)
