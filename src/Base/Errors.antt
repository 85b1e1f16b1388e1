-- ===== src/Base/Errors.antt =====
-- types/xerrors/xerror.go: the error values that the modelled code returns, by name. A wrapped
-- error stands for the error that it wraps; messages are left out. A Go panic is a result too.
use mathlib.Core.Path.{◌≡◌, refl}
use mathlib.Core.Bool.{Bool, true, false}

pub data XError : Type 0 where
  ordinary overflow not_found_account invalid_trx invalid_gas invalid_gas_price : XError
  invalid_address invalid_nonce invalid_amount insufficient_fund invalid_trx_type : XError
  invalid_payload_type invalid_payload_params invalid_trx_sig : XError
  not_found_delegatee not_found_stake not_found_proposal not_found_voter : XError
  updatable_stake_ratio not_found_result unknown_trx_type no_right : XError
  not_voting_period duplicated_key : XError

pub data Result {ℓ} (Value : Type ℓ) : Type ℓ where
  panic : Result Value
  err : XError → Result Value
  ok : Value → Result Value

-- An operation that returns only an error, or nil.
abbrev pub Status : Type 0
Status = Result (Unit {0})

module _ {ℓ κ} {V : Type ℓ} {W : Type κ} where
  infixl 5 ◌>>=◌
  -- `if xerr != nil { return xerr }` between two steps.
  abbrev pub ◌>>=◌ : Result V → (V → Result W) → Result W
  panic >>= next = panic
  err x >>= next = err x
  ok v >>= next = next v

  -- A chain that succeeds has succeeded at each step.
  pub chain_succeeds :
      (step : Result V) (next : V → Result W) (w : W)
      → (step >>= next) ≡ ok w
      → (v : V) × (next v ≡ ok w) × (step ≡ ok v)
  chain_succeeds panic next w done = cc
  chain_succeeds (err x) next w done = cc
  chain_succeeds (ok v) next w done = (v, done, refl)

infixl 5 ◌>>◌
-- The same where the first step returns nothing else.
abbrev pub ◌>>◌ {κ} : {W : Type κ} → Status → Result W → Result W
panic >> rest = panic
err x >> rest = err x
ok _ >> rest = rest

-- `if cond { return e }`
abbrev pub fail_if : Bool → XError → Status
fail_if true e = err e
fail_if false e = ok tt

-- `xerr != xerrors.ErrNotFoundResult`
abbrev pub is_not_found_result : XError → Bool
is_not_found_result not_found_result = true
is_not_found_result _ = false
