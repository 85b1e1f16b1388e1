-- ===== src/Supply/Mint.antt =====
-- ctrlers/supply/ctrler_mint.go: the computation of the amount to issue and of its shares, which
-- runs beside the block. The decimal and fixed-point numbers of third-party packages and the voting
-- power controller's weights are parameters.
pub mod Sum
use beatoz_go.Base.{
  ℕ, Bool, List, [], ◌∷◌, Result, ok, ordinary, fail_if, ◌>>=◌, ◌>>◌, if◌then◌else◌,
}
use beatoz_go.Base.Words.{add256, sub256}
use beatoz_go.Base.Bytes.{Bytes}

-- decimal.Decimal of shopspring/decimal, and the FxNum of libs/fxnum that converts to it.
pub record Decimals : Type 1 where
  pub Fx : Type 0
  pub fx_of_int : ℕ → Fx
  pub Decimal : Type 0
  pub to_decimal : Fx → Decimal
  pub of_int : ℕ → Decimal
  pub of_big : ℕ → Decimal
  -- New(v, -3)
  pub of_permil : ℕ → Decimal
  pub add : Decimal → Decimal → Decimal
  pub sub : Decimal → Decimal → Decimal
  pub mul : Decimal → Decimal → Decimal
  pub div : Decimal → Decimal → Decimal
  pub pow : Decimal → Decimal → Decimal
  pub neg : Decimal → Decimal
  pub floor : Decimal → Decimal
  pub is_negative : Decimal → Bool
  -- The quotient of QuoRem; it panics on a zero divisor.
  pub quo_rem : Decimal → Decimal → Result Decimal
  -- uint256.MustFromBig(d.BigInt()); it panics where the integer does not fit.
  pub to_uint256 : Decimal → Result ℕ

-- mintedReward: an address and an amount.
abbrev pub MintedReward : Type 0
MintedReward = Bytes × ℕ

-- The controller's part of reqMint, and the height of its block context.
pub record ReqMint : Type 0 where
  pub height : ℕ
  pub last_total_supply : ℕ
  pub last_adjusted_supply : ℕ
  pub last_adjusted_height : ℕ

-- respMint without an error.
pub record RespMint : Type 0 where
  pub sum_minted_amt : ℕ
  pub rewards : List MintedReward

-- The governance parameters that the computation reads.
pub record MintParams : Type 0 where
  pub validator_reward_rate : ℕ
  pub max_total_supply : ℕ
  pub inflation_weight_permil : ℕ

module _ (d : Decimals) where
  pub record Beneficiary : Type 0 where
    pub address : Bytes
    pub weight : d.Fx
    pub sign_rate : d.Fx
    pub is_validator : Bool

  -- What ComputeWeight returns.
  pub record Weights : Type 0 where
    pub sum_weight : d.Fx
    pub val_weight : d.Fx
    pub beneficiaries : List Beneficiary

  -- heightYears
  abbrev pub height_years : ℕ → ℕ → d.Fx
  height_years height intval = d.fx_of_int 1

  -- decimalSd
  unfoldable pub decimal_sd : d.Fx → ℕ → ℕ → ℕ → d.Fx → d.Decimal
  decimal_sd scaled_height last_supply smax lambda wa =
      let lambda_add_one = d.add (d.of_permil lambda) (d.of_int 1) in
      let exp = d.mul (d.to_decimal wa) (d.to_decimal scaled_height) in
      let part1 = d.sub (d.of_int 1) (d.pow lambda_add_one (d.neg exp)) in
      let part0 = d.of_big (sub256 smax last_supply) in d.mul part0 part1

  -- The amounts to share, and the weights to share them by.
  pub record Shares : Type 0 where
    pub to_all : d.Decimal
    pub to_vals : d.Decimal
    pub wa_all : d.Decimal
    pub wa_vals : d.Decimal

  -- The share of one beneficiary, with what the last one left over.
  unfoldable pub share_of : Shares → Beneficiary → d.Decimal → Result d.Decimal
  share_of t b remainder = do
    let wi = d.to_decimal b.weight
    rwd ← d.quo_rem (d.mul t.to_all wi) t.wa_all
    rwd' ←
        if b.is_validator
        then (do more ← d.quo_rem (d.mul t.to_vals wi) t.wa_vals; ok (d.add rwd more))
        else ok rwd
    ok (d.mul (d.add rwd' remainder) (d.to_decimal b.sign_rate))

  -- The loop over the beneficiaries.
  unfoldable pub share_rewards : Shares → List Beneficiary → d.Decimal → ℕ → Result RespMint
  share_rewards t [] remainder sum = ok (record { sum_minted_amt = sum; rewards = [] })
  share_rewards t (b ∷ bs) remainder sum = do
    rwd ← share_of t b remainder
    amt ← d.to_uint256 rwd
    rest ← share_rewards t bs (d.sub rwd (d.floor rwd)) (add256 sum amt)
    ok (record rest { rewards = (b.address, amt) ∷ rest.rewards })

  -- The body of computeIssuanceAndRewardRoutine. `compute_weight` is the voting power controller's.
  unfoldable pub compute_issuance_and_reward :
      (ReqMint → Result Weights) → MintParams → ReqMint → Result RespMint
  compute_issuance_and_reward compute_weight g req = do
    w ← compute_weight req
    let val_rate = d.div (d.of_int g.validator_reward_rate) (d.of_int 100)
    let added =
        decimal_sd (height_years req.height 1) req.last_total_supply g.max_total_supply
          g.inflation_weight_permil w.sum_weight
    fail_if (d.is_negative added) ordinary
    let to_vals = d.floor (d.mul added val_rate)
    share_rewards
        (record {
          to_all = d.sub added to_vals;
          to_vals = to_vals;
          wa_all = d.to_decimal w.sum_weight;
          wa_vals = d.to_decimal w.val_weight;
        })
        w.beneficiaries (d.of_int 0) 0
