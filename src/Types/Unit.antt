-- ===== src/Types/Unit.antt =====
-- types/unit.go: grans, coins, voting power, gas and fees. An int64 is its bit pattern.
use beatoz_go.Base.{
  ℕ, ◌+◌, ◌*◌, ◌/◌, ◌%◌, ◌^◌, ◌<◌, ◌≡◌, Result, ok, err, overflow, if◌then◌else◌, arith,
}
use native.Mathlib.Nat.{mod-eq_of_lt, mul-div_cancel}
use beatoz_go.Base.Words.{mul256, low64, neg64}

-- 10 ^ 18, of amountPerPower and oneCoinGrans.
abbrev pub amount_per_power : ℕ
amount_per_power = 1_000_000_000_000_000_000

unfoldable pub to_grans : ℕ → ℕ
to_grans n = mul256 n amount_per_power

unfoldable pub from_grans_rem : ℕ → ℕ × ℕ
from_grans_rem grans = (low64 (grans / amount_per_power), low64 (grans % amount_per_power))

unfoldable pub from_grans : ℕ → ℕ
from_grans grans = low64 (grans / amount_per_power)

unfoldable pub amount_to_power : ℕ → Result ℕ
amount_to_power amt =
    let vp = low64 (amt / amount_per_power) in if neg64 vp then err overflow else ok vp

unfoldable pub power_to_amount : ℕ → ℕ
power_to_amount power = mul256 power amount_per_power

unfoldable pub gas_to_fee : ℕ → ℕ → ℕ
gas_to_fee gas price = mul256 gas price

unfoldable pub fee_to_gas : ℕ → ℕ → ℕ
fee_to_gas fee price = low64 (fee / price)

-- An int64 power that is not negative becomes an amount, exactly, and comes back from it as it was.
-- In the other direction what is lost of an amount that converts is its remainder by a coin, as long
-- as the amount is below 2 ^ 64 coins.
pub amount_to_power-power_to_amount :
    (power amt : ℕ)
    → power < 2 ^ 63
    → amt < 2 ^ 63 * amount_per_power
    → (power_to_amount power ≡ power * amount_per_power)
      × (amount_to_power (power_to_amount power) ≡ ok power)
      × (amount_to_power amt ≡ ok (amt / amount_per_power))
      × (power_to_amount (amt / amount_per_power) + amt % amount_per_power ≡ amt)
unfolding amount_to_power power_to_amount
amount_to_power-power_to_amount power amt h k =
    (omega arith, ground arith, ground arith, omega arith)

-- Coins and grans: an int64 count of coins that is not negative converts to grans and back with no
-- remainder.
pub from_grans_rem-to_grans :
    (n : ℕ) → n < 2 ^ 63 → (from_grans_rem (to_grans n) ≡ (n, 0)) × (from_grans (to_grans n) ≡ n)
unfolding from_grans_rem from_grans to_grans
from_grans_rem-to_grans n h = (ground arith, omega arith)

-- With a price above zero and a fee that fits, the gas is read back from its fee.
pub fee_to_gas-gas_to_fee :
    (gas price : ℕ)
    → 0 < price
    → gas < 2 ^ 63
    → gas * price < 2 ^ 256
    → fee_to_gas (gas_to_fee gas price) price ≡ gas
unfolding fee_to_gas gas_to_fee
fee_to_gas-gas_to_fee gas price p g h =
    rw (mod-eq_of_lt h) (rw (mul-div_cancel gas p) (omega arith))
