-- ===== src/Base/Words.antt =====
-- Go's machine integers and uint256.Int. A value is its bit pattern, a natural below 2 ^ w; an
-- int64 is read in two's complement.
use beatoz_go.Base.Tests.{ltb, leb, ◌==◌, if◌then◌else◌}
use beatoz_go.Base.Errors.{Result, ok, panic}
use Prim.Native.Nat.{ℕ, ◌+◌, ◌-◌, ◌*◌, ◌/◌, ◌%◌, ◌^◌, ◌<◌, suc}
use mathlib.Core.Path.{◌≡◌, ap}
use mathlib.Core.Bool.{Bool, false, true, xor}
use native.Mathlib.Nat.{div-le_self}
use native.Mathlib.Omega.{arith}

abbrev pub u64_mod : ℕ
u64_mod = 2 ^ 64

abbrev pub u32_mod : ℕ
u32_mod = 2 ^ 32

abbrev pub u256_mod : ℕ
u256_mod = 2 ^ 256

-- The largest int64, math.MaxInt64.
abbrev pub max_int64 : ℕ
max_int64 = 2 ^ 63 - 1

abbrev pub add64 : ℕ → ℕ → ℕ
add64 a b = (a + b) % u64_mod

abbrev pub sub64 : ℕ → ℕ → ℕ
sub64 a b = (a + (u64_mod - b)) % u64_mod

abbrev pub mul64 : ℕ → ℕ → ℕ
mul64 a b = (a * b) % u64_mod

-- `x < 0`
abbrev pub neg64 : ℕ → Bool
neg64 a = leb (2 ^ 63) a

-- `x < y` and `x <= y` on int64
abbrev pub slt64 : ℕ → ℕ → Bool
slt64 a b = ltb ((a + 2 ^ 63) % u64_mod) ((b + 2 ^ 63) % u64_mod)

abbrev pub sle64 : ℕ → ℕ → Bool
sle64 a b = leb ((a + 2 ^ 63) % u64_mod) ((b + 2 ^ 63) % u64_mod)

abbrev pub abs64 : ℕ → ℕ
abs64 a = if neg64 a then u64_mod - a else a

-- `x / y` on int64: truncated towards zero, and a panic at zero.
unfoldable pub div64 : ℕ → ℕ → Result ℕ
div64 a b =
    if b == 0
    then panic
    else ok (
        let q = abs64 a / abs64 b in
        if xor (neg64 a) (neg64 b) then (u64_mod - q) % u64_mod else q % u64_mod)

-- `int32(x)`, and `x < y` on int32
abbrev pub to_int32 : ℕ → ℕ
to_int32 a = a % u32_mod

abbrev pub sub32 : ℕ → ℕ → ℕ
sub32 a b = (a + (u32_mod - b)) % u32_mod

abbrev pub slt32 : ℕ → ℕ → Bool
slt32 a b = ltb ((a + 2 ^ 31) % u32_mod) ((b + 2 ^ 31) % u32_mod)

-- `int64(x)` of an int32
abbrev pub from_int32 : ℕ → ℕ
from_int32 a = if leb (2 ^ 31) a then u64_mod - (u32_mod - a) else a

-- uint256.Int: Add, Sub and Mul wrap. Sign reads the word in two's complement.
abbrev pub add256 : ℕ → ℕ → ℕ
add256 a b = (a + b) % u256_mod

abbrev pub sub256 : ℕ → ℕ → ℕ
sub256 a b = (a + (u256_mod - b)) % u256_mod

abbrev pub mul256 : ℕ → ℕ → ℕ
mul256 a b = (a * b) % u256_mod

-- `x.Sign() < 0`
abbrev pub neg256 : ℕ → Bool
neg256 a = leb (2 ^ 255) a

-- `x.Uint64()`
abbrev pub low64 : ℕ → ℕ
low64 a = a % u64_mod

pub sub256_exact : (a b : ℕ) → a < u256_mod → b < suc a → sub256 a b ≡ a - b
sub256_exact a b ha hb = omega arith

not_neg64 : (a : ℕ) → a < 2 ^ 63 → neg64 a ≡ false
not_neg64 a h = ground arith

-- On values that are not negative the division is that of the naturals.
pub div64_exact : (a b : ℕ) → a < 2 ^ 63 → 0 < b → b < 2 ^ 63 → div64 a b ≡ ok (a / b)
unfolding div64 xor
div64_exact a b ha pos hb =
    let small = div-le_self a b in
    rw (not_neg64 a ha, not_neg64 b hb, nonzero b pos) (ap ok (omega (arith, small)))
  where
    nonzero : (b : ℕ) → 0 < b → (b == 0) ≡ false
    nonzero b pos = ground arith

-- One of several amounts that are paid in, which together fit: it does not wrap, and leaves room for
-- the later ones.
pub pays_in :
    (here : Bool) (old amt later new : ℕ)
    → old + ((if here then amt else 0) + later) < 2 ^ 256
    → new ≡ (if here then add256 old amt else old)
    → (new + later ≡ old + ((if here then amt else 0) + later)) × (new + later < 2 ^ 256)
pays_in true old amt later new room e = (omega arith, omega arith)
pays_in false old amt later new room e = (omega arith, omega arith)
