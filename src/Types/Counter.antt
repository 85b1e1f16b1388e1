-- ===== src/Types/Counter.antt =====
-- A gas pool that meets what the block context takes of go-ethereum's.
use beatoz_go.Base.{
  ℕ, ◌+◌, ◌-◌, ◌%◌, ◌^◌, refl, ok, err, panic, invalid_gas, ltb, if◌then◌else◌, arith,
}
use beatoz_go.Types.BlockGas.{GasPool, IsCounter}

-- A pool that is its count.
abbrev pub counter : GasPool
counter = record {
  Pool = ℕ;
  empty = 0;
  add_gas = λ x n. if ltb (x % 2 ^ 64 + n) (2 ^ 64) then ok (x % 2 ^ 64 + n) else panic;
  sub_gas = λ x n. if ltb (x % 2 ^ 64) n then err invalid_gas else ok (x % 2 ^ 64 - n);
  gas = λ x. x % 2 ^ 64;
}

pub counter-IsCounter : IsCounter counter
counter-IsCounter = record {
  gas_empty = refl;
  gas_fits = λ x. omega arith;
  add_fits = λ x n h. (x % 2 ^ 64 + n, ground arith, omega arith);
  sub_fits = λ x n h. (x % 2 ^ 64 - n, ground arith, omega arith);
  sub_short = λ x n h. ground arith;
}
