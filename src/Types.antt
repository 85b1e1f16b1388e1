-- ===== src/Types.antt =====
-- types/ and ctrlers/types: amounts, accounts, transactions and the block's gas pool.
pub mod Unit
pub mod Account
pub mod Trx
pub mod TrxProto
pub mod BlockGas
pub mod Counter
mod Tests
