-- ===== src/Supply.antt =====
-- ctrlers/supply: the total supply, the rewards, their minting and the controller over its ledger.
pub mod Reward
pub mod Total
pub mod Mint
pub mod Ctrler
mod Tests
