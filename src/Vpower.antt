-- ===== src/Vpower.antt =====
-- ctrlers/vpower: voting power, its chunks and delegatees, and the limit on its change in a block.
pub mod Limiter
pub mod Block
pub mod Chunks
pub mod Valset
pub mod Updates
pub mod Selection
pub mod Ranking
pub mod Sums
pub mod Bonding
pub mod Access
pub mod Freezing
pub mod Missed
pub mod Slashing
pub mod Ctrler
mod Tests
