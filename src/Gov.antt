-- ===== src/Gov.antt =====
-- ctrlers/gov/proposal: governance proposals, their voters and their tallies.
pub mod Proposal
pub mod Majority
pub mod Params
pub mod Ctrler
pub mod Tally
pub mod Voting
pub mod Invariant
pub mod Settle
pub mod Slash
mod Tests
