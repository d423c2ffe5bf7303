-- ===== src/Chain.antt =====
-- The lottery in the chain of blocks (src/core.cpp, main.cpp, miner.cpp): the bets of a block, their
-- draw, and the check of a block.
pub mod Bets
pub mod Bits
pub mod Verdict
pub mod Transactions
pub mod Inputs
pub mod Blocks
pub mod Connect
pub mod Parts
pub mod Heights
pub mod Draw
pub mod Returns
pub mod Check
pub mod Payouts
pub mod Passing
pub mod Conservation
pub mod Payments
mod Tests
