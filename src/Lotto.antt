-- ===== src/Lotto.antt =====
-- The lottery: src/lotto.
pub mod Select
pub mod Data
pub mod Bet
pub mod Draw
pub mod Lottery
pub mod Header
mod Tests
