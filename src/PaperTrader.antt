-- ===== src/PaperTrader.antt =====
-- scripts/run_real_eagle_ib_paper_trader.py: the decisions of the trader that joins Eagle's signals
-- and the broker's paper account.
pub mod Policy
pub mod Reconcile
pub mod Hello
pub mod Signals
pub mod Accepted
pub mod Durable
pub mod Restart
pub mod Waiting
pub mod Cycle
pub mod Exits
mod Tests
