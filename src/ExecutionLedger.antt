-- ===== src/ExecutionLedger.antt =====
-- app/execution_ledger.py: the durable record of every execution attempt and the audit trail of
-- its status changes. `now` is the reading of `_utc_now()` in a call.
mod Status
mod Defs
mod Tests
pub mod Outcomes
pub mod Audit
pub mod Runs
unfoldable pub use Status.*
unfoldable pub use Defs.*
