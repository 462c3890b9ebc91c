-- ===== src/Orchestrator.antt =====
-- app/strategies/transfer/orchestrator.py: the transfer workflow, step by step.
-- Effects writes out the state, the effects and the answers of the outside world; Legs places
-- one order; Buy, Withdraw, Confirm and Sell are the steps; Tick runs them.
pub mod Effects
pub mod Legs
pub mod Buy
pub mod Withdraw
pub mod Confirm
pub mod Sell
pub mod Tick
pub mod Landing
pub mod Custody
pub mod Crash
pub mod Lifecycle
pub mod Journal
pub mod Once
pub mod Due
pub mod Fixtures
pub mod Tests
