-- ===== src/Triangle.antt =====
-- app/strategies/triangular/executor.py: three legs on one venue, and what a restart does with a
-- cycle that was interrupted.
pub mod Effects
pub mod Inventory
pub mod Accounts
pub mod Requests
pub mod Legs
pub mod Preview
pub mod Cycle
pub mod Unwind
pub mod Execute
pub mod Resume
pub mod Ends
pub mod Journal
pub mod Restart
pub mod Sweep
pub mod Steps
pub mod Count
pub mod Fixtures
pub mod Tests
