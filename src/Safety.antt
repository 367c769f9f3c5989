-- ===== src/Safety.antt =====
-- safety/: plans, money, policy, the spend ledger and the gate.
pub mod Plans
pub mod Units
pub mod Policy
pub mod Audit
pub mod Spend
pub mod Accounts
pub mod Validators
pub mod Guard
