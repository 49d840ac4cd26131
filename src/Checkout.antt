-- ===== src/Checkout.antt =====
-- checkout.ts.
pub mod Steps
pub mod Run
pub mod Outcome
pub mod Measures
pub mod StepLaws
pub mod Conservation
pub mod Idempotency
pub mod Orders
pub mod Consistency
pub mod Priced
pub mod Written
