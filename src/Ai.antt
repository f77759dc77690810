-- ===== src/Ai.antt =====
-- src/modules/ai: prices, credit accounts and their ledger, and the limit on generated images.
pub mod Json
pub mod Pricing
pub mod Store
pub mod Accounts
pub mod Credits
pub mod Attempts
pub mod Gemini
mod Tests
