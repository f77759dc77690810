-- ===== src/Licensing.antt =====
-- src/modules/licensing/licensing.service.ts: subscriptions and their seats, activation keys, the
-- devices bound to them, renewals and the sweep.
pub mod Store
pub mod Seats
pub mod Admission
pub mod Keys
pub mod Devices
pub mod Verification
pub mod Renewal
pub mod Sweep
mod Tests
