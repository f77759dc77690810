-- ===== src/Auth.antt =====
-- src/modules/auth: the users' logins.
pub mod Store
pub mod Sessions
pub mod OwnSessions
pub mod Login
pub mod Otps
pub mod Passwords
pub mod Setup
pub mod Google
pub mod Desktop
mod Tests
