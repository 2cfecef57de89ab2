-- ===== src/Auth.antt =====
-- src/auth/: registration, login, refresh tokens and one-time passwords.
pub mod Tables
pub mod Store
pub mod Otp
pub mod Service
pub mod Registration
pub mod Tokens
pub mod Attempts
pub mod Sessions
pub mod Tests
