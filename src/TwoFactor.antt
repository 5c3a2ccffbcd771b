-- ===== src/TwoFactor.antt =====
-- Time-based one-time codes of engine/src/lib/totp.ts.
pub mod Base32
pub mod Codes
pub mod Window
pub mod Replay
