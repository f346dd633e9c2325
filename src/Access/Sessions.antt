-- ===== src/Access/Sessions.antt =====
-- Logins and sessions: api/src/auth.
pub mod Defs
pub mod Trace
pub mod Rotation
pub mod Overlap
pub mod Login
pub mod Mfa
pub mod Lockout
pub mod Guesses
pub mod MfaGuesses
pub mod Passwords
pub mod Policy
pub mod Reset
