-- ===== src/Guard.antt =====
-- Package internal/recoveryguard.
pub mod Admission
