-- ===== src/Repository/Recovery.antt =====
-- internal/repository/plan.go and coverage.go: targets, eligible backups, and the frozen recovery plan.
pub mod Target
pub mod Path
pub mod Eligible
pub mod Choice
pub mod Frozen
pub mod Select
