-- ===== src/Regime/Laws.antt =====
-- What holds of the regimes and of the strategies they admit.
pub mod Safety
pub mod Cooldown
pub mod Hysteresis
pub mod Admission
