-- ===== src/Strategies/Laws.antt =====
-- What holds of the candidates that are proposed.
pub mod Permitted
pub mod Shadow
pub mod Complete
