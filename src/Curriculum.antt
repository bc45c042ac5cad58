-- ===== src/Curriculum.antt =====
-- The achievement curriculum of the residual-balance task.
pub mod Stages
pub mod State
pub mod Evidence
pub mod Rehearsal
pub mod Bridge
