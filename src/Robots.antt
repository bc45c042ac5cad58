-- ===== src/Robots.antt =====
-- The robots (src/mc_mjlab/robots): their collision geometry and their gains.
pub mod Collisions
pub mod Gains
