-- ===== src/Evaluation.antt =====
-- The evaluation of checkpoints (scripts/evaluation/): statistics over independent clusters, the
-- pairing of a policy's episodes with the baseline's, and the verdict on promotion.
pub mod Statistics
pub mod Comparing
pub mod Arms
pub mod Recording
pub mod Holm
pub mod Promotion
pub mod Schedule
pub mod Strata
pub mod Disturbances
