-- ===== src/Action.antt =====
-- The residual action terms (actions/): the exchange with the native controllers, the residual that
-- is added to their output, and the resources they hold.
pub mod Pipeline
pub mod Residual
pub mod Blended
pub mod Resources
pub mod Feedback
