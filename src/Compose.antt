-- ===== src/Compose.antt =====
-- provider/compose: the compose model that every provider shares.
pub mod Types
pub mod Ports
pub mod Policies
pub mod Sizes
