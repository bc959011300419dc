-- ===== src/Cd.antt =====
-- cd: the program that runs one deployment.
pub mod Log
pub mod Ttl
pub mod Args
pub mod Config
pub mod Naming
