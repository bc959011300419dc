-- ===== src/Scaleway.antt =====
-- provider/defangscaleway: the Scaleway provider.
pub mod BuildInstance
pub mod Api
pub mod Servers
pub mod Removal
pub mod Script
pub mod Builds
pub mod BuildResource
pub mod Containers
pub mod Secrets
pub mod Databases
