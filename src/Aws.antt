-- ===== src/Aws.antt =====
-- provider/defangaws: the AWS provider.
pub mod Policies
pub mod Fargate
pub mod Sidecars
pub mod Apex
pub mod Catalogs
pub mod Containers
pub mod Certificates
pub mod CodeBuild
