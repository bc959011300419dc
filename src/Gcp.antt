-- ===== src/Gcp.antt =====
-- provider/defanggcp: the GCP provider.
pub mod Policies
