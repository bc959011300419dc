-- ===== src/Azure.antt =====
-- provider/defangazure: the Azure provider.
pub mod Policies
