-- ===== src/Common.antt =====
-- provider/common: what the four providers share.
pub mod Networks
pub mod Dns
pub mod Topo
pub mod Maps
