-- ===== src/Rpm.antt =====
-- libdnf/rpm, the packages.
pub mod SolvMap
