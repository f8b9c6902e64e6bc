-- ===== src/Microdnf.antt =====
-- microdnf: the command line.
pub mod Arguments
pub mod ArgumentParser
