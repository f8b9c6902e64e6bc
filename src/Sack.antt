-- ===== src/Sack.antt =====
-- libdnf/common/sack and include/libdnf/common/sack: queries over sets of objects.
pub mod Match
pub mod Query
