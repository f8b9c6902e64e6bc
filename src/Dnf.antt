-- ===== src/Dnf.antt =====
-- The older library of dnf-4/libdnf, without what libsolv, librepo and sqlite do for it.
pub mod Lock
pub mod State
