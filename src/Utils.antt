-- ===== src/Utils.antt =====
-- include/libdnf/utils: containers.
pub mod Set
pub mod WeakPtr
pub mod IniParser
pub mod PreserveOrderMap
