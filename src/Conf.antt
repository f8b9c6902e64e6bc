-- ===== src/Conf.antt =====
-- libdnf/conf and include/libdnf/conf: configuration files and options.
pub mod Decimal
pub mod StringList
pub mod Option
pub mod Bool
pub mod Kinds
pub mod OptionBinds
pub mod Substitute
pub mod ConfigParser
