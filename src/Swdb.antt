-- ===== src/Swdb.antt =====
-- dnf-4/libdnf/transaction, the history of transactions.
pub mod Packages
pub mod MergedTransaction
