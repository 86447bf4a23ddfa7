-- ===== src/Filter.antt =====
-- internal/domain/acl_filter_rules.go: the addresses that the aliases of an access policy stand for, and
-- what the code derives from them: which machines see each other, and the packet filter of each.
pub mod Aliases
pub mod Rules
pub mod Peers
pub mod Sources
pub mod Destinations
pub mod Visible
