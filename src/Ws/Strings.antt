-- ===== src/Ws/Strings.antt =====
-- clob/ws/client.go: `canonicalStrings` and `unionSortedStrings`, the normal form of a list of ids.
pub mod Defs
pub mod Sorted
pub mod Canonical
pub mod Normal
