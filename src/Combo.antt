-- ===== src/Combo.antt =====
-- combo/ws and the protocol of combos.
pub mod Pending
pub mod Legs
pub mod Options
pub mod Decimal
pub mod Checked
pub mod Quote
pub mod Messages
pub mod Session
pub mod Calls
