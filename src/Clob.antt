-- ===== src/Clob.antt =====
-- clob: the REST client of the order book, of which the orders are modelled.
pub mod Rat
pub mod Checked
pub mod Amount
pub mod Number
pub mod Validate
pub mod Order
