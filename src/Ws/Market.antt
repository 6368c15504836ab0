-- ===== src/Ws/Market.antt =====
-- clob/ws/client.go: the reference counts of the market subscriptions and the frames they send.
pub mod State
pub mod Counts
pub mod Valid
pub mod Active
