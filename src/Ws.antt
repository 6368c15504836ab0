-- ===== src/Ws.antt =====
-- clob/ws: the reconnecting WebSocket client of the CLOB.
pub mod Strings
pub mod Market
pub mod Client
pub mod Calls
pub mod Connection
pub mod Rtds
pub mod Remote
pub mod User
mod Tests
