-- ===== src/Backend/Recovery.antt =====
-- A device whose connection was lost is opened again, and its items are read again:
-- src/OPC-UA-Backend.cc with src/SubscriptionManager.cc.
pub mod Roster
pub mod Restart
pub mod Items
pub mod Reconnect
pub mod Reading
