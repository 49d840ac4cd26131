-- ===== src/Orders.antt =====
-- The orders module: the service, the status events of an order, their log and the stream of them.
pub mod Events
pub mod Write
pub mod Since
pub mod Stream
pub mod Publish
pub mod Log
pub mod Service
pub mod Reads
pub mod Update
pub mod Gateway
pub mod Rooms
