-- ===== src/Broker.antt =====
-- The message side of the program: broker/*.ts.
pub mod Event
pub mod Effects
pub mod Consumer
pub mod Topology
pub mod Publisher
pub mod Background
