-- ===== src/OrderBook.antt =====
-- src/matching: the order books. The modules below are the interface and its two strategies.
pub mod Heap
pub mod Levels
pub mod Queues
pub mod Interface
pub mod Bitmask
pub mod Map
