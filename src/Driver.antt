-- ===== src/Driver.antt =====
-- The kernel client: driver/.
pub mod BloomFilter
pub mod FixedStack
pub mod AccessFilter
pub mod Hashtable
pub mod CountingFilter
pub mod Metadata
pub mod Backend
pub mod SendQueue
pub mod Request
pub mod Longkey
pub mod Connect
pub mod FilterEvents
pub mod Main
