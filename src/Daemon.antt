-- ===== src/Daemon.antt =====
-- The memory server: daemon/.
pub mod Pair
pub mod Longkey
pub mod Imm
mod CodecTests
pub mod LockFreeStack
pub mod PerCpuPool
pub mod CountingBloomFilter
pub mod LinearProbing
pub mod Kv
pub mod Handlers
pub mod Pages
pub mod Setup
pub mod Poller
