-- ===== src/Lib.antt =====
-- cleancache-rdma: a page cache in the memory of another machine. A kernel client (driver/) sends
-- clean pages to a server (daemon/) over RDMA and asks for them back; both keep filters that say
-- which pages the server has. This library models the sequential logic of both, with theorems on
-- it.
--
-- Files and the code that they model:
--   Prelude and its children: shared names, tests on numbers, arrays, bits, the codes that
--     functions return.
--   Daemon/Pair, Longkey, Imm: daemon/util/pair.h, the long keys of daemon/Ihash.hpp, and the
--     immediate data and metadata places of daemon/rdma.hpp.
--   Daemon/LinearProbing and its children: daemon/hash-table/linear_probing_approx.{hpp,cpp}. Its
--     modules Probe, Placed and View give the search, the invariant and the map; Store, Insert,
--     Effect, Evict, Attempts and Evicted the operations; Small what happens below 16 buckets.
--   Daemon/LockFreeStack: daemon/util/lfstack.{hpp,cpp} and daemon/freelist.hpp; Refine has the
--     stack of values that it stands for, Threads the calls of several threads, whose steps may come
--     in any order: Owners, Places and Local have the parts of the invariant, Pops, Pushes and Moves
--     the steps that keep it, Linear and Single what follows.
--   Daemon/PerCpuPool: daemon/percpu_pool.{hpp,cpp}, over free lists as Refine specifies them;
--     Balance has the accounts, Pages where the pages go.
--   Daemon/CountingBloomFilter: daemon/counting_bloom_filter.hpp; Prime has its generate_prime.
--   Daemon/Kv: daemon/kv.{hpp,cpp}, which calls the table, the pool and the filters; Shards, Update and
--     Removal have its Insert and Remove, Capacity the size of its tables.
--   Daemon/Handlers: the message handlers of daemon/rdma.cpp, which call the store.
--   Daemon/Poller: the pollers of daemon/rdma.cpp, which call the handlers.
--   Daemon/Pages: where each page of the server is, an abstract view of the posted buffers, the pool
--     and the tables. Counts and Moves have the view's own lemmas, Pool, Tables, Calls, Evictions
--     and Messages what the operations do to it, Buffers and Dispatch what a completion uses up, Runs
--     the runs of the server, Lost the buffers of requests, Posted those of a new connection.
--   Daemon/Setup: the buffers that daemon/rdma.cpp posts for a new connection.
--   Driver/BloomFilter: driver/filter/bloom_filter.{h,c}; Merge has the update by the server.
--   Driver/CountingFilter, FixedStack, AccessFilter, Hashtable:
--     driver/filter/counting_bloom_filter.c, driver/util/fixed_stack.h, driver/access_filter.h,
--     driver/hashtable.{h,c}.
--   Driver/Metadata, Backend: driver/metadata.h and the handlers of driver/backend.c, which call the
--     structures above.
--   Driver/SendQueue: the send buffer of driver/rdma.c, filled by dcc_rdma_send_page and sent by its
--     work; Runs has the interleavings of calls and works, Holds and Sends the invariant, Delivery,
--     Progress and Range what follows from it.
--   Driver/Request: the requests of driver/rdma.c for a get and an invalidation, and poll_recv_cq; Layout
--     has where they write.
--   Driver/Connect: the connection of the queues in driver/rdma.c, and what a failure takes down.
--   Driver/FilterEvents: filter_event_handler and dcc_rdma_send_msg of driver/rdma.c.
--   Driver/Longkey, Main: driver/backend.h, and the operations of driver/main.c over the handlers.
--   Protocol/Filter: the filter update between driver/worker.c, driver/rdma.c and daemon/rdma.cpp, as a
--     step relation on both filters with the keys in flight; Coherent has its invariant, Keys, Updates
--     and Steps its preservation, Contained and Missed which lookups are right.
--   Protocol/Requests: Get and Invalidate join the client's requests with the server's handlers.
-- A function has the name that it has in the source, in lower case with underscores; a loop of `f` is
-- `f_from`. A structure is a record, passed on; an exception is `throw`.
-- Where the source goes on undefined, the model ends in a way of its own: `client_out_of_range` for a
-- client that there is not, `stray` for an id that is destroyed, `out_of_bounds` in front of the send
-- buffer.
--
-- Bounds and fuel: fixed-width integers wrap where the source's do. Loops with a bound recurse on
-- the rounds left. `Kv.insert` has as fuel the rounds between its jumps to RETRY: the first round
-- takes the duplicate out, so the second does not meet one. `evict` has as fuel the attempts that are
-- followed, since an attempt fails for as long as locks are taken or buckets busy. `evictor_from`
-- follows as many rounds as it is given, since the code's loop may go on.
--
-- Not modelled: other processors' steps within a call of the daemon or the filters, but for the free
-- lists (each other call is one step; the answers of `try_lock` and `test_bit` are parameters), the
-- network card, the registration of memory, the hash functions and checksums (parameters), clocks and
-- random numbers (parameters), threads, logs and statistics, the driver's set-up. A run of the send
-- queue ends with 2^31 accepted messages, where its counter turns negative; a run of threads on a
-- free list ends with 2^64 exchanges, where its tags wrap.
pub mod Prelude
pub mod Daemon
pub mod Driver
pub mod Protocol
