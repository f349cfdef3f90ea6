-- ===== src/Protocol/Filter.antt =====
-- The update of a client's bit filter from the server's counting filter: the filter worker of
-- driver/worker.c, the server's answer in `process_recv` and `send_bf` of daemon/rdma.cpp, and the
-- completion in `process_imm` of driver/rdma.c. One client and its filter at the server, with the same
-- hash functions. A key is in flight from `dcc_rdma_send_page` on, which only fills a slot of the send
-- buffer, until `process_put` inserts it; a put is one step, from the send to `metadata_add`. `stored`
-- are the keys that the server's filter counts. `missed` and `since` are no state of the program: they
-- record which keys were in flight when the update began that wrote the bitmap last, or that is under
-- way.
pub mod Bits
pub mod Coherent
pub mod Keys
pub mod Updates
pub mod Steps
pub mod Contained
pub mod Missed
mod Tests
use cleancache_rdma.Prelude.{ℕ, ◌<◌, ◌≤◌, ◌≡◌, ◌==◌, if◌then◌else◌, List, [], ◌∷◌, ◌++◌, Array}
use cleancache_rdma.Driver.BloomFilter.{BloomFilter, bf_add, bf_blocking, bf_unblocking}
use cleancache_rdma.Daemon.CountingBloomFilter.{
  CountingBloomFilter, new, insert, remove, to_ordinary_bf,
}
use cleancache_rdma.Daemon.CountingBloomFilter.Counts.{total}

-- How far an update is: none under way, asked for, answered with the server's array, or with the
-- array in the client's bitmap. The worker waits for `filter_update_done` from `asked` to `idle`.
pub data Phase : Type 0 where
  idle : Phase
  asked : Phase
  answered : Array ℕ → Phase
  written : Phase

pub record System : Type 0 where
  pub client : BloomFilter
  pub server : CountingBloomFilter
  pub flight : List ℕ
  pub stored : List ℕ
  pub phase : Phase
  pub missed : List ℕ
  pub since : List ℕ

abbrev pub filter_update_end : ℕ
filter_update_end = 101

-- The worker's round up to its wait: `metadata_blocking`, then the message FILTER_UPDATE_BEGIN.
unfoldable pub do_update_filter : System → System
do_update_filter s = record s { client = bf_blocking s.client; phase = asked; since = s.flight }

-- The server's part: `ToOrdinaryBF`, and `send_bf` of its array with FILTER_UPDATE_END.
unfoldable pub answer : System → System
answer s =
    let cbf = to_ordinary_bf s.server in
    record s { server = cbf; phase = answered cbf.bf_long_bitarr }

-- The write that `send_bf` asks the client's card for.
unfoldable pub rdma_write : System → Array ℕ → System
rdma_write s bitmap = record s {
  client = record s.client { bitmap = bitmap };
  phase = written;
  missed = s.since;
}

-- `dcc_backend_update_filter`, which also sets `filter_update_done`
unfoldable pub update_filter : System → System
update_filter s = record s { client = bf_unblocking s.client; phase = idle }

-- `process_imm` of the client
unfoldable pub process_imm : System → ℕ → System
process_imm s imm_data = if imm_data == filter_update_end then update_filter s else s

-- Both filters as they are made: the client's with the sizes that the server's start-up tells it.
abbrev pub fresh : BloomFilter → ℕ → ℕ → System
fresh client num_hash num_bits = record {
  client = client;
  server = new num_hash num_bits;
  flight = [];
  stored = [];
  phase = idle;
  missed = [];
  since = [];
}

module _ (hash_funcs : ℕ → ℕ → ℕ) where
  -- `__handle_twosided_put_page` of a page that is sent: `metadata_add` for a COOP_BF
  unfoldable pub put : System → ℕ → System
  put s key = record s { client = bf_add hash_funcs s.client key; flight = key ∷ s.flight }

  -- The insertion that `process_put` makes; `rest` are the other keys in flight.
  unfoldable pub arrive : System → ℕ → List ℕ → System
  arrive s key rest = record s {
    server = insert hash_funcs s.server key;
    flight = rest;
    stored = key ∷ s.stored;
  }

  -- A put for which the server has no page, or no place in its table.
  unfoldable pub drop : System → List ℕ → System
  drop s rest = record s { flight = rest }

  -- A removal at the server, of a page that is evicted, invalidated or given back.
  unfoldable pub leave : System → ℕ → List ℕ → System
  leave s key rest = record s { server = (remove hash_funcs s.server key).1; stored = rest }

  pub data Step (s : System) : System → Type 0 where
    puts : (key : ℕ) → Step s (put s key)
    arrives :
        (front : List ℕ) (key : ℕ) (back : List ℕ)
        → s.flight ≡ front ++ key ∷ back
        → ((j : ℕ) → total hash_funcs s.server.num_hash s.server.num_bits (key ∷ s.stored) j ≤ 255)
        → Step s (arrive s key (front ++ back))
    drops :
        (front : List ℕ) (key : ℕ) (back : List ℕ)
        → s.flight ≡ front ++ key ∷ back
        → Step s (drop s (front ++ back))
    leaves :
        (front : List ℕ) (key : ℕ) (back : List ℕ)
        → s.stored ≡ front ++ key ∷ back
        → Step s (leave s key (front ++ back))
    begins : s.phase ≡ idle → Step s (do_update_filter s)
    answers : s.phase ≡ asked → Step s (answer s)
    writes : (bitmap : Array ℕ) → s.phase ≡ answered bitmap → Step s (rdma_write s bitmap)
    ends : s.phase ≡ written → Step s (process_imm s filter_update_end)

  pub data Reach (s : System) : System → Type 0 where
    start : Reach s s
    later : {t u : System} → Reach s t → Step t u → Reach s u
