-- ===== src/Driver/Connect.antt =====
-- driver/rdma.c: how the queues of a controller are connected, from `dcc_rdma_init_queue` to the
-- events that `dcc_rdma_cm_handler` gets, and what a failure takes down. What the kernel's calls
-- return is an argument. `events` are those that come before the wait ends by its time-out or a
-- signal. `init_control` is the part of a controller's set-up that calls `dcc_rdma_init_queue`, and
-- the label `out_free_queues`.
pub mod Outcome
mod Tests
use cleancache_rdma.Prelude.{
  ℕ, zero, suc, ◌+◌, Bool, true, false, List, [], ◌∷◌, Array, update, not, ltb, if◌then◌else◌,
}
use cleancache_rdma.Prelude.Int.{ℤ, pos, negsuc, is_nonzero}

-- -ETIMEDOUT, -ENODEV, -ECONNRESET
abbrev pub etimedout : ℤ
etimedout = negsuc 109

abbrev pub enodev : ℤ
enodev = negsuc 18

abbrev pub econnreset : ℤ
econnreset = negsuc 103

-- The events, by the cases of the handler's switch. With an address come whether a device is found
-- and its queue pair made, and what `rdma_resolve_route` returns; with a route what `rdma_connect`
-- returns.
pub data Event : Type 0 where
  addr_resolved : Bool → Bool → ℤ → Event
  route_resolved : ℤ → Event
  established : Event
  rejected : Event
  failed : Event
  closed : Event
  device_removal : Event
  unexpected : Event

pub record Queue : Type 0 where
  pub cm_error : ℤ
  pub cm_done : Bool

-- `dcc_rdma_addr_resolved`, which drops the code of `rdma_resolve_route`
unfoldable pub resolved : Bool → Bool → ℤ → ℤ
resolved device_ok qp_ok route =
    if not device_ok then enodev else if not qp_ok then negsuc 0 else pos 0

-- `dcc_rdma_route_resolved`, which drops the code of `rdma_connect`
unfoldable pub routed : ℤ → ℤ
routed connected = pos 0

-- from the test of `cm_error` on
unfoldable pub settle : Queue → ℤ → Queue
settle q cm_error =
    if is_nonzero cm_error then record { cm_error = cm_error; cm_done = true } else q

unfoldable pub cm_handler : Queue → Event → Queue
cm_handler q (addr_resolved device_ok qp_ok route) = settle q (resolved device_ok qp_ok route)
cm_handler q (route_resolved connected) = settle q (routed connected)
cm_handler q established = record { cm_error = pos 0; cm_done = true }
cm_handler q rejected = settle q (pos 0)
cm_handler q failed = settle q econnreset
cm_handler q closed = settle q (pos 0)
cm_handler q device_removal = settle q (pos 0)
cm_handler q unexpected = settle q (pos 0)

-- `dcc_rdma_wait_for_cm`: until `cm_done`, or the time-out behind the last event
unfoldable pub wait_for_cm : Queue → List Event → ℤ
wait_for_cm q [] = q.cm_error
wait_for_cm q (e ∷ rest) =
    let after = wait_for_cm (cm_handler q e) rest in if q.cm_done then q.cm_error else after

-- What meets one queue: whether its id is made, what `rdma_resolve_addr` returns, and the events.
pub record Meets : Type 0 where
  pub id_ok : Bool
  pub resolve_addr : ℤ
  pub events : List Event

-- How often the id of each queue was made, and destroyed.
pub record Ids : Type 0 where
  pub created : Array ℕ
  pub destroyed : Array ℕ

unfoldable pub create_id : Ids → ℕ → Ids
create_id ids i = record ids { created = update ids.created i (ids.created i + 1) }

unfoldable pub destroy_id : Ids → ℕ → Ids
destroy_id ids i = record ids { destroyed = update ids.destroyed i (ids.destroyed i + 1) }

-- what `__dcc_rdma_init_queue` returns when the id is made
unfoldable pub connect : Meets → ℤ
connect m =
    if is_nonzero m.resolve_addr
    then m.resolve_addr
    else wait_for_cm (record { cm_error = etimedout; cm_done = false }) m.events

-- `__dcc_rdma_init_queue`
unfoldable pub init_queue : Ids → ℕ → Meets → ℤ × Ids
init_queue ids i m =
    let made = create_id ids i in
    if not m.id_ok
    then (enodev, ids)
    else (connect m, if is_nonzero (connect m) then destroy_id made i else made)

-- A call on the id of a queue is good while the id is made and not destroyed.
abbrev pub is_live : Ids → ℕ → Bool
is_live ids i = ltb (ids.destroyed i) (ids.created i)

-- How the freeing of queues ends: it is done, or the id of a queue is used that is not live. What the
-- kernel does from there on is undefined.
pub data Freed : Type 0 where
  done : Ids → Freed
  stray : ℕ → Ids → Freed

-- `dcc_rdma_stopandfree_queues`: the loop over the queues from `i` on. `dcc_rdma_stop_queue` begins
-- with `rdma_disconnect` of the id, and `dcc_rdma_free_queue` ends with `rdma_destroy_id`.
unfoldable pub stopandfree_from : ℕ → ℕ → Ids → Freed
stopandfree_from zero i ids = done ids
stopandfree_from (suc n) i ids =
    let rest = stopandfree_from n (i + 1) (destroy_id ids i) in
    if is_live ids i then rest else stray i ids

-- `dcc_rdma_init_queue` of `num_qps` queues: the loop over the `n` queues from `i` on
unfoldable pub init_from : ℕ → (ℕ → Meets) → ℕ → ℕ → Ids → ℤ × Freed
init_from num_qps meets zero i ids = (pos 0, done ids)
init_from num_qps meets (suc n) i ids =
    let (ret, ids') = init_queue ids i (meets i) in
    let rest = init_from num_qps meets n (i + 1) ids' in
    if is_nonzero ret then (ret, stopandfree_from num_qps 0 ids') else rest

-- The part of `dcc_rdma_init` for one server: behind a failure of its queues all are freed again.
unfoldable pub init_control : ℕ → (ℕ → Meets) → Bool × Freed
init_control num_qps meets =
    let (ret, freed) =
      init_from num_qps meets num_qps 0 (record { created = λ i. 0; destroyed = λ i. 0 }) in
    elim freed [
      | stray i ids ↦ (false, stray i ids)
      | done ids ↦
          if is_nonzero ret then (false, stopandfree_from num_qps 0 ids) else (true, done ids)
    ]
