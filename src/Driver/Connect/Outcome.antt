-- ===== src/Driver/Connect/Outcome.antt =====
-- When a queue is connected, and what a failure destroys.
use native.Mathlib.Decide.{ℕ_discrete}
use cleancache_rdma.Prelude.{
  ℕ, zero, suc, ◌+◌, ◌<◌, ◌≤◌, ◌≡◌, true, false, List, [], ◌∷◌, not, ltb, if◌then◌else◌, Bool-cases,
  refl, inl, inr, arith,
}
use cleancache_rdma.Prelude.Int.{ℤ, pos, negsuc, is_nonzero}
use cleancache_rdma.Driver.Connect.{
  Event, addr_resolved, route_resolved, established, rejected, failed, closed, device_removal,
  unexpected, resolved, routed, settle, cm_handler, wait_for_cm, Meets, Ids, Freed, stray, is_live,
  create_id, destroy_id, connect, init_queue, stopandfree_from, init_from, init_control, etimedout,
  econnreset, enodev,
}

-- the code of the wait, by the first event that ends it
abbrev pub first_end : List Event → ℤ
first_end [] = etimedout
first_end (addr_resolved false qp_ok route ∷ rest) = enodev
first_end (addr_resolved true false route ∷ rest) = negsuc 0
first_end (addr_resolved true true route ∷ rest) = first_end rest
first_end (established ∷ rest) = pos 0
first_end (failed ∷ rest) = econnreset
first_end (route_resolved connected ∷ rest) = first_end rest
first_end (rejected ∷ rest) = first_end rest
first_end (closed ∷ rest) = first_end rest
first_end (device_removal ∷ rest) = first_end rest
first_end (unexpected ∷ rest) = first_end rest

wait_for_cm-done :
    (e : ℤ) (events : List Event) → wait_for_cm (record { cm_error = e; cm_done = true }) events ≡ e
unfolding wait_for_cm
wait_for_cm-done e [] = refl
wait_for_cm-done e (x ∷ rest) = refl

wait_for_cm-first :
    (events : List Event)
    → wait_for_cm (record { cm_error = etimedout; cm_done = false }) events ≡ first_end events
unfolding wait_for_cm cm_handler settle resolved routed
wait_for_cm-first [] = refl
wait_for_cm-first (addr_resolved false qp_ok route ∷ rest) = wait_for_cm-done enodev rest
wait_for_cm-first (addr_resolved true false route ∷ rest) = wait_for_cm-done (negsuc 0) rest
wait_for_cm-first (addr_resolved true true route ∷ rest) = wait_for_cm-first rest
wait_for_cm-first (established ∷ rest) = wait_for_cm-done (pos 0) rest
wait_for_cm-first (failed ∷ rest) = wait_for_cm-done econnreset rest
wait_for_cm-first (route_resolved connected ∷ rest) = wait_for_cm-first rest
wait_for_cm-first (rejected ∷ rest) = wait_for_cm-first rest
wait_for_cm-first (closed ∷ rest) = wait_for_cm-first rest
wait_for_cm-first (device_removal ∷ rest) = wait_for_cm-first rest
wait_for_cm-first (unexpected ∷ rest) = wait_for_cm-first rest

-- what is left where the freeing strays at queue `f`: the ids in front of it are destroyed once more
pub record Strays (ids : Ids) (i f : ℕ) (r : Freed) : Type 0 where
  pub left : Ids
  pub ends : r ≡ stray f left
  pub destroyed :
      (j : ℕ)
      → left.destroyed j ≡ ids.destroyed j + (if ltb j i then 0 else if ltb j f then 1 else 0)
  pub created : (j : ℕ) → left.created j ≡ ids.created j

-- The loop frees the queues up to the first whose id is not live, and strays there.
stopandfree_from-Strays :
    (n i f : ℕ) (ids : Ids)
    → i ≤ f
    → f < i + n
    → ((j : ℕ) → i ≤ j → j < f → is_live ids j ≡ true)
    → is_live ids f ≡ false
    → Strays ids i f (stopandfree_from n i ids)
unfolding stopandfree_from destroy_id
stopandfree_from-Strays zero i f ids lo hi live dead = absurd (omega arith)
stopandfree_from-Strays (suc n) i f ids lo hi live dead = elim (ℕ_discrete i f) [
  | yes e ↦
      rw (e, dead)
        (record { left = ids; ends = refl; destroyed = λ j. ground arith; created = λ j. refl })
  | no e ↦
      let rest =
        stopandfree_from-Strays n (i + 1) f (destroy_id ids i) (omega (arith, e, lo))
          (omega (arith, hi)) (λ j above below. ground (arith, above, live j (omega arith) below))
          (ground (arith, e, dead)) in
      rw (live i (omega arith) (omega (arith, e, lo))) (record {
        left = rest.left;
        ends = rest.ends;
        destroyed = λ j. ground (arith, rest.destroyed j, e, lo);
        created = rest.created;
      })
]

-- a queue that is connected, and one whose id is made but that is not connected
pub record Connects (m : Meets) : Type 0 where
  pub made : m.id_ok ≡ true
  pub code : connect m ≡ pos 0

pub record Fails (m : Meets) : Type 0 where
  pub made : m.id_ok ≡ true
  pub code : is_nonzero (connect m) ≡ true

init_queue-Fails :
    (ids : Ids) (i : ℕ) (m : Meets)
    → Fails m
    → init_queue ids i m ≡ (connect m, destroy_id (create_id ids i) i)
unfolding init_queue connect destroy_id
init_queue-Fails ids i m fails = rw (fails.made, fails.code) refl

init_queue-Connects :
    (ids : Ids) (i : ℕ) (m : Meets) → Connects m → init_queue ids i m ≡ (pos 0, create_id ids i)
unfolding init_queue connect create_id
init_queue-Connects ids i m c = rw (c.made, c.code) refl

-- The ids when queue `f` has failed, those from `i` to `f` being made on the way.
record Failing (ids : Ids) (i f : ℕ) (r : ℤ × Freed) : Type 0 where
  code : is_nonzero r.0 ≡ true
  left : Ids
  ends : r.1 ≡ stray f left
  destroyed : (j : ℕ) → left.destroyed j ≡ (if not (ltb f j) then 1 else 0)
  created : (j : ℕ) → left.created j ≡ (if not (ltb f j) then 1 else 0)

init_from-Failing :
    (num_qps : ℕ) (meets : ℕ → Meets) (f n i : ℕ) (ids : Ids)
    → i ≤ f
    → f < i + n
    → f < num_qps
    → ((j : ℕ) → j < f → Connects (meets j))
    → Fails (meets f)
    → ((j : ℕ) → ids.created j ≡ (if ltb j i then 1 else 0))
    → ((j : ℕ) → ids.destroyed j ≡ 0)
    → Failing ids i f (init_from num_qps meets n i ids)
unfolding init_from create_id destroy_id
init_from-Failing num_qps meets f zero i ids lo hi small before fails made whole =
    absurd (omega arith)
init_from-Failing num_qps meets f (suc n) i ids lo hi small before fails made whole =
    elim (ℕ_discrete i f) [
      | yes e ↦
          let ids' = destroy_id (create_id ids f) f in
          let s =
            stopandfree_from-Strays num_qps 0 f ids' (omega arith) (omega (arith, small))
              (λ j above below. ground (arith, made j, whole j, e))
              (ground (arith, made f, whole f, e)) in
          rw e (
            rw (init_queue-Fails ids f (meets f) fails) (
              rw fails.code (record {
                code = fails.code;
                left = s.left;
                ends = s.ends;
                destroyed = λ j. ground (arith, s.destroyed j, whole j);
                created = λ j. ground (arith, s.created j, made j, e);
              })))
      | no e ↦
          let later =
            init_from-Failing num_qps meets f n (i + 1) (create_id ids i) (omega (arith, lo, e))
              (omega (arith, hi)) small before fails (λ j. ground (arith, made j)) whole in
          rw (init_queue-Connects ids i (meets i) (before i (omega (arith, lo, e)))) (record {
            code = later.code;
            left = later.left;
            ends = later.ends;
            destroyed = later.destroyed;
            created = later.created;
          })
    ]

connect-code :
    (m : Meets)
    → connect m ≡ (if is_nonzero m.resolve_addr then m.resolve_addr else first_end m.events)
unfolding connect
connect-code m = rw (wait_for_cm-first m.events) refl

init_queue-made :
    (ids : Ids) (i : ℕ) (m : Meets)
    → m.id_ok ≡ true
    → init_queue ids i m ≡ (
      connect m,
      if is_nonzero (connect m) then destroy_id (create_id ids i) i else create_id ids i,
    )
unfolding init_queue connect
init_queue-made ids i m made = rw made refl

-- When the id of a queue is made, `__dcc_rdma_init_queue` returns what `rdma_resolve_addr` returned, if
-- that is not 0, and else the code of the first event that ends the wait: 0 for an established
-- connection, -19 without a device, -1 without a queue pair, -104 for an error event, and -110 when
-- no event ends it; other events, a rejection among them, are passed over. It destroys the id exactly
-- when the code is not 0.
pub init_queue-code :
    (ids : Ids) (i : ℕ) (m : Meets)
    → m.id_ok ≡ true
    → (init_queue ids i m).0
        ≡ (if is_nonzero m.resolve_addr then m.resolve_addr else first_end m.events)
      × ((init_queue ids i m).1.destroyed i
          ≡ (if is_nonzero (init_queue ids i m).0 then ids.destroyed i + 1 else ids.destroyed i))
unfolding create_id destroy_id
init_queue-code ids i m made = rw (init_queue-made ids i m made) (
  connect-code m,
  elim (Bool-cases (is_nonzero (connect m))) [ inl e ↦ rw e (ground arith) | inr e ↦ rw e refl ],
)

-- When queue `f` cannot be connected and those in front of it can, `dcc_rdma_init` frees the queues in
-- front of it, and then calls `rdma_disconnect` on the id of queue `f`, which it has destroyed before.
-- At that point the ids up to `f` were made and destroyed once each, and those behind it never made.
pub init_control-strays :
    (num_qps : ℕ) (meets : ℕ → Meets) (f : ℕ)
    → f < num_qps
    → ((k : ℕ) → k < f → Connects (meets k))
    → Fails (meets f)
    → (ids : Ids) × (init_control num_qps meets ≡ (false, stray f ids))
      × ((j : ℕ)
          → (ids.created j ≡ (if not (ltb f j) then 1 else 0))
            × (ids.destroyed j ≡ (if not (ltb f j) then 1 else 0)))
unfolding init_control
init_control-strays num_qps meets f small before fails =
    let none : Ids = record { created = λ i. 0; destroyed = λ i. 0 } in
    let failing =
      init_from-Failing num_qps meets f num_qps 0 none (omega arith) (omega (arith, small)) small
        before fails (λ j. ground arith) (λ j. refl) in
    (
      failing.left,
      rw (init_control, failing.ends) refl,
      λ j. (failing.created j, failing.destroyed j),
    )
