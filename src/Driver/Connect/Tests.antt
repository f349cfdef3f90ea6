-- ===== src/Driver/Connect/Tests.antt =====
-- Queues at concrete inputs: the second of three is turned away.
use cleancache_rdma.Prelude.{
  ℕ, zero, suc, ◌<◌, ◌≡◌, Bool, true, false, not, [], ◌∷◌, ltb, if◌then◌else◌, refl, arith,
}
use cleancache_rdma.Prelude.Int.{pos, is_nonzero}
use cleancache_rdma.Driver.Connect.{
  Meets, Ids, stray, addr_resolved, route_resolved, established, rejected, cm_handler, settle,
  resolved, routed, wait_for_cm, connect, init_queue, init_control,
}
use cleancache_rdma.Driver.Connect.Outcome.{Connects, Fails, init_queue-code, init_control-strays}

program : Bool
unfolding connect wait_for_cm cm_handler settle resolved routed
program = true

abbrev meets : ℕ → Meets
meets zero = record {
  id_ok = true;
  resolve_addr = pos 0;
  events = addr_resolved true true (pos 0) ∷ route_resolved (pos 0) ∷ established ∷ [];
}
meets (suc k) = record {
  id_ok = true;
  resolve_addr = pos 0;
  events = addr_resolved true true (pos 0) ∷ rejected ∷ [];
}

abbrev none : Ids
none = record { created = λ i. 0; destroyed = λ i. 0 }

init_queue-code_example :
    ((init_queue none 0 (meets 0)).0 ≡ pos 0)
    × ((init_queue none 0 (meets 0)).1.destroyed 0
        ≡ (if is_nonzero (init_queue none 0 (meets 0)).0 then 1 else 0))
init_queue-code_example = init_queue-code none 0 (meets 0) refl

before : (k : ℕ) → k < 1 → Connects (meets k)
unfolding program
before zero h = record { made = refl; code = refl }
before (suc k) h = absurd (omega arith)

turned_away : Fails (meets 1)
unfolding program
turned_away = record { made = refl; code = refl }

init_control-strays_example :
    (ids : Ids) × (init_control 3 meets ≡ (false, stray 1 ids))
    × ((j : ℕ)
        → (ids.created j ≡ (if not (ltb 1 j) then 1 else 0))
          × (ids.destroyed j ≡ (if not (ltb 1 j) then 1 else 0)))
init_control-strays_example = init_control-strays 3 meets 1 (omega arith) before turned_away
