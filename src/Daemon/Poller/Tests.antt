-- ===== src/Daemon/Poller/Tests.antt =====
-- The pollers at concrete inputs.
use cleancache_rdma.Prelude.{◌+◌, ◌*◌, ◌<◌, ◌≡◌, ◌↔◌, refl, true, false, [], ◌∷◌, arith, Bool}
use cleancache_rdma.Daemon.Poller.{
  event_mode, poll_mode, first_duration, succ_rate_of, adapt, poll_periods,
}
use cleancache_rdma.Daemon.Poller.Period.{IsPeriod, poll_periods-bounded}

program : Bool
unfolding first_duration succ_rate_of adapt poll_periods
program = true

-- Six busy periods reach the upper bound, and a quiet one halves it.
runs :
    (poll_periods true
        ((9, 0) ∷ (9, 1) ∷ (9, 0) ∷ (9, 0) ∷ (9, 0) ∷ (9, 0) ∷ [])
        (event_mode, first_duration true)
      ≡ (poll_mode, 1024))
    × (poll_periods true ((9, 0) ∷ (0, 9) ∷ (0, 9) ∷ []) (event_mode, first_duration true)
        ≡ (event_mode, 16))
    × (poll_periods false ((9, 0) ∷ (0, 9) ∷ []) (event_mode, first_duration false)
        ≡ (event_mode, 1))
unfolding program
runs = (refl, refl, refl)

poll_periods-bounded_example :
    IsPeriod (poll_periods true ((9, 0) ∷ []) (event_mode, first_duration true)).1
    × (((adapt true (poll_periods true ((9, 0) ∷ []) (event_mode, first_duration true)).1 1 200).0
          ≡ event_mode)
        ↔ (100 * 1 < 1 + 200))
poll_periods-bounded_example = poll_periods-bounded true ((9, 0) ∷ []) 1 200 (omega arith)
