-- ===== src/Daemon/LockFreeStack/Threads/Pushes.antt =====
-- The steps of `push` keep the invariant, and the write of the value before it.
use cleancache_rdma.Prelude.{
  ℕ, ◌+◌, ◌%◌, ◌^◌, ◌≡◌, inl, inr, refl, ◌∙◌, Bool, List, ◌++◌, Option, some, update, arith,
  Bool-cases,
}
use cleancache_rdma.Daemon.LockFreeStack.{Head, LockFreeStack}
use cleancache_rdma.Daemon.LockFreeStack.Lists.{NotIn, values, values-update, NotIn-append_left}
use cleancache_rdma.Daemon.LockFreeStack.Threads.{
  Task, storing, taking, pop_done, push_start, push_top, push_exchange, target, set_target, finds,
  next_head, finished, advance, pushed, Event, add_op, on_push, op_of, HasTags,
}
use cleancache_rdma.Daemon.LockFreeStack.Threads.Owners.{none_moved, to_list}
use cleancache_rdma.Daemon.LockFreeStack.Threads.Places.{Places, push_list, link_list}
use cleancache_rdma.Daemon.LockFreeStack.Threads.Local.{Status, pending, status, Carries}
use cleancache_rdma.Daemon.LockFreeStack.Threads.Invariant.{Replays, Steps, status-there, pushes}
use cleancache_rdma.Daemon.LockFreeStack.Threads.Silent.{finds-eq, status-here, silent}

module _ (m : LockFreeStack) (nodes frees : List ℕ) (log : List Event) (i : ℕ)
    (places : Places m nodes frees) (replays : Replays log (values m.value nodes)) where
  -- the node that `push` works on
  module _ (n : ℕ) (out : NotIn n (nodes ++ frees)) where
    pub write_Steps :
        (v : ℕ)
        → status i log ≡ pending (storing v)
        → Steps m nodes frees log i
            (pop_done (storing v) n)
            (push_start (storing v) n v)
            (record m { value = update m.value n v })
            log
    write_Steps v s = record {
      nodes' = nodes;
      frees' = frees;
      places = record { used = places.used; unused = places.unused; distinct = places.distinct };
      changes = record {
        head = inl refl;
        free = inl refl;
        next = λ k ne. refl;
        value = λ k ne. ground arith;
      };
      shift = none_moved refl refl;
      fresh = tt;
      says = (s, refl, ground arith);
      others = λ j ne. refl;
      replays = rw (values-update m.value n v nodes (NotIn-append_left n nodes frees out)) replays;
    }

    Carries-link :
        (t : Task) (v : ℕ) (o : Option ℕ) (st : Status)
        → Carries m t n v st
        → Carries (record m { next = update m.next n o }) t n v st
    Carries-link (storing u) v o st c = c
    Carries-link taking v o st c = c

    pub link_Steps :
        (t : Task) (v : ℕ) (orig : Head)
        → Carries m t n v (status i log)
        → Steps m nodes frees log i
            (push_top t n v orig)
            (push_exchange t n v orig)
            (record m { next = update m.next n orig.node })
            log
    link_Steps t v orig s = record {
      nodes' = nodes;
      frees' = frees;
      places = link_list m nodes frees n orig.node places out;
      changes = record {
        head = inl refl;
        free = inl refl;
        next = λ k ne. ground arith;
        value = λ k ne. refl;
      };
      shift = none_moved refl refl;
      fresh = ground arith;
      says = Carries-link t v orig.node (status i log) s;
      others = λ j ne. refl;
      replays = replays;
    }

    pushed_Steps :
        (t : Task) (v : ℕ) (orig : Head)
        → HasTags m
        → m.next n ≡ orig.node
        → Carries m t n v (status i log)
        → (orig.aba ≡ (target t m).aba) × (orig.node ≡ (target t m).node)
        → Steps m nodes frees log i
            (push_exchange t n v orig)
            (finished t v)
            (set_target t m (next_head orig (some n)))
            (add_op i (on_push t) log)
    pushed_Steps (storing w) v orig tags link s e =
        let q =
          push_list (storing w) m nodes frees n ((orig.aba + 1) % 2 ^ 64) places out (link ∙ e.1) in
        record {
          nodes' = q.nodes';
          frees' = q.frees';
          places = q.places;
          changes = record {
            head = inr (omega (arith, e.0, tags.0));
            free = inl refl;
            next = λ k ne. refl;
            value = λ k ne. refl;
          };
          shift = to_list n refl refl q.adds;
          fresh = tt;
          says = inl (refl, status-here i (pushed w) log);
          others = λ j ne. status-there i j (some (pushed w)) log ne;
          replays = rw (q.after, s.2) (pushes i w s.0 replays);
        }
    pushed_Steps taking v orig tags link s e =
        let q =
          push_list taking m nodes frees n ((orig.aba + 1) % 2 ^ 64) places out (link ∙ e.1) in
        record {
          nodes' = q.nodes';
          frees' = q.frees';
          places = q.places;
          changes = record {
            head = inl refl;
            free = inr (omega (arith, e.0, tags.1));
            next = λ k ne. refl;
            value = λ k ne. refl;
          };
          shift = to_list n refl refl q.adds;
          fresh = tt;
          says = inl s;
          others = λ j ne. refl;
          replays = rw q.after replays;
        }

    pub push_exchange-Steps :
        (t : Task) (v : ℕ) (orig : Head) (strong : Bool)
        → HasTags m
        → m.next n ≡ orig.node
        → Carries m t n v (status i log)
        → Steps m nodes frees log i
            (push_exchange t n v orig)
            (advance m (push_exchange t n v orig) strong).1
            (advance m (push_exchange t n v orig) strong).0
            (add_op i (op_of m (push_exchange t n v orig) strong) log)
    unfolding advance op_of
    push_exchange-Steps t v orig strong tags link s =
        elim (Bool-cases (finds strong orig (target t m))) [
          | inl e ↦ rw e (pushed_Steps t v orig tags link s (finds-eq strong orig (target t m) e))
          | inr e ↦ rw e (silent m nodes frees log i places replays _ _ refl tt s)
        ]
