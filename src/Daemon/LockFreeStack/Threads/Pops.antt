-- ===== src/Daemon/LockFreeStack/Threads/Pops.antt =====
-- The steps of `pop` keep the invariant.
use cleancache_rdma.Prelude.{
  ℕ, ◌+◌, ◌%◌, ◌^◌, ◌≡◌, inl, inr, refl, sym, subst, ◌∙◌, Bool, List, Option, none, some, arith,
  Bool-cases,
}
use cleancache_rdma.Daemon.LockFreeStack.{Head, LockFreeStack}
use cleancache_rdma.Daemon.LockFreeStack.Lists.{values}
use cleancache_rdma.Daemon.LockFreeStack.Threads.{
  Task, storing, taking, Pc, pop_top, pop_exchange, pop_done, source, set_source, finds, next_head,
  read_next, advance, popped, saw_empty, refused, Event, add_op, saw, on_pop, op_of, HasTags,
}
use cleancache_rdma.Daemon.LockFreeStack.Threads.Owners.{owner, none_moved, to_thread}
use cleancache_rdma.Daemon.LockFreeStack.Threads.Places.{Places, pop_list}
use cleancache_rdma.Daemon.LockFreeStack.Threads.Local.{pending, status, Loaded, Read, after_load}
use cleancache_rdma.Daemon.LockFreeStack.Threads.Invariant.{
  Replays, Steps, status-there, pops, finds_none, turns_away,
}
use cleancache_rdma.Daemon.LockFreeStack.Threads.Silent.{
  finds-eq, unchanged, status-here, now_Loaded, values-none, silent,
}

module _ (m : LockFreeStack) (nodes frees : List ℕ) (log : List Event) (i : ℕ)
    (places : Places m nodes frees) (replays : Replays log (values m.value nodes)) where
  pub pop_top-Steps :
      (t : Task) (orig : Head) (o : Option ℕ)
      → orig.node ≡ o
      → Loaded orig (source t m)
      → status i log ≡ after_load t (saw t o)
      → Steps m nodes frees log i (pop_top t orig) (read_next m t orig o) m log
  pop_top-Steps (storing v) orig none e f s =
      silent m nodes frees log i places replays _ _ refl tt (inr (refl, s))
  pop_top-Steps taking orig none e f s =
      silent m nodes frees log i places replays _ _ refl tt (inr (refl, s))
  pop_top-Steps t orig (some n) e f s =
      silent m nodes frees log i places replays _ _ refl
        (record { loaded = f; node = e; link = λ same. refl }) s

  -- A load of the source settles the call where the head is null.
  load_from :
      (t : Task) (p : Pc) (o : Option ℕ)
      → owner p ≡ none
      → status i log ≡ pending t
      → (source t m).node ≡ o
      → Steps m nodes frees log i p (pop_top t (source t m)) m (add_op i (saw t o) log)
  load_from (storing v) p none e s top = record {
    nodes' = nodes;
    frees' = frees;
    places = places;
    changes = unchanged m (owner p);
    shift = none_moved (sym e) refl;
    fresh = now_Loaded m.free;
    says = rw top (status-here i refused log);
    others = λ j ne. status-there i j (some refused) log ne;
    replays = turns_away i v s replays;
  }
  load_from taking p none e s top = record {
    nodes' = nodes;
    frees' = frees;
    places = places;
    changes = unchanged m (owner p);
    shift = none_moved (sym e) refl;
    fresh = now_Loaded m.head;
    says = rw top (status-here i saw_empty log);
    others = λ j ne. status-there i j (some saw_empty) log ne;
    replays = finds_none i s (values-none m.value m.next m.head.node nodes top places.used) replays;
  }
  load_from t p (some n) e s top =
      silent m nodes frees log i places replays p (pop_top t (source t m)) (sym e)
        (now_Loaded (source t m)) (rw top s)

  pub load_Steps :
      (t : Task) (p : Pc)
      → owner p ≡ none
      → status i log ≡ pending t
      → Steps m nodes frees log i p
          (pop_top t (source t m))
          m
          (add_op i (saw t (source t m).node) log)
  load_Steps t p e s = load_from t p (source t m).node e s refl

  popped_Steps :
      (t : Task) (orig : Head) (n : ℕ) (below : Option ℕ)
      → HasTags m
      → Read m t orig n below
      → status i log ≡ pending t
      → (orig.aba ≡ (source t m).aba) × (orig.node ≡ (source t m).node)
      → Steps m nodes frees log i
          (pop_exchange t orig n below)
          (pop_done t n)
          (set_source t m (next_head orig below))
          (add_op i (on_pop t (m.value n)) log)
  popped_Steps (storing v) orig n below tags r s e =
      let q =
        pop_list (storing v) m nodes frees n ((orig.aba + 1) % 2 ^ 64) places (sym e.1 ∙ r.node) in
      record {
        nodes' = q.nodes';
        frees' = q.frees';
        places =
            subst (λ b. Places (record m { free = next_head orig b }) q.nodes' q.frees')
              (r.link e.0) q.places;
        changes = record {
          head = inl refl;
          free = inr (omega (arith, e.0, tags.1));
          next = λ k ne. refl;
          value = λ k ne. refl;
        };
        shift = to_thread n refl refl q.out q.adds;
        fresh = tt;
        says = s;
        others = λ j ne. refl;
        replays = rw q.after replays;
      }
  popped_Steps taking orig n below tags r s e =
      let q = pop_list taking m nodes frees n ((orig.aba + 1) % 2 ^ 64) places (sym e.1 ∙ r.node) in
      record {
        nodes' = q.nodes';
        frees' = q.frees';
        places =
            subst (λ b. Places (record m { head = next_head orig b }) q.nodes' q.frees')
              (r.link e.0) q.places;
        changes = record {
          head = inr (omega (arith, e.0, tags.0));
          free = inl refl;
          next = λ k ne. refl;
          value = λ k ne. refl;
        };
        shift = to_thread n refl refl q.out q.adds;
        fresh = tt;
        says = status-here i (popped (m.value n)) log;
        others = λ j ne. status-there i j (some (popped (m.value n))) log ne;
        replays =
            pops i (m.value n) s (subst (λ xs. Replays log (values m.value xs)) q.after replays);
      }

  pub pop_exchange-Steps :
      (t : Task) (orig : Head) (n : ℕ) (below : Option ℕ) (strong : Bool)
      → HasTags m
      → Read m t orig n below
      → status i log ≡ pending t
      → Steps m nodes frees log i
          (pop_exchange t orig n below)
          (advance m (pop_exchange t orig n below) strong).1
          (advance m (pop_exchange t orig n below) strong).0
          (add_op i (op_of m (pop_exchange t orig n below) strong) log)
  unfolding advance op_of
  pop_exchange-Steps t orig n below strong tags r s =
      elim (Bool-cases (finds strong orig (source t m))) [
        | inl e ↦ rw e (popped_Steps t orig n below tags r s (finds-eq strong orig (source t m) e))
        | inr e ↦ rw e (load_Steps t (pop_exchange t orig n below) refl s)
      ]
