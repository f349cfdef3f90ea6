-- ===== src/Daemon/LockFreeStack/Threads/Linear.antt =====
-- The calls of any threads against one stack of values.
use cleancache_rdma.Prelude.{
  ℕ, suc, ◌+◌, ◌<◌, ◌≡◌, ◌≢◌, ◌≤◌, some, ap, Bool-cases, ◌∙◌, zero, inl, inr, refl, subst, Bool,
  List, [], ◌∷◌, ◌++◌, Option, none, Array, arith,
}
use cleancache_rdma.Prelude.Int.{ℤ}
use cleancache_rdma.Daemon.LockFreeStack.{LockFreeStack, new}
use cleancache_rdma.Daemon.LockFreeStack.Lists.{Linked, NotIn, values, range, Distinct-range}
use cleancache_rdma.Daemon.LockFreeStack.Refine.{fresh_Linked}
use cleancache_rdma.Daemon.LockFreeStack.Threads.{
  Task, storing, taking, Pc, idle, pop_top, pop_exchange, pop_done, push_start, push_top,
  push_exchange, stored, took, calls, advance, finds, System, run, call, IsDone, at_start,
  has_stored, has_taken, HasTags, Op, Reach, start, called, ran,
}
use cleancache_rdma.Daemon.LockFreeStack.Threads.Owners.{owner, Owners}
use cleancache_rdma.Daemon.LockFreeStack.Threads.Places.{Places}
use cleancache_rdma.Daemon.LockFreeStack.Threads.Local.{
  Status, quiet, pending, settled, status, Says, Stores, Takes,
}
use cleancache_rdma.Daemon.LockFreeStack.Threads.Invariant.{
  IsOver, Replays, begins, asks, Inv, step-Inv,
}
use cleancache_rdma.Daemon.LockFreeStack.Threads.Moves.{advance-Steps}
use cleancache_rdma.Daemon.LockFreeStack.Threads.Pops.{load_Steps}

quiet-IsOver : (st : Status) → st ≡ quiet → IsOver st
quiet-IsOver st e = rw e tt

settled-IsOver : (st : Status) (op : Op) → st ≡ settled op → IsOver st
settled-IsOver st op e = rw e tt

-- A thread that may call has no call pending, and owns no node.
done-IsOver : (m : LockFreeStack) (p : Pc) (st : Status) → IsDone p → Says m p st → IsOver st
done-IsOver m p st at_start s = quiet-IsOver st s
done-IsOver m p st (has_stored v code) (inl s) = settled-IsOver st _ s.1
done-IsOver m p st (has_stored v code) (inr s) = settled-IsOver st _ s.1
done-IsOver m p st (has_taken v) (inl s) = settled-IsOver st _ s
done-IsOver m p st (has_taken v) (inr s) = settled-IsOver st _ s.1

done_owner : (p : Pc) → IsDone p → owner p ≡ none
done_owner p at_start = refl
done_owner p (has_stored v code) = refl
done_owner p (has_taken v) = refl

module _ (num_elems : ℕ) (s : System) (inv : Inv num_elems s.mem s.pc s.log) (i : ℕ) where
  run-Inv :
      (strong : Bool)
      → HasTags s.mem
      → Inv num_elems (run s i strong).mem (run s i strong).pc (run s i strong).log
  unfolding run
  run-Inv strong tags = step-Inv num_elems s.mem s.pc s.log inv i _ _ _ (
      advance-Steps s.mem inv.nodes inv.frees s.log i inv.places inv.replays (s.pc i) strong tags
        (inv.owners.held i) (inv.fresh i) (inv.says i))

  call-Inv :
      (t : Task) → IsDone (s.pc i) → Inv num_elems (call s i t).mem (call s i t).pc (call s i t).log
  unfolding call
  call-Inv t done =
      let over = done-IsOver s.mem (s.pc i) (status i s.log) done (inv.says i) in
      let asked : status i (calls i t ∷ s.log) ≡ pending t = ground arith in
      let st =
        load_Steps s.mem inv.nodes inv.frees (calls i t ∷ s.log) i inv.places
          (asks i t over inv.replays) t (s.pc i) (done_owner (s.pc i) done) asked in
      step-Inv num_elems s.mem s.pc s.log inv i _ _ _ (record {
        nodes' = st.nodes';
        frees' = st.frees';
        places = st.places;
        changes = st.changes;
        shift = st.shift;
        fresh = st.fresh;
        says = st.says;
        others = λ j ne.
            let before : status j (calls i t ∷ s.log) ≡ status j s.log = ground arith in
            st.others j ne ∙ before;
        replays = st.replays;
      })

-- the fields of a node
pub record SameNode (m m' : LockFreeStack) (k : ℕ) : Type 0 where
  pub same_value : m'.value k ≡ m.value k
  pub same_next : m'.next k ≡ m.next k

-- A step writes a field of the node in the thread's own hands, if of any.
advance-SameNode :
    (m : LockFreeStack) (p : Pc) (strong : Bool) (k : ℕ)
    → owner p ≢ some k
    → SameNode m (advance m p strong).0 k
unfolding advance
advance-SameNode m idle strong k foreign = record { same_value = refl; same_next = refl }
advance-SameNode m (pop_top t orig) strong k foreign = record {
  same_value = refl;
  same_next = refl;
}
advance-SameNode m (pop_exchange (storing v) orig n next) strong k foreign =
    elim (Bool-cases (finds strong orig m.free)) [
      | inl e ↦ rw e (record { same_value = refl; same_next = refl })
      | inr e ↦ rw e (record { same_value = refl; same_next = refl })
    ]
advance-SameNode m (pop_exchange taking orig n next) strong k foreign =
    elim (Bool-cases (finds strong orig m.head)) [
      | inl e ↦ rw e (record { same_value = refl; same_next = refl })
      | inr e ↦ rw e (record { same_value = refl; same_next = refl })
    ]
advance-SameNode m (pop_done (storing v) n) strong k foreign =
    let apart : n ≢ k = λ e. foreign (ap some e) in
    record { same_value = ground (arith, apart); same_next = refl }
advance-SameNode m (pop_done taking n) strong k foreign = record {
  same_value = refl;
  same_next = refl;
}
advance-SameNode m (push_start t n v) strong k foreign = record {
  same_value = refl;
  same_next = refl;
}
advance-SameNode m (push_top t n v orig) strong k foreign =
    let apart : n ≢ k = λ e. foreign (ap some e) in
    record { same_value = refl; same_next = ground (arith, apart) }
advance-SameNode m (push_exchange (storing w) n v orig) strong k foreign =
    elim (Bool-cases (finds strong orig m.head)) [
      | inl e ↦ rw e (record { same_value = refl; same_next = refl })
      | inr e ↦ rw e (record { same_value = refl; same_next = refl })
    ]
advance-SameNode m (push_exchange taking n v orig) strong k foreign =
    elim (Bool-cases (finds strong orig m.free)) [
      | inl e ↦ rw e (record { same_value = refl; same_next = refl })
      | inr e ↦ rw e (record { same_value = refl; same_next = refl })
    ]
advance-SameNode m (stored v code) strong k foreign = record { same_value = refl; same_next = refl }
advance-SameNode m (took v) strong k foreign = record { same_value = refl; same_next = refl }

range_all : (k n i : ℕ) → i ≤ k → k < i + n → ¬ NotIn k (range n i)
range_all k zero i lo hi out = absurd (omega arith)
range_all k (suc n) i lo hi out =
    range_all k n (i + 1) (let ne = out.0 in omega arith) (omega arith) out.1

init-Inv :
    (n : ℕ) (value : Array ℕ) (next : Array (Option ℕ))
    → Inv (suc n) (new (suc n) value next) (λ i. idle) []
unfolding new
init-Inv n value next = record {
  nodes = [];
  frees = range (suc n) 0;
  places = record {
    used = refl;
    unused = fresh_Linked next (suc n) n 0 (omega arith);
    distinct = Distinct-range (suc n) 0;
  };
  owners = record {
    held = λ i k has. absurd (cc);
    apart = λ i j k has has'. absurd (cc);
    complete = λ k lt out. absurd (range_all k (suc n) 0 (omega arith) (omega arith) out);
  };
  fresh = λ i. tt;
  says = λ i. refl;
  replays = begins;
}

pub Reach-Inv : (n : ℕ) {s : System} → Reach (suc n) s → Inv (suc n) s.mem s.pc s.log
Reach-Inv n (start value next) = init-Inv n value next
Reach-Inv n (called {s} i t r d) = call-Inv (suc n) s (Reach-Inv n r) i t d
Reach-Inv n (ran {s} i strong r tags) = run-Inv (suc n) s (Reach-Inv n r) i strong tags

-- In every run of any threads from a new stack of at least one node, as long as the tags of the heads
-- do not wrap: the effects of the calls are, in the order in which they happen, the history of one
-- stack, whose values are those on the list behind the head. Each effect falls between its call and
-- the return; a call that returned had one, and returned what it says: a push 0, or -1 where it was
-- refused, a pop the value that it took, or -1 where the stack was empty.
pub Reach-Replays :
    (n : ℕ) {s : System}
    → Reach (suc n) s
    → (nodes : List ℕ) × Linked s.mem.next s.mem.head.node nodes
      × Replays s.log (values s.mem.value nodes)
      × ((i v : ℕ) (code : ℤ) → s.pc i ≡ stored v code → Stores v code (status i s.log))
      × ((i v : ℕ) → s.pc i ≡ took v → Takes v (status i s.log))
Reach-Replays n {s} r =
    let inv = Reach-Inv n r in
    (
      inv.nodes,
      inv.places.used,
      inv.replays,
      λ i v code e. subst (λ p. Says s.mem p (status i s.log)) e (inv.says i),
      λ i v e. subst (λ p. Says s.mem p (status i s.log)) e (inv.says i),
    )

-- In every run of any threads from a new stack of at least one node, as long as the tags of the heads
-- do not wrap, each node is in one place: on the list behind one of the heads, once, or in the hands of
-- one thread. Whatever thread takes the next step, it writes a field of no node but one in its own
-- hands, and a call writes none.
pub Reach-Owners :
    (n : ℕ) {s : System}
    → Reach (suc n) s
    → (nodes : List ℕ) × (frees : List ℕ) × Places s.mem nodes frees
      × Owners (suc n) s.pc (nodes ++ frees)
      × ((i k : ℕ) (strong : Bool)
          → owner (s.pc i) ≢ some k
          → SameNode s.mem (run s i strong).mem k)
      × ((i k : ℕ) (t : Task) → SameNode s.mem (call s i t).mem k)
unfolding run call
Reach-Owners n {s} r =
    let inv = Reach-Inv n r in
    (
      inv.nodes,
      inv.frees,
      inv.places,
      inv.owners,
      λ i k strong foreign. advance-SameNode s.mem (s.pc i) strong k foreign,
      λ i k t. record { same_value = refl; same_next = refl },
    )
