-- ===== src/Daemon/LockFreeStack/Threads/Invariant.antt =====
-- The invariant of the runs, and what keeps it.
use native.Mathlib.Decide.{ℕ_discrete}
use cleancache_rdma.Prelude.{
  ℕ, ◌≡◌, ◌≢◌, refl, List, [], ◌∷◌, ◌++◌, Option, none, some, Array, update, arith,
}
use cleancache_rdma.Daemon.LockFreeStack.{LockFreeStack}
use cleancache_rdma.Daemon.LockFreeStack.Lists.{
  NotIn, Linked, values, NotIn-append_left, NotIn-append_right,
}
use cleancache_rdma.Daemon.LockFreeStack.Threads.{
  Task, storing, taking, Pc, source, Op, pushed, popped, saw_empty, refused, Event, calls, effect,
  add_op,
}
use cleancache_rdma.Daemon.LockFreeStack.Threads.Owners.{
  owner, Owners, Shift, Owners-Shift, update-here, update-there,
}
use cleancache_rdma.Daemon.LockFreeStack.Threads.Places.{Places}
use cleancache_rdma.Daemon.LockFreeStack.Threads.Local.{
  Status, pending, status, Says, Fresh, Changes, OffLists, Fresh-kept, Says-kept,
}

abbrev pub IsOver : Status → Type 0
IsOver (pending t) = ⊥
IsOver st = Unit

-- A log as the history of one stack, the last value pushed first: each effect belongs to the pending
-- call of its thread, and each value that is taken is the one on top.
pub data Replays : List Event → List ℕ → Type 0 where
  begins : Replays [] []
  asks :
      {log : List Event} {vs : List ℕ} (i : ℕ) (t : Task)
      → IsOver (status i log)
      → Replays log vs
      → Replays (calls i t ∷ log) vs
  pushes :
      {log : List Event} {vs : List ℕ} (i v : ℕ)
      → status i log ≡ pending (storing v)
      → Replays log vs
      → Replays (effect i (pushed v) ∷ log) (v ∷ vs)
  pops :
      {log : List Event} {vs : List ℕ} (i v : ℕ)
      → status i log ≡ pending taking
      → Replays log (v ∷ vs)
      → Replays (effect i (popped v) ∷ log) vs
  finds_none :
      {log : List Event} {vs : List ℕ} (i : ℕ)
      → status i log ≡ pending taking
      → vs ≡ []
      → Replays log vs
      → Replays (effect i saw_empty ∷ log) vs
  turns_away :
      {log : List Event} {vs : List ℕ} (i v : ℕ)
      → status i log ≡ pending (storing v)
      → Replays log vs
      → Replays (effect i refused ∷ log) vs

pub record Inv (num_elems : ℕ) (m : LockFreeStack) (pc : Array Pc) (log : List Event) : Type 0 where
  pub nodes : List ℕ
  pub frees : List ℕ
  pub places : Places m nodes frees
  pub owners : Owners num_elems pc (nodes ++ frees)
  pub fresh : (i : ℕ) → Fresh m (pc i)
  pub says : (i : ℕ) → Says m (pc i) (status i log)
  pub replays : Replays log (values m.value nodes)

NotIn-head :
    (n : ℕ) (next : Array (Option ℕ)) (p : Option ℕ) (xs : List ℕ)
    → p ≡ some n
    → Linked next p xs
    → ¬ NotIn n xs
NotIn-head n next p [] e h out = absurd (cc)
NotIn-head n next p (x ∷ xs) e h out = let same : n ≡ x = cc in out.0 same

top-InLists :
    (m : LockFreeStack) (nodes frees : List ℕ) (t : Task) (n : ℕ)
    → Places m nodes frees
    → (source t m).node ≡ some n
    → ¬ NotIn n (nodes ++ frees)
top-InLists m nodes frees (storing v) n p e out =
    NotIn-head n m.next m.free.node frees e p.unused (NotIn-append_right n nodes frees out)
top-InLists m nodes frees taking n p e out =
    NotIn-head n m.next m.head.node nodes e p.used (NotIn-append_left n nodes frees out)

-- What a step of thread `i`, at `p`, has to show.
pub record Steps (m : LockFreeStack) (nodes frees : List ℕ) (log : List Event) (i : ℕ) (p p' : Pc)
    (m' : LockFreeStack) (log' : List Event) : Type 0 where
  pub nodes' : List ℕ
  pub frees' : List ℕ
  pub places : Places m' nodes' frees'
  pub changes : Changes m m' (owner p)
  pub shift : Shift (owner p) (owner p') (nodes ++ frees) (nodes' ++ frees')
  pub fresh : Fresh m' p'
  pub says : Says m' p' (status i log')
  pub others : (j : ℕ) → j ≢ i → status j log' ≡ status j log
  pub replays : Replays log' (values m'.value nodes')

module _ (num_elems : ℕ) (m : LockFreeStack) (pc : Array Pc) (log : List Event)
    (inv : Inv num_elems m pc log) (i : ℕ) where
  pub step-Inv :
      (p' : Pc) (m' : LockFreeStack) (log' : List Event)
      → Steps m inv.nodes inv.frees log i (pc i) p' m' log'
      → Inv num_elems m' (update pc i p') log'
  step-Inv p' m' log' st =
      let off : OffLists m (owner (pc i)) = λ t n top has.
        top-InLists m inv.nodes inv.frees t n inv.places top (inv.owners.held i n has) in
      let apart : (j : ℕ) → j ≢ i → (k : ℕ) → owner (pc j) ≡ some k → owner (pc i) ≢ some k =
        λ j ne k has has'. ne (inv.owners.apart j i k has has') in
      record {
        nodes = st.nodes';
        frees = st.frees';
        places = st.places;
        owners = Owners-Shift num_elems pc i p' _ _ inv.owners st.shift;
        fresh = λ j. elim (ℕ_discrete j i) [
          | yes same ↦ rw (same, update-here pc i p') st.fresh
          | no ne ↦
              rw (update-there pc i j p' ne)
                (Fresh-kept m m' (owner (pc i)) st.changes off (pc j) (apart j ne) (inv.fresh j))
        ];
        says = λ j. elim (ℕ_discrete j i) [
          | yes same ↦ rw (same, update-here pc i p') st.says
          | no ne ↦
              rw (update-there pc i j p' ne, st.others j ne)
                (Says-kept m m' (owner (pc i)) st.changes off (pc j) (status j log) (apart j ne)
                  (inv.says j))
        ];
        replays = st.replays;
      }

pub status-there :
    (i j : ℕ) (op : Option Op) (log : List Event)
    → j ≢ i
    → status j (add_op i op log) ≡ status j log
status-there i j none log ne = refl
status-there i j (some op) log ne = ground arith
