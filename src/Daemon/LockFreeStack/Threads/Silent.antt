-- ===== src/Daemon/LockFreeStack/Threads/Silent.antt =====
-- Steps that write nothing, and what a successful exchange has found.
use cleancache_rdma.Prelude.{
  ℕ, ◌≡◌, inl, refl, Bool, true, List, [], ◌∷◌, Option, none, some, Array, arith,
}
use cleancache_rdma.Daemon.LockFreeStack.{Head, LockFreeStack}
use cleancache_rdma.Daemon.LockFreeStack.Lists.{Linked, values}
use cleancache_rdma.Daemon.LockFreeStack.Threads.{Pc, same_node, finds, Op, Event, effect}
use cleancache_rdma.Daemon.LockFreeStack.Threads.Owners.{owner, none_moved}
use cleancache_rdma.Daemon.LockFreeStack.Threads.Places.{Places}
use cleancache_rdma.Daemon.LockFreeStack.Threads.Local.{
  settled, status, Says, Fresh, Loaded, Changes,
}
use cleancache_rdma.Daemon.LockFreeStack.Threads.Invariant.{Replays, Steps}

same_node-eq : (a b : Option ℕ) → same_node a b ≡ true → a ≡ b
same_node-eq none none e = refl
same_node-eq none (some b) e = absurd (cc)
same_node-eq (some a) none e = absurd (cc)
same_node-eq (some a) (some b) e = ground arith

pub finds-eq :
    (strong : Bool) (orig now : Head)
    → finds strong orig now ≡ true
    → (orig.aba ≡ now.aba) × (orig.node ≡ now.node)
unfolding finds
finds-eq strong orig now e = (ground arith, same_node-eq orig.node now.node (ground arith))

pub unchanged : (m : LockFreeStack) (own : Option ℕ) → Changes m m own
unchanged m own = record {
  head = inl refl;
  free = inl refl;
  next = λ k ne. refl;
  value = λ k ne. refl;
}

pub status-here : (i : ℕ) (op : Op) (log : List Event) → status i (effect i op ∷ log) ≡ settled op
status-here i op log = ground arith

pub now_Loaded : (h : Head) → Loaded h h
now_Loaded h = record { tag = omega arith; node = λ same. refl }

pub values-none :
    (value : Array ℕ) (next : Array (Option ℕ)) (p : Option ℕ) (xs : List ℕ)
    → p ≡ none
    → Linked next p xs
    → values value xs ≡ []
values-none value next p [] e h = refl
values-none value next p (x ∷ xs) e h = absurd (cc)

module _ (m : LockFreeStack) (nodes frees : List ℕ) (log : List Event) (i : ℕ)
    (places : Places m nodes frees) (replays : Replays log (values m.value nodes)) where
  -- a step that writes nothing and settles nothing
  pub silent :
      (p p' : Pc)
      → owner p' ≡ owner p
      → Fresh m p'
      → Says m p' (status i log)
      → Steps m nodes frees log i p p' m log
  silent p p' e f s = record {
    nodes' = nodes;
    frees' = frees;
    places = places;
    changes = unchanged m (owner p);
    shift = none_moved e refl;
    fresh = f;
    says = s;
    others = λ j ne. refl;
    replays = replays;
  }
