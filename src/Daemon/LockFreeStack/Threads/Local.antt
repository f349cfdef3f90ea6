-- ===== src/Daemon/LockFreeStack/Threads/Local.antt =====
-- What the locals of a thread say about the memory, and its part of the log about its call.
use cleancache_rdma.Prelude.{
  ℕ, ◌≤◌, ◌<◌, ◌≡◌, ◌≢◌, ◌⊎◌, inl, inr, refl, sym, ap, ◌∙◌, List, [], ◌∷◌, Option, none, some, ◌==◌,
  if◌then◌else◌, arith,
}
use cleancache_rdma.Prelude.Int.{ℤ, pos, negsuc}
use cleancache_rdma.Daemon.LockFreeStack.{Head, LockFreeStack, no_addr}
use cleancache_rdma.Daemon.LockFreeStack.Threads.{
  Task, storing, taking, Pc, idle, pop_top, pop_exchange, pop_done, push_start, push_top,
  push_exchange, stored, took, source, Op, pushed, popped, saw_empty, refused, Event, calls, effect,
  saw,
}
use cleancache_rdma.Daemon.LockFreeStack.Threads.Owners.{owner}

-- the last event of a thread: none, a call, or the effect of its last call
pub data Status : Type 0 where
  quiet : Status
  pending : Task → Status
  settled : Op → Status

abbrev pub status : ℕ → List Event → Status
status i [] = quiet
status i (calls j t ∷ log) = if j == i then pending t else status i log
status i (effect j op ∷ log) = if j == i then settled op else status i log

abbrev pub after_load : Task → Option Op → Status
after_load t none = pending t
after_load t (some op) = settled op

-- the code and the value that a call returned, by its effect
abbrev pub Stores : ℕ → ℤ → Status → Type 0
Stores v code st =
    ((code ≡ pos 0) × (st ≡ settled (pushed v))) ⊎ ((code ≡ negsuc 0) × (st ≡ settled refused))

abbrev pub Takes : ℕ → Status → Type 0
Takes v st = (st ≡ settled (popped v)) ⊎ ((v ≡ no_addr) × (st ≡ settled saw_empty))

-- a node that is about to be pushed: the value that `stack_push` wrote, or that `stack_pop` read
abbrev pub Carries : LockFreeStack → Task → ℕ → ℕ → Status → Type 0
Carries m (storing v) n w st = (st ≡ pending (storing v)) × (w ≡ v) × (m.value n ≡ v)
Carries m taking n w st = st ≡ settled (popped w)

abbrev pub Popping : LockFreeStack → Task → ℕ → Status → Type 0
Popping m (storing v) n st = st ≡ pending (storing v)
Popping m taking n st = st ≡ settled (popped (m.value n))

abbrev pub Says : LockFreeStack → Pc → Status → Type 0
Says m idle st = st ≡ quiet
Says m (pop_top t orig) st = st ≡ after_load t (saw t orig.node)
Says m (pop_exchange t orig n next) st = st ≡ pending t
Says m (pop_done t n) st = Popping m t n st
Says m (push_start t n w) st = Carries m t n w st
Says m (push_top t n w orig) st = Carries m t n w st
Says m (push_exchange t n w orig) st = Carries m t n w st
Says m (stored v code) st = Stores v code st
Says m (took v) st = Takes v st

-- A head that was loaded, and is the head of now as long as the tag is the same.
pub record Loaded (orig now : Head) : Type 0 where
  pub tag : orig.aba ≤ now.aba
  pub node : orig.aba ≡ now.aba → orig.node ≡ now.node

pub record Read (m : LockFreeStack) (t : Task) (orig : Head) (n : ℕ) (below : Option ℕ)
    : Type 0 where
  pub loaded : Loaded orig (source t m)
  pub node : orig.node ≡ some n
  pub link : orig.aba ≡ (source t m).aba → m.next n ≡ below

abbrev pub Fresh : LockFreeStack → Pc → Type 0
Fresh m (pop_top t orig) = Loaded orig (source t m)
Fresh m (pop_exchange t orig n next) = Read m t orig n next
Fresh m (push_exchange t n v orig) = m.next n ≡ orig.node
Fresh m p = Unit

-- A head is the same, or has a later tag.
abbrev pub Later : Head → Head → Type 0
Later a b = (b ≡ a) ⊎ (a.aba < b.aba)

-- A step of a thread that owns `own`.
pub record Changes (m m' : LockFreeStack) (own : Option ℕ) : Type 0 where
  pub head : Later m.head m'.head
  pub free : Later m.free m'.free
  pub next : (k : ℕ) → own ≢ some k → m'.next k ≡ m.next k
  pub value : (k : ℕ) → own ≢ some k → m'.value k ≡ m.value k

-- No list begins with the node that a thread owns.
abbrev pub OffLists : LockFreeStack → Option ℕ → Type 0
OffLists m own = (t : Task) (n : ℕ) → (source t m).node ≡ some n → own ≢ some n

module _ (m m' : LockFreeStack) (own : Option ℕ) (c : Changes m m' own) (off : OffLists m own) where
  Later-source : (t : Task) → Later (source t m) (source t m')
  Later-source (storing v) = c.free
  Later-source taking = c.head

  Loaded-kept : (a b d : Head) → Later b d → Loaded a b → Loaded a d
  Loaded-kept a b d (inl e) l = rw e l
  Loaded-kept a b d (inr lt) l = record {
    tag = omega (arith, l.tag);
    node = λ same. absurd (omega (arith, l.tag));
  }

  Read-kept :
      (t : Task) (orig : Head) (n : ℕ) (below : Option ℕ)
      → Read m t orig n below
      → Later (source t m) (source t m')
      → Read m' t orig n below
  Read-kept t orig n below r (inl e) =
      let tag : (source t m').aba ≡ (source t m).aba = ap (λ (h : Head). h.aba) e in
      record {
        loaded = Loaded-kept orig _ _ (inl e) r.loaded;
        node = r.node;
        link = λ same.
            let before = same ∙ tag in
            c.next n (off t n (sym (r.loaded.node before) ∙ r.node)) ∙ r.link before;
      }
  Read-kept t orig n below r (inr lt) = record {
    loaded = Loaded-kept orig _ _ (inr lt) r.loaded;
    node = r.node;
    link = λ same. absurd (omega (arith, r.loaded.tag));
  }

  -- The locals of another thread stay true.
  pub Fresh-kept : (p : Pc) → ((k : ℕ) → owner p ≡ some k → own ≢ some k) → Fresh m p → Fresh m' p
  Fresh-kept idle others f = tt
  Fresh-kept (pop_top t orig) others f = Loaded-kept orig _ _ (Later-source t) f
  Fresh-kept (pop_exchange t orig n below) others f = Read-kept t orig n below f (Later-source t)
  Fresh-kept (pop_done t n) others f = tt
  Fresh-kept (push_start t n v) others f = tt
  Fresh-kept (push_top t n v orig) others f = tt
  Fresh-kept (push_exchange t n v orig) others f = ground (arith, c.next n, others n)
  Fresh-kept (stored v code) others f = tt
  Fresh-kept (took v) others f = tt

  Carries-kept :
      (t : Task) (n w : ℕ) (st : Status) → own ≢ some n → Carries m t n w st → Carries m' t n w st
  Carries-kept (storing v) n w st ne s = ground (arith, c.value n)
  Carries-kept taking n w st ne s = s

  Popping-kept :
      (t : Task) (n : ℕ) (st : Status) → own ≢ some n → Popping m t n st → Popping m' t n st
  Popping-kept (storing v) n st ne s = s
  Popping-kept taking n st ne s = ground (arith, c.value n)

  pub Says-kept :
      (p : Pc) (st : Status)
      → ((k : ℕ) → owner p ≡ some k → own ≢ some k)
      → Says m p st
      → Says m' p st
  Says-kept idle st others s = s
  Says-kept (pop_top t orig) st others s = s
  Says-kept (pop_exchange t orig n next) st others s = s
  Says-kept (pop_done t n) st others s = Popping-kept t n st (others n refl) s
  Says-kept (push_start t n v) st others s = Carries-kept t n v st (others n refl) s
  Says-kept (push_top t n v orig) st others s = Carries-kept t n v st (others n refl) s
  Says-kept (push_exchange t n v orig) st others s = Carries-kept t n v st (others n refl) s
  Says-kept (stored v code) st others s = s
  Says-kept (took v) st others s = s
