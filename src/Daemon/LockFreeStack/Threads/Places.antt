-- ===== src/Daemon/LockFreeStack/Threads/Places.antt =====
-- What the writes of a thread do to the two lists of nodes.
use cleancache_rdma.Prelude.{ℕ, ◌≡◌, refl, subst, List, [], ◌∷◌, ◌++◌, Option, none, some, update}
use cleancache_rdma.Daemon.LockFreeStack.{LockFreeStack}
use cleancache_rdma.Daemon.LockFreeStack.Lists.{
  Linked, NotIn, Distinct, Linked-update, NotIn-append_left, NotIn-append_right, NotIn-drop,
  NotIn-put, Distinct-to_front, Distinct-to_middle,
}
use cleancache_rdma.Daemon.LockFreeStack.Threads.{
  Task, storing, taking, source, target, set_source, set_target,
}
use cleancache_rdma.Daemon.LockFreeStack.Threads.Owners.{Adds}

-- the lists behind the two heads, of distinct nodes
pub record Places (m : LockFreeStack) (nodes frees : List ℕ) : Type 0 where
  pub used : Linked m.next m.head.node nodes
  pub unused : Linked m.next m.free.node frees
  pub distinct : Distinct (nodes ++ frees)

-- the nodes in use, after a `pop` of `t` and after a `push`
abbrev pub AfterPop : Task → ℕ → List ℕ → List ℕ → Type 0
AfterPop (storing v) n nodes nodes' = nodes' ≡ nodes
AfterPop taking n nodes nodes' = nodes ≡ n ∷ nodes'

abbrev pub AfterPush : Task → ℕ → List ℕ → List ℕ → Type 0
AfterPush (storing v) n nodes nodes' = nodes' ≡ n ∷ nodes
AfterPush taking n nodes nodes' = nodes' ≡ nodes

Adds-middle : (n : ℕ) (xs ys : List ℕ) → Adds n (xs ++ ys) (xs ++ n ∷ ys)
Adds-middle n xs ys k = (NotIn-drop k n xs ys, λ h. NotIn-put k n xs ys h.0 h.1)

Adds-front : (n : ℕ) (xs : List ℕ) → Adds n xs (n ∷ xs)
Adds-front n xs k = (λ h. h, λ h. h)

-- The lists after an exchange that takes node `n` off the source.
pub record Popped (t : Task) (m : LockFreeStack) (nodes frees : List ℕ) (aba n : ℕ) : Type 0 where
  pub nodes' : List ℕ
  pub frees' : List ℕ
  pub places : Places (set_source t m (record { aba = aba; node = m.next n })) nodes' frees'
  pub out : NotIn n (nodes' ++ frees')
  pub adds : Adds n (nodes' ++ frees') (nodes ++ frees)
  pub after : AfterPop t n nodes nodes'

pub pop_list :
    (t : Task) (m : LockFreeStack) (nodes frees : List ℕ) (n aba : ℕ)
    → Places m nodes frees
    → (source t m).node ≡ some n
    → Popped t m nodes frees aba n
pop_list (storing v) m nodes [] n aba p top =
    let none_left : m.free.node ≡ none = p.unused in absurd (cc)
pop_list (storing v) m nodes (x ∷ fs) n aba p top =
    let same : x ≡ n = cc in
    subst (Popped (storing v) m nodes (x ∷ fs) aba) same (record {
      nodes' = nodes;
      frees' = fs;
      places = record {
        used = p.used;
        unused = p.unused.1;
        distinct = (Distinct-to_front x nodes fs p.distinct).1;
      };
      out = (Distinct-to_front x nodes fs p.distinct).0;
      adds = Adds-middle x nodes fs;
      after = refl;
    })
pop_list taking m [] frees n aba p top = let none_left : m.head.node ≡ none = p.used in absurd (cc)
pop_list taking m (x ∷ xs) frees n aba p top =
    let same : x ≡ n = cc in
    subst (Popped taking m (x ∷ xs) frees aba) same (record {
      nodes' = xs;
      frees' = frees;
      places = record { used = p.used.1; unused = p.unused; distinct = p.distinct.1 };
      out = p.distinct.0;
      adds = Adds-front x (xs ++ frees);
      after = refl;
    })

-- The lists after an exchange that puts node `n` on the target.
pub record Pushed (t : Task) (m : LockFreeStack) (nodes frees : List ℕ) (aba n : ℕ) : Type 0 where
  pub nodes' : List ℕ
  pub frees' : List ℕ
  pub places : Places (set_target t m (record { aba = aba; node = some n })) nodes' frees'
  pub adds : Adds n (nodes ++ frees) (nodes' ++ frees')
  pub after : AfterPush t n nodes nodes'

pub push_list :
    (t : Task) (m : LockFreeStack) (nodes frees : List ℕ) (n aba : ℕ)
    → Places m nodes frees
    → NotIn n (nodes ++ frees)
    → m.next n ≡ (target t m).node
    → Pushed t m nodes frees aba n
push_list (storing v) m nodes frees n aba p out link = record {
  nodes' = n ∷ nodes;
  frees' = frees;
  places = record {
    used = (refl, rw link p.used);
    unused = p.unused;
    distinct = (out, p.distinct);
  };
  adds = Adds-front n (nodes ++ frees);
  after = refl;
}
push_list taking m nodes frees n aba p out link = record {
  nodes' = nodes;
  frees' = n ∷ frees;
  places = record {
    used = p.used;
    unused = (refl, rw link p.unused);
    distinct = Distinct-to_middle n nodes frees (out, p.distinct);
  };
  adds = Adds-middle n nodes frees;
  after = refl;
}

pub link_list :
    (m : LockFreeStack) (nodes frees : List ℕ) (n : ℕ) (o : Option ℕ)
    → Places m nodes frees
    → NotIn n (nodes ++ frees)
    → Places (record m { next = update m.next n o }) nodes frees
link_list m nodes frees n o p out = record {
  used = Linked-update m.next n o _ nodes (NotIn-append_left n nodes frees out) p.used;
  unused = Linked-update m.next n o _ frees (NotIn-append_right n nodes frees out) p.unused;
  distinct = p.distinct;
}
