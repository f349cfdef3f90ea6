-- ===== src/Daemon/LockFreeStack/Refine.antt =====
-- The stack against a list of at most `num_elems` values.
use cleancache_rdma.Prelude.{
  ℕ, zero, suc, ◌+◌, ◌-◌, ◌%◌, ◌^◌, ◌≤◌, ◌<◌, ◌≡◌, refl, ap, true, false, List, [], ◌∷◌, ◌++◌,
  Option, none, some, ltb, if◌then◌else◌, length, Array, update, arith,
}
use cleancache_rdma.Prelude.Int.{ℤ, pos, negsuc}
use cleancache_rdma.Daemon.LockFreeStack.{
  LockFreeStack, fill_from, new, push, pop, stack_push, stack_pop, no_addr,
}
use cleancache_rdma.Daemon.LockFreeStack.Lists.{
  Linked, Distinct, Linked-update, NotIn-append_left, NotIn-append_right, Distinct-to_front,
  Distinct-to_middle, values, values-update, range, Distinct-range,
}

-- What the two calls mean on a list of at most `cap` values, the last one pushed first.
unfoldable pub push_value : ℕ → List ℕ → ℕ → ℤ × List ℕ
push_value cap vs v = if ltb (length vs) cap then (pos 0, v ∷ vs) else (negsuc 0, vs)

unfoldable pub pop_value : List ℕ → ℕ × List ℕ
pop_value [] = (no_addr, [])
pop_value (v ∷ vs) = (v, vs)

-- The nodes in use hold `vs`, the others stand in the free list, and none is in both.
pub record Represents (t : LockFreeStack) (vs : List ℕ) : Type 0 where
  pub nodes : List ℕ
  pub frees : List ℕ
  pub used : Linked t.next t.head.node nodes
  pub unused : Linked t.next t.free.node frees
  pub distinct : Distinct (nodes ++ frees)
  pub holds : values t.value nodes ≡ vs
  pub complete : length nodes + length frees ≡ t.num_elems

length-values : (value : Array ℕ) (xs : List ℕ) → length (values value xs) ≡ length xs
length-values value [] = refl
length-values value (x ∷ xs) = ap suc (length-values value xs)

pub stack_push-none :
    (t : LockFreeStack) (v : ℕ) → t.free.node ≡ none → stack_push t v ≡ (negsuc 0, t)
unfolding stack_push pop
stack_push-none t v e = ground arith

pub stack_push-some :
    (t : LockFreeStack) (v n : ℕ)
    → t.free.node ≡ some n
    → stack_push t v ≡ (
      pos 0,
      record t {
        value = update t.value n v;
        next = update t.next n t.head.node;
        head = record { aba = (t.head.aba + 1) % 2 ^ 64; node = some n };
        free = record { aba = (t.free.aba + 1) % 2 ^ 64; node = t.next n };
      },
    )
unfolding stack_push push pop
stack_push-some t v n e = ground arith

pub stack_pop-none : (t : LockFreeStack) → t.head.node ≡ none → stack_pop t ≡ (no_addr, t)
unfolding stack_pop pop
stack_pop-none t e = ground arith

pub stack_pop-some :
    (t : LockFreeStack) (n : ℕ)
    → t.head.node ≡ some n
    → stack_pop t ≡ (
      t.value n,
      record t {
        next = update t.next n t.free.node;
        head = record { aba = (t.head.aba + 1) % 2 ^ 64; node = t.next n };
        free = record { aba = (t.free.aba + 1) % 2 ^ 64; node = some n };
      },
    )
unfolding stack_pop push pop
stack_pop-some t n e = ground arith

-- the invariant with its lists as arguments
module _ (t : LockFreeStack) (vs : List ℕ) where
  push_lists :
      (v : ℕ) (nodes frees : List ℕ)
      → Linked t.next t.head.node nodes
      → Linked t.next t.free.node frees
      → Distinct (nodes ++ frees)
      → values t.value nodes ≡ vs
      → length nodes + length frees ≡ t.num_elems
      → ((stack_push t v).0 ≡ (push_value t.num_elems vs v).0)
        × Represents (stack_push t v).1 (push_value t.num_elems vs v).1
  unfolding push_value
  push_lists v nodes [] used unused distinct holds complete =
      let full : ltb (length vs) t.num_elems ≡ false =
        ground (arith, length-values t.value nodes, ap length holds) in
      rw (stack_push-none t v unused, full)
        (
          refl,
          record {
            nodes = nodes;
            frees = [];
            used = used;
            unused = unused;
            distinct = distinct;
            holds = holds;
            complete = complete;
          },
        )
  push_lists v nodes (f ∷ fs) used unused distinct holds complete =
      let room : ltb (length vs) t.num_elems ≡ true =
        ground (arith, length-values t.value nodes, ap length holds) in
      let moved = Distinct-to_front f nodes fs distinct in
      let off_nodes = NotIn-append_left f nodes fs moved.0 in
      let off_frees = NotIn-append_right f nodes fs moved.0 in
      let linked : update t.next f t.head.node f ≡ t.head.node = ground arith in
      let stored : update t.value f v f ≡ v = ground arith in
      rw (stack_push-some t v f unused.0, room)
        (
          refl,
          record {
            nodes = f ∷ nodes;
            frees = fs;
            used = (refl, rw linked (Linked-update t.next f _ _ nodes off_nodes used));
            unused = Linked-update t.next f _ _ fs off_frees unused.1;
            distinct = moved;
            holds = rw (stored, values-update t.value f v nodes off_nodes, holds);
            complete = omega arith;
          },
        )

  pop_lists :
      (nodes frees : List ℕ)
      → Linked t.next t.head.node nodes
      → Linked t.next t.free.node frees
      → Distinct (nodes ++ frees)
      → values t.value nodes ≡ vs
      → length nodes + length frees ≡ t.num_elems
      → ((stack_pop t).0 ≡ (pop_value vs).0) × Represents (stack_pop t).1 (pop_value vs).1
  unfolding pop_value
  pop_lists [] frees used unused distinct holds complete =
      rw (stack_pop-none t used, ← holds)
        (
          refl,
          record {
            nodes = [];
            frees = frees;
            used = used;
            unused = unused;
            distinct = distinct;
            holds = refl;
            complete = complete;
          },
        )
  pop_lists (x ∷ ns) frees used unused distinct holds complete =
      let off_nodes = NotIn-append_left x ns frees distinct.0 in
      let off_frees = NotIn-append_right x ns frees distinct.0 in
      let linked : update t.next x t.free.node x ≡ t.free.node = ground arith in
      rw (stack_pop-some t x used.0, ← holds)
        (
          refl,
          record {
            nodes = ns;
            frees = x ∷ frees;
            used = Linked-update t.next x _ _ ns off_nodes used.1;
            unused = (refl, rw linked (Linked-update t.next x _ _ frees off_frees unused));
            distinct = Distinct-to_middle x ns frees distinct;
            holds = refl;
            complete = omega arith;
          },
        )

-- `stack_push` stores the value on top and returns 0 while fewer than `num_elems` are held; after
-- that it returns -1 and changes nothing.
pub stack_push-refines :
    (t : LockFreeStack) (vs : List ℕ) (v : ℕ)
    → Represents t vs
    → ((stack_push t v).0 ≡ (push_value t.num_elems vs v).0)
      × Represents (stack_push t v).1 (push_value t.num_elems vs v).1
stack_push-refines t vs v r =
    push_lists t vs v r.nodes r.frees r.used r.unused r.distinct r.holds r.complete

-- `stack_pop` returns the value that was pushed last and removes it; on an empty stack it returns
-- -1 and changes nothing.
pub stack_pop-refines :
    (t : LockFreeStack) (vs : List ℕ)
    → Represents t vs
    → ((stack_pop t).0 ≡ (pop_value vs).0) × Represents (stack_pop t).1 (pop_value vs).1
stack_pop-refines t vs r =
    pop_lists t vs r.nodes r.frees r.used r.unused r.distinct r.holds r.complete

fill_from-past : (n i : ℕ) (next : Array (Option ℕ)) (j : ℕ) → j < i → fill_from n i next j ≡ next j
unfolding fill_from
fill_from-past zero i next j h = refl
fill_from-past (suc n) i next j h =
    ground (arith, fill_from-past n (i + 1) (update next i (some (i + 1))) j)

fill_from-link :
    (n i : ℕ) (next : Array (Option ℕ)) (j : ℕ)
    → i ≤ j
    → j < i + n
    → fill_from n i next j ≡ some (j + 1)
unfolding fill_from
fill_from-link zero i next j lo hi = absurd (omega arith)
fill_from-link (suc n) i next j lo hi =
    let next' = update next i (some (i + 1)) in
    ground (arith, fill_from-link n (i + 1) next' j, fill_from-past n (i + 1) next' j)

pub fresh_Linked :
    (next : Array (Option ℕ)) (num_elems n i : ℕ)
    → suc n + i ≡ num_elems
    → Linked
        (update (fill_from (num_elems - 1) 0 next) (num_elems - 1) none)
        (some i)
        (range (suc n) i)
fresh_Linked next num_elems zero i e = (refl, ground arith)
fresh_Linked next num_elems (suc n) i e =
    let links = update (fill_from (num_elems - 1) 0 next) (num_elems - 1) none in
    let step : links i ≡ some (i + 1) = ground (arith, fill_from-link (num_elems - 1) 0 next i) in
    (refl, rw step (fresh_Linked next num_elems n (i + 1) (omega arith)))

length-range : (n i : ℕ) → length (range n i) ≡ n
length-range zero i = refl
length-range (suc n) i = ap suc (length-range n (i + 1))

-- The constructor makes an empty stack of `num_elems` free nodes, for any number but 0.
pub new-Represents :
    (n : ℕ) (value : Array ℕ) (next : Array (Option ℕ)) → Represents (new (suc n) value next) []
unfolding new
new-Represents n value next = record {
  nodes = [];
  frees = range (suc n) 0;
  used = refl;
  unused = fresh_Linked next (suc n) n 0 (omega arith);
  distinct = Distinct-range (suc n) 0;
  holds = refl;
  complete = omega (arith, length-range (suc n) 0);
}
