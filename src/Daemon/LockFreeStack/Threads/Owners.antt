-- ===== src/Daemon/LockFreeStack/Threads/Owners.antt =====
-- Which thread has a node in its hands.
use native.Mathlib.Decide.{ℕ_discrete}
use cleancache_rdma.Prelude.{
  ℕ, ◌<◌, ◌≡◌, ◌≢◌, ◌↔◌, subst, List, Option, none, some, Array, update, arith,
}
use cleancache_rdma.Daemon.LockFreeStack.Lists.{NotIn}
use cleancache_rdma.Daemon.LockFreeStack.Threads.{
  Pc, idle, pop_top, pop_exchange, pop_done, push_start, push_top, push_exchange, stored, took,
}

-- the node that only this thread may write
abbrev pub owner : Pc → Option ℕ
owner idle = none
owner (pop_top t orig) = none
owner (pop_exchange t orig n next) = none
owner (pop_done t n) = some n
owner (push_start t n v) = some n
owner (push_top t n v orig) = some n
owner (push_exchange t n v orig) = some n
owner (stored v code) = none
owner (took v) = none

-- `all` are the nodes of both lists: no thread has one of them, no two threads have the same node,
-- and each node that is in no list is in a thread's hands.
pub record Owners (num_elems : ℕ) (pc : Array Pc) (all : List ℕ) : Type 0 where
  pub held : (i n : ℕ) → owner (pc i) ≡ some n → NotIn n all
  pub apart : (i j n : ℕ) → owner (pc i) ≡ some n → owner (pc j) ≡ some n → i ≡ j
  pub complete : (n : ℕ) → n < num_elems → NotIn n all → (i : ℕ) × (owner (pc i) ≡ some n)

-- `ys` has the nodes of `xs`, and `n`.
abbrev pub Adds : ℕ → List ℕ → List ℕ → Type 0
Adds n xs ys = (k : ℕ) → NotIn k ys ↔ ((k ≢ n) × NotIn k xs)

-- A node moves between the lists and the thread that takes a step.
pub data Shift (own own' : Option ℕ) (xs ys : List ℕ) : Type 0 where
  none_moved : own' ≡ own → ys ≡ xs → Shift own own' xs ys
  to_thread :
      (n : ℕ) → own ≡ none → own' ≡ some n → NotIn n ys → Adds n ys xs → Shift own own' xs ys
  to_list : (n : ℕ) → own ≡ some n → own' ≡ none → Adds n xs ys → Shift own own' xs ys

-- the thread's own counter, and another's
pub update-here : (pc : Array Pc) (i : ℕ) (p : Pc) → update pc i p i ≡ p
update-here pc i p = ground arith

pub update-there : (pc : Array Pc) (i j : ℕ) (p : Pc) → j ≢ i → update pc i p j ≡ pc j
update-there pc i j p ne = ground arith

module _ (num_elems : ℕ) (pc : Array Pc) (i : ℕ) (p' : Pc) (xs ys : List ℕ)
    (o : Owners num_elems pc xs) where
  pub Owners-Shift : Shift (owner (pc i)) (owner p') xs ys → Owners num_elems (update pc i p') ys
  Owners-Shift (none_moved e same) = record {
    held = λ j n has. ground (arith, o.held j n, o.held i n);
    apart = λ j k n has has'. ground (arith, o.apart j k n, o.apart i k n, o.apart j i n);
    complete = λ n lt out.
        let j = o.complete n lt (subst (NotIn n) same out) in (j.0, ground (arith, j.1));
  }
  Owners-Shift (to_thread n e e' out adds) = record {
    held = λ j k has. ground (arith, o.held j k, adds k);
    apart = λ j k m has has'. ground (arith, o.apart j k m, o.held j n, o.held k n, adds n);
    complete = λ k lt outs. elim (ℕ_discrete k n) [
      | yes same ↦ (i, ground arith)
      | no ne ↦ let j = o.complete k lt ((adds k).1 (ne, outs)) in (j.0, ground (arith, j.1))
    ];
  }
  Owners-Shift (to_list n e e' adds) = record {
    held = λ j k has. ground (arith, o.held j k, adds k, o.apart i j n);
    apart = λ j k m has has'. ground (arith, o.apart j k m);
    complete = λ k lt outs.
        let j = o.complete k lt ((adds k).0 outs).1 in (j.0, ground (arith, j.1, (adds k).0 outs));
  }
