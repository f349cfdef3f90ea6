-- ===== src/Daemon/LockFreeStack/Threads/Alone.antt =====
-- A call that no other thread interrupts, against `stack_push` and `stack_pop` as one step each.
use cleancache_rdma.Prelude.{
  ℕ, zero, suc, ◌≡◌, inl, inr, refl, ◌∙◌, true, Option, none, some, update, arith, Option-cases,
}
use cleancache_rdma.Daemon.LockFreeStack.{Head, LockFreeStack, stack_push, stack_pop}
use cleancache_rdma.Daemon.LockFreeStack.Refine.{
  stack_push-none, stack_push-some, stack_pop-none, stack_pop-some,
}
use cleancache_rdma.Daemon.LockFreeStack.Threads.{
  Task, storing, taking, Pc, pop_top, pop_done, pop_exchange, push_start, push_top, failed,
  push_exchange, stored, took, source, target, set_source, set_target, finds, next_head, finished,
  advance,
}

-- `k` steps of one thread, whose exchanges do not fail for no reason
unfoldable pub alone : ℕ → LockFreeStack → Pc → LockFreeStack × Pc
alone zero m p = (m, p)
alone (suc k) m p = alone k (advance m p true).0 (advance m p true).1

finds_self : (h : Head) (o : Option ℕ) → h.node ≡ o → finds true h h ≡ true
unfolding finds
finds_self h none e = ground arith
finds_self h (some n) e = ground arith

pop_wins :
    (m : LockFreeStack) (t : Task) (n : ℕ) (below : Option ℕ)
    → advance m (pop_exchange t (source t m) n below) true
      ≡ (set_source t m (next_head (source t m) below), pop_done t n)
unfolding advance
pop_wins m t n below = rw (finds_self (source t m) (source t m).node refl)

push_wins :
    (m : LockFreeStack) (t : Task) (n v : ℕ)
    → advance m (push_exchange t n v (target t m)) true
      ≡ (set_target t m (next_head (target t m) (some n)), finished t v)
unfolding advance
push_wins m t n v = rw (finds_self (target t m) (target t m).node refl)

pop_reads :
    (m : LockFreeStack) (t : Task) (orig : Head) (n : ℕ)
    → orig.node ≡ some n
    → advance m (pop_top t orig) true ≡ (m, pop_exchange t orig n (m.next n))
unfolding advance
pop_reads m t orig n e = rw e refl

pop_fails :
    (m : LockFreeStack) (t : Task) (orig : Head)
    → orig.node ≡ none
    → advance m (pop_top t orig) true ≡ (m, failed t)
unfolding advance
pop_fails m t orig e = rw e refl

one :
    (k : ℕ) (m : LockFreeStack) (p : Pc) (r : LockFreeStack × Pc)
    → advance m p true ≡ r
    → alone (suc k) m p ≡ alone k r.0 r.1
unfolding alone
one k m p r e = rw e refl

no_step : (m : LockFreeStack) (p : Pc) → alone zero m p ≡ (m, p)
unfolding alone
no_step m p = refl

-- `pop`, and `push`, with no step of another thread between theirs
pop_run :
    (k : ℕ) (m : LockFreeStack) (t : Task) (n : ℕ)
    → (source t m).node ≡ some n
    → alone (suc (suc k)) m (pop_top t (source t m))
      ≡ alone k (set_source t m (next_head (source t m) (m.next n))) (pop_done t n)
pop_run k m t n e =
    one (suc k) m _ _ (pop_reads m t (source t m) n e) ∙ one k m _ _ (pop_wins m t n (m.next n))

push_run :
    (k : ℕ) (m : LockFreeStack) (t : Task) (n v : ℕ)
    → alone (suc (suc (suc k))) m (push_start t n v)
      ≡ alone k
          (set_target t
            (record m { next = update m.next n (target t m).node })
            (next_head (target t m) (some n)))
          (finished t v)
unfolding advance
push_run k m (storing w) n v =
    one (suc (suc k)) m _ (m, push_top (storing w) n v m.head) refl
    ∙ one (suc k) m _
        (record m { next = update m.next n m.head.node }, push_exchange (storing w) n v m.head) refl
    ∙ one k (record m { next = update m.next n m.head.node }) _ _
        (push_wins (record m { next = update m.next n m.head.node }) (storing w) n v)
push_run k m taking n v =
    one (suc (suc k)) m _ (m, push_top taking n v m.free) refl
    ∙ one (suc k) m _
        (record m { next = update m.next n m.free.node }, push_exchange taking n v m.free) refl
    ∙ one k (record m { next = update m.next n m.free.node }) _ _
        (push_wins (record m { next = update m.next n m.free.node }) taking n v)

over_stays : (k : ℕ) (m : LockFreeStack) (p : Pc) → advance m p true ≡ (m, p) → alone k m p ≡ (m, p)
unfolding alone
over_stays zero m p e = refl
over_stays (suc k) m p e = rw e (over_stays k m p e)

-- Six steps of a thread from the first load of `stack_push` on, with no step of another between
-- them, are `stack_push`: they leave the same memory and return the same code. So it is with
-- `stack_pop`.
pub alone-stack_calls :
    (m : LockFreeStack) (v : ℕ)
    → (alone 6 m (pop_top (storing v) m.free) ≡ ((stack_push m v).1, stored v (stack_push m v).0))
      × (alone 6 m (pop_top taking m.head) ≡ ((stack_pop m).1, took (stack_pop m).0))
unfolding advance
alone-stack_calls m v = (
  elim (Option-cases m.free.node) [
    | inl e ↦
        rw (stack_push-none m v e)
          (one 5 m _ _ (pop_fails m (storing v) m.free e) ∙ over_stays 5 m _ refl)
    | inr (n, e) ↦ rw (stack_push-some m v n e) (
        pop_run 4 m (storing v) n e ∙ one 3 _ _ _ refl ∙ push_run 0 _ (storing v) n v ∙ no_step _ _)
  ],
  elim (Option-cases m.head.node) [
    | inl e ↦
        rw (stack_pop-none m e) (one 5 m _ _ (pop_fails m taking m.head e) ∙ over_stays 5 m _ refl)
    | inr (n, e) ↦ rw (stack_pop-some m n e) (
        pop_run 4 m taking n e ∙ one 3 _ _ _ refl ∙ push_run 0 _ taking n (m.value n) ∙ no_step _ _)
  ],
)
