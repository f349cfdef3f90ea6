-- ===== src/Daemon/LinearProbing/Evicted.antt =====
-- What `Evict` takes out, and when it returns.
use cleancache_rdma.Prelude.{
  ℕ, zero, suc, ◌+◌, ◌%◌, ◌≤◌, ◌<◌, ◌≡◌, ◌≢◌, refl, sym, subst, Bool, false, ◌||◌, Option, none,
  some, ◌⊎◌, ltb, ◌==◌, Bool-cases, ==_iff, lt→ltb, inl, inr, arith,
}
use cleancache_rdma.Daemon.Pair.{invalid, tombstone, no_value, Run, ok}
use cleancache_rdma.Daemon.LinearProbing.{LinearProbing, Victims, no_victims, max_probing_len}
use cleancache_rdma.Daemon.LinearProbing.Placed.{IsKey, IsPlaced}
use cleancache_rdma.Daemon.LinearProbing.View.{view, view-finds}
use cleancache_rdma.Daemon.LinearProbing.Store.{Without, set_tombstone-Without}
use cleancache_rdma.Daemon.LinearProbing.Evict.{
  restart, take_out, attempt, evict_from, evict, max_evict_retry,
}
use cleancache_rdma.Daemon.LinearProbing.Attempts.{
  IsLive, AreLive, Ends, attempt_from-Ends, IsLucky, IsOut, attempt_from-IsOut, Attempt-cases,
}

-- What a call takes out: a pair of the table, which is then the table without that key.
pub data Taken (hash_funcs : ℕ → ℕ → ℕ) (t : LinearProbing)
    : Option (Run (ℕ × ℕ × LinearProbing)) → Type 0 where
  taken :
      (key value : ℕ) {t' : LinearProbing}
      → IsKey key
      → view hash_funcs t key ≡ some value
      → value ≢ no_value
      → Without hash_funcs t key t'
      → Taken hash_funcs t (some (ok (key, value, t')))

-- every pair of the table has a value
abbrev pub HasValues : LinearProbing → Type 0
HasValues t = (s : ℕ) → IsLive t s → (t.buckets s).value ≢ no_value

take_out-Taken :
    (hash_funcs : ℕ → ℕ → ℕ) (t : LinearProbing) (s : ℕ)
    → IsPlaced hash_funcs t
    → HasValues t
    → IsLive t s
    → Taken hash_funcs t (some (take_out t s))
unfolding take_out
take_out-Taken hash_funcs t s p values live =
    let key : ((t.buckets s).key == invalid || (t.buckets s).key == tombstone) ≡ false =
      ground (arith, live.1.0, live.1.1) in
    let value : ((t.buckets s).value == no_value) ≡ false = ground (arith, values s live) in
    rw (key, value)
      (taken (t.buckets s).key (t.buckets s).value live.1
        (view-finds hash_funcs t (t.buckets s).key s p live.1 live.0 refl) (values s live)
        (set_tombstone-Without hash_funcs t s p live.0))

module _ (hash_funcs : ℕ → ℕ → ℕ) (rand : ℕ → ℕ) (try_lock try_prev : ℕ → ℕ → Bool)
    (t : LinearProbing) (placed : IsPlaced hash_funcs t) (values : HasValues t)
    (large : max_probing_len < t.capacity) where
  attempt-IsOut :
      (c : ℕ) (v : Victims)
      → IsLucky rand try_lock t c
      → IsOut t (attempt rand try_lock try_prev t c v)
  unfolding attempt
  attempt-IsOut c v lucky = rw (lt→ltb max_evict_retry c lucky.late) (
      attempt_from-IsOut t (try_lock c) (try_prev c) (rand c % t.capacity) lucky.offset t.capacity 0
        (restart v) lucky.unlocked lucky.idle (omega arith) (omega arith) lucky.near
        (omega (arith, lucky.near)) lucky.valid)

  attempt-Ends : (c : ℕ) (v : Victims) → AreLive t v → Ends t (attempt rand try_lock try_prev t c v)
  unfolding attempt
  attempt-Ends c v a =
      attempt_from-Ends t (ltb max_evict_retry c) (try_lock c) (try_prev c) (rand c % t.capacity)
        t.capacity 0 (restart v) (omega arith) (omega arith) (record { cur = a.cur; prev = tt })

  evict_from-Taken :
      (n c g : ℕ) (v : Victims)
      → c ≤ g
      → g < c + n
      → IsLucky rand try_lock t g
      → AreLive t v
      → Taken hash_funcs t (evict_from rand try_lock try_prev t n c v)
  unfolding evict_from
  evict_from-Taken zero c g v le below lucky a = absurd (omega arith)
  evict_from-Taken (suc n) c g v le below lucky a =
      elim (Attempt-cases (attempt rand try_lock try_prev t c v)) [
        | inl (v', e) ↦ elim (Bool-cases (c == g)) [
          | inl same ↦
              let now = subst (λ x. IsLucky rand try_lock t x) (sym ((==_iff c g).0 same)) lucky in
              absurd (subst (IsOut t) e (attempt-IsOut c v now))
          | inr later ↦
              rw (evict_from, e)
                (evict_from-Taken n (c + 1) g v' (ground arith) (omega arith) lucky
                  (subst (Ends t) e (attempt-Ends c v a)))
        ]
        | inr (inl (s, e)) ↦
            rw (evict_from, e)
              (take_out-Taken hash_funcs t s placed values (subst (Ends t) e (attempt-Ends c v a)))
        | inr (inr e) ↦ absurd (let small = subst (Ends t) e (attempt-Ends c v a) in omega arith)
      ]

  -- The same without luck: the attempts are over, or a pair is out.
  evict_from-Taken_or_none :
      (n c : ℕ) (v : Victims)
      → AreLive t v
      → (evict_from rand try_lock try_prev t n c v ≡ none)
        ⊎ Taken hash_funcs t (evict_from rand try_lock try_prev t n c v)
  unfolding evict_from
  evict_from-Taken_or_none zero c v a = inl refl
  evict_from-Taken_or_none (suc n) c v a =
      elim (Attempt-cases (attempt rand try_lock try_prev t c v)) [
        | inl (v', e) ↦
            rw (evict_from, e)
              (evict_from-Taken_or_none n (c + 1) v' (subst (Ends t) e (attempt-Ends c v a)))
        | inr (inl (s, e)) ↦
            rw (evict_from, e)
              (inr (
                take_out-Taken hash_funcs t s placed values
                  (subst (Ends t) e (attempt-Ends c v a))))
        | inr (inr e) ↦ absurd (let small = subst (Ends t) e (attempt-Ends c v a) in omega arith)
      ]

  pub evict-Taken_or_none :
      (fuel : ℕ)
      → (evict rand try_lock try_prev t fuel ≡ none)
        ⊎ Taken hash_funcs t (evict rand try_lock try_prev t fuel)
  unfolding evict
  evict-Taken_or_none fuel =
      evict_from-Taken_or_none fuel 0 no_victims (record { cur = tt; prev = tt })

-- From a well-placed table of more than 15 buckets whose pairs all have values, `Evict` returns
-- once one of its attempts is lucky, at the latest; it throws nothing, and it takes out one pair,
-- with the value that the map has for its key, and no other.
pub evict-Taken :
    (hash_funcs : ℕ → ℕ → ℕ) (rand : ℕ → ℕ) (try_lock try_prev : ℕ → ℕ → Bool) (t : LinearProbing)
    (fuel c : ℕ)
    → IsPlaced hash_funcs t
    → HasValues t
    → max_probing_len < t.capacity
    → IsLucky rand try_lock t c
    → c < fuel
    → Taken hash_funcs t (evict rand try_lock try_prev t fuel)
unfolding evict
evict-Taken hash_funcs rand try_lock try_prev t fuel c placed values large lucky below =
    evict_from-Taken hash_funcs rand try_lock try_prev t placed values large fuel 0 c no_victims
      (omega arith) (omega arith) lucky (record { cur = tt; prev = tt })
