-- ===== src/Daemon/LinearProbing/Insert.antt =====
-- `Insert` against the map: every way it can end.
use cleancache_rdma.Prelude.{
  ℕ, zero, suc, ◌+◌, ◌%◌, ◌≤◌, ◌<◌, ◌≡◌, ◌≢◌, refl, sym, subst, Bool, true, false, Option, none,
  some, ltb, leb, ◌==◌, ◌&&◌, Bool-cases, ==_iff, inl, inr, arith,
}
use cleancache_rdma.Prelude.Int.{pos, negsuc}
use cleancache_rdma.Daemon.Pair.{invalid, no_value, Run, ok}
use cleancache_rdma.Daemon.LinearProbing.{
  LinearProbing, is_vacant, max_probing_len, set_bucket, Inserted, coll_evict, evict_or_refuse,
  Victims, note_victim, next_range, collide_cur, collide_prev, collide, insert_from,
}
use cleancache_rdma.Daemon.LinearProbing.Placed.{IsKey, Reaches, slot_at}

-- How a call that does not find the key ends, by the slot that it writes.
pub data Outcome (t : LinearProbing) (loc key value now ev_key : ℕ) : Run Inserted → Type 0 where
  placed :
      (s : ℕ)
      → Reaches t loc s
      → is_vacant (t.buckets s) ≡ true
      → Outcome t loc key value now ev_key (
          ok (record {
            ret = pos 0;
            ev_key = ev_key;
            ev_value = no_value;
            table = set_bucket t s key value now;
          }))
  evicted :
      (s : ℕ)
      → Reaches t loc s
      → is_vacant (t.buckets s) ≡ false
      → (t.buckets s).busy ≡ false
      → Outcome t loc key value now ev_key (
          ok (record {
            ret = pos 0;
            ev_key = (t.buckets s).key;
            ev_value = (t.buckets s).value;
            table = set_bucket t s key value now;
          }))
  refused :
      Outcome t loc key value now ev_key
        (ok (record { ret = negsuc 0; ev_key = key; ev_value = value; table = t }))
  skipped :
      t.capacity ≤ max_probing_len
      → Outcome t loc key value now ev_key
          (ok (record { ret = pos 0; ev_key = ev_key; ev_value = no_value; table = t }))

below_suc : (P : ℕ → Type 0) (i : ℕ) → ((j : ℕ) → j < i → P j) → P i → (j : ℕ) → j < i + 1 → P j
below_suc P i below at j h = elim (Bool-cases (j == i)) [
  | inl e ↦ subst P (sym ((==_iff j i).0 e)) at
  | inr e ↦ below j (ground arith)
]

module _ (t : LinearProbing) (loc key value now ev_key : ℕ) (try_lock : ℕ → Bool) where
  -- a slot that the search has passed, with a key in it
  abbrev pub Passed : Option ℕ → Type 0
  Passed none = Unit
  Passed (some s) = Reaches t loc s × (is_vacant (t.buckets s) ≡ false)

  abbrev pub Noted : Victims → Type 0
  Noted v = Passed v.victim_slot × Passed v.prev_victim_slot

  evict_or_refuse-Outcome :
      (s : ℕ)
      → Reaches t loc s
      → is_vacant (t.buckets s) ≡ false
      → Outcome t loc key value now ev_key (evict_or_refuse t key value s now)
  unfolding evict_or_refuse coll_evict
  evict_or_refuse-Outcome s r used = elim (Bool-cases (t.buckets s).busy) [
    | inl e ↦ rw e refused
    | inr e ↦
        let live : ((t.buckets s).key == invalid) ≡ false = ground arith in
        rw (e, live) (evicted s r used e)
  ]

  collide_cur-Outcome :
      (v : Option ℕ) → Passed v → Outcome t loc key value now ev_key (collide_cur t key value now v)
  unfolding collide_cur
  collide_cur-Outcome none h = refused
  collide_cur-Outcome (some s) h = evict_or_refuse-Outcome s h.0 h.1

  collide_prev-Outcome :
      (s : ℕ)
      → Reaches t loc s
      → is_vacant (t.buckets s) ≡ false
      → Outcome t loc key value now ev_key (collide_prev t key value now ev_key s)
  unfolding collide_prev
  collide_prev-Outcome s r used = rw used (evict_or_refuse-Outcome s r used)

  collide_choice :
      (v : Victims) (p : Option ℕ)
      → Passed v.victim_slot
      → Passed p
      → Outcome t loc key value now ev_key
          (collide t key value now ev_key try_lock (record v { prev_victim_slot = p }))
  unfolding collide
  collide_choice v none h h' = collide_cur-Outcome v.victim_slot h
  collide_choice v (some s) h h' =
      elim (Bool-cases (ltb v.prev_min_timestamp v.min_timestamp && try_lock v.prev_lock_idx)) [
        | inl e ↦ rw e (collide_prev-Outcome s h'.0 h'.1)
        | inr e ↦ rw e (collide_cur-Outcome v.victim_slot h)
      ]

  collide-Outcome :
      (v : Victims)
      → Noted v
      → Outcome t loc key value now ev_key (collide t key value now ev_key try_lock v)
  collide-Outcome v h = collide_choice v v.prev_victim_slot h.0 h.1

  note_victim-Noted :
      (v : Victims) (s : ℕ)
      → Reaches t loc s
      → is_vacant (t.buckets s) ≡ false
      → Noted v
      → Noted (note_victim t s v)
  unfolding note_victim
  note_victim-Noted v s r used h = elim (Bool-cases (leb (t.buckets s).timestamp v.min_timestamp)) [
    | inl e ↦ rw e ((r, used), h.1)
    | inr e ↦ rw e h
  ]

  next_range-Noted : (v : Victims) (s s' : ℕ) → Noted v → Noted (next_range s s' v)
  unfolding next_range
  next_range-Noted v s s' h = elim (Bool-cases (s' % 16 == 0)) [
    | inl e ↦ rw e (tt, h.0)
    | inr e ↦ rw e h
  ]

  pub insert_from-Outcome :
      (n i : ℕ) (v : Victims)
      → IsKey key
      → n + i ≡ t.capacity
      → i ≤ max_probing_len
      → ((j : ℕ) → j < i → (t.buckets (slot_at t loc j)).key ≢ invalid)
      → Noted v
      → Outcome t loc key value now ev_key (insert_from t key value now ev_key try_lock loc n i v)
  unfolding insert_from
  insert_from-Outcome zero i v k total le passed h = skipped (omega arith)
  insert_from-Outcome (suc n) i v k total le passed h =
      let s = slot_at t loc i in
      let r : Reaches t loc s = record {
        steps = i;
        within = le;
        inside = omega arith;
        arrives = refl;
        passes = passed;
      } in
      elim (Bool-cases (is_vacant (t.buckets s))) [
        | inl e ↦
            let other : ((t.buckets s).key == key) ≡ false = ground (arith, k.0, k.1) in
            rw (e, other) (placed s r e)
        | inr e ↦
            let h' = note_victim-Noted v s r e h in
            elim (Bool-cases (leb max_probing_len i)) [
              | inl last ↦ rw (e, last) (collide-Outcome _ h')
              | inr more ↦
                  rw (e, more)
                    (insert_from-Outcome n (i + 1) _ k (omega arith) (ground arith)
                      (below_suc (λ j. (t.buckets (slot_at t loc j)).key ≢ invalid) i passed
                        (ground arith))
                      (next_range-Noted _ s _ h'))
            ]
      ]
