-- ===== src/Daemon/LinearProbing/Attempts.antt =====
-- What one attempt of `Evict` ends with.
use cleancache_rdma.Prelude.{
  ℕ, zero, suc, ◌+◌, ◌/◌, ◌%◌, ◌≤◌, ◌<◌, ◌≡◌, ◌≢◌, ◌⊎◌, refl, subst, Bool, true, false, not, ◌&&◌,
  ◌||◌, Option, none, some, ltb, leb, ◌==◌, if◌then◌else◌, Bool-cases, Option-cases, inl, inr,
  arith,
}
use cleancache_rdma.Daemon.LinearProbing.{
  LinearProbing, Victims, max_probing_len, lock_size, is_vacant, is_valid, note_victim, next_range,
}
use cleancache_rdma.Daemon.LinearProbing.Placed.{IsKey}
use cleancache_rdma.Daemon.LinearProbing.Evict.{
  Attempt, retry, out, past, out_direct, attempt_from, max_evict_retry,
}

-- a bucket of the table that holds a pair
abbrev pub IsLive : LinearProbing → ℕ → Type 0
IsLive t s = (s < t.capacity) × IsKey (t.buckets s).key

abbrev pub LiveSlot : LinearProbing → Option ℕ → Type 0
LiveSlot t none = Unit
LiveSlot t (some s) = IsLive t s

pub record AreLive (t : LinearProbing) (v : Victims) : Type 0 where
  pub cur : LiveSlot t v.victim_slot
  pub prev : LiveSlot t v.prev_victim_slot

-- An attempt names live buckets only, and passes the last slot in a small table only.
abbrev pub Ends : LinearProbing → Attempt → Type 0
Ends t (retry v) = AreLive t v
Ends t (out s) = IsLive t s
Ends t past = t.capacity ≤ max_probing_len

valid-IsKey : (t : LinearProbing) (s : ℕ) → is_valid (t.buckets s) ≡ true → IsKey (t.buckets s).key
valid-IsKey t s h = (ground arith, ground arith)

out_direct-Ends :
    (t : LinearProbing) (try_prev : ℕ → Bool) (v : Victims)
    → AreLive t v
    → Ends t (out_direct t try_prev v)
unfolding out_direct
out_direct-Ends t try_prev v a = elim (Option-cases v.victim_slot) [
  | inl e ↦ rw e (record { cur = tt; prev = a.prev })
  | inr (cur, e) ↦ elim (Option-cases v.prev_victim_slot) [
    | inl e' ↦ rw (e, e') (subst (LiveSlot t) e a.cur)
    | inr (prev, e') ↦
        let chosen =
          ltb v.prev_min_timestamp v.min_timestamp
          && try_prev v.prev_lock_idx
          && not (is_vacant (t.buckets prev)) in
        elim (Bool-cases chosen) [
          | inl c ↦ rw (e, e', c) (subst (LiveSlot t) e' a.prev)
          | inr c ↦ rw (e, e', c) (subst (LiveSlot t) e a.cur)
        ]
  ]
]

note_victim-AreLive :
    (t : LinearProbing) (s : ℕ) (v : Victims)
    → IsLive t s
    → AreLive t v
    → AreLive t (note_victim t s v)
unfolding note_victim
note_victim-AreLive t s v l a = elim (Bool-cases (leb (t.buckets s).timestamp v.min_timestamp)) [
  | inl e ↦ rw e (record { cur = l; prev = a.prev })
  | inr e ↦ rw e a
]

next_range-AreLive :
    (t : LinearProbing) (s s' : ℕ) (v : Victims) → AreLive t v → AreLive t (next_range s s' v)
unfolding next_range
next_range-AreLive t s s' v a = elim (Bool-cases (s' % lock_size == 0)) [
  | inl e ↦ rw e (record { cur = tt; prev = a.cur })
  | inr e ↦ rw e a
]

module _ (t : LinearProbing) (at_once : Bool) (try_lock try_prev : ℕ → Bool) (loc : ℕ) where
  pub attempt_from-Ends :
      (n i : ℕ) (v : Victims)
      → n + i ≡ t.capacity
      → i ≤ max_probing_len
      → AreLive t v
      → Ends t (attempt_from t at_once try_lock try_prev loc n i v)
  unfolding attempt_from
  attempt_from-Ends zero i v shape near a = omega arith
  attempt_from-Ends (suc n) i v shape near a =
      let slot = (loc + i) % t.capacity in
      let bucket = t.buckets slot in
      let noted = if is_valid bucket then note_victim t slot v else v in
      let inside : slot < t.capacity = grind arith in
      let noted_live : AreLive t noted = elim (Bool-cases (is_valid bucket)) [
        | inl e ↦ rw e (note_victim-AreLive t slot v (inside, valid-IsKey t slot e) a)
        | inr e ↦ rw e a
      ] in
      elim (Bool-cases ((i == 0 || slot % lock_size == 0) && not (try_lock (slot / lock_size)))) [
        | inl e ↦ rw e a
        | inr e ↦ rw e (elim (Bool-cases (is_valid bucket && bucket.busy)) [
          | inl used ↦ rw used a
          | inr idle ↦ rw idle (elim (Bool-cases (is_valid bucket && at_once)) [
            | inl now ↦ rw now (
                out_direct-Ends t try_prev _
                  (record { cur = (inside, valid-IsKey t slot (ground arith)); prev = tt }))
            | inr search ↦ rw search (elim (Bool-cases (leb max_probing_len i)) [
              | inl last ↦ rw last (out_direct-Ends t try_prev noted noted_live)
              | inr more ↦ rw more (
                  attempt_from-Ends n (i + 1) _ (omega arith) (ground arith)
                    (next_range-AreLive t slot _ noted noted_live))
            ])
          ])
        ])
      ]

-- Attempt `c` takes the first pair that it meets: it is past the second retry, no lock that it asks
-- for is taken, no bucket is busy, and one of the 16 buckets that it probes is valid.
pub record IsLucky (rand : ℕ → ℕ) (try_lock : ℕ → ℕ → Bool) (t : LinearProbing) (c : ℕ)
    : Type 0 where
  pub late : max_evict_retry < c
  pub unlocked : (idx : ℕ) → try_lock c idx ≡ true
  pub idle : (s : ℕ) → s < t.capacity → (t.buckets s).busy ≡ false
  pub offset : ℕ
  pub near : offset ≤ max_probing_len
  pub valid : is_valid (t.buckets ((rand c % t.capacity + offset) % t.capacity)) ≡ true

abbrev pub IsOut : LinearProbing → Attempt → Type 0
IsOut t (retry v) = ⊥
IsOut t (out s) = IsLive t s
IsOut t past = ⊥

and_false : (b : Bool) → (b && false) ≡ false
and_false true = refl
and_false false = refl

pub attempt_from-IsOut :
    (t : LinearProbing) (try_lock try_prev : ℕ → Bool) (loc j n i : ℕ) (v : Victims)
    → ((idx : ℕ) → try_lock idx ≡ true)
    → ((s : ℕ) → s < t.capacity → (t.buckets s).busy ≡ false)
    → n + i ≡ t.capacity
    → i ≤ j
    → j ≤ max_probing_len
    → j < t.capacity
    → is_valid (t.buckets ((loc + j) % t.capacity)) ≡ true
    → IsOut t (attempt_from t true try_lock try_prev loc n i v)
unfolding attempt_from out_direct
attempt_from-IsOut t try_lock try_prev loc j zero i v unlocked idle shape le near inside valid =
    absurd (omega arith)
attempt_from-IsOut t try_lock try_prev loc j (suc n) i v unlocked idle shape le near inside valid =
    let slot = (loc + i) % t.capacity in
    let below : slot < t.capacity = grind arith in
    rw (unlocked (slot / lock_size), idle slot below, and_false (i == 0 || slot % lock_size == 0))
      (elim (Bool-cases (is_valid (t.buckets slot))) [
        | inl e ↦ rw e (below, valid-IsKey t slot e)
        | inr e ↦
            let apart : i ≢ j = λ same.
              let here =
                subst (λ x. is_valid (t.buckets ((loc + x) % t.capacity)) ≡ false) same e in
              ground arith in
            let more : leb max_probing_len i ≡ false = ground arith in
            rw (e, more)
              (attempt_from-IsOut t try_lock try_prev loc j n (i + 1) _ unlocked idle (omega arith)
                (omega arith) near inside valid)
      ])

pub Attempt-cases :
    (r : Attempt) → ((v : Victims) × (r ≡ retry v)) ⊎ ((s : ℕ) × (r ≡ out s)) ⊎ (r ≡ past)
Attempt-cases (retry v) = inl (v, refl)
Attempt-cases (out s) = inr (inl (s, refl))
Attempt-cases past = inr (inr refl)
