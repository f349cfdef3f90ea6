-- ===== src/Driver/SendQueue/Holds.antt =====
-- The invariant of the send queue: which message stands in which slot, and what a scheduled work is
-- for; true at the start and kept by every step.

use mathlib.Core.Bool.{Bool}
use native.Mathlib.Decide.{ℕ_discrete}
use cleancache_rdma.Prelude.{
  ℕ, ◌+◌, ◌*◌, ◌/◌, ◌%◌, ◌^◌, ◌≤◌, ◌<◌, ◌≡◌, ◌≢◌, Bool, true, false, List, [], ◌∷◌, refl, sym, ap,
  arith, Array, update, lt→ltb, ==_iff,
}
use cleancache_rdma.Prelude.Int.{pos}
use cleancache_rdma.Driver.SendQueue.{SendQueue, Message, slot_of}
use cleancache_rdma.Driver.SendQueue.Runs.{Take, first, next}

-- The scheduled work for the message `w` sends a batch `b` whose slots are not taken over yet.
pub record Pend (n : ℕ) (wait : Array Bool) (w : ℕ) : Type 0 where
  pub batch : ℕ
  pub slot : w ≡ (32 * batch + 31) % 512
  pub full : 32 * batch + 32 ≤ n
  pub kept : n ≤ 32 * batch + 512
  pub waits : wait (w / 32) ≡ true

abbrev pub Apart : ℕ → List ℕ → Type 0
Apart i [] = Unit
Apart i (v ∷ vs) = (v / 32 ≢ i) × Apart i vs

abbrev pub AllPend : ℕ → Array Bool → List ℕ → Type 0
AllPend n wait [] = Unit
AllPend n wait (w ∷ ws) = Pend n wait w × Apart (w / 32) ws × AllPend n wait ws

pub record Holds (puts : ℕ → Message) (n : ℕ) (q : SendQueue) : Type 0 where
  pub small : n ≤ 2 ^ 31
  pub counts : q.msg_id ≡ n
  pub filled : (k : ℕ) → k < n → n ≤ k + 512 → q.buffer (k % 512) ≡ puts k
  pub pending : AllPend n q.wait q.work
  pub waiting :
      (i : ℕ) → q.wait i ≡ true → (w : ℕ) × (rest : List ℕ) × Take w q.work rest × (w / 32 ≡ i)

-- Nothing scheduled uses a place whose bit is clear.
pub AllPend-Apart :
    (n : ℕ) (wait : Array Bool) (i : ℕ) (ws : List ℕ)
    → AllPend n wait ws
    → wait i ≡ false
    → Apart i ws
AllPend-Apart n wait i [] h clear = tt
AllPend-Apart n wait i (w ∷ ws) (p, apart, rest) clear =
    (λ e. absurd (ground (arith, p.waits, clear, ap wait e)), AllPend-Apart n wait i ws rest clear)

pub AllPend-set :
    (n : ℕ) (wait : Array Bool) (i : ℕ) (ws : List ℕ)
    → AllPend n wait ws
    → AllPend n (update wait i true) ws
AllPend-set n wait i [] h = tt
AllPend-set n wait i (w ∷ ws) (p, apart, rest) = (
  record {
    batch = p.batch;
    slot = p.slot;
    full = p.full;
    kept = p.kept;
    waits = ground (arith, p.waits);
  },
  apart,
  AllPend-set n wait i ws rest,
)

Pend-clear :
    (n : ℕ) (wait : Array Bool) (i w : ℕ)
    → w / 32 ≢ i
    → Pend n wait w
    → Pend n (update wait i false) w
Pend-clear n wait i w other p = record {
  batch = p.batch;
  slot = p.slot;
  full = p.full;
  kept = p.kept;
  waits = ground (arith, p.waits, other);
}

AllPend-clear :
    (n : ℕ) (wait : Array Bool) (i : ℕ) (ws : List ℕ)
    → Apart i ws
    → AllPend n wait ws
    → AllPend n (update wait i false) ws
AllPend-clear n wait i [] apart h = tt
AllPend-clear n wait i (w ∷ ws) (other, others) (p, apart, rest) =
    (Pend-clear n wait i w other p, apart, AllPend-clear n wait i ws others rest)

-- One more message: no scheduled batch is taken over while the place of the message is clear.
Pend-suc :
    (n : ℕ) (wait : Array Bool) (w : ℕ)
    → wait (n % 512 / 32) ≡ false
    → Pend n wait w
    → Pend (n + 1) wait w
Pend-suc n wait w clear p = elim (ℕ_discrete n (32 * p.batch + 512)) [
  | yes e ↦ absurd (ground (arith, ap wait (same e), p.waits, clear))
  | no e ↦ record {
    batch = p.batch;
    slot = p.slot;
    full = omega (arith, p.full);
    kept = omega (arith, p.kept, e);
    waits = p.waits;
  }
]
  where
    same : n ≡ 32 * p.batch + 512 → n % 512 / 32 ≡ w / 32
    same e = omega (arith, p.slot, e)

pub AllPend-suc :
    (n : ℕ) (wait : Array Bool) (ws : List ℕ)
    → wait (n % 512 / 32) ≡ false
    → AllPend n wait ws
    → AllPend (n + 1) wait ws
AllPend-suc n wait [] clear h = tt
AllPend-suc n wait (w ∷ ws) clear (p, apart, rest) =
    (Pend-suc n wait w clear p, apart, AllPend-suc n wait ws clear rest)

Take-Apart :
    {w : ℕ} {ws rest : List ℕ} (i : ℕ) → Take w ws rest → Apart i ws → Apart i rest × (w / 32 ≢ i)
Take-Apart i first (other, others) = (others, other)
Take-Apart i (next t) (other, others) =
    let (left, apart) = Take-Apart i t others in ((other, left), apart)

pub Take-Pend :
    {w : ℕ} {ws rest : List ℕ} (n : ℕ) (wait : Array Bool)
    → Take w ws rest
    → AllPend n wait ws
    → Pend n wait w
Take-Pend n wait first (p, apart, others) = p
Take-Pend n wait (next t) (p, apart, others) = Take-Pend n wait t others

pub Take-AllPend :
    {w : ℕ} {ws rest : List ℕ} (n : ℕ) (wait : Array Bool)
    → Take w ws rest
    → AllPend n wait ws
    → AllPend n (update wait (w / 32) false) rest
Take-AllPend n wait first (p, apart, others) = AllPend-clear n wait _ _ apart others
Take-AllPend {w} n wait (next {v} t) (p, apart, others) =
    let (left, other) = Take-Apart _ t apart in
    (Pend-clear n wait (w / 32) v (λ e. other (sym e)) p, left, Take-AllPend n wait t others)

pub slot_of-small : (n : ℕ) → n < 2 ^ 31 → slot_of n ≡ pos (n % 512)
unfolding slot_of
slot_of-small n small = ground (arith, lt→ltb n (2 ^ 31) small)

pub filled-suc :
    (puts : ℕ → Message) (n : ℕ) (buffer : Array Message)
    → ((k : ℕ) → k < n → n ≤ k + 512 → buffer (k % 512) ≡ puts k)
    → (k : ℕ) → k < n + 1
    → n + 1 ≤ k + 512
    → update buffer (n % 512) (puts n) (k % 512) ≡ puts k
filled-suc puts n buffer before k lt kept = elim (ℕ_discrete k n) [
  | yes e ↦ rw e (ground (arith, (==_iff (n % 512) (n % 512)).1 refl))
  | no e ↦
      let apart : n % 512 ≢ k % 512 = λ same. e (omega (arith, same, lt, kept)) in
      ground (arith, apart, before k (omega (arith, lt, e)) (omega (arith, kept)))
]

pub waiting-set :
    (wait : Array Bool) (ws : List ℕ) (s : ℕ)
    → ((i : ℕ) → wait i ≡ true → (w : ℕ) × (rest : List ℕ) × Take w ws rest × (w / 32 ≡ i))
    → (i : ℕ) → update wait (s / 32) true i ≡ true
    → (w : ℕ) × (rest : List ℕ) × Take w (s ∷ ws) rest × (w / 32 ≡ i)
waiting-set wait ws s before i set = elim (ℕ_discrete (s / 32) i) [
  | yes e ↦ (s, ws, first, e)
  | no e ↦ let (w, rest, t, same) = before i (ground (arith, e, set)) in (w, s ∷ rest, next t, same)
]

pub Take-other :
    {w v : ℕ} {ws rest vs : List ℕ}
    → Take w ws rest
    → Take v ws vs
    → v ≢ w
    → (left : List ℕ) × Take v rest left
Take-other first first other = absurd (other refl)
Take-other first (next {rest} t) other = (rest, t)
Take-other (next {rest} t) first other = (rest, first)
Take-other (next {v = u} t) (next s) other =
    let (left, r) = Take-other t s other in (u ∷ left, next r)

pub waiting-clear :
    (wait : Array Bool) (w : ℕ) {ws rest : List ℕ}
    → Take w ws rest
    → ((i : ℕ) → wait i ≡ true → (v : ℕ) × (vs : List ℕ) × Take v ws vs × (v / 32 ≡ i))
    → (i : ℕ) → update wait (w / 32) false i ≡ true
    → (v : ℕ) × (vs : List ℕ) × Take v rest vs × (v / 32 ≡ i)
waiting-clear wait w t before i set =
    let (v, vs, s, same) = before i (ground (arith, set)) in
    let other : v ≢ w = λ e. absurd (ground (arith, set, ap (λ (x : ℕ). x / 32) e, same)) in
    let (left, r) = Take-other t s other in (v, left, r, same)
