-- ===== src/Daemon/Pages/Counts.antt =====
-- Moves of pages keep each page in one place, and a list of pages is not longer than all of them.
use cleancache_rdma.Prelude.{
  ℕ, suc, ◌+◌, ◌≤◌, ◌<◌, ◌≡◌, ◌≢◌, inl, inr, refl, ap, List, [], ◌∷◌, ◌==◌, Bool-cases, length,
  arith,
}
use cleancache_rdma.Daemon.Pages.{
  Holding, Place, in_post, in_hand, in_free, under, one, count, amount, at, Owned, Moved,
}

at_self : (p : Place) → at p p ≡ 1
at_self in_post = refl
at_self in_hand = refl
at_self (in_free i) = ground arith
at_self (under s k) = ground arith

-- Two places that meet at one are the same.
at_same : (q p r : Place) → at q p ≡ 1 → at q r ≡ at p r
at_same in_post in_post r e = refl
at_same in_hand in_hand r e = refl
at_same (in_free i) (in_free j) r e = let same : i ≡ j = ground arith in rw same refl
at_same (under s k) (under s' k') r e =
    let shard : s ≡ s' = ground arith in let key : k ≡ k' = ground arith in rw (shard, key) refl
at_same in_post in_hand r e = absurd (omega arith)
at_same in_post (in_free j) r e = absurd (omega arith)
at_same in_post (under s' k') r e = absurd (omega arith)
at_same in_hand in_post r e = absurd (omega arith)
at_same in_hand (in_free j) r e = absurd (omega arith)
at_same in_hand (under s' k') r e = absurd (omega arith)
at_same (in_free i) in_post r e = absurd (omega arith)
at_same (in_free i) in_hand r e = absurd (omega arith)
at_same (in_free i) (under s' k') r e = absurd (omega arith)
at_same (under s k) in_post r e = absurd (omega arith)
at_same (under s k) in_hand r e = absurd (omega arith)
at_same (under s k) (in_free j) r e = absurd (omega arith)

at_le : (q p : Place) → at q p ≤ 1
at_le in_post p = ground arith
at_le in_hand p = ground arith
at_le (in_free i) p = ground arith
at_le (under s k) p = ground arith

pub Owned-Moved :
    (all : List ℕ) (h h' : Holding) (x : ℕ) (p q : Place)
    → Moved h h' x p q
    → Owned all h
    → Owned all h'
Owned-Moved all h h' x p q m o a = elim (Bool-cases (a == x)) [
  | inr other ↦ elim (o a) [
    | inl (e, gone) ↦ inl (e, λ r. ground (arith, m.amounts a r, gone r))
    | inr (e, l, there) ↦ inr (e, l, λ r. ground (arith, m.amounts a r, there r))
  ]
  | inl same ↦ elim (o a) [
    | inl (e, gone) ↦ absurd (ground (arith, m.amounts a p, gone p, m.apart, at_self p))
    | inr (e, l, there) ↦
        let here : at l p ≡ 1 =
          ground (arith, m.amounts a p, there p, m.apart, at_self p, at_le l p) in
        inr (e, q, λ r. ground (arith, m.amounts a r, there r, at_same l p r here))
  ]
]

-- A list without one occurrence of `x`
drop_one :
    (x : ℕ) (ys : List ℕ)
    → 1 ≤ count x ys
    → (zs : List ℕ) × (length ys ≡ suc (length zs)) × ((a : ℕ) → count a ys ≡ one a x + count a zs)
drop_one x [] h = absurd (omega arith)
drop_one x (y ∷ ys) h = elim (Bool-cases (x == y)) [
  | inl same ↦ (ys, refl, λ a. let e : x ≡ y = ground arith in rw e refl)
  | inr other ↦
      let (zs, len, counts) = drop_one x ys (ground arith) in
      (y ∷ zs, ap suc len, λ a. omega (arith, counts a))
]

pub count_le-length : (xs ys : List ℕ) → ((a : ℕ) → count a xs ≤ count a ys) → length xs ≤ length ys
count_le-length [] ys h = omega arith
count_le-length (x ∷ xs) ys h =
    let (zs, len, counts) = drop_one x ys (ground (arith, h x)) in
    let rest = count_le-length xs zs (λ a. omega (arith, h a, counts a)) in omega arith

hand_or_free : (l : Place) (fl : ℕ) → at l in_hand + at l (in_free fl) ≤ 1
hand_or_free in_post fl = ground arith
hand_or_free in_hand fl = ground arith
hand_or_free (in_free i) fl = ground arith
hand_or_free (under s k) fl = ground arith

-- A free list has room for the page in hand, when it may be as long as there are pages.
pub room :
    (all : List ℕ) (h : Holding) (x fl : ℕ) (left : List ℕ)
    → ((a : ℕ) → count a h.hand ≡ one a x + count a left)
    → Owned all h
    → length (h.free fl) < length all
room all h x fl left has o = count_le-length (x ∷ h.free fl) all λ a.
    let taken : one a x ≤ amount h a in_hand = omega (arith, has a) in
    elim (o a) [
      | inl (c, gone) ↦ omega (arith, gone in_hand, gone (in_free fl))
      | inr (c, l, there) ↦
          omega (arith, taken, there in_hand, there (in_free fl), hand_or_free l fl)
    ]

-- What is in hand is a page.
pub in_hand_page :
    (all : List ℕ) (h : Holding) (x b : ℕ) (left : List ℕ)
    → ((a : ℕ) → count a h.hand ≡ one a x + count a left)
    → Owned all h
    → count b all ≡ 0
    → x ≢ b
in_hand_page all h x b left has o e same = elim (o b) [
  | inl (c, gone) ↦ ground (arith, gone in_hand, has b)
  | inr (c, l, there) ↦ absurd (omega arith)
]
