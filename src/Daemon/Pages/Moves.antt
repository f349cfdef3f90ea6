-- ===== src/Daemon/Pages/Moves.antt =====
-- The moves that the handlers make with a page, each of which keeps every page in one place.
use cleancache_rdma.Prelude.{
  ℕ, ◌+◌, ◌≡◌, refl, ap, ◌∙◌, Option, none, some, List, ◌∷◌, ◌==◌, if◌then◌else◌, Array, update,
  inl, inr, arith,
}
use cleancache_rdma.Daemon.Pages.{
  Holding, Place, in_post, in_hand, in_free, under, one, count, count_entry, amount, at, Owned,
  put_entry,
}
use cleancache_rdma.Daemon.Pages.Counts.{Owned-Moved}

abbrev pub mk : List ℕ → List ℕ → Array (List ℕ) → (ℕ → ℕ → Option ℕ) → Holding
mk posted hand free stored = record { posted = posted; hand = hand; free = free; stored = stored }

-- `xs` has the pages of `ys`, and `x`
abbrev pub Has : ℕ → List ℕ → List ℕ → Type 0
Has x xs ys = (a : ℕ) → count a xs ≡ one a x + count a ys

pub Has-first : (x : ℕ) (ys : List ℕ) → Has x (x ∷ ys) ys
Has-first x ys a = refl

abbrev Goes : Holding → Holding → ℕ → Place → Place → ℕ → Place → Type 0
Goes h h' x p q a r =
    amount h' a r + (if a == x then at p r else 0) ≡ amount h a r + (if a == x then at q r else 0)

module _ (all posted hand : List ℕ) (free : Array (List ℕ)) (stored : ℕ → ℕ → Option ℕ) (x : ℕ)
    (o : Owned all (mk posted hand free stored)) where
  pub unpost : (rest : List ℕ) → Has x posted rest → Owned all (mk rest (x ∷ hand) free stored)
  unpost rest h =
      Owned-Moved all (mk posted hand free stored) (mk rest (x ∷ hand) free stored) x in_post
        in_hand (record { apart = refl; amounts = go }) o
    where
      go :
          (a : ℕ) (r : Place)
          → Goes (mk posted hand free stored) (mk rest (x ∷ hand) free stored) x in_post in_hand a r
      go a in_post = ground (arith, h a)
      go a in_hand = ground arith
      go a (in_free i) = ground arith
      go a (under s k) = ground arith

  pub post : (left : List ℕ) → Has x hand left → Owned all (mk (x ∷ posted) left free stored)
  post left h =
      Owned-Moved all (mk posted hand free stored) (mk (x ∷ posted) left free stored) x in_hand
        in_post (record { apart = refl; amounts = go }) o
    where
      go :
          (a : ℕ) (r : Place)
          → Goes
              (mk posted hand free stored)
              (mk (x ∷ posted) left free stored)
              x
              in_hand
              in_post
              a
              r
      go a in_post = ground arith
      go a in_hand = ground (arith, h a)
      go a (in_free i) = ground arith
      go a (under s k) = ground arith

  pub take_free :
      (fl : ℕ) (rest : List ℕ)
      → free fl ≡ x ∷ rest
      → Owned all (mk posted (x ∷ hand) (update free fl rest) stored)
  take_free fl rest e =
      Owned-Moved all (mk posted hand free stored)
        (mk posted (x ∷ hand) (update free fl rest) stored) x (in_free fl) in_hand
        (record { apart = refl; amounts = go }) o
    where
      go :
          (a : ℕ) (r : Place)
          → Goes
              (mk posted hand free stored)
              (mk posted (x ∷ hand) (update free fl rest) stored)
              x
              (in_free fl)
              in_hand
              a
              r
      go a in_post = ground arith
      go a in_hand = ground arith
      go a (in_free i) = ground (arith, e)
      go a (under s k) = ground arith

  pub release :
      (fl : ℕ) (left : List ℕ)
      → Has x hand left
      → Owned all (mk posted left (update free fl (x ∷ free fl)) stored)
  release fl left h =
      Owned-Moved all (mk posted hand free stored)
        (mk posted left (update free fl (x ∷ free fl)) stored) x in_hand (in_free fl)
        (record { apart = refl; amounts = go }) o
    where
      go :
          (a : ℕ) (r : Place)
          → Goes
              (mk posted hand free stored)
              (mk posted left (update free fl (x ∷ free fl)) stored)
              x
              in_hand
              (in_free fl)
              a
              r
      go a in_post = ground arith
      go a in_hand = ground (arith, h a)
      go a (in_free i) = ground arith
      go a (under s k) = ground arith

  pub store :
      (shard key : ℕ) (left : List ℕ)
      → Has x hand left
      → stored shard key ≡ none
      → Owned all (mk posted left free (put_entry stored shard key (some x)))
  store shard key left h e =
      Owned-Moved all (mk posted hand free stored)
        (mk posted left free (put_entry stored shard key (some x))) x in_hand (under shard key)
        (record { apart = refl; amounts = go }) o
    where
      go :
          (a : ℕ) (r : Place)
          → Goes
              (mk posted hand free stored)
              (mk posted left free (put_entry stored shard key (some x)))
              x
              in_hand
              (under shard key)
              a
              r
      go a in_post = ground arith
      go a in_hand = ground (arith, h a)
      go a (in_free i) = ground arith
      go a (under s k) = ground (arith, e)

  pub unstore :
      (shard key : ℕ)
      → stored shard key ≡ some x
      → Owned all (mk posted (x ∷ hand) free (put_entry stored shard key none))
  unstore shard key e =
      Owned-Moved all (mk posted hand free stored)
        (mk posted (x ∷ hand) free (put_entry stored shard key none)) x (under shard key) in_hand
        (record { apart = refl; amounts = go }) o
    where
      go :
          (a : ℕ) (r : Place)
          → Goes
              (mk posted hand free stored)
              (mk posted (x ∷ hand) free (put_entry stored shard key none))
              x
              (under shard key)
              in_hand
              a
              r
      go a in_post = ground arith
      go a in_hand = ground arith
      go a (in_free i) = ground arith
      go a (under s k) = ground (arith, e)

-- the same entries, differently written
pub same_entries :
    (all posted hand : List ℕ) (free : Array (List ℕ)) (stored stored' : ℕ → ℕ → Option ℕ)
    → ((shard key : ℕ) → stored' shard key ≡ stored shard key)
    → Owned all (mk posted hand free stored)
    → Owned all (mk posted hand free stored')
same_entries all posted hand free stored stored' e o a = elim (o a) [
  | inl (c, gone) ↦ inl (c, λ p. same p ∙ gone p)
  | inr (c, l, there) ↦ inr (c, l, λ p. same p ∙ there p)
]
  where
    same :
        (p : Place)
        → amount (mk posted hand free stored') a p ≡ amount (mk posted hand free stored) a p
    same in_post = refl
    same in_hand = refl
    same (in_free i) = refl
    same (under s k) = ap (count_entry a) (e s k)

-- the pages in hand in another order
pub swap_hand :
    (all posted rest : List ℕ) (free : Array (List ℕ)) (stored : ℕ → ℕ → Option ℕ) (x y : ℕ)
    → Owned all (mk posted (x ∷ y ∷ rest) free stored)
    → Owned all (mk posted (y ∷ x ∷ rest) free stored)
swap_hand all posted rest free stored x y o a = elim (o a) [
  | inl (c, gone) ↦ inl (c, λ p. same p ∙ gone p)
  | inr (c, l, there) ↦ inr (c, l, λ p. same p ∙ there p)
]
  where
    same :
        (p : Place)
        → amount (mk posted (y ∷ x ∷ rest) free stored) a p
          ≡ amount (mk posted (x ∷ y ∷ rest) free stored) a p
    same in_post = refl
    same in_hand = omega arith
    same (in_free i) = refl
    same (under s k) = refl
