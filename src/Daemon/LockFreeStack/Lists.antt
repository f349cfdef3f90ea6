-- ===== src/Daemon/LockFreeStack/Lists.antt =====
-- Linked lists in the array of `next` fields.
use cleancache_rdma.Prelude.{
  ℕ, zero, suc, ◌+◌, ◌<◌, ◌≡◌, ◌≢◌, refl, sym, List, [], ◌∷◌, ◌++◌, Option, none, some, Array,
  update, arith,
}

-- the nodes from a pointer on, to the null pointer
abbrev pub Linked : Array (Option ℕ) → Option ℕ → List ℕ → Type 0
Linked next p [] = p ≡ none
Linked next p (x ∷ xs) = (p ≡ some x) × Linked next (next x) xs

abbrev pub NotIn : ℕ → List ℕ → Type 0
NotIn a [] = Unit
NotIn a (x ∷ xs) = (a ≢ x) × NotIn a xs

abbrev pub Distinct : List ℕ → Type 0
Distinct [] = Unit
Distinct (x ∷ xs) = NotIn x xs × Distinct xs

pub Linked-update :
    (next : Array (Option ℕ)) (a : ℕ) (o p : Option ℕ) (xs : List ℕ)
    → NotIn a xs
    → Linked next p xs
    → Linked (update next a o) p xs
Linked-update next a o p [] apart h = h
Linked-update next a o p (x ∷ xs) apart h =
    let kept : update next a o x ≡ next x = ground arith in
    (h.0, rw kept (Linked-update next a o (next x) xs apart.1 h.1))

pub NotIn-append_left : (a : ℕ) (xs ys : List ℕ) → NotIn a (xs ++ ys) → NotIn a xs
NotIn-append_left a [] ys h = tt
NotIn-append_left a (x ∷ xs) ys h = (h.0, NotIn-append_left a xs ys h.1)

pub NotIn-append_right : (a : ℕ) (xs ys : List ℕ) → NotIn a (xs ++ ys) → NotIn a ys
NotIn-append_right a [] ys h = h
NotIn-append_right a (x ∷ xs) ys h = NotIn-append_right a xs ys h.1

pub NotIn-drop : (a y : ℕ) (xs ys : List ℕ) → NotIn a (xs ++ y ∷ ys) → (a ≢ y) × NotIn a (xs ++ ys)
NotIn-drop a y [] ys h = (h.0, h.1)
NotIn-drop a y (x ∷ xs) ys h = let r = NotIn-drop a y xs ys h.1 in (r.0, (h.0, r.1))

pub NotIn-put : (a y : ℕ) (xs ys : List ℕ) → a ≢ y → NotIn a (xs ++ ys) → NotIn a (xs ++ y ∷ ys)
NotIn-put a y [] ys ne h = (ne, h)
NotIn-put a y (x ∷ xs) ys ne h = (h.0, NotIn-put a y xs ys ne h.1)

-- a node that moves from one list to the front of the other
pub Distinct-to_front : (y : ℕ) (xs ys : List ℕ) → Distinct (xs ++ y ∷ ys) → Distinct (y ∷ xs ++ ys)
Distinct-to_front y [] ys h = h
Distinct-to_front y (x ∷ xs) ys h =
    let here = NotIn-drop x y xs ys h.0 in
    let rest = Distinct-to_front y xs ys h.1 in ((λ e. here.0 (sym e), rest.0), (here.1, rest.1))

pub Distinct-to_middle :
    (y : ℕ) (xs ys : List ℕ) → Distinct (y ∷ xs ++ ys) → Distinct (xs ++ y ∷ ys)
Distinct-to_middle y [] ys h = h
Distinct-to_middle y (x ∷ xs) ys h =
    (NotIn-put x y xs ys (λ e. h.0.0 (sym e)) h.1.0, Distinct-to_middle y xs ys (h.0.1, h.1.1))

abbrev pub values : Array ℕ → List ℕ → List ℕ
values value [] = []
values value (x ∷ xs) = value x ∷ values value xs

pub values-update :
    (value : Array ℕ) (a v : ℕ) (xs : List ℕ)
    → NotIn a xs
    → values (update value a v) xs ≡ values value xs
values-update value a v [] h = refl
values-update value a v (x ∷ xs) h =
    let kept : update value a v x ≡ value x = ground arith in
    rw (kept, values-update value a v xs h.1)

-- the numbers from `i` on
abbrev pub range : ℕ → ℕ → List ℕ
range zero i = []
range (suc n) i = i ∷ range n (i + 1)

pub NotIn-range : (a n i : ℕ) → a < i → NotIn a (range n i)
NotIn-range a zero i h = tt
NotIn-range a (suc n) i h = (omega arith, NotIn-range a n (i + 1) (omega arith))

pub Distinct-range : (n i : ℕ) → Distinct (range n i)
Distinct-range zero i = tt
Distinct-range (suc n) i = (NotIn-range i n (i + 1) (omega arith), Distinct-range n (i + 1))
