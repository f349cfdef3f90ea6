-- ===== src/Driver/Hashtable/Map.antt =====
-- The table as a map.
use cleancache_rdma.Prelude.{
  ℕ, ◌≡◌, ◌≢◌, refl, ap, subst, ◌∙◌, List, [], ◌∷◌, ◌==◌, if◌then◌else◌, Bool-cases, ==_iff, inl,
  inr, true, false, update, arith,
}
use cleancache_rdma.Driver.Hashtable.{
  Node, Hashtable, absent, find, del, get_bkt_id, hashtable_get, hashtable_remove, hashtable_insert,
}

-- no node has the key
abbrev pub Lacks : ℕ → List Node → Type 0
Lacks key [] = Unit
Lacks key (cur ∷ rest) = (cur.key ≢ key) × Lacks key rest

-- no key stands twice in a list
abbrev pub Unique : List Node → Type 0
Unique [] = Unit
Unique (cur ∷ rest) = Lacks cur.key rest × Unique rest

find-Lacks : (l : List Node) (key : ℕ) → Lacks key l → find l key ≡ absent
unfolding find
find-Lacks [] key h = refl
find-Lacks (cur ∷ rest) key h = ground (arith, h.0, find-Lacks rest key h.1)

find-del_other : (l : List Node) (key k : ℕ) → key ≢ k → find (del l key) k ≡ find l k
unfolding find del
find-del_other [] key k ne = refl
find-del_other (cur ∷ rest) key k ne = elim (Bool-cases (cur.key == key)) [
  | inl e ↦ let away : (cur.key == k) ≡ false = ground arith in rw (e, away)
  | inr e ↦ rw (e, find-del_other rest key k ne)
]

find-del : (l : List Node) (key : ℕ) → Unique l → find (del l key) key ≡ absent
unfolding find del
find-del [] key u = refl
find-del (cur ∷ rest) key u = elim (Bool-cases (cur.key == key)) [
  | inl e ↦ rw e (find-Lacks rest key (subst (λ x. Lacks x rest) ((==_iff cur.key key).0 e) u.0))
  | inr e ↦ rw e (rw e (find-del rest key u.1))
]

Lacks-del : (l : List Node) (key k : ℕ) → Lacks k l → Lacks k (del l key)
unfolding del
Lacks-del [] key k h = tt
Lacks-del (cur ∷ rest) key k h = elim (Bool-cases (cur.key == key)) [
  | inl e ↦ rw e h.1
  | inr e ↦ rw e (h.0, Lacks-del rest key k h.1)
]

Unique-del : (l : List Node) (key : ℕ) → Unique l → Unique (del l key) × Lacks key (del l key)
unfolding del
Unique-del [] key u = (tt, tt)
Unique-del (cur ∷ rest) key u = elim (Bool-cases (cur.key == key)) [
  | inl e ↦ rw e (u.1, subst (λ x. Lacks x rest) ((==_iff cur.key key).0 e) u.0)
  | inr e ↦
      let r = Unique-del rest key u.1 in
      rw e ((Lacks-del rest key cur.key u.0, r.0), (ground arith, r.1))
]

-- every list of the table
abbrev pub IsUnique : Hashtable → Type 0
IsUnique ht = (i : ℕ) → Unique (ht.hlistheads i)

module _ (hash_funcs : ℕ → ℕ → ℕ) where
  -- A list of the table is replaced by one that differs at `key` alone.
  find-update :
      (ht : Hashtable) (key : ℕ) (l : List Node) (c : ℕ → ℕ)
      → ((k : ℕ)
          → find l k
            ≡ (if key == k then c k else find (ht.hlistheads (get_bkt_id hash_funcs ht key)) k))
      → (k : ℕ)
      → find (update ht.hlistheads (get_bkt_id hash_funcs ht key) l (get_bkt_id hash_funcs ht k)) k
        ≡ (if key == k then c k else hashtable_get hash_funcs ht k)
  unfolding hashtable_get
  find-update ht key l c h k =
      let b = get_bkt_id hash_funcs ht in
      elim (Bool-cases (b key == b k)) [
        | inl e ↦ rw e (
            h k
            ∙ ap (λ i. if key == k then c k else find (ht.hlistheads i) k)
                ((==_iff (b key) (b k)).0 e))
        | inr e ↦ elim (Bool-cases (key == k)) [
          | inl same ↦
              let meet : b key ≡ b k = ap b ((==_iff key k).0 same) in absurd (ground arith)
          | inr apart ↦ rw (e, apart)
        ]
      ]

  remove-get :
      (ht : Hashtable) (key k : ℕ)
      → hashtable_get hash_funcs (hashtable_remove hash_funcs ht key).1 k ≡ (
          if key == k
          then find (del (ht.hlistheads (get_bkt_id hash_funcs ht key)) key) k
          else hashtable_get hash_funcs ht k)
  unfolding hashtable_remove hashtable_get get_bkt_id
  remove-get ht key k =
      let l = del (ht.hlistheads (get_bkt_id hash_funcs ht key)) key in
      find-update ht key l (find l)
        (λ j. elim (Bool-cases (key == j)) [
          | inl e ↦ rw e
          | inr e ↦
              rw e
                (find-del_other (ht.hlistheads (get_bkt_id hash_funcs ht key)) key j (ground arith))
        ])
        k

  remove-IsUnique :
      (ht : Hashtable) (key : ℕ) → IsUnique ht → IsUnique (hashtable_remove hash_funcs ht key).1
  unfolding hashtable_remove
  remove-IsUnique ht key u i = elim (Bool-cases (get_bkt_id hash_funcs ht key == i)) [
    | inl e ↦
        rw e
          (Unique-del (ht.hlistheads (get_bkt_id hash_funcs ht key)) key
            (u (get_bkt_id hash_funcs ht key))).0
    | inr e ↦ rw e (u i)
  ]

  answer :
      (ht : Hashtable) (key : ℕ)
      → (hashtable_remove hash_funcs ht key).0 ≡ hashtable_get hash_funcs ht key
  unfolding hashtable_remove hashtable_get
  answer ht key = refl

  -- From a table with no key twice, `hashtable_remove` returns what `hashtable_get` does, and makes
  -- the key absent and keeps every other key's value; no key stands twice after it.
  pub hashtable_remove-removes :
      (ht : Hashtable) (key : ℕ)
      → IsUnique ht
      → ((hashtable_remove hash_funcs ht key).0 ≡ hashtable_get hash_funcs ht key)
        × ((k : ℕ)
            → hashtable_get hash_funcs (hashtable_remove hash_funcs ht key).1 k
              ≡ (if key == k then absent else hashtable_get hash_funcs ht k))
        × IsUnique (hashtable_remove hash_funcs ht key).1
  hashtable_remove-removes ht key u = (
    answer ht key,
    λ k. remove-get ht key k ∙ elim (Bool-cases (key == k)) [
      | inl e ↦
          let l = ht.hlistheads (get_bkt_id hash_funcs ht key) in
          rw e (
            subst (λ x. find (del l key) x ≡ absent) ((==_iff key k).0 e)
              (find-del l key (u (get_bkt_id hash_funcs ht key))))
      | inr e ↦ rw e
    ],
    remove-IsUnique ht key u,
  )

  insert-get :
      (ht : Hashtable) (key value k : ℕ)
      → hashtable_get hash_funcs (hashtable_insert hash_funcs ht key value) k ≡ (
          if key == k
          then value
          else hashtable_get hash_funcs (hashtable_remove hash_funcs ht key).1 k)
  unfolding hashtable_get hashtable_insert get_bkt_id find
  insert-get ht key value k =
      let ht' = (hashtable_remove hash_funcs ht key).1 in
      find-update ht' key
        (record { key = key; value = value } ∷ ht'.hlistheads (get_bkt_id hash_funcs ht' key))
        (λ j. value) (λ j. refl) k

  insert-IsUnique :
      (ht : Hashtable) (key value : ℕ)
      → IsUnique ht
      → IsUnique (hashtable_insert hash_funcs ht key value)
  unfolding hashtable_insert hashtable_remove get_bkt_id
  insert-IsUnique ht key value u i =
      let b = get_bkt_id hash_funcs ht key in
      let self : (b == b) ≡ true = (==_iff b b).1 refl in
      let r = Unique-del (ht.hlistheads b) key (u b) in
      elim (Bool-cases (b == i)) [ inl e ↦ rw (e, self) (r.1, r.0) | inr e ↦ rw e (u i) ]

  -- After `hashtable_insert`, `hashtable_get` returns the new value for the key and what it returned
  -- before for every other one; if no key stood twice, none does after it.
  pub hashtable_get-insert :
      (ht : Hashtable) (key value : ℕ)
      → ((k : ℕ)
          → hashtable_get hash_funcs (hashtable_insert hash_funcs ht key value) k
            ≡ (if key == k then value else hashtable_get hash_funcs ht k))
        × (IsUnique ht → IsUnique (hashtable_insert hash_funcs ht key value))
  hashtable_get-insert ht key value = (
    λ k.
        insert-get ht key value k
        ∙ elim (Bool-cases (key == k)) [ inl e ↦ rw e | inr e ↦ rw e (remove-get ht key k ∙ rw e) ],
    insert-IsUnique ht key value,
  )
