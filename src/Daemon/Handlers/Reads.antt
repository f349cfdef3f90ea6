-- ===== src/Daemon/Handlers/Reads.antt =====
-- What `process_get` answers.
use cleancache_rdma.Prelude.{
  ℕ, ◌≡◌, inl, inr, refl, subst, ◌∙◌, Bool, true, false, not, Option, none, ◌∷◌, ◌==◌,
  if◌then◌else◌, Bool-cases,
}
use cleancache_rdma.Daemon.Pair.{no_value}
use cleancache_rdma.Daemon.Imm.{bit_mask, msg_read_reply, tx_read_committed, tx_read_aborted}
use cleancache_rdma.Daemon.LinearProbing.Placed.{IsKey, IsPlaced}
use cleancache_rdma.Daemon.LinearProbing.View.{view}
use cleancache_rdma.Daemon.LinearProbing.Store.{value_of, get_with_flag_lem}
use cleancache_rdma.Daemon.PerCpuPool.{PerCpuPool}
use cleancache_rdma.Daemon.Kv.{Kv, get_ht_shard_id}
use cleancache_rdma.Daemon.Kv
use cleancache_rdma.Daemon.Kv.Shards.{shard_of, Reads, Follows-self, Reads-update}
use cleancache_rdma.Daemon.Kv.Removal.{remove-Removed}
use cleancache_rdma.Daemon.Handlers.{Reply, Server, Moment, look_up, release, process_get}

module _ (hash_funcs : ℕ → ℕ → ℕ) where
  abbrev entries : Kv → ℕ → ℕ → Option ℕ
  entries kv key k = view hash_funcs (shard_of hash_funcs kv key) k

  -- the entries that a `process_get` leaves
  abbrev pub left : Bool → Kv → ℕ → ℕ → Option ℕ
  left true kv key k = if key == k then none else view hash_funcs (shard_of hash_funcs kv key) k
  left false kv key k = view hash_funcs (shard_of hash_funcs kv key) k

  pub another_pool :
      (kv kv' : Kv) (key : ℕ) (left_over : ℕ → Option ℕ) (pool : PerCpuPool)
      → Reads hash_funcs kv kv' key left_over
      → Reads hash_funcs kv (record kv' { pool = pool }) key left_over
  another_pool kv kv' key left_over pool r = record {
    placed = r.placed;
    reads = r.reads;
    same_capacity = r.same_capacity;
    others = r.others;
  }

  flag_once :
      (kv : Kv) (key : ℕ) (busy : Bool) (now : ℕ)
      → IsPlaced hash_funcs (shard_of hash_funcs kv key)
      → IsKey key
      → Reads hash_funcs kv (Kv.get_with_flag hash_funcs kv key busy now).1 key (entries kv key)
  unfolding Kv.get_with_flag
  flag_once kv key busy now p k =
      let r = get_with_flag_lem hash_funcs (shard_of hash_funcs kv key) key busy now p k in
      Reads-update hash_funcs kv kv _ key _ _ (Follows-self hash_funcs kv key) r.1.placed
        r.1.same_capacity r.1.reads refl

  flag_answer :
      (kv : Kv) (key : ℕ) (now : ℕ)
      → IsPlaced hash_funcs (shard_of hash_funcs kv key)
      → IsKey key
      → (Kv.get_with_flag hash_funcs kv key true now).0 ≡ value_of (entries kv key key)
  unfolding Kv.get_with_flag
  flag_answer kv key now p k =
      (get_with_flag_lem hash_funcs (shard_of hash_funcs kv key) key true now p k).0

  flag_shard :
      (kv : Kv) (key : ℕ) (busy : Bool) (now : ℕ)
      → get_ht_shard_id hash_funcs (Kv.get_with_flag hash_funcs kv key busy now).1 key
        ≡ get_ht_shard_id hash_funcs kv key
  unfolding Kv.get_with_flag get_ht_shard_id
  flag_shard kv key busy now = refl

  flag_twice :
      (kv : Kv) (key now now' : ℕ)
      → IsPlaced hash_funcs (shard_of hash_funcs kv key)
      → IsKey key
      → Reads hash_funcs kv
          (Kv.get_with_flag hash_funcs
            (Kv.get_with_flag hash_funcs kv key true now).1
            key
            false
            now').1
          key
          (entries kv key)
  unfolding Kv.get_with_flag
  flag_twice kv key now now' p k =
      let first = flag_once kv key true now p k in
      let kv' = (Kv.get_with_flag hash_funcs kv key true now).1 in
      let same = flag_shard kv key true now in
      let second = flag_once kv' key false now' (rw same first.placed) k in
      record {
        placed =
            subst
              (λ x.
                IsPlaced hash_funcs ((Kv.get_with_flag hash_funcs kv' key false now').1.hashes x))
              same second.placed;
        reads = λ j live.
            subst
              (λ x.
                view hash_funcs ((Kv.get_with_flag hash_funcs kv' key false now').1.hashes x) j
                ≡ view hash_funcs (kv'.hashes x) j)
              same (second.reads j live)
            ∙ first.reads j live;
        same_capacity =
            subst
              (λ x.
                ((Kv.get_with_flag hash_funcs kv' key false now').1.hashes x).capacity
                ≡ (kv'.hashes x).capacity)
              same second.same_capacity
            ∙ first.same_capacity;
        others = λ s away. second.others s (rw same away) ∙ first.others s away;
      }

  module _ (htonl ntohl crc8 : ℕ → ℕ) where
    -- the reply to a read of a key for which `value` was found
    abbrev pub read_reply : ℕ → ℕ → ℕ → Reply
    read_reply mid value raddr = record {
      imm_data = htonl (
          bit_mask mid msg_read_reply
            (if not (value == no_value) then tx_read_committed else tx_read_aborted) 0
            (if not (value == no_value) then crc8 value else 0));
      value = value;
      raddr = raddr;
    }

    -- `process_get` of a key in a well-placed shard sends one reply, with the page of the key and its
    -- checksum, or with no page and the aborted state. Under the exclusive policy the key is then
    -- gone; under the other, every entry is as before. No other shard changes.
    pub process_get-answers :
        (s : Server) (cid mid key raddr : ℕ) (m : Moment)
        → IsPlaced hash_funcs (shard_of hash_funcs s.kv key)
        → IsKey key
        → ((process_get hash_funcs htonl ntohl crc8 s cid mid key raddr m).replies
            ≡ read_reply mid (value_of (view hash_funcs (shard_of hash_funcs s.kv key) key)) raddr
              ∷ s.replies)
          × Reads hash_funcs s.kv
              (process_get hash_funcs htonl ntohl crc8 s cid mid key raddr m).kv
              key
              (left s.exclusive_policy s.kv key)
    unfolding process_get look_up release
    process_get-answers s cid mid key raddr m p k = elim (Bool-cases s.exclusive_policy) [
      | inl e ↦
          let r = remove-Removed hash_funcs s.kv key cid p k in
          elim (Bool-cases ((Kv.remove hash_funcs s.kv key cid).0 == no_value)) [
            | inl z ↦ rw (e, z) (rw (← r.answer, z), r.tables)
            | inr z ↦ rw (e, z) (rw (← r.answer, z), another_pool _ _ key _ _ r.tables)
          ]
      | inr e ↦
          elim (Bool-cases ((Kv.get_with_flag hash_funcs s.kv key true m.now).0 == no_value)) [
            | inl z ↦
                rw (e, z)
                  (rw (← flag_answer s.kv key m.now p k, z), flag_once s.kv key true m.now p k)
            | inr z ↦
                rw (e, z)
                  (rw (← flag_answer s.kv key m.now p k, z), flag_twice s.kv key m.now m.now p k)
          ]
    ]
