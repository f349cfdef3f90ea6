-- ===== src/Protocol/Filter/Steps.antt =====
-- Every step keeps the invariant of the two filters.
use cleancache_rdma.Prelude.{ℕ}
use cleancache_rdma.Protocol.Filter.{
  System, Step, puts, arrives, drops, leaves, begins, answers, writes, ends,
}
use cleancache_rdma.Protocol.Filter.Coherent.{IsCoherent}
use cleancache_rdma.Protocol.Filter.Keys.{
  put-IsCoherent, arrive-IsCoherent, drop-IsCoherent, leave-IsCoherent,
}
use cleancache_rdma.Protocol.Filter.Updates.{
  begin-IsCoherent, answer-IsCoherent, write-IsCoherent, end-IsCoherent,
}

module _ (hash_funcs : ℕ → ℕ → ℕ) where
  pub Step-IsCoherent :
      {s t : System} → Step hash_funcs s t → IsCoherent hash_funcs s → IsCoherent hash_funcs t
  Step-IsCoherent {s} (puts key) c = put-IsCoherent hash_funcs s key c
  Step-IsCoherent {s} (arrives front key back e fits) c =
      arrive-IsCoherent hash_funcs s front key back e fits c
  Step-IsCoherent {s} (drops front key back e) c = drop-IsCoherent hash_funcs s front key back e c
  Step-IsCoherent {s} (leaves front key back e) c = leave-IsCoherent hash_funcs s front key back e c
  Step-IsCoherent {s} (begins e) c = begin-IsCoherent hash_funcs s e c
  Step-IsCoherent {s} (answers e) c = answer-IsCoherent hash_funcs s e c
  Step-IsCoherent {s} (writes bitmap e) c = write-IsCoherent hash_funcs s bitmap e c
  Step-IsCoherent {s} (ends e) c = end-IsCoherent hash_funcs s e c
