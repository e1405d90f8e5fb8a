-- ===== src/Spread/Tasks.antt =====
-- What the tasks and the spreaders leave of the pool.
use bitcoin_client_rust.Ring.{Ring}
use bitcoin_client_rust.Hash.{H256, H256_eq}
use bitcoin_client_rust.Transaction.{SignedTransaction, Bincode}
use bitcoin_client_rust.Mempool
use bitcoin_client_rust.Mempool.{MemPool, add_with_check, remove_buffered_tran}
use bitcoin_client_rust.Mempool.Valid.{add_with_check-IsPool}
use bitcoin_client_rust.Worker.Kept.{IsKept, same-IsKept}
use bitcoin_client_rust.Spread.{
  TimerTask, Spreading, peer_write, dandelion_reset_epoch, dandelion_plus_reset_epoch,
  dandelion_plus_fail_safe_check, admit, admit_all, release, run_task,
}
use bitcoin_client_rust.Prelude.Map
use bitcoin_client_rust.Prelude.{
  ℕ, ◌≡◌, refl, inl, inr, List, [], ◌∷◌, Bool-cases, Option-cases, nat_eq,
}

module _ ⦃ring : Ring⦄ ⦃bincode : Bincode⦄ where
  admit-IsKept : (t : SignedTransaction) (pool : MemPool) → IsKept pool → IsKept (admit t pool).0
  unfolding admit
  admit-IsKept t pool kept = elim (Bool-cases (Mempool.exist pool t.hash)) [
    | inl known ↦ rw known kept
    | inr fresh ↦ rw fresh (add_with_check-IsPool t pool kept.0 kept.1)
  ]

  pub admit_all-IsKept :
      (trans : List SignedTransaction) (pool : MemPool)
      → IsKept pool
      → IsKept (admit_all trans pool).0
  unfolding admit_all
  admit_all-IsKept [] pool kept = kept
  admit_all-IsKept (t ∷ trans) pool kept =
      admit_all-IsKept trans (admit t pool).0 (admit-IsKept t pool kept)

  unbuffered-IsKept :
      (hash : H256) (pool : MemPool) → IsKept pool → IsKept (remove_buffered_tran hash pool).0
  unfolding remove_buffered_tran
  unbuffered-IsKept hash pool kept =
      same-IsKept pool (remove_buffered_tran hash pool).0 refl refl kept

  release-IsKept :
      (tx_hashes : List H256) (pool : MemPool) → IsKept pool → IsKept (release tx_hashes pool).0
  unfolding release
  release-IsKept [] pool kept = kept
  release-IsKept (hash ∷ tx_hashes) pool kept =
      let first = unbuffered-IsKept hash pool kept in
      let unbuffered = (remove_buffered_tran hash pool).0 in
      elim (Option-cases (remove_buffered_tran hash pool).1) [
        | inl absent ↦ rw (absent, release) (release-IsKept tx_hashes unbuffered first)
        | inr (t, found) ↦
            rw (found, release)
              (release-IsKept tx_hashes (admit t unbuffered).0 (admit-IsKept t unbuffered first))
      ]

  -- Every task that fires leaves a consistent pool consistent and within its limit, and leaves the map of guards.
  pub run_task-IsKept :
      (nano : ℕ) (task : TimerTask) (s : Spreading)
      → IsKept s.mempool
      → IsKept (run_task nano task s).0.mempool
        × ((run_task nano task s).0.guard_map ≡ Map.remove nano s.guard_map)
  unfolding run_task
  run_task-IsKept nano (peer_write handle msg) s kept = (kept, refl)
  run_task-IsKept nano dandelion_reset_epoch s kept = (kept, refl)
  run_task-IsKept nano dandelion_plus_reset_epoch s kept = (kept, refl)
  run_task-IsKept nano (dandelion_plus_fail_safe_check tx_hashes) s kept =
      (release-IsKept tx_hashes s.mempool kept, refl)
