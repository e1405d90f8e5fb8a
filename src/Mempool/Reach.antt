-- ===== src/Mempool/Reach.antt =====
-- The pools that the operations of src/mempool.rs make.
use bitcoin_client_rust.Ring.{Ring}
use bitcoin_client_rust.Hash.{H256, H256_eq}
use bitcoin_client_rust.Transaction.{TxInput, TxInput_eq, SignedTransaction, Bincode}
use bitcoin_client_rust.Block.{Content}
use bitcoin_client_rust.Mempool.{
  MemPool, SocketAddr, new, add_with_check, remove_trans, remove_conflict_tx_inputs,
  insert_ts_and_addr, insert_buffer_tran, remove_buffered_tran,
}
use bitcoin_client_rust.Mempool.Valid.{IsPool-no_double_spend, add_with_check-IsPool}
use bitcoin_client_rust.Worker.Kept.{
  IsKept, same-IsKept, remove_trans-IsKept, remove_conflict_tx_inputs-IsKept,
}
use bitcoin_client_rust.Prelude.Map
use bitcoin_client_rust.Prelude.{ℕ, ◌≡◌, refl, some, List, In, arith}

module _ ⦃ring : Ring⦄ ⦃bincode : Bincode⦄ where
  -- A new pool, and what each operation makes of a pool that was reached.
  pub data Reach : MemPool → Type 0 where
    starts : Reach new
    adds :
        (tran : SignedTransaction) (pool : MemPool)
        → Reach pool
        → Reach (add_with_check tran pool).0
    removes : (hs : List H256) (pool : MemPool) → Reach pool → Reach (remove_trans hs pool)
    spends :
        (content : Content) (pool : MemPool)
        → Reach pool
        → Reach (remove_conflict_tx_inputs content pool)
    arrives :
        (h : H256) (addr : SocketAddr) (now : ℕ) (pool : MemPool)
        → Reach pool
        → Reach (insert_ts_and_addr h addr now pool)
    buffers :
        (tran : SignedTransaction) (pool : MemPool)
        → Reach pool
        → Reach (insert_buffer_tran tran pool)
    unbuffers : (h : H256) (pool : MemPool) → Reach pool → Reach (remove_buffered_tran h pool).0

  Reach-IsKept : (pool : MemPool) → Reach pool → IsKept pool
  unfolding new insert_ts_and_addr insert_buffer_tran remove_buffered_tran Map.get
  Reach-IsKept pool starts =
      (record { keyed = λ h t e. cc e; claimed = λ h t input e m. cc e }, omega arith)
  Reach-IsKept pool (adds tran before reach) =
      let (valid, room) = Reach-IsKept before reach in add_with_check-IsPool tran before valid room
  Reach-IsKept pool (removes hs before reach) =
      remove_trans-IsKept hs before (Reach-IsKept before reach)
  Reach-IsKept pool (spends content before reach) =
      remove_conflict_tx_inputs-IsKept content before (Reach-IsKept before reach)
  Reach-IsKept pool (arrives h addr now before reach) =
      same-IsKept before _ refl refl (Reach-IsKept before reach)
  Reach-IsKept pool (buffers tran before reach) =
      same-IsKept before _ refl refl (Reach-IsKept before reach)
  Reach-IsKept pool (unbuffers h before reach) =
      same-IsKept before _ refl refl (Reach-IsKept before reach)

  -- However transactions are added, removed, buffered and recorded on a new pool, it never holds a double spend: two
  -- of its transactions that spend one input are the same transaction, under the same hash.
  pub Reach-no_double_spend :
      (pool : MemPool) (h k : H256) (t u : SignedTransaction) (input : TxInput)
      → Reach pool
      → Map.get h pool.transactions ≡ some t
      → Map.get k pool.transactions ≡ some u
      → In input t.transaction.inputs
      → In input u.transaction.inputs
      → (h ≡ k) × (t ≡ u)
  Reach-no_double_spend pool h k t u input reach =
      IsPool-no_double_spend pool h k t u input (Reach-IsKept pool reach).0
