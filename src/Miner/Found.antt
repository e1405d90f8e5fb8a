-- ===== src/Miner/Found.antt =====
-- What a block that the miner found leaves of the node.
use bitcoin_client_rust.Ring.{Ring}
use bitcoin_client_rust.Hash.{H256, H256_eq}
use bitcoin_client_rust.Transaction.{TxInput, SignedTransaction}
use bitcoin_client_rust.Block.{Block, get_trans_hashes}
use bitcoin_client_rust.Blockchain.Waiting.{waiting_count}
use bitcoin_client_rust.Blockchain.Insert.{IsFresh, Extends}
use bitcoin_client_rust.Blockchain.Valid.{IsValid, insert-attaches}
use bitcoin_client_rust.Mempool.{MemPool, remove_trans, remove_conflict_tx_inputs}
use bitcoin_client_rust.Mempool.Claims.{IsPool}
use bitcoin_client_rust.Mempool.Valid.{
  remove_trans-removes, remove_conflict_tx_inputs-frees, remove_conflict_tx_inputs-IsPool,
}
use bitcoin_client_rust.Message.{broadcast, new_block_hashes}
use bitcoin_client_rust.Miner.{Miner, found}
use bitcoin_client_rust.Prelude.Map
use bitcoin_client_rust.Prelude.{
  ℕ, ◌<◌, ◌≡◌, refl, sym, ◌∙◌, inl, inr, some, none, Returns, In, ◌+◌, [], ◌∷◌,
}

-- What is pending once the transactions of a block are out of the pool.
cleared :
    (block : Block) (pool : MemPool) (h : H256) (t : SignedTransaction)
    → IsPool pool
    → Map.get h
        (remove_conflict_tx_inputs block.content
          (remove_trans (get_trans_hashes block.content) pool)).transactions
      ≡ some t
    → (Map.get h pool.transactions ≡ some t)
      × ¬ In h (get_trans_hashes block.content)
      × ((spender : SignedTransaction) (input : TxInput)
          → In spender block.content.trans
          → In input spender.transaction.inputs
          → ¬ In input t.transaction.inputs)
cleared block pool h t valid e =
    let hashes = get_trans_hashes block.content in
    let (kept, cases) = remove_trans-removes hashes pool h valid in
    let (_, old, free) =
      remove_conflict_tx_inputs-frees block.content (remove_trans hashes pool) h t kept e in
    elim cases [ inl (m, gone) ↦ cc (gone, old) | inr (n, same) ↦ (sym same ∙ old, n, free) ]

module _ ⦃ring : Ring⦄ where
  -- A miner that found an unknown block on a known parent ends `found` without a panic, with fuel for the
  -- waiting orphans: its chain and its pool stay valid, the chain keeps every block, and what is left in
  -- the pool was there before, is no transaction of the block, and spends no input that the block spends.
  pub found-clears :
      (fuel : ℕ) (block parent : Block) (miner : Miner)
      → IsValid miner.blockchain
      → IsPool miner.mempool
      → IsFresh block miner.blockchain
      → Map.get block.header.parent miner.blockchain.blocks ≡ some parent
      → waiting_count miner.blockchain.orphans_map < fuel
      → Returns (found fuel block miner) λ r.
        IsValid r.0.blockchain
        × Extends miner.blockchain r.0.blockchain
        × IsPool r.0.mempool
        × ((h : H256) (t : SignedTransaction)
            → Map.get h r.0.mempool.transactions ≡ some t
            → (Map.get h miner.mempool.transactions ≡ some t)
              × ¬ In h (get_trans_hashes block.content)
              × ((spender : SignedTransaction) (input : TxInput)
                  → In spender block.content.trans
                  → In input spender.transaction.inputs
                  → ¬ In input t.transaction.inputs))
  unfolding found
  found-clears fuel block parent miner chain pool fresh known enough =
      let hashes = get_trans_hashes block.content in
      let (r, run, (valid, extends, _)) =
        insert-attaches fuel block parent miner.blockchain chain fresh known enough in
      (
        (
          record miner {
            mined_num = miner.mined_num + 1;
            blockchain = r.1;
            mempool = remove_conflict_tx_inputs block.content (remove_trans hashes miner.mempool);
          },
          broadcast (new_block_hashes (block.hash ∷ [])) none ∷ [],
        ),
        rw run refl,
        (
          valid,
          extends,
          remove_conflict_tx_inputs-IsPool block.content (remove_trans hashes miner.mempool)
              (remove_trans-removes hashes miner.mempool block.hash pool).0,
          λ h t e. cleared block miner.mempool h t pool e,
        ),
      )
