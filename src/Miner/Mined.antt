-- ===== src/Miner/Mined.antt =====
-- The rounds of `mining` in src/miner.rs: the block that it puts together, and what a hit does to the node.
use bitcoin_client_rust.Ring.{Ring}
use bitcoin_client_rust.Hash.{H256, lt}
use bitcoin_client_rust.Transaction.{
  SignedTransaction, Bincode, generate_signed_coinbase_transaction, is_coinbase_tran,
}
use bitcoin_client_rust.Block
use bitcoin_client_rust.Block.{Header, Block, new_header, change_nonce, header_hash}
use bitcoin_client_rust.Block.Contents.{IsRootOf, merkle_root-IsRootOf}
use bitcoin_client_rust.Blockchain.{Blockchain, validate_block_meta}
use bitcoin_client_rust.Mempool.{create_content, pool_size_limit}
use bitcoin_client_rust.Miner.{Miner, mining_base, mining_step, candidate}
use bitcoin_client_rust.Miner.Search.{after, mining_base-Searched}
use bitcoin_client_rust.Prelude.Map.{Map}
use bitcoin_client_rust.Prelude.{
  ℕ, zero, suc, ◌≡◌, refl, sym, subst, inl, inr, Bool, true, ◌∷◌, map, Returns, ◌≤◌, length,
  length-map, arith,
}

-- A change of the nonce leaves the other fields.
abbrev pub SameBut : Header → Header → Type 0
SameBut h k =
    (h.parent ≡ k.parent)
    × (h.difficulty ≡ k.difficulty)
    × (h.timestamp ≡ k.timestamp)
    × (h.merkle_root ≡ k.merkle_root)

after-SameBut : (k : ℕ) (h : Header) → SameBut (after k h) h
unfolding change_nonce
after-SameBut zero h = (refl, refl, refl, refl)
after-SameBut (suc k) h = after-SameBut k (change_nonce h)

module _ ⦃ring : Ring⦄ where
  pub mining_base-SameBut :
      (h : Header) (difficulty : H256) → SameBut (mining_base h difficulty).0 h
  mining_base-SameBut h difficulty = elim (mining_base-Searched h difficulty) [
    | inl (hit, k, small, same, good, before) ↦
        subst (λ last. SameBut last h) (sym same) (after-SameBut k h)
    | inr (miss, same, before) ↦
        subst (λ last. SameBut last h) (sym same) (after-SameBut mining_step h)
  ]

  mining_base-hit :
      (h : Header) (difficulty : H256)
      → (mining_base h difficulty).1 ≡ true
      → lt (header_hash (mining_base h difficulty).0) difficulty ≡ true
  mining_base-hit h difficulty hit = elim (mining_base-Searched h difficulty) [
    | inl (_, k, small, same, good, before) ↦ good
    | inr (miss, same, before) ↦ cc (hit, miss)
  ]

module _ ⦃ring : Ring⦄ ⦃bincode : Bincode⦄ where
  -- What the miner tries: a block on its tip that carries a coinbase transaction and the whole pool.
  pub record Tried (ts : ℕ) (miner : Miner) (tried : Block × Bool) : Type 0 where
    pub hash : tried.0.hash ≡ header_hash tried.0.header
    pub parent : tried.0.header.parent ≡ miner.blockchain.longest_hash
    pub difficulty : tried.0.header.difficulty ≡ miner.blockchain.difficulty
    pub content : tried.0.content ≡ create_content ts miner.key_pair miner.mempool
    pub root : IsRootOf tried.0.header.merkle_root tried.0.content
    pub hit : tried.1 ≡ true → lt tried.0.hash miner.blockchain.difficulty ≡ true

  pub candidate-Tried :
      (ts millis : ℕ) (miner : Miner)
      → length miner.mempool.transactions ≤ pool_size_limit
      → Returns (candidate ts millis miner) (Tried ts miner)
  unfolding candidate create_content Block.new new_header
  candidate-Tried ts millis miner room =
      let content = create_content ts miner.key_pair miner.mempool in
      let difficulty = miner.blockchain.difficulty in
      let (root, run, proofs) =
        merkle_root-IsRootOf (generate_signed_coinbase_transaction ts miner.key_pair)
          (map (λ e. e.1) miner.mempool.transactions)
          (omega (arith, room, length-map (λ e. e.1) miner.mempool.transactions)) in
      let header = new_header miner.blockchain.longest_hash miner.nonce millis difficulty root in
      let (mined, bingo) = mining_base header difficulty in
      let (parent, level, _, same_root) = mining_base-SameBut header difficulty in
      (
        (Block.new mined content, bingo),
        rw run refl,
        record {
          hash = refl;
          parent = parent;
          difficulty = level;
          content = refl;
          root = subst (λ r. IsRootOf r content) (sym same_root) proofs;
          hit = mining_base-hit header difficulty;
        },
      )

  -- What a hit is worth to a node with another chain.
  pub record IsMined (ts : ℕ) (chain : Blockchain) (miner : Miner) (block : Block) : Type 0 where
    pub passes : validate_block_meta chain block ≡ true
    pub on_tip : block.header.parent ≡ miner.blockchain.longest_hash
    pub carries :
        (coinbase : SignedTransaction) × (block.content.trans
          ≡ coinbase ∷ map (λ e. e.1) miner.mempool.transactions)
        × (is_coinbase_tran coinbase ≡ true)
    pub root : IsRootOf block.header.merkle_root block.content
