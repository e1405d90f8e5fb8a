-- ===== src/Miner/Rounds.antt =====
-- The rounds of the miner of src/miner.rs on a valid node.
use bitcoin_client_rust.Ring.{Ring}
use bitcoin_client_rust.Hash.{H256_eq}
use bitcoin_client_rust.Transaction.{Bincode}
use bitcoin_client_rust.Block.{Block, get_trans_hashes}
use bitcoin_client_rust.Blockchain.Waiting.{waiting_count}
use bitcoin_client_rust.Blockchain.Insert.{IsFresh}
use bitcoin_client_rust.Blockchain.Valid.{IsValid, insert-attaches}
use bitcoin_client_rust.Mempool.{remove_trans, remove_conflict_tx_inputs}
use bitcoin_client_rust.Message.{broadcast, new_block_hashes}
use bitcoin_client_rust.Worker.Kept.{IsKept, remove_trans-IsKept, remove_conflict_tx_inputs-IsKept}
use bitcoin_client_rust.Miner.{
  Miner, ControlSignal, OperatingState, Received, signal, empty, disconnected, found, candidate,
  after_search, mining, mine_in, mine_unless_shut_down, handle_control_signal, round_in, round,
}
use bitcoin_client_rust.Miner.Mined.{candidate-Tried}
use bitcoin_client_rust.Prelude.Map
use bitcoin_client_rust.Prelude.{
  ℕ, ◌+◌, ◌<◌, ◌≡◌, refl, sym, ap, ◌∙◌, subst, Bool, true, false, some, none, [], ◌∷◌, ok, Returns,
}

-- The senders of the control channel are still there.
abbrev pub Connected : Received → Type 0
Connected disconnected = ⊥
Connected empty = Unit
Connected (signal s) = Unit

module _ ⦃ring : Ring⦄ where
  -- The chain and the pool of a miner are valid.
  pub record IsMiner (miner : Miner) : Type 0 where
    pub chain : IsValid miner.blockchain
    pub pool : IsKept miner.mempool

  -- A found block leaves a valid chain, and a pool that is consistent and within its limit.
  found-IsMiner :
      (fuel : ℕ) (block parent : Block) (miner : Miner)
      → IsMiner miner
      → IsFresh block miner.blockchain
      → Map.get block.header.parent miner.blockchain.blocks ≡ some parent
      → waiting_count miner.blockchain.orphans_map < fuel
      → Returns (found fuel block miner) λ r. IsMiner r.0
  unfolding found
  found-IsMiner fuel block parent miner valid fresh known enough =
      let hashes = get_trans_hashes block.content in
      let (r, run, (chain, _, _)) =
        insert-attaches fuel block parent miner.blockchain valid.chain fresh known enough in
      (
        (
          record miner {
            mined_num = miner.mined_num + 1;
            blockchain = r.1;
            mempool = remove_conflict_tx_inputs block.content (remove_trans hashes miner.mempool);
          },
          broadcast (new_block_hashes (block.hash ∷ [])) none ∷ [],
        ),
        rw run refl,
        record {
          chain = chain;
          pool =
              remove_conflict_tx_inputs-IsKept block.content (remove_trans hashes miner.mempool)
                (remove_trans-IsKept hashes miner.mempool valid.pool);
        },
      )

module _ ⦃ring : Ring⦄ ⦃bincode : Bincode⦄ where
  -- What a hit of this round would find is not known yet.
  abbrev pub FindsFresh : ℕ → ℕ → Miner → Type 0
  FindsFresh ts millis miner =
      (block : Block)
      → candidate ts millis miner ≡ ok (block, true)
      → IsFresh block miner.blockchain

  after_search-IsMiner :
      (fuel : ℕ) (block parent : Block) (bingo : Bool) (miner : Miner)
      → IsMiner miner
      → (bingo ≡ true → IsFresh block miner.blockchain)
      → Map.get block.header.parent miner.blockchain.blocks ≡ some parent
      → waiting_count miner.blockchain.orphans_map < fuel
      → Returns (after_search fuel (block, bingo) miner) λ r. IsMiner r.0.0
  unfolding after_search
  after_search-IsMiner fuel block parent false miner valid fresh known enough =
      (_, refl, record { chain = valid.chain; pool = valid.pool })
  after_search-IsMiner fuel block parent true miner valid fresh known enough =
      let (r, run, kept) = found-IsMiner fuel block parent miner valid (fresh refl) known enough in
      (
        ((record r.0 { nonce = 0 }, r.1), true),
        rw run refl,
        record { chain = kept.chain; pool = kept.pool },
      )

  mining-IsMiner :
      (fuel ts millis : ℕ) (miner : Miner)
      → IsMiner miner
      → FindsFresh ts millis miner
      → waiting_count miner.blockchain.orphans_map < fuel
      → Returns (mining fuel ts millis miner) λ r. IsMiner r.0.0
  unfolding mining
  mining-IsMiner fuel ts millis miner valid fresh enough =
      let (tried, run, holds) = candidate-Tried ts millis miner valid.pool.1 in
      let (tip, known, _) = valid.chain.tree.tip in
      let (r, goes_on, kept) =
        after_search-IsMiner fuel tried.0 tip tried.1 miner valid
          (λ hit. fresh tried.0 (run ∙ ap (λ b. ok (tried.0, b)) hit))
          (subst (λ h. Map.get h miner.blockchain.blocks ≡ some tip) (sym holds.parent) known)
          enough in
      (r, rw run goes_on, kept)

  mine_in-IsMiner :
      (state : OperatingState) (fuel ts millis : ℕ) (miner : Miner)
      → IsMiner miner
      → FindsFresh ts millis miner
      → waiting_count miner.blockchain.orphans_map < fuel
      → Returns (mine_in state fuel ts millis miner) λ r. IsMiner r.0
  unfolding mine_in
  mine_in-IsMiner OperatingState.shut_down fuel ts millis miner valid fresh enough =
      ((miner, []), refl, valid)
  mine_in-IsMiner OperatingState.paused fuel ts millis miner valid fresh enough =
      let (r, run, kept) = mining-IsMiner fuel ts millis miner valid fresh enough in
      (r.0, rw run refl, kept)
  mine_in-IsMiner (OperatingState.run i) fuel ts millis miner valid fresh enough =
      let (r, run, kept) = mining-IsMiner fuel ts millis miner valid fresh enough in
      (r.0, rw run refl, kept)

  -- A signal changes the operating state only, on which the search does not depend.
  signal_then_mine :
      (s : ControlSignal) (fuel ts millis : ℕ) (miner : Miner)
      → IsMiner miner
      → FindsFresh ts millis miner
      → waiting_count miner.blockchain.orphans_map < fuel
      → Returns
          (mine_unless_shut_down fuel ts millis (handle_control_signal s miner))
          λ r. IsMiner r.0
  unfolding mine_unless_shut_down handle_control_signal candidate
  signal_then_mine ControlSignal.exit fuel ts millis miner valid fresh enough =
      mine_in-IsMiner OperatingState.shut_down fuel ts millis _
        (record { chain = valid.chain; pool = valid.pool }) fresh enough
  signal_then_mine (ControlSignal.start i) fuel ts millis miner valid fresh enough =
      mine_in-IsMiner (OperatingState.run i) fuel ts millis _
        (record { chain = valid.chain; pool = valid.pool }) fresh enough
  signal_then_mine ControlSignal.paused fuel ts millis miner valid fresh enough =
      mine_in-IsMiner OperatingState.paused fuel ts millis _
        (record { chain = valid.chain; pool = valid.pool }) fresh enough

  waiting_round :
      (fuel ts millis : ℕ) (received : Received) (miner : Miner)
      → IsMiner miner
      → Connected received
      → Returns (round_in OperatingState.paused fuel ts millis received miner) λ r. IsMiner r.0
  unfolding round_in handle_control_signal
  waiting_round fuel ts millis (signal ControlSignal.exit) miner valid connected =
      (_, refl, record { chain = valid.chain; pool = valid.pool })
  waiting_round fuel ts millis (signal (ControlSignal.start i)) miner valid connected =
      (_, refl, record { chain = valid.chain; pool = valid.pool })
  waiting_round fuel ts millis (signal ControlSignal.paused) miner valid connected =
      (_, refl, record { chain = valid.chain; pool = valid.pool })
  waiting_round fuel ts millis empty miner valid connected = (_, refl, valid)
  waiting_round fuel ts millis disconnected miner valid connected = absurd connected

  round_in-IsMiner :
      (state : OperatingState) (fuel ts millis : ℕ) (received : Received) (miner : Miner)
      → IsMiner miner
      → Connected received
      → FindsFresh ts millis miner
      → waiting_count miner.blockchain.orphans_map < fuel
      → Returns (round_in state fuel ts millis received miner) λ r. IsMiner r.0
  unfolding round_in
  round_in-IsMiner OperatingState.paused fuel ts millis received miner valid connected fresh
        enough =
      waiting_round fuel ts millis received miner valid connected
  round_in-IsMiner OperatingState.shut_down fuel ts millis received miner valid connected fresh
        enough =
      ((miner, []), refl, valid)
  round_in-IsMiner (OperatingState.run i) fuel ts millis (signal s) miner valid connected fresh
        enough =
      signal_then_mine s fuel ts millis miner valid fresh enough
  round_in-IsMiner (OperatingState.run i) fuel ts millis empty miner valid connected fresh enough =
      unfold mine_unless_shut_down in
      mine_in-IsMiner miner.operating_state fuel ts millis miner valid fresh enough
  round_in-IsMiner (OperatingState.run i) fuel ts millis disconnected miner valid connected fresh
        enough =
      absurd connected

  -- A round of a miner whose chain and pool are valid, with an open control channel and fuel for the waiting
  -- orphans, ends without a panic and leaves a valid chain and a valid pool, if a block that it finds is unknown.
  pub round-IsMiner :
      (fuel ts millis : ℕ) (received : Received) (miner : Miner)
      → IsMiner miner
      → Connected received
      → FindsFresh ts millis miner
      → waiting_count miner.blockchain.orphans_map < fuel
      → Returns (round fuel ts millis received miner) λ r. IsMiner r.0
  unfolding round
  round-IsMiner fuel ts millis received miner =
      round_in-IsMiner miner.operating_state fuel ts millis received miner
