-- ===== src/Miner.antt =====
-- src/miner.rs: the states of the miner thread, the search for a nonce, and what a found block changes.
use bitcoin_client_rust.Ring.{Ring}
use bitcoin_client_rust.Hash.{H256, lt}
use bitcoin_client_rust.Transaction.{Bincode}
use bitcoin_client_rust.Block
use bitcoin_client_rust.Block.{
  Header, Block, new_header, change_nonce, header_hash, get_trans_hashes,
}
use bitcoin_client_rust.Blockchain.{Blockchain, insert}
use bitcoin_client_rust.Mempool.{MemPool, remove_trans, remove_conflict_tx_inputs, create_content}
use bitcoin_client_rust.Block.Contents.{merkle_root}
use bitcoin_client_rust.Message.{Effect, broadcast, new_block_hashes}
use bitcoin_client_rust.Prelude.{
  ℕ, zero, suc, ◌+◌, Bool, true, false, not, Option, none, some, List, [], ◌∷◌, length, map,
  if◌then◌else◌, ltb, ◌==◌, nat_eq, Run, ok, panic, ◌>>=◌,
}
pub mod Search
pub mod Found
pub mod Mined
pub mod Rounds

pub data ControlSignal : Type 0 where
  start : ℕ → ControlSignal
  exit paused : ControlSignal

pub data OperatingState : Type 0 where
  paused : OperatingState
  run : ℕ → OperatingState
  shut_down : OperatingState

-- What `try_recv` finds in the channel of the signals.
pub data Received : Type 0 where
  signal : ControlSignal → Received
  empty disconnected : Received

-- `Context`, with what its locks guard.
pub record Miner : Type 0 where
  pub operating_state : OperatingState
  pub blockchain : Blockchain
  pub mempool : MemPool
  pub nonce : ℕ  -- u32
  pub mined_num : ℕ
  pub key_pair : List ℕ

unfoldable pub handle_control_signal : ControlSignal → Miner → Miner
handle_control_signal ControlSignal.exit miner = record miner {
  operating_state = OperatingState.shut_down;
}
handle_control_signal (ControlSignal.start i) miner = record miner {
  operating_state = OperatingState.run i;
}
handle_control_signal ControlSignal.paused miner = record miner {
  operating_state = OperatingState.paused;
}

abbrev pub mining_step : ℕ
mining_step = 8192

module _ ⦃ring : Ring⦄ where
  -- The loop of `mining_base`, with the rounds that are left.
  unfoldable pub try_nonces : ℕ → Header → H256 → Header × Bool
  try_nonces zero header difficulty = (header, false)
  try_nonces (suc n) header difficulty =
      let rest = try_nonces n (change_nonce header) difficulty in
      if lt (header_hash header) difficulty then (header, true) else rest

  unfoldable pub mining_base : Header → H256 → Header × Bool
  unfolding try_nonces
  mining_base header difficulty = try_nonces mining_step header difficulty

  -- `found`: the fuel is that of `insert`.
  unfoldable pub found : ℕ → Block → Miner → Run (Miner × List Effect)
  found fuel block miner = insert fuel block miner.blockchain >>= λ r. ok (
    record miner {
      mined_num = miner.mined_num + 1;
      blockchain = r.1;
      mempool =
          remove_conflict_tx_inputs block.content
            (remove_trans (get_trans_hashes block.content) miner.mempool);
    },
    broadcast (new_block_hashes (block.hash ∷ [])) none ∷ [],
  )

module _ ⦃ring : Ring⦄ ⦃bincode : Bincode⦄ where
  -- The first part of `mining`, up to the search: the block with the nonce that it ends at, and whether it is a
  -- hit. `ts` is the clock of `create_content`, `millis` that of the header.
  unfoldable pub candidate : ℕ → ℕ → Miner → Run (Block × Bool)
  unfolding mining_base
  candidate ts millis miner =
      let content = create_content ts miner.key_pair miner.mempool in
      let difficulty = miner.blockchain.difficulty in
      merkle_root content >>= λ root.
      let header = new_header miner.blockchain.longest_hash miner.nonce millis difficulty root in
      let (mined, bingo) = mining_base header difficulty in ok (Block.new mined content, bingo)

  -- The second part.
  unfoldable pub after_search : ℕ → Block × Bool → Miner → Run ((Miner × List Effect) × Bool)
  unfolding found
  after_search fuel (block, false) miner =
      ok ((record miner { nonce = block.header.nonce }, []), false)
  after_search fuel (block, true) miner =
      found fuel block miner >>= λ r. ok ((record r.0 { nonce = 0 }, r.1), true)

  unfoldable pub mining : ℕ → ℕ → ℕ → Miner → Run ((Miner × List Effect) × Bool)
  unfolding candidate after_search
  mining fuel ts millis miner = candidate ts millis miner >>= λ tried. after_search fuel tried miner

  -- Where `mining` goes ahead, by the state of the miner.
  unfoldable pub mine_in : OperatingState → ℕ → ℕ → ℕ → Miner → Run (Miner × List Effect)
  unfolding mining
  mine_in OperatingState.shut_down fuel ts millis miner = ok (miner, [])
  mine_in (OperatingState.run i) fuel ts millis miner = mining fuel ts millis miner >>= λ r. ok r.0
  mine_in OperatingState.paused fuel ts millis miner = mining fuel ts millis miner >>= λ r. ok r.0

  unfoldable pub mine_unless_shut_down : ℕ → ℕ → ℕ → Miner → Run (Miner × List Effect)
  unfolding mine_in
  mine_unless_shut_down fuel ts millis miner = mine_in miner.operating_state fuel ts millis miner

  -- One round of `miner_loop`, by the state and by what the channel holds; a paused miner waits for a signal.
  unfoldable pub round_in :
      OperatingState → ℕ → ℕ → ℕ → Received → Miner → Run (Miner × List Effect)
  unfolding mine_unless_shut_down handle_control_signal
  round_in OperatingState.paused fuel ts millis (signal s) miner =
      ok (handle_control_signal s miner, [])
  round_in OperatingState.paused fuel ts millis empty miner = ok (miner, [])
  round_in OperatingState.paused fuel ts millis disconnected miner = panic
  round_in OperatingState.shut_down fuel ts millis received miner = ok (miner, [])
  round_in (OperatingState.run i) fuel ts millis (signal s) miner =
      mine_unless_shut_down fuel ts millis (handle_control_signal s miner)
  round_in (OperatingState.run i) fuel ts millis empty miner =
      mine_unless_shut_down fuel ts millis miner
  round_in (OperatingState.run i) fuel ts millis disconnected miner = panic

  unfoldable pub round : ℕ → ℕ → ℕ → Received → Miner → Run (Miner × List Effect)
  unfolding round_in
  round fuel ts millis received miner = round_in miner.operating_state fuel ts millis received miner
