-- ===== src/Spread.antt =====
-- src/spread.rs: the spreaders, which schedule the messages about transactions, and the loop that runs
-- the scheduled tasks. The timer is a library: a task waits in `guard_map`, under the nanosecond at which it was
-- scheduled, until it fires, and a guard that is overwritten cancels its task.
use bitcoin_client_rust.Ring.{Ring}
use bitcoin_client_rust.Hash.{H256}
use bitcoin_client_rust.Transaction.{SignedTransaction, Bincode}
use bitcoin_client_rust.Mempool
use bitcoin_client_rust.Mempool.{
  MemPool, add_with_check, remove_buffered_tran, insert_buffer_tran, contains_buffered_tran,
}
use bitcoin_client_rust.Message.{
  Message, Handle, Effect, new_transaction_hashes, new_dandelion_transactions, ping, pong,
  new_block_hashes, get_blocks, blocks, get_transactions, transactions, new_peers, introduce, write,
  broadcast,
}
use bitcoin_client_rust.Prelude.Map
use bitcoin_client_rust.Prelude.Map.{Map}
use bitcoin_client_rust.Prelude.Float.{round_to}
use bitcoin_client_rust.Prelude.{
  ℕ, zero, suc, ◌+◌, ◌-◌, ◌*◌, ◌/◌, ◌^◌, ◌%◌, Bool, true, false, not, ◌&&◌, ◌||◌, Option, some,
  none, List, [], ◌∷◌, length, ltb, leb, if◌then◌else◌, ◌==◌, nat_eq, get_elem?, Run, ok, panic,
  ◌>>=◌, unwrap,
}
pub mod Tasks
pub mod Dandelion
pub mod Balance
pub mod Spreaders
pub mod Delays
pub mod Overflow
pub mod Sound
pub mod Relays
pub mod Spreads

pub data TimerTask : Type 0 where
  peer_write : Handle → Message → TimerTask
  dandelion_reset_epoch dandelion_plus_reset_epoch : TimerTask
  dandelion_plus_fail_safe_check : List H256 → TimerTask

-- The tasks by the time of their scheduling, with their delays in microseconds.
abbrev pub Guards : Type 0
Guards = Map ℕ (ℕ × TimerTask)

-- What the spreaders and the loop share. `target_index` is `usize::max_value()` where it is none.
pub record Spreading : Type 0 where
  pub guard_map : Guards
  pub mempool : MemPool
  pub target_index : Option ℕ
  pub routing_table : Map ℕ ℕ
  pub is_diffuser : Bool

-- `timer.schedule_with_delay`, and the guard that the map keeps. The timer takes a delay only if the time now and
-- the delay make a date, and else panics: `takes` says which delays it takes.
unfoldable pub schedule : (ℕ → Bool) → ℕ → ℕ → TimerTask → Guards → Run Guards
schedule takes nano delay task guards =
    if takes delay then ok (Map.insert nano (delay, task) guards) else panic

-- The loops of the spreaders over the peers: the `i`-th write is scheduled at `clock i`, with the delay
-- `delay i`.
unfoldable pub schedule_writes :
    (ℕ → ℕ) → (ℕ → Bool) → (ℕ → ℕ) → ℕ → List ℕ → Map ℕ Handle → Message → Guards → Run Guards
unfolding schedule
schedule_writes delay takes clock i [] peers msg guards = ok guards
schedule_writes delay takes clock i (peer_id ∷ list) peers msg guards =
    unwrap (Map.get peer_id peers) >>= λ handle.
    schedule takes (clock i) (delay i) (peer_write handle msg) guards >>= λ next.
    schedule_writes delay takes clock (suc i) list peers msg next

-- `DefaultSpreader::spread`
unfoldable pub spread_default :
    (ℕ → Bool) → (ℕ → ℕ) → Map ℕ Handle → List ℕ → Message → Guards → Run Guards
unfolding schedule_writes
spread_default takes clock peers peer_list msg guards =
    schedule_writes (λ i. 0) takes clock 0 peer_list peers msg guards

-- `TrickleSpreader::spread`, by the shuffled list of peers: `TRICKLE_GAP_TIME` is 200 ms.
unfoldable pub spread_trickle :
    (ℕ → Bool) → (ℕ → ℕ) → Map ℕ Handle → List ℕ → Message → Guards → Run Guards
unfolding schedule_writes
spread_trickle takes clock peers shuffled msg guards =
    schedule_writes (λ i. 200 * suc i * 1000) takes clock 0 shuffled peers msg guards

-- `gap_time` of `diffusion`, in milliseconds: an `f64` of at least 100, which is a whole number of steps of 2 ^ -47.
-- It starts at `DIFFUSION_BASE_GAP_TIME`, and `*=` by `DIFFUSION_RATE`, 1.5, rounds it to 53 binary digits.
abbrev pub base_gap_time : ℕ
base_gap_time = 100 * 2 ^ 47

unfoldable pub next_gap_time : ℕ → ℕ
unfolding round_to
next_gap_time gap_time = round_to 53 (gap_time * 3 / 2)

-- `gap_time as i64`: what is left of the point, and at most the largest `i64`.
unfoldable pub as_i64 : ℕ → ℕ
as_i64 gap_time = let whole = gap_time / 2 ^ 47 in if ltb whole (2 ^ 63) then whole else 2 ^ 63 - 1

-- `send_time += gap_time as i64`, by the bits of the `i64`.
unfoldable pub next_send_time : ℕ → ℕ → ℕ
unfolding as_i64
next_send_time send_time gap_time = (send_time + as_i64 gap_time) % 2 ^ 64

-- The loop of `diffusion`, from the gap and the time of the next write on.
unfoldable pub diffuse :
    (ℕ → Bool) → (ℕ → ℕ) → ℕ → ℕ → ℕ → List ℕ → Map ℕ Handle → Message → Guards → Run Guards
unfolding schedule next_gap_time next_send_time
diffuse takes clock i gap_time send_time [] peers msg guards = ok guards
diffuse takes clock i gap_time send_time (peer_id ∷ list) peers msg guards =
    unwrap (Map.get peer_id peers) >>= λ handle.
    schedule takes (clock i) (send_time * 1000) (peer_write handle msg) guards >>= λ next.
    let grown = next_gap_time gap_time in
    diffuse takes clock (suc i) grown (next_send_time send_time grown) list peers msg next

unfoldable pub diffusion :
    (ℕ → Bool) → (ℕ → ℕ) → Map ℕ Handle → List ℕ → Message → Guards → Run Guards
unfolding diffuse as_i64
diffusion takes clock peers shuffled msg guards =
    diffuse takes clock 0 base_gap_time (as_i64 base_gap_time) shuffled peers msg guards

module _ ⦃ring : Ring⦄ ⦃bincode : Bincode⦄ where
  -- A transaction that the pool has already is relayed by its source; any other if the pool takes it.
  unfoldable pub admit : SignedTransaction → MemPool → MemPool × Bool
  admit t pool =
      let added = add_with_check t pool in if Mempool.exist pool t.hash then (pool, true) else added

  unfoldable pub admit_all : List SignedTransaction → MemPool → MemPool × List H256
  unfolding admit
  admit_all [] pool = (pool, [])
  admit_all (t ∷ trans) pool =
      let (next, relayed) = admit t pool in
      let (done, new_hashes) = admit_all trans next in
      (done, if relayed then t.hash ∷ new_hashes else new_hashes)

  unfoldable pub release : List H256 → MemPool → MemPool × List H256
  unfolding admit
  release [] pool = (pool, [])
  release (hash ∷ tx_hashes) pool =
      let (unbuffered, buffered) = remove_buffered_tran hash pool in
      elim buffered [
        | none ↦ release tx_hashes unbuffered
        | some tran ↦
            (let (next, relayed) = admit tran unbuffered in
              let (done, new_hashes) = release tx_hashes next in
              (done, if relayed then tran.hash ∷ new_hashes else new_hashes))
      ]

  -- One round of `message_loop`: the task that was scheduled at `nano` fires.
  unfoldable pub run_task : ℕ → TimerTask → Spreading → Spreading × List Effect
  unfolding release
  run_task nano (peer_write handle msg) s =
      (record s { guard_map = Map.remove nano s.guard_map }, write handle msg ∷ [])
  run_task nano dandelion_reset_epoch s =
      (record s { target_index = none; guard_map = Map.remove nano s.guard_map }, [])
  run_task nano dandelion_plus_reset_epoch s =
      (record s { routing_table = []; guard_map = Map.remove nano s.guard_map }, [])
  run_task nano (dandelion_plus_fail_safe_check tx_hashes) s =
      let (pool, new_hashes) = release tx_hashes s.mempool in
      (
        record s { mempool = pool; guard_map = Map.remove nano s.guard_map },
        elim new_hashes [
          | [] ↦ []
          | h ∷ hs ↦ broadcast (new_transaction_hashes (h ∷ hs)) none ∷ []
        ],
      )
