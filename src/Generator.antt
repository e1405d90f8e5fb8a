-- ===== src/Generator.antt =====
-- src/transaction_generator.rs, src/helper.rs and `State::coins_of` of src/block.rs: the transactions that a
-- node makes of its own coins, and the thread that sends them.
use bitcoin_client_rust.Ring.{Ring}
use bitcoin_client_rust.Hash.{H160, H160_eq}
use bitcoin_client_rust.Transaction.{
  TxInput, TxInput_eq, TxOutput, SignedTransaction, Bincode, generate_signed_transaction,
}
use bitcoin_client_rust.Block.{State}
use bitcoin_client_rust.Blockchain.{Blockchain, tip_block_state}
use bitcoin_client_rust.Mempool.{MemPool, add_with_check}
use bitcoin_client_rust.Account.{Account}
use bitcoin_client_rust.Peers.{Peers}
use bitcoin_client_rust.Message.{
  Effect, broadcast, new_transaction_hashes, new_dandelion_transactions,
}
use bitcoin_client_rust.Miner.{ControlSignal, OperatingState, Received, signal, empty, disconnected}
use bitcoin_client_rust.Prelude.Map
use bitcoin_client_rust.Prelude.Map.{Map}
use bitcoin_client_rust.Prelude.{
  ℕ, zero, suc, ◌+◌, ◌-◌, ◌%◌, ◌^◌, Bool, true, false, Option, none, some, List, [], ◌∷◌, ◌++◌,
  if◌then◌else◌, ltb, leb, ◌==◌, length, Run, ok, panic, ◌>>=◌,
}
pub mod Coins
pub mod Spends
pub mod Rounds

-- The loop of `coins_of` over the entries of the state; the balance is a u64.
unfoldable pub coins_from : H160 → State → Map TxInput ℕ → ℕ → Map TxInput ℕ × ℕ
coins_from addr [] coins balance = (coins, balance)
coins_from addr ((point, (val, owner_addr)) ∷ state) coins balance =
    let input : TxInput = record { pre_hash = point.tran_hash; index = point.index } in
    let mine = coins_from addr state (Map.insert input val coins) ((balance + val) % 2 ^ 64) in
    let foreign = coins_from addr state coins balance in
    if owner_addr == addr then mine else foreign

unfoldable pub coins_of : State → H160 → Map TxInput ℕ × ℕ
unfolding coins_from
coins_of state addr = coins_from addr state [] 0

-- The loop of `generate_valid_tran`: coins are taken until they cover the value.
unfoldable pub collect : ℕ → Map TxInput ℕ → ℕ → List TxInput × ℕ
collect transfer_val [] acc = ([], acc)
collect transfer_val ((input, val) ∷ coins) acc =
    let more = (acc + val) % 2 ^ 64 in
    let (inputs, sum) = collect transfer_val coins more in
    if leb transfer_val more then (input ∷ [], more) else (input ∷ inputs, sum)

-- The outputs: the receiver's, and the change where there is any.
unfoldable pub outputs_for : ℕ → ℕ → H160 → H160 → List TxOutput
outputs_for transfer_val acc addr rec_addr =
    record { rec_address = rec_addr; val = transfer_val }
    ∷ (if ltb transfer_val acc
        then record { rec_address = addr; val = acc - transfer_val } ∷ []
        else [])

module _ ⦃ring : Ring⦄ ⦃bincode : Bincode⦄ where
  -- `helper::generate_valid_tran`; `transfer_val` is `gen_random_num(1, balance)`, and `ts` is the clock.
  unfoldable pub generate_valid_tran : ℕ → ℕ → State → Account → H160 → Option SignedTransaction
  unfolding coins_of collect outputs_for
  generate_valid_tran transfer_val ts state account rec_addr =
      let (coins, balance) = coins_of state account.addr in
      let (inputs, acc) = collect transfer_val coins 0 in
      if ltb 0 balance
      then some (
          generate_signed_transaction ts account.key_pair inputs
            (outputs_for transfer_val acc account.addr rec_addr))
      else none

-- The loop of `random_peer_addr`, with the random number that is left.
unfoldable pub nth_addr : ℕ → List H160 → Option H160
nth_addr num [] = none
nth_addr zero (addr ∷ addrs) = some addr
nth_addr (suc num) (addr ∷ addrs) = nth_addr num addrs

unfoldable pub random_peer_addr : ℕ → Peers → Option H160
unfolding nth_addr
random_peer_addr num peers = nth_addr num peers.addrs

-- `Context`, with what its locks guard.
pub record Generator : Type 0 where
  pub operating_state : OperatingState
  pub mempool : MemPool
  pub blockchain : Blockchain
  pub peers : Peers
  pub account : Account
  pub dandelion : Bool

-- `transaction_generator::new`: it runs from the start, every 8000 ms.
unfoldable pub new : MemPool → Blockchain → Peers → Account → Bool → Generator
new mempool blockchain peers account dandelion = record {
  operating_state = OperatingState.run 8000;
  mempool = mempool;
  blockchain = blockchain;
  peers = peers;
  account = account;
  dandelion = dandelion;
}

unfoldable pub handle_control_signal : ControlSignal → Generator → Generator
handle_control_signal (ControlSignal.start i) g = record g {
  operating_state = OperatingState.run i;
}
handle_control_signal ControlSignal.exit g = record g { operating_state = OperatingState.shut_down }
handle_control_signal ControlSignal.paused g = record g { operating_state = OperatingState.paused }

-- What one round draws: the random numbers and the clock.
pub record Draw : Type 0 where
  pub peer : ℕ  -- gen_range(0, peer_num)
  pub transfer_val : ℕ  -- gen_random_num(1, balance)
  pub ts : ℕ

module _ ⦃ring : Ring⦄ ⦃bincode : Bincode⦄ where
  -- The transaction of one round, and its way into the pool.
  unfoldable pub offer : SignedTransaction → Generator → Generator × List Effect
  offer tran g =
      let (pool, accepted) = add_with_check tran g.mempool in
      (
        record g { mempool = pool },
        if accepted
            then (if g.dandelion
                then broadcast (new_dandelion_transactions (tran ∷ [])) none
                else broadcast (new_transaction_hashes (tran.hash ∷ [])) none)
              ∷ []
            else [],
      )

  unfoldable pub tx_generating : Draw → Generator → Run (Generator × List Effect)
  unfolding random_peer_addr generate_valid_tran offer
  tx_generating draw g = tip_block_state g.blockchain >>= λ state.
      ok (elim (random_peer_addr draw.peer g.peers) [
        | none ↦ (g, [])
        | some rec_addr ↦
            elim (generate_valid_tran draw.transfer_val draw.ts state g.account rec_addr) [
              | none ↦ (g, [])
              | some tran ↦ offer tran g
            ]
      ])

  -- Where a round goes on to `tx_generating`, by the state of the generator.
  unfoldable pub generate_in : OperatingState → Draw → Generator → Run (Generator × List Effect)
  generate_in OperatingState.shut_down draw g = ok (g, [])
  generate_in (OperatingState.run i) draw g = tx_generating draw g
  generate_in OperatingState.paused draw g = tx_generating draw g

  unfoldable pub generate_unless_shut_down : Draw → Generator → Run (Generator × List Effect)
  generate_unless_shut_down draw g = generate_in g.operating_state draw g

  -- One round of `transaction_generator_loop`, by the state and by what the channel holds; paused, it waits
  -- for a signal.
  unfoldable pub round_in :
      OperatingState → Draw → Received → Generator → Run (Generator × List Effect)
  round_in OperatingState.shut_down draw received g = ok (g, [])
  round_in OperatingState.paused draw (signal s) g = ok (handle_control_signal s g, [])
  round_in OperatingState.paused draw empty g = ok (g, [])
  round_in OperatingState.paused draw disconnected g = panic
  round_in (OperatingState.run i) draw (signal s) g =
      generate_unless_shut_down draw (handle_control_signal s g)
  round_in (OperatingState.run i) draw empty g = generate_unless_shut_down draw g
  round_in (OperatingState.run i) draw disconnected g = panic

  unfoldable pub round : Draw → Received → Generator → Run (Generator × List Effect)
  round draw received g = round_in g.operating_state draw received g
