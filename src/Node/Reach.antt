-- ===== src/Node/Reach.antt =====
-- What the threads of a node can make of it, in any order.
use bitcoin_client_rust.Ring.{Ring}
use bitcoin_client_rust.Hash.{H256, H256_eq}
use bitcoin_client_rust.Transaction.{TxInput_eq, Bincode}
use bitcoin_client_rust.Block.{Block}
use bitcoin_client_rust.Blockchain.Waiting.{waiting_count}
use bitcoin_client_rust.Blockchain.Insert.{Extends}
use bitcoin_client_rust.Blockchain.Valid.{new-IsValid}
use bitcoin_client_rust.Blockchain
use bitcoin_client_rust.Mempool
use bitcoin_client_rust.Mempool.{remove_trans, remove_conflict_tx_inputs}
use bitcoin_client_rust.Peers
use bitcoin_client_rust.Peers.{IsPeers}
use bitcoin_client_rust.Message.{Message, Handle, Effect, blocks}
use bitcoin_client_rust.Miner
use bitcoin_client_rust.Miner.{Miner, Received}
use bitcoin_client_rust.Miner.Rounds.{Connected, FindsFresh, IsMiner, round-IsMiner}
use bitcoin_client_rust.Generator.{Generator, Draw, round}
use bitcoin_client_rust.Generator.Rounds.{IsGenerator, round-IsGenerator}
use bitcoin_client_rust.Spread.{TimerTask, run_task}
use bitcoin_client_rust.Spread.Tasks.{run_task-IsKept}
use bitcoin_client_rust.Worker.{Shared, handle}
use bitcoin_client_rust.Worker.Keeps.{IsNode, NotBlocks, handle-IsNode}
use bitcoin_client_rust.Worker.Kept.{IsKept}
use bitcoin_client_rust.Worker.Blocks.{Falls, Ranked, handle_blocks-IsNode}
use bitcoin_client_rust.Node.{
  Node, start_node, context_of, generator_of, miner_of, spreading_of, after_generator, after_miner,
  after_spreader,
}
use bitcoin_client_rust.Prelude.Map
use bitcoin_client_rust.Prelude.{
  ℕ, suc, ◌+◌, ◌≤◌, ◌<◌, ◌^◌, ◌≡◌, subst, Bool, List, sym, All, length, Run, ok, ◌∙◌, ok_cancel,
  Returns, arith,
}

module _ ⦃ring : Ring⦄ ⦃bincode : Bincode⦄ where
  -- The steps: a message that a worker handles, a round of the generator, a round of the miner, and a task of the
  -- spreader that is due. Each is atomic.
  pub data Reach (port : ℕ) (key_pair : List ℕ) (is_diffuser : Bool) : Node → Type 0 where
    starts : Reach port key_pair is_diffuser (start_node port key_pair is_diffuser)
    handles :
        (n : Node) (s : Shared) (effects : List Effect) (fuel : ℕ) (clock : ℕ → ℕ) (m : Message)
        (peer : Handle)
        → Reach port key_pair is_diffuser n
        → NotBlocks m
        → n.shared.blockchain.max_index < 2 ^ 31
        → handle fuel (context_of n) clock m peer n.shared ≡ ok (s, effects)
        → Reach port key_pair is_diffuser (record n { shared = s })
    handles_blocks :
        (n : Node) (s : Shared) (effects : List Effect) (rank : H256 → ℕ) (limit : ℕ)
        (clock : ℕ → ℕ) (bs : List Block) (peer : Handle)
        → Reach port key_pair is_diffuser n
        → Falls rank n.shared.blockchain
        → All (Ranked rank limit) bs
        → waiting_count n.shared.blockchain.orphans_map + length bs ≤ limit
        → handle (suc limit) (context_of n) clock (blocks bs) peer n.shared ≡ ok (s, effects)
        → Reach port key_pair is_diffuser (record n { shared = s })
    generates :
        (n : Node) (g : Generator) (effects : List Effect) (draw : Draw) (received : Received)
        → Reach port key_pair is_diffuser n
        → Connected received
        → round draw received (generator_of n) ≡ ok (g, effects)
        → Reach port key_pair is_diffuser (after_generator g n)
    mines :
        (n : Node) (m : Miner) (effects : List Effect) (fuel ts millis : ℕ) (received : Received)
        → Reach port key_pair is_diffuser n
        → Connected received
        → FindsFresh ts millis (miner_of n)
        → waiting_count n.shared.blockchain.orphans_map < fuel
        → Miner.round fuel ts millis received (miner_of n) ≡ ok (m, effects)
        → Reach port key_pair is_diffuser (after_miner m n)
    relays :
        (n : Node) (nano : ℕ) (task : TimerTask)
        → Reach port key_pair is_diffuser n
        → Reach port key_pair is_diffuser (after_spreader (run_task nano task (spreading_of n)).0 n)

  new-IsKept : IsKept Mempool.new
  unfolding Mempool.new Map.get
  new-IsKept = (record { keyed = λ h t e. cc e; claimed = λ h t input e m. cc e }, omega arith)

  new-IsPeers : IsPeers Peers.new
  unfolding Peers.new
  new-IsPeers addr m = absurd m

  -- What a node starts with.
  pub empty-IsNode :
      IsNode (record { blockchain = Blockchain.new; mempool = Mempool.new; peers_info = Peers.new })
  empty-IsNode = record { chain = new-IsValid; pool = new-IsKept; peers = new-IsPeers }

  start-IsNode :
      (port : ℕ) (key_pair : List ℕ) (is_diffuser : Bool)
      → IsNode (start_node port key_pair is_diffuser).shared
  unfolding start_node
  start-IsNode port key_pair is_diffuser = empty-IsNode

  -- The call ended in the value that it is known to end in.
  pub same_end :
      {A : Type 0} {call : Run A} {a : A} (P : A → Type 0) → call ≡ ok a → Returns call P → P a
  same_end P ends (b, run, holds) = subst P (ok_cancel (sym run ∙ ends)) holds

  -- However the threads of a node take turns by the steps of `Reach`, its chain, its pool and its peers stay
  -- valid. The steps: a message but `Blocks` while the chain is shorter than 2 ^ 31; `Blocks` with fuel, where
  -- neither its blocks nor the orphans hang in a cycle; a round of the generator with an open control channel;
  -- a round of the miner with an open control channel and fuel, in which it finds no block that is known; and a
  -- task of the spreader.
  pub Reach-IsNode :
      (port : ℕ) (key_pair : List ℕ) (is_diffuser : Bool) (n : Node)
      → Reach port key_pair is_diffuser n
      → IsNode n.shared
  unfolding generator_of miner_of spreading_of after_generator after_miner after_spreader
  Reach-IsNode port key_pair is_diffuser n starts = start-IsNode port key_pair is_diffuser
  Reach-IsNode port key_pair is_diffuser n
        (handles was s effects fuel clock m peer reach other small ends) =
      same_end (λ r. IsNode r.0) ends
        (handle-IsNode fuel (context_of was) clock m peer was.shared other
          (Reach-IsNode port key_pair is_diffuser was reach) small)
  Reach-IsNode port key_pair is_diffuser n
        (handles_blocks was s effects rank limit clock bs peer reach falls ranked enough ends) =
      (same_end (λ r. IsNode r.0 × Extends was.shared.blockchain r.0.blockchain) ends
        (handle_blocks-IsNode rank limit (context_of was) clock bs peer was.shared
          (Reach-IsNode port key_pair is_diffuser was reach) falls ranked enough)).0
  Reach-IsNode port key_pair is_diffuser n
        (generates was g effects draw received reach connected ends) =
      let valid = Reach-IsNode port key_pair is_diffuser was reach in
      let kept =
        same_end (λ r. IsGenerator r.0) ends
          (round-IsGenerator draw received (generator_of was)
            (record { chain = valid.chain; pool = valid.pool }) connected) in
      record { chain = kept.chain; pool = kept.pool; peers = valid.peers }
  Reach-IsNode port key_pair is_diffuser n
        (mines was m effects fuel ts millis received reach connected fresh enough ends) =
      let valid = Reach-IsNode port key_pair is_diffuser was reach in
      let kept =
        same_end (λ r. IsMiner r.0) ends
          (round-IsMiner fuel ts millis received (miner_of was)
            (record { chain = valid.chain; pool = valid.pool }) connected fresh enough) in
      record { chain = kept.chain; pool = kept.pool; peers = valid.peers }
  Reach-IsNode port key_pair is_diffuser n (relays was nano task reach) =
      let valid = Reach-IsNode port key_pair is_diffuser was reach in
      record {
        chain = valid.chain;
        pool = (run_task-IsKept nano task (spreading_of was) valid.pool).0;
        peers = valid.peers;
      }
