-- ===== src/Node.antt =====
-- src/main.rs, `run_regular_server`: one node, with what its threads share, and the ways in which they
-- see it. `config::SPREADER` is the dandelion++ spreader.
use bitcoin_client_rust.Ring.{Ring}
use bitcoin_client_rust.Mempool
use bitcoin_client_rust.Blockchain
use bitcoin_client_rust.Peers
use bitcoin_client_rust.Account
use bitcoin_client_rust.Account.{Account}
use bitcoin_client_rust.Message.{Message, introduce}
use bitcoin_client_rust.Miner.{Miner, OperatingState}
use bitcoin_client_rust.Generator
use bitcoin_client_rust.Generator.{Generator}
use bitcoin_client_rust.Spread.{Spreading}
use bitcoin_client_rust.Worker
use bitcoin_client_rust.Worker.{Context, Shared}
use bitcoin_client_rust.Prelude.{ℕ, ◌+◌, Bool, true, false, none, List, []}
pub mod Reach

pub record Node : Type 0 where
  pub shared : Shared
  pub account : Account
  pub generating : OperatingState
  pub mining : OperatingState
  pub nonce : ℕ
  pub mined_num : ℕ
  pub spreading : Spreading  -- its pool is that of `shared`

-- The node as it starts: the generator runs, the miner waits.
unfoldable pub start_node : ⦃ring : Ring⦄ → ℕ → List ℕ → Bool → Node
start_node port key_pair is_diffuser = record {
  shared = record { blockchain = Blockchain.new; mempool = Mempool.new; peers_info = Peers.new };
  account = Account.new port key_pair;
  generating = OperatingState.run 8000;
  mining = OperatingState.paused;
  nonce = 0;
  mined_num = 0;
  spreading = record {
    guard_map = [];
    mempool = Mempool.new;
    target_index = none;
    routing_table = [];
    is_diffuser = is_diffuser;
  };
}

-- The first message to the network.
unfoldable pub greeting : Node → Message
greeting n = introduce (n.account.addr, (Account.get_pub_key n.account, n.account.port))

-- The context of the workers; a regular server is no supernode.
unfoldable pub context_of : Node → Context
unfolding Worker.new
context_of n = Worker.new n.account.addr (Account.get_pub_key n.account) n.account.port

unfoldable pub generator_of : Node → Generator
generator_of n = record {
  operating_state = n.generating;
  mempool = n.shared.mempool;
  blockchain = n.shared.blockchain;
  peers = n.shared.peers_info;
  account = n.account;
  dandelion = true;
}

unfoldable pub miner_of : Node → Miner
miner_of n = record {
  operating_state = n.mining;
  blockchain = n.shared.blockchain;
  mempool = n.shared.mempool;
  nonce = n.nonce;
  mined_num = n.mined_num;
  key_pair = n.account.key_pair;
}

unfoldable pub spreading_of : Node → Spreading
spreading_of n = record n.spreading { mempool = n.shared.mempool }

-- What a thread leaves behind.
unfoldable pub after_generator : Generator → Node → Node
after_generator g n = record n {
  shared = record n.shared { blockchain = g.blockchain; mempool = g.mempool };
  generating = g.operating_state;
}

unfoldable pub after_miner : Miner → Node → Node
after_miner m n = record n {
  shared = record n.shared { blockchain = m.blockchain; mempool = m.mempool };
  mining = m.operating_state;
  nonce = m.nonce;
  mined_num = m.mined_num;
}

unfoldable pub after_spreader : Spreading → Node → Node
after_spreader s n = record n { shared = record n.shared { mempool = s.mempool }; spreading = s }
