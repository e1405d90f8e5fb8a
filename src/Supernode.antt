-- ===== src/Supernode.antt =====
-- src/main.rs, `run_supernode`: one server and one worker for each probe, over one chain, one pool and one set of
-- peers, and an HTTP interface whose handles lead to no thread.
use bitcoin_client_rust.Ring.{Ring}
use bitcoin_client_rust.Blockchain
use bitcoin_client_rust.Mempool
use bitcoin_client_rust.Mempool.{SocketAddr}
use bitcoin_client_rust.Peers
use bitcoin_client_rust.Account
use bitcoin_client_rust.Account.{Account}
use bitcoin_client_rust.Message.{Message, introduce}
use bitcoin_client_rust.Worker
use bitcoin_client_rust.Worker.{Context, Shared, as_supernode}
use bitcoin_client_rust.Control.{Crossbeam}
use bitcoin_client_rust.Estimator.{Float}
use bitcoin_client_rust.Api.{Api}
use bitcoin_client_rust.Prelude.{ℕ, zero, suc, ◌+◌, ◌-◌, ◌%◌, ◌^◌, List, [], ◌∷◌}
pub mod Reach

-- The loop over `1..probe_cnt`, with the rounds that are left; `i as u16` and the port wrap.
unfoldable pub more_addrs : ℕ → ℕ → SocketAddr → List SocketAddr
more_addrs i zero node_socket_addr = []
more_addrs i (suc n) node_socket_addr =
    record node_socket_addr { port = (node_socket_addr.port + i % 2 ^ 16) % 2 ^ 16 }
    ∷ more_addrs (suc i) n node_socket_addr

-- `nodes_addr`
unfoldable pub nodes_addr : ℕ → SocketAddr → List SocketAddr
unfolding more_addrs
nodes_addr probe_cnt node_socket_addr =
    node_socket_addr ∷ more_addrs 1 (probe_cnt - 1) node_socket_addr

-- What the loop makes for each address: a worker, and the message that introduces its account.
pub record Probe : Type 0 where
  pub addr : SocketAddr
  pub worker : Context
  pub greeting : Message

unfoldable pub new_probe : ⦃ring : Ring⦄ → SocketAddr → List ℕ → Probe
unfolding Worker.new as_supernode
new_probe addr key_pair =
    let account = Account.new addr.port key_pair in
    let pub_key = Account.get_pub_key account in
    record {
      addr = addr;
      worker = as_supernode (Worker.new account.addr pub_key addr.port);
      greeting = introduce (account.addr, (pub_key, addr.port));
    }

-- The loop over the addresses: the `i`-th draws the key pair `keys i`.
unfoldable pub new_probes : ⦃ring : Ring⦄ → (ℕ → List ℕ) → ℕ → List SocketAddr → List Probe
unfolding new_probe
new_probes keys i [] = []
new_probes keys i (addr ∷ addrs) = new_probe addr (keys i) ∷ new_probes keys (suc i) addrs

pub record Supernode : Type 0 where
  pub shared : Shared
  pub probes : List Probe

unfoldable pub run_supernode : ⦃ring : Ring⦄ → (ℕ → List ℕ) → ℕ → SocketAddr → Supernode
unfolding nodes_addr new_probes
run_supernode keys probe_cnt node_socket_addr = record {
  shared = record { blockchain = Blockchain.new; mempool = Mempool.new; peers_info = Peers.new };
  probes = new_probes keys 0 (nodes_addr probe_cnt node_socket_addr);
}

-- `ApiServer::start`: the contexts of the miner and of the generator are dropped with their receivers.
unfoldable pub api_of : (crossbeam : Crossbeam) (float : Float) → Supernode → Api crossbeam float
api_of crossbeam float n = record {
  miner = crossbeam.hang_up crossbeam.unbounded;
  transaction_generator = crossbeam.hang_up crossbeam.unbounded;
  blockchain = n.shared.blockchain;
  mempool = n.shared.mempool;
  peers = n.shared.peers_info;
}
