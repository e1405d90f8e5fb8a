-- ===== src/Tests/Nodes.antt =====
-- The theorems on messages, peers, the miner, the sockets and the spreaders at small nodes.
use bitcoin_client_rust.Tests.Toy.{toy_ring, toy_bincode, first_block, key}
use bitcoin_client_rust.Tests.Pools.{one, one-IsPool}
use bitcoin_client_rust.Hash.{H256, H256_eq, H160_eq}
use bitcoin_client_rust.Transaction.{TxInput, SignedTransaction}
use bitcoin_client_rust.Block.{genesis, get_trans_hashes}
use bitcoin_client_rust.Blockchain
use bitcoin_client_rust.Blockchain.{exist}
use bitcoin_client_rust.Blockchain.Waiting.{waiting_count}
use bitcoin_client_rust.Blockchain.Insert.{Extends}
use bitcoin_client_rust.Blockchain.Valid.{IsValid, new-IsValid}
use bitcoin_client_rust.Mempool.Claims.{IsPool}
use bitcoin_client_rust.Peers
use bitcoin_client_rust.Peers.{
  Peers, IsPeers, insert-IsPeers, get_all_peers_info, get_all_peers_info-Returns,
}
use bitcoin_client_rust.Mempool.{SocketAddr}
use bitcoin_client_rust.Message.{Message, Handle, introduce}
use bitcoin_client_rust.Worker.{Context, Shared, worker_round}
use bitcoin_client_rust.Worker.Keeps.{IsNode}
use bitcoin_client_rust.Worker.Rounds.{RoundEnds, worker_round-RoundEnds}
use bitcoin_client_rust.Miner.{Miner, OperatingState, found}
use bitcoin_client_rust.Miner.Found.{found-clears}
use bitcoin_client_rust.Framing.{ReadContext, payload_part}
use bitcoin_client_rust.Server.Positions.{IsServer}
use bitcoin_client_rust.Server.{Server}
use bitcoin_client_rust.Prelude.Map
use bitcoin_client_rust.Prelude.{
  ◌≡◌, refl, ℕ, true, Option, none, List, false, some, [], ◌∷◌, In, arith, Returns, nat_eq,
}

abbrev pub somewhere : Handle
somewhere = record { addr = record { ip = 127 ∷ 0 ∷ 0 ∷ 1 ∷ []; port = 8080 }; key = 0 }

abbrev pub context : Context
context = record {
  self_addr = record { bytes = 1 ∷ [] };
  self_pub_key = key;
  self_port = 8081;
  supernode = false;
}

abbrev node : Shared
node = record { blockchain = Blockchain.new; mempool = one; peers_info = Peers.new }

pub new-IsPeers : IsPeers Peers.new
unfolding Peers.new
new-IsPeers addr m = absurd m

node-IsNode : IsNode node
node-IsNode = record { chain = new-IsValid; pool = one-IsPool; peers = new-IsPeers }

-- A payload of two bytes is an introduction, and any other no message.
abbrev toy_decode : List ℕ → Option Message
toy_decode (a ∷ b ∷ []) = some (introduce (record { bytes = a ∷ [] }, (key, 8082)))
toy_decode _ = none

worker_round-RoundEnds_example :
    RoundEnds
      (toy_decode (2 ∷ 3 ∷ []))
      (worker_round toy_decode true 1 context (λ i. i) (some (2 ∷ 3 ∷ [], somewhere)) node)
unfolding Blockchain.new
worker_round-RoundEnds_example =
    worker_round-RoundEnds toy_decode 1 context (λ i. i) (2 ∷ 3 ∷ []) somewhere node tt node-IsNode
      (omega arith)

abbrev miner : Miner
miner = record {
  operating_state = OperatingState.run 0;
  blockchain = Blockchain.new;
  mempool = one;
  nonce = 0;
  mined_num = 0;
  key_pair = key;
}

found-clears_example : Returns (found 1 first_block miner) λ r.
    IsValid r.0.blockchain
    × Extends Blockchain.new r.0.blockchain
    × IsPool r.0.mempool
    × ((h : H256) (t : SignedTransaction)
        → Map.get h r.0.mempool.transactions ≡ some t
        → (Map.get h one.transactions ≡ some t)
          × ¬ In h (get_trans_hashes first_block.content)
          × ((spender : SignedTransaction) (input : TxInput)
              → In spender first_block.content.trans
              → In input spender.transaction.inputs
              → ¬ In input t.transaction.inputs))
unfolding Blockchain.new genesis Map.get Map.insert waiting_count
found-clears_example =
    found-clears 1 first_block genesis miner new-IsValid one-IsPool.0 (refl, refl) refl
      (omega arith)

-- A reader that has one byte of a payload of three.
abbrev reader : ReadContext
reader = record {
  buffer = 5 ∷ 0 ∷ 0 ∷ 0 ∷ [];
  msg_length = 3;
  read_length = 1;
  state = payload_part;
}

abbrev pub no_server : Server
no_server = record { peers = []; peer_list = [] }

abbrev pub home : SocketAddr
home = record { ip = 127 ∷ 0 ∷ 0 ∷ 1 ∷ []; port = 9090 }

pub no_server-IsServer : IsServer no_server
unfolding Map.get
no_server-IsServer = record { once = tt; listed = λ k m. absurd m; stored = λ k h e. cc e }
