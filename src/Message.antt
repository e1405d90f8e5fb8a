-- ===== src/Message.antt =====
-- src/network/message.rs: what nodes send to each other, and the calls through which a handler sends.
use bitcoin_client_rust.Hash.{H256}
use bitcoin_client_rust.Transaction.{SignedTransaction}
use bitcoin_client_rust.Block.{Block}
use bitcoin_client_rust.Mempool.{SocketAddr}
use bitcoin_client_rust.Peers.{PeerInfo}
use bitcoin_client_rust.Prelude.{ℕ, Option, List}

-- A `String` is a list of its bytes.
pub data Message : Type 0 where
  ping pong : List ℕ → Message
  new_block_hashes get_blocks : List H256 → Message
  blocks : List Block → Message
  new_transaction_hashes get_transactions : List H256 → Message
  transactions : List SignedTransaction → Message
  new_peers : List PeerInfo → Message
  introduce : PeerInfo → Message
  new_dandelion_transactions : List SignedTransaction → Message

-- `peer::Handle`: the key of a peer in the slab and its address.
pub record Handle : Type 0 where
  pub addr : SocketAddr
  pub key : ℕ

-- `peer.write(…)` and `server.broadcast(…)`, in the order of the calls.
pub data Effect : Type 0 where
  write : Handle → Message → Effect
  broadcast : Message → Option ℕ → Effect
