-- ===== src/Tests/Mining.antt =====
-- The theorems on what the miner tries, and on the widths of hashes, at a small node.
use bitcoin_client_rust.Tests.Toy.{toy_ring, toy_bincode, key}
use bitcoin_client_rust.Tests.Pools.{one}
use bitcoin_client_rust.Blockchain
use bitcoin_client_rust.Mempool.{new}
use bitcoin_client_rust.Miner.{Miner, OperatingState}

abbrev digger : Miner
digger = record {
  operating_state = OperatingState.run 0;
  blockchain = Blockchain.new;
  mempool = one;
  nonce = 0;
  mined_num = 0;
  key_pair = key;
}
