-- ===== src/Tests/Wallet.antt =====
-- The theorems on the transactions that a node makes and the blocks that it gets, at a small state and a
-- small node.
use bitcoin_client_rust.Tests.Toy.{toy_ring, toy_ring-IsRing, toy_bincode, hash_at, key}
use bitcoin_client_rust.Tests.Chains.{easy, mined}
use bitcoin_client_rust.Tests.Nodes.{context, somewhere, new-IsPeers}
use bitcoin_client_rust.Tests.Pools.{one, one-IsPool}
use bitcoin_client_rust.Hash.{H160, H256, H256_eq, address_of_digest, to_be_bytes}
use bitcoin_client_rust.Transaction.{SignedTransaction, sign_check}
use bitcoin_client_rust.Block
use bitcoin_client_rust.Block.{header_hash, header_bytes, State, OutPoint_eq, apply_tran}
use bitcoin_client_rust.Blockchain
use bitcoin_client_rust.Blockchain.{change_difficulty}
use bitcoin_client_rust.Blockchain.Waiting.{waiting_count}
use bitcoin_client_rust.Blockchain.Insert.{Extends}
use bitcoin_client_rust.Blockchain.Valid.{Reach-IsValid, retarget, start}
use bitcoin_client_rust.Message.{blocks}
use bitcoin_client_rust.Worker.{Shared, handle}
use bitcoin_client_rust.Worker.Keeps.{IsNode}
use bitcoin_client_rust.Worker.Blocks.{Falls, Ranked, handle_blocks-IsNode}
use bitcoin_client_rust.Peers
use bitcoin_client_rust.Account
use bitcoin_client_rust.Account.{Account}
use bitcoin_client_rust.Generator.{generate_valid_tran}
use bitcoin_client_rust.Generator.Coins.{owned}
use bitcoin_client_rust.Generator.Spends.{generate_valid_tran-applies}
use bitcoin_client_rust.Prelude.Map
use bitcoin_client_rust.Prelude.Map.{IsMap}
use bitcoin_client_rust.Prelude.{
  ℕ, if◌then◌else◌, ◌==◌, ◌≡◌, refl, true, some, [], ◌∷◌, arith, Returns,
}

abbrev someone : H160
someone = record { bytes = 2 ∷ [] }

abbrev holder : Account
holder = Account.new 8081 key

-- Two coins of the account, and one of another.
abbrev holdings : State
holdings =
    (record { tran_hash = hash_at 3; index = 0 }, (40, holder.addr))
    ∷ (record { tran_hash = hash_at 4; index = 1 }, (9, someone))
    ∷ (record { tran_hash = hash_at 5; index = 0 }, (20, holder.addr))
    ∷ []

holdings-IsMap : IsMap holdings
unfolding Map.get
holdings-IsMap = (refl, (refl, (refl, tt)))

holdings-owned : owned holder.addr holdings ≡ 60
unfolding owned Account.new address_of_digest
holdings-owned = refl

generate_valid_tran-applies_example :
    (tran : SignedTransaction) × (generate_valid_tran 50 7 holdings holder someone ≡ some tran)
    × (sign_check tran ≡ true)
    × ((next : State) × (apply_tran tran holdings ≡ some next))
unfolding owned Account.new address_of_digest
generate_valid_tran-applies_example =
    generate_valid_tran-applies 50 7 8081 key someone holdings toy_ring-IsRing holdings-IsMap
      (omega (arith, holdings-owned)) (omega arith) (omega (arith, holdings-owned))

-- A node of low difficulty gets a block that it takes.
abbrev easy_node : Shared
easy_node = record { blockchain = easy; mempool = one; peers_info = Peers.new }

easy_node-IsNode : IsNode easy_node
easy_node-IsNode = record {
  chain = Reach-IsValid (retarget (hash_at 255) start);
  pool = one-IsPool;
  peers = new-IsPeers;
}

abbrev height : H256 → ℕ
height h = if h == hash_at 0 then 0 else 1

easy-Falls : Falls height easy
unfolding change_difficulty Blockchain.new Map.get
easy-Falls k x e = cc e

mined-Ranked : Ranked height 2 mined
unfolding Block.new header_hash header_bytes to_be_bytes
mined-Ranked = record { above = omega arith; below = omega arith }

handle_blocks-IsNode_example :
    Returns
      (handle 3 context (λ i. i) (blocks (mined ∷ [])) somewhere easy_node)
      λ r. IsNode r.0 × Extends easy r.0.blockchain
unfolding change_difficulty Blockchain.new waiting_count
handle_blocks-IsNode_example =
    handle_blocks-IsNode height 2 context (λ i. i) (mined ∷ []) somewhere easy_node easy_node-IsNode
      easy-Falls (mined-Ranked, tt) (omega arith)
