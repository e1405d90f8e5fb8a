-- ===== src/Helper.antt =====
-- src/helper.rs: the builders of contents, headers and blocks, whose random values are arguments, the choice of a
-- destination, and the connection to known peers.
use bitcoin_client_rust.Ring.{Ring}
use bitcoin_client_rust.Hash.{H256, H160, H256_eq}
use bitcoin_client_rust.Transaction.{
  TxInput, TxOutput, Transaction, SignedTransaction, Bincode, sign,
}
use bitcoin_client_rust.Transaction
use bitcoin_client_rust.Block
use bitcoin_client_rust.Block.{Header, Content, Block, State, OutPoint, OutPoint_eq, new_header}
use bitcoin_client_rust.Block.Contents.{new_content, add_tran, merkle_root}
use bitcoin_client_rust.Estimator.{SocketAddr_eq}
use bitcoin_client_rust.Mempool.{SocketAddr}
use bitcoin_client_rust.Miner.{mining_base}
use bitcoin_client_rust.Server.Events.{ControlSignal, connect_new_peer}
use bitcoin_client_rust.Prelude.Map
use bitcoin_client_rust.Prelude.{
  ℕ, suc, Bool, true, false, Option, none, some, List, [], ◌∷◌, length, get_elem?, if◌then◌else◌,
  ◌==◌, nat_eq, Run, ok, panic, ◌>>=◌, unwrap,
}
pub mod Built
pub mod Blocks

-- The outcome of `Server::connect` for each peer that is tried: an error is logged, and the next is tried.
unfoldable pub connect_peers : List SocketAddr → List (Option ℕ) → List ControlSignal
connect_peers [] results = []
connect_peers (addr ∷ known_peers) [] = []
connect_peers (addr ∷ known_peers) (result ∷ results) =
    connect_new_peer addr result ∷ connect_peers known_peers results

-- What a random transaction is made of.
pub record Random : Type 0 where
  pub inputs : List TxInput
  pub outputs : List TxOutput
  pub ts : ℕ
  pub key : List ℕ

module _ ⦃ring : Ring⦄ ⦃bincode : Bincode⦄ where
  -- `generate_random_transaction` and `generate_random_signed_transaction_from_keypair`
  unfoldable pub generate_random_signed_transaction : Random → SignedTransaction
  unfolding Transaction.new sign
  generate_random_signed_transaction r =
      let tran : Transaction.Transaction = record {
        inputs = r.inputs;
        outputs = r.outputs;
        ts = r.ts;
      } in
      Transaction.new tran (sign tran r.key) (ring.public_key r.key)

  -- `generate_content`
  unfoldable pub generate_content : Random → Content
  unfolding generate_random_signed_transaction add_tran new_content
  generate_content r = add_tran (generate_random_signed_transaction r) new_content

  -- The loop of `generate_random_content`, over the random transactions.
  unfoldable pub add_random : List Random → Content → Content
  unfolding generate_random_signed_transaction add_tran
  add_random [] content = content
  add_random (r ∷ rs) content =
      add_random rs (add_tran (generate_random_signed_transaction r) content)

  unfoldable pub generate_random_content : List Random → Content
  unfolding add_random new_content
  generate_random_content rs = add_random rs new_content

module _ ⦃ring : Ring⦄ where
  -- `generate_header`, at the time 100.
  unfoldable pub generate_header : H256 → Content → ℕ → H256 → Run Header
  unfolding merkle_root new_header
  generate_header parent content nonce difficulty =
      merkle_root content >>= λ root. ok (new_header parent nonce 100 difficulty root)

  -- `generate_random_header`, by the random nonce, timestamp and difficulty.
  unfoldable pub generate_random_header : ℕ → ℕ → H256 → H256 → Content → Run Header
  unfolding merkle_root new_header
  generate_random_header nonce timestamp difficulty parent content =
      merkle_root content >>= λ root. ok (new_header parent nonce timestamp difficulty root)

module _ ⦃ring : Ring⦄ ⦃bincode : Bincode⦄ where
  unfoldable pub generate_block : Random → H256 → ℕ → H256 → Run Block
  unfolding generate_content generate_header Block.new
  generate_block r parent nonce difficulty =
      let content = generate_content r in
      generate_header parent content nonce difficulty >>= λ header. ok (Block.new header content)

  unfoldable pub generate_random_block : List Random → ℕ → ℕ → H256 → H256 → Run Block
  unfolding generate_random_content generate_random_header Block.new
  generate_random_block rs nonce timestamp difficulty parent =
      let content = generate_random_content rs in
      generate_random_header nonce timestamp difficulty parent content >>= λ header.
      ok (Block.new header content)

  -- The assertion of `generate_mined_block`.
  unfoldable pub assert_mined : Content → Header × Bool → Run Block
  unfolding Block.new
  assert_mined content (header, true) = ok (Block.new header content)
  assert_mined content (header, false) = panic

  unfoldable pub generate_mined_block : List Random → H256 → H256 → Run Block
  unfolding generate_random_content generate_header mining_base assert_mined
  generate_mined_block rs parent_hash difficulty =
      let content = generate_random_content rs in
      generate_header parent_hash content 0 difficulty >>= λ header.
      assert_mined content (mining_base header difficulty)

-- The loop of `generate_random_state`, behind its assertion on the lengths.
unfoldable pub insert_all : List OutPoint → List (ℕ × H160) → State → State
insert_all [] outputs state = state
insert_all (input ∷ inputs) [] state = state
insert_all (input ∷ inputs) (output ∷ outputs) state =
    insert_all inputs outputs (Map.insert input output state)

unfoldable pub generate_random_state : List OutPoint → List (ℕ × H160) → Run State
unfolding insert_all
generate_random_state inputs outputs =
    if length inputs == length outputs then ok (insert_all inputs outputs []) else panic

-- `destinations.retain(|&x| x != inbound_addr)`
unfoldable pub retain : SocketAddr → List SocketAddr → List SocketAddr
retain inbound_addr [] = []
retain inbound_addr (x ∷ destinations) =
    let rest = retain inbound_addr destinations in if x == inbound_addr then rest else x ∷ rest

-- `rand_idx` is `gen_random_num(0, candidate_num - 1)`.
unfoldable pub select_from : ℕ → SocketAddr → List SocketAddr → Run SocketAddr
select_from rand_idx inbound_addr [] = ok inbound_addr
select_from rand_idx inbound_addr (x ∷ rest) = unwrap (get_elem? (x ∷ rest) rand_idx)

unfoldable pub select_destination : ℕ → List SocketAddr → SocketAddr → Run SocketAddr
unfolding retain select_from
select_destination rand_idx destinations inbound_addr =
    select_from rand_idx inbound_addr (retain inbound_addr destinations)
