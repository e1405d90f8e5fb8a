-- ===== src/Worker.antt =====
-- src/network/worker.rs: what a worker does with a message of a peer. The locks of the chain, the pool
-- and the peers are held for a whole handler, so a message is one step on the state of the node.
use bitcoin_client_rust.Ring.{Ring}
use bitcoin_client_rust.Hash.{H256, H160, H160_eq}
use bitcoin_client_rust.Transaction.{SignedTransaction, Bincode}
use bitcoin_client_rust.Block.{Block, get_trans_hashes}
use bitcoin_client_rust.Blockchain.{
  Blockchain, exist, get_blocks, insert_with_check, missing_parent, hash_chain,
}
use bitcoin_client_rust.Mempool
use bitcoin_client_rust.Mempool.{
  MemPool, add_with_check, remove_trans, insert_ts_and_addr, get_trans,
}
use bitcoin_client_rust.Peers
use bitcoin_client_rust.Peers.{Peers, PeerInfo, contains, get_all_peers_info}
use bitcoin_client_rust.Message.{
  Message, Handle, Effect, ping, pong, new_block_hashes, blocks, new_transaction_hashes,
  get_transactions, transactions, new_peers, introduce, new_dandelion_transactions, write,
  broadcast,
}
use bitcoin_client_rust.Prelude.{
  ℕ, suc, Bool, true, false, not, ◌&&◌, Option, none, some, List, [], ◌∷◌, ◌++◌, if◌then◌else◌,
  ◌==◌, Run, ok, panic, unwrap, ◌>>=◌,
}
pub mod Kept
pub mod Keeps
pub mod Rounds
pub mod Blocks

-- `Context`, without the channels; the shared state is apart.
pub record Context : Type 0 where
  pub self_addr : H160
  pub self_pub_key : List ℕ
  pub self_port : ℕ
  pub supernode : Bool

-- `worker::new`, of the address, the public key and the port of the account.
unfoldable pub new : H160 → List ℕ → ℕ → Context
new addr pub_key port = record {
  self_addr = addr;
  self_pub_key = pub_key;
  self_port = port;
  supernode = false;
}

unfoldable pub as_supernode : Context → Context
as_supernode ctx = record ctx { supernode = true }

-- What the locks guard.
pub record Shared : Type 0 where
  pub blockchain : Blockchain
  pub mempool : MemPool
  pub peers_info : Peers

-- A message is sent only if its list is not empty.
unfoldable pub unless_empty {ℓ} : {A : Type ℓ} → (List A → Effect) → List A → List Effect
unless_empty effect [] = []
unless_empty effect (a ∷ rest) = effect (a ∷ rest) ∷ []

-- `hashes.into_iter().filter(|h| !known(h)).collect()`
unfoldable pub filter_unknown : (H256 → Bool) → List H256 → List H256
filter_unknown known [] = []
filter_unknown known (h ∷ hashes) =
    if not (known h) then h ∷ filter_unknown known hashes else filter_unknown known hashes

-- The loop of `NewTransactionHashes` on a supernode; the `i`-th reading of the clock is `clock i`.
unfoldable pub record_arrivals : (ℕ → ℕ) → ℕ → Handle → List H256 → MemPool → MemPool
record_arrivals clock i peer [] pool = pool
record_arrivals clock i peer (h ∷ hashes) pool =
    record_arrivals clock (suc i) peer hashes (insert_ts_and_addr h peer.addr (clock i) pool)

-- The loop of `NewPeers`: the peers that are new, in order.
unfoldable pub add_peers : H160 → List PeerInfo → Peers → Peers × List PeerInfo
add_peers self_addr [] peers = (peers, [])
add_peers self_addr ((addr, (pub_key, port)) ∷ content) peers =
    let (after, found) = add_peers self_addr content (Peers.insert addr pub_key port peers) in
    let skipped = add_peers self_addr content peers in
    if not (addr == self_addr) && not (contains peers addr)
    then (after, (addr, (pub_key, port)) ∷ found)
    else skipped

module _ ⦃ring : Ring⦄ ⦃bincode : Bincode⦄ where
  -- The loop of `Blocks`: the new hashes and the missing parents, in order.
  unfoldable pub insert_blocks :
      ℕ
      → Bool
      → List Block
      → Blockchain
      → MemPool
      → Run ((Blockchain × MemPool) × (List H256 × List H256))
  insert_blocks fuel supernode [] chain pool = ok ((chain, pool), ([], []))
  insert_blocks fuel supernode (b ∷ bs) chain pool =
      insert_with_check fuel b chain >>= λ (accepted, next).
      missing_parent fuel next b.hash >>= λ parent.
      let cleared =
        if accepted && not supernode
        then remove_trans (get_trans_hashes b.content) pool
        else pool in
      insert_blocks fuel supernode bs next cleared >>= λ (done, (new_hashes, missing)). ok (
        done,
        (
          if accepted then b.hash ∷ new_hashes else new_hashes,
          elim parent [ some p ↦ p ∷ missing | none ↦ missing ],
        ),
      )

  -- The loop of `NewDandelionTransactions` on a supernode.
  unfoldable pub swallow : (ℕ → ℕ) → ℕ → Handle → List SignedTransaction → MemPool → MemPool
  swallow clock i peer [] pool = pool
  swallow clock i peer (t ∷ trans) pool =
      swallow clock (suc i) peer trans
        (add_with_check t (insert_ts_and_addr t.hash peer.addr (clock i) pool)).0

  -- The loop of `Transactions`: the hashes of those that the pool took.
  unfoldable pub add_trans : List SignedTransaction → MemPool → MemPool × List H256
  add_trans [] pool = (pool, [])
  add_trans (t ∷ trans) pool =
      let (next, accepted) = add_with_check t pool in
      let (done, new_hashes) = add_trans trans next in
      (done, if accepted then t.hash ∷ new_hashes else new_hashes)

  -- `Introduce`: the newcomer gets all known peers and the hashes of the longest chain.
  unfoldable pub handle_introduce :
      Context → PeerInfo → Handle → Shared → Run (Shared × List Effect)
  handle_introduce ctx (addr, (pub_key, port)) peer s = hash_chain s.blockchain >>= λ hashes.
      let sync = write peer (new_block_hashes hashes) in
      if not (contains s.peers_info addr)
      then (let peers = Peers.insert addr pub_key port s.peers_info in
          get_all_peers_info peers >>= λ infos. ok (
            record s { peers_info = peers },
            (write peer
                  (new_peers (infos ++ (ctx.self_addr, (ctx.self_pub_key, ctx.self_port)) ∷ []))
                ∷ broadcast (new_peers ((addr, (pub_key, port)) ∷ [])) (some peer.key)
                ∷ sync
                ∷ []),
          ))
      else ok (s, sync ∷ [])

  -- The `match` of `worker_loop` on a message.
  unfoldable pub handle :
      ℕ → Context → (ℕ → ℕ) → Message → Handle → Shared → Run (Shared × List Effect)
  unfolding unless_empty filter_unknown record_arrivals add_peers insert_blocks swallow add_trans
      handle_introduce
  handle fuel ctx clock (ping nonce) peer s = ok (s, write peer (pong nonce) ∷ [])
  handle fuel ctx clock (pong nonce) peer s = ok (s, [])
  handle fuel ctx clock (new_block_hashes hashes) peer s = ok (
    s,
    unless_empty (λ hs. write peer (Message.get_blocks hs))
        (filter_unknown (exist s.blockchain) hashes),
  )
  handle fuel ctx clock (Message.get_blocks hashes) peer s =
      ok (s, unless_empty (λ bs. write peer (blocks bs)) (get_blocks s.blockchain hashes))
  handle fuel ctx clock (blocks bs) peer s =
      insert_blocks fuel ctx.supernode bs s.blockchain s.mempool
      >>= λ ((chain, pool), (new_hashes, missing)). ok (
        record s { blockchain = chain; mempool = pool },
        unless_empty (λ hs. write peer (Message.get_blocks hs)) missing
            ++ unless_empty (λ hs. broadcast (new_block_hashes hs) (some peer.key)) new_hashes,
      )
  handle fuel ctx clock (new_transaction_hashes hashes) peer s =
      let pool =
        if ctx.supernode then record_arrivals clock 0 peer hashes s.mempool else s.mempool in
      ok (
        record s { mempool = pool },
        unless_empty (λ hs. write peer (get_transactions hs))
            (filter_unknown (Mempool.exist pool) hashes),
      )
  handle fuel ctx clock (new_dandelion_transactions trans) peer s = ok (
      if ctx.supernode
      then (record s { mempool = swallow clock 0 peer trans s.mempool }, [])
      else (s, broadcast (new_dandelion_transactions trans) (some peer.key) ∷ []))
  handle fuel ctx clock (get_transactions hashes) peer s =
      ok (s, unless_empty (λ ts. write peer (transactions ts)) (get_trans s.mempool hashes))
  handle fuel ctx clock (transactions trans) peer s =
      let (pool, new_hashes) = add_trans trans s.mempool in
      ok (
        record s { mempool = pool },
        if not ctx.supernode
            then unless_empty (λ hs. broadcast (new_transaction_hashes hs) (some peer.key))
                new_hashes
            else [],
      )
  handle fuel ctx clock (new_peers content) peer s =
      let (peers, found) = add_peers ctx.self_addr content s.peers_info in
      ok (
        record s { peers_info = peers },
        unless_empty (λ infos. broadcast (new_peers infos) (some peer.key)) found,
      )
  handle fuel ctx clock (introduce content) peer s = handle_introduce ctx content peer s

-- The calls of a handler, in order: a broadcast panics if the server is gone (`serving` is false), a write to a peer
-- that is gone is only logged.
unfoldable pub deliver : Bool → List Effect → Run (List Effect)
deliver serving [] = ok []
deliver serving (write peer msg ∷ effects) =
    deliver serving effects >>= λ sent. ok (write peer msg ∷ sent)
deliver true (broadcast msg source ∷ effects) =
    deliver true effects >>= λ sent. ok (broadcast msg source ∷ sent)
deliver false (broadcast msg source ∷ effects) = panic

-- One round of `worker_loop`: `received` is what `msg_chan.recv()` gives, none where the channel is closed, and
-- `decode` is `bincode::deserialize`.
module _ ⦃ring : Ring⦄ ⦃bincode : Bincode⦄ where
  unfoldable pub worker_round :
      (List ℕ → Option Message)
      → Bool
      → ℕ
      → Context
      → (ℕ → ℕ)
      → Option (List ℕ × Handle)
      → Shared
      → Run (Shared × List Effect)
  unfolding handle deliver
  worker_round decode serving fuel ctx clock received s = unwrap received >>= λ (bytes, peer).
      unwrap (decode bytes) >>= λ msg. handle fuel ctx clock msg peer s >>= λ (next, effects).
      deliver serving effects >>= λ sent. ok (next, sent)
