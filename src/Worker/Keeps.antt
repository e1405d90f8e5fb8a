-- ===== src/Worker/Keeps.antt =====
-- What the handlers leave of the node.
use bitcoin_client_rust.Worker.Kept.{IsKept, arrival-IsKept, record_arrivals-IsKept}
use bitcoin_client_rust.Ring.{Ring}
use bitcoin_client_rust.Hash.{H256, H160, H160_eq, H256_eq}
use bitcoin_client_rust.Transaction.{TxInput_eq, SignedTransaction, Bincode}
use bitcoin_client_rust.Blockchain.Valid.{IsValid}
use bitcoin_client_rust.Blockchain.Chain.{hash_chain-Descends}
use bitcoin_client_rust.Mempool.{MemPool, add_with_check, insert_ts_and_addr}
use bitcoin_client_rust.Mempool.Valid.{add_with_check-IsPool}
use bitcoin_client_rust.Peers
use bitcoin_client_rust.Peers.{
  Peers, PeerInfo, contains, IsPeers, insert-IsPeers, get_all_peers_info-Returns,
  get_all_peers_info,
}
use bitcoin_client_rust.Message.{
  Message, Handle, ping, pong, new_block_hashes, blocks, new_transaction_hashes, get_transactions,
  transactions, new_peers, introduce, new_dandelion_transactions, write, broadcast,
}
use bitcoin_client_rust.Worker.{
  Context, Shared, add_peers, swallow, add_trans, handle_introduce, handle, filter_unknown,
}
use bitcoin_client_rust.Prelude.{
  ℕ, suc, ◌<◌, ◌^◌, ◌≡◌, refl, ap, ◌∙◌, inl, inr, ◌↔◌, Bool, false, not, ◌&&◌, ◌==◌, List, [], ◌∷◌,
  ◌++◌, some, In, Bool-cases, Returns,
}

add_peers-IsPeers :
    (self_addr : H160) (content : List PeerInfo) (peers : Peers)
    → IsPeers peers
    → IsPeers (add_peers self_addr content peers).0
unfolding add_peers
add_peers-IsPeers self_addr [] peers valid = valid
add_peers-IsPeers self_addr ((addr, (pub_key, port)) ∷ content) peers valid =
    elim (Bool-cases (not (addr == self_addr) && not (contains peers addr))) [
      | inl fresh ↦
          rw (fresh, add_peers)
            (add_peers-IsPeers self_addr content (Peers.insert addr pub_key port peers)
              (insert-IsPeers addr pub_key port peers valid))
      | inr known ↦ rw (known, add_peers) (add_peers-IsPeers self_addr content peers valid)
    ]

-- The hashes that `NewBlockHashes` and `NewTransactionHashes` ask for are those of the message that are unknown, and
-- no other.
pub filter_unknown-In :
    (known : H256 → Bool) (hashes : List H256) (h : H256)
    → In h (filter_unknown known hashes) ↔ (In h hashes × (known h ≡ false))
unfolding filter_unknown
filter_unknown-In known [] h = (λ m. absurd m, λ m. absurd m.0)
filter_unknown-In known (x ∷ hashes) h =
    let (to, from) = filter_unknown-In known hashes h in
    elim (Bool-cases (known x)) [
      | inl seen ↦
          rw (seen, filter_unknown)
            (
              λ m. (inr (to m).0, (to m).1),
              λ m. elim m.0 [ inl p ↦ cc (m.1, seen, ap known p) | inr k ↦ from (k, m.1) ],
            )
      | inr unseen ↦
          rw (unseen, filter_unknown)
            (
              λ m. elim m [
                | inl p ↦ (inl p, ap known p ∙ unseen)
                | inr k ↦ (inr (to k).0, (to k).1)
              ],
              λ m. elim m.0 [ inl p ↦ inl p | inr k ↦ inr (from (k, m.1)) ],
            )
    ]

module _ ⦃ring : Ring⦄ ⦃bincode : Bincode⦄ where
  swallow-IsKept :
      (clock : ℕ → ℕ) (i : ℕ) (peer : Handle) (trans : List SignedTransaction) (pool : MemPool)
      → IsKept pool
      → IsKept (swallow clock i peer trans pool)
  unfolding swallow
  swallow-IsKept clock i peer [] pool kept = kept
  swallow-IsKept clock i peer (t ∷ trans) pool kept =
      let seen = insert_ts_and_addr t.hash peer.addr (clock i) pool in
      let (valid, room) = arrival-IsKept t.hash peer (clock i) pool kept in
      swallow-IsKept clock (suc i) peer trans (add_with_check t seen).0
        (add_with_check-IsPool t seen valid room)

  add_trans-IsKept :
      (trans : List SignedTransaction) (pool : MemPool)
      → IsKept pool
      → IsKept (add_trans trans pool).0
  unfolding add_trans
  add_trans-IsKept [] pool kept = kept
  add_trans-IsKept (t ∷ trans) pool kept =
      add_trans-IsKept trans (add_with_check t pool).0 (add_with_check-IsPool t pool kept.0 kept.1)

  -- The chain, the pool and the peers of a node are each valid.
  pub record IsNode (s : Shared) : Type 0 where
    pub chain : IsValid s.blockchain
    pub pool : IsKept s.mempool
    pub peers : IsPeers s.peers_info

  handle_introduce-IsNode :
      (ctx : Context) (content : PeerInfo) (peer : Handle) (s : Shared)
      → IsNode s
      → s.blockchain.max_index < 2 ^ 31
      → Returns (handle_introduce ctx content peer s) λ r. IsNode r.0
  unfolding handle_introduce
  handle_introduce-IsNode ctx (addr, (pub_key, port)) peer s valid small =
      let (hashes, run, _) = hash_chain-Descends s.blockchain valid.chain small in
      elim (Bool-cases (contains s.peers_info addr)) [
        | inl known ↦ ((s, write peer (new_block_hashes hashes) ∷ []), rw (run, known) refl, valid)
        | inr fresh ↦
            let after = insert-IsPeers addr pub_key port s.peers_info valid.peers in
            let (infos, listed, _) =
              get_all_peers_info-Returns (Peers.insert addr pub_key port s.peers_info) after in
            (
              (
                record s { peers_info = Peers.insert addr pub_key port s.peers_info },
                (write peer
                      (new_peers (infos ++ (ctx.self_addr, (ctx.self_pub_key, ctx.self_port)) ∷ []))
                    ∷ broadcast (new_peers ((addr, (pub_key, port)) ∷ [])) (some peer.key)
                    ∷ write peer (new_block_hashes hashes)
                    ∷ []),
              ),
              rw (run, fresh, listed) refl,
              record { chain = valid.chain; pool = valid.pool; peers = after },
            )
      ]

  -- Any message but `Blocks`.
  abbrev pub NotBlocks : Message → Type 0
  NotBlocks (blocks bs) = ⊥
  NotBlocks m = Unit

  -- A worker handles every message but `Blocks` without a panic, on a node whose chain is shorter than
  -- 2 ^ 31, and leaves the chain, the pool and the peers valid.
  pub handle-IsNode :
      (fuel : ℕ) (ctx : Context) (clock : ℕ → ℕ) (m : Message) (peer : Handle) (s : Shared)
      → NotBlocks m
      → IsNode s
      → s.blockchain.max_index < 2 ^ 31
      → Returns (handle fuel ctx clock m peer s) λ r. IsNode r.0
  unfolding handle
  handle-IsNode fuel ctx clock (ping nonce) peer s other valid small = (_, refl, valid)
  handle-IsNode fuel ctx clock (pong nonce) peer s other valid small = (_, refl, valid)
  handle-IsNode fuel ctx clock (new_block_hashes hs) peer s other valid small = (_, refl, valid)
  handle-IsNode fuel ctx clock (Message.get_blocks hs) peer s other valid small = (_, refl, valid)
  handle-IsNode fuel ctx clock (blocks bs) peer s other valid small = absurd other
  handle-IsNode fuel ctx clock (new_transaction_hashes hs) peer s other valid small =
      elim (Bool-cases ctx.supernode) [
        | inl super ↦ (
          _,
          refl,
          record {
            chain = valid.chain;
            pool = rw super (record_arrivals-IsKept clock 0 peer hs s.mempool valid.pool);
            peers = valid.peers;
          },
        )
        | inr regular ↦ (
          _,
          refl,
          record { chain = valid.chain; pool = rw regular valid.pool; peers = valid.peers },
        )
      ]
  handle-IsNode fuel ctx clock (new_dandelion_transactions ts) peer s other valid small =
      elim (Bool-cases ctx.supernode) [
        | inl super ↦ (
          _,
          refl,
          rw super (record {
            chain = valid.chain;
            pool = swallow-IsKept clock 0 peer ts s.mempool valid.pool;
            peers = valid.peers;
          }),
        )
        | inr regular ↦ (_, refl, rw regular valid)
      ]
  handle-IsNode fuel ctx clock (get_transactions hs) peer s other valid small = (_, refl, valid)
  handle-IsNode fuel ctx clock (transactions ts) peer s other valid small = (
    _,
    refl,
    record {
      chain = valid.chain;
      pool = add_trans-IsKept ts s.mempool valid.pool;
      peers = valid.peers;
    },
  )
  handle-IsNode fuel ctx clock (new_peers content) peer s other valid small = (
    _,
    refl,
    record {
      chain = valid.chain;
      pool = valid.pool;
      peers = add_peers-IsPeers ctx.self_addr content s.peers_info valid.peers;
    },
  )
  handle-IsNode fuel ctx clock (introduce content) peer s other valid small =
      handle_introduce-IsNode ctx content peer s valid small
