-- ===== src/Worker/Blocks.antt =====
-- The message `Blocks` of src/network/worker.rs.
use bitcoin_client_rust.Ring.{Ring}
use bitcoin_client_rust.Hash.{H256, H256_eq}
use bitcoin_client_rust.Transaction.{Bincode}
use bitcoin_client_rust.Block.{Block, get_trans_hashes}
use bitcoin_client_rust.Blockchain.{Blockchain}
use bitcoin_client_rust.Blockchain.Waiting.{waiting_count}
use bitcoin_client_rust.Blockchain.Insert.{Extends, Extends-refl, Extends-trans}
use bitcoin_client_rust.Blockchain.Valid.{IsValid}
use bitcoin_client_rust.Blockchain.Orphans.{
  Buffers, insert_with_check-Buffers, missing_parent-Returns,
}
use bitcoin_client_rust.Mempool.{MemPool, remove_trans}
use bitcoin_client_rust.Message.{Message, Handle, blocks, write, broadcast, new_block_hashes}
use bitcoin_client_rust.Worker.{Context, Shared, insert_blocks, handle, unless_empty}
use bitcoin_client_rust.Worker.Keeps.{IsNode}
use bitcoin_client_rust.Worker.Kept.{IsKept, remove_trans-IsKept}
use bitcoin_client_rust.Prelude.Map
use bitcoin_client_rust.Prelude.{
  ℕ, suc, ◌+◌, ◌≤◌, ◌<◌, ◌≡◌, refl, sym, subst, inl, inr, Bool, true, false, not, ◌&&◌, some, none,
  if◌then◌else◌, List, [], ◌∷◌, ◌++◌, All, length, Returns, arith,
}

-- The orphans of the chain hang in no cycle: the rank falls from each to its parent.
abbrev pub Falls : (H256 → ℕ) → Blockchain → Type 0
Falls rank chain =
    (k : H256) (x : Block) → Map.get k chain.orphans ≡ some x → rank x.header.parent < rank k

-- The block is above its parent, and below the limit.
pub record Ranked (rank : H256 → ℕ) (limit : ℕ) (b : Block) : Type 0 where
  pub above : rank b.header.parent < rank b.hash
  pub below : rank b.hash < limit

Buffers-Falls :
    (rank : H256 → ℕ) (limit : ℕ) (b : Block) (chain later : Blockchain)
    → Ranked rank limit b
    → Buffers b chain later
    → Falls rank chain
    → Falls rank later
Buffers-Falls rank limit b chain later ranked buffers falls k x e = elim (buffers.newer k x e) [
  | inl old ↦ falls k x old
  | inr (p, q) ↦
      subst (λ h. rank x.header.parent < rank h) (sym p)
        (subst (λ (y : Block). rank y.header.parent < rank b.hash) (sym q) ranked.above)
]

module _ ⦃ring : Ring⦄ ⦃bincode : Bincode⦄ where
  cleared-IsKept :
      (clears : Bool) (b : Block) (pool : MemPool)
      → IsKept pool
      → IsKept (if clears then remove_trans (get_trans_hashes b.content) pool else pool)
  cleared-IsKept true b pool kept = remove_trans-IsKept (get_trans_hashes b.content) pool kept
  cleared-IsKept false b pool kept = kept

  insert_blocks-Returns :
      (rank : H256 → ℕ) (limit : ℕ) (supernode : Bool) (bs : List Block) (chain : Blockchain)
      (pool : MemPool)
      → IsValid chain
      → IsKept pool
      → Falls rank chain
      → All (Ranked rank limit) bs
      → waiting_count chain.orphans_map + length bs ≤ limit
      → Returns
          (insert_blocks (suc limit) supernode bs chain pool)
          λ r. IsValid r.0.0 × Extends chain r.0.0 × IsKept r.0.1
  unfolding insert_blocks
  insert_blocks-Returns rank limit supernode [] chain pool valid kept falls ranked enough =
      (((chain, pool), ([], [])), refl, (valid, Extends-refl chain, kept))
  insert_blocks-Returns rank limit supernode (b ∷ bs) chain pool valid kept falls (first, ranked)
        enough =
      let ((accepted, next), run, (sound, extends, buffers)) =
        insert_with_check-Buffers (suc limit) b chain valid (omega (arith, enough)) in
      let lower = Buffers-Falls rank limit b chain next first buffers falls in
      let (parent, traced, _) =
        missing_parent-Returns rank next limit b.hash sound lower first.below in
      let cleared =
        if accepted && not supernode
        then remove_trans (get_trans_hashes b.content) pool
        else pool in
      let (((last, left), (new_hashes, missing)), rest, (good, longer, still)) =
        insert_blocks-Returns rank limit supernode bs next cleared sound
          (cleared-IsKept (accepted && not supernode) b pool kept) lower ranked
          (omega (arith, enough, buffers.grew)) in
      (
        (
          (last, left),
          (
            if accepted then b.hash ∷ new_hashes else new_hashes,
            elim parent [ some p ↦ p ∷ missing | none ↦ missing ],
          ),
        ),
        rw (run, traced, rest) refl,
        (good, Extends-trans chain next last extends longer, still),
      )

  -- A worker handles `Blocks` without a panic on a valid node, with fuel for the orphans that wait and for the blocks
  -- of the message, where neither hang in a cycle: the rank falls from each to its parent. The chain, the pool
  -- and the peers stay valid, and the chain keeps every block.
  pub handle_blocks-IsNode :
      (rank : H256 → ℕ) (limit : ℕ) (ctx : Context) (clock : ℕ → ℕ) (bs : List Block)
      (peer : Handle) (s : Shared)
      → IsNode s
      → Falls rank s.blockchain
      → All (Ranked rank limit) bs
      → waiting_count s.blockchain.orphans_map + length bs ≤ limit
      → Returns
          (handle (suc limit) ctx clock (blocks bs) peer s)
          λ r. IsNode r.0 × Extends s.blockchain r.0.blockchain
  unfolding handle
  handle_blocks-IsNode rank limit ctx clock bs peer s valid falls ranked enough =
      let (((chain, pool), (new_hashes, missing)), run, (sound, extends, kept)) =
        insert_blocks-Returns rank limit ctx.supernode bs s.blockchain s.mempool valid.chain
          valid.pool falls ranked enough in
      (
        (
          record s { blockchain = chain; mempool = pool },
          unless_empty (λ hs. write peer (Message.get_blocks hs)) missing
              ++ unless_empty (λ hs. broadcast (new_block_hashes hs) (some peer.key)) new_hashes,
        ),
        rw run refl,
        (record { chain = sound; pool = kept; peers = valid.peers }, extends),
      )
