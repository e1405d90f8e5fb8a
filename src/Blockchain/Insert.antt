-- ===== src/Blockchain/Insert.antt =====
-- What an insertion guarantees: it keeps the two invariants, and loses no block.
use bitcoin_client_rust.Ring.{Ring}
use bitcoin_client_rust.Hash.{H256, H256_eq}
use bitcoin_client_rust.Block.{Block, State}
use bitcoin_client_rust.Blockchain.{
  Blockchain, add_block, add_orphan, exist, insert, attach, insert_children, handle_orphan,
  try_generate_new_state,
}
use bitcoin_client_rust.Blockchain.Tree.{IsTree, Derives, transition, add_block-IsTree, highest}
use bitcoin_client_rust.Blockchain.Buffer.{IsBuffer, add_orphan-IsBuffer}
use bitcoin_client_rust.Blockchain.Waiting.{waiting_count, waiting_count-remove}
use bitcoin_client_rust.Blockchain.Steps.{
  attach-IsBuffer-none, attach-IsBuffer_some, release-fresh, release-IsBuffer,
}
use bitcoin_client_rust.Prelude.Map
use bitcoin_client_rust.Prelude.Map.{get-insert_keeps, get-insert_self}
use bitcoin_client_rust.Prelude.{
  ℕ, zero, suc, ◌+◌, ◌≤◌, ◌<◌, ◌≡◌, refl, sym, ap, ◌∙◌, inl, inr, ◌⊎◌, Bool, true, false, none,
  some, List, [], ◌∷◌, ◌++◌, Bool-cases, Option-cases, arith, Run, ok, Returns,
}
pub mod Children
pub mod Attach
pub mod Whole

-- Every block of the first chain is in the second, unchanged; the second is no shorter, and its tip is
-- another one only if it is longer.
pub record Extends (chain later : Blockchain) : Type 0 where
  pub kept :
      (h : H256) (b : Block) → Map.get h chain.blocks ≡ some b → Map.get h later.blocks ≡ some b
  pub grows : chain.max_index ≤ later.max_index
  pub settled : later.max_index ≡ chain.max_index → later.longest_hash ≡ chain.longest_hash
  pub same_checks : later.check_trans ≡ chain.check_trans

pub Extends-refl : (chain : Blockchain) → Extends chain chain
Extends-refl chain = record {
  kept = λ h b e. e;
  grows = omega arith;
  settled = λ e. refl;
  same_checks = refl;
}

pub Extends-trans : (a b c : Blockchain) → Extends a b → Extends b c → Extends a c
Extends-trans a b c p q = record {
  kept = λ h x e. q.kept h x (p.kept h x e);
  grows = omega (arith, p.grows, q.grows);
  settled = λ e.
      q.settled (omega (arith, p.grows, q.grows)) ∙ p.settled (omega (arith, p.grows, q.grows));
  same_checks = q.same_checks ∙ p.same_checks;
}

-- The block is unknown, both in the tree and in the buffer.
abbrev pub IsFresh : Block → Blockchain → Type 0
IsFresh b chain = (Map.get b.hash chain.blocks ≡ none) × (Map.get b.hash chain.orphans ≡ none)

pub exist-block :
    (chain : Blockchain) (h : H256) {b : Block}
    → Map.get h chain.blocks ≡ some b
    → exist chain h ≡ true
unfolding exist
exist-block chain h e = rw e

pub exist-orphan :
    (chain : Blockchain) (h : H256) {b : Block}
    → Map.get h chain.orphans ≡ some b
    → exist chain h ≡ true
unfolding exist
exist-orphan chain h e = ground arith

module _ ⦃ring : Ring⦄ where
  -- What an insertion of `b` makes of a chain; `pending` children wait for their turn.
  pub record Inserted (b : Block) (pending : List Block) (chain : Blockchain)
      (r : Bool × Blockchain) : Type 0 where
    pub tree : IsTree r.1
    pub buffer : IsBuffer pending r.1
    pub extends : Extends chain r.1
    -- A block whose parent is known brings no block into `orphans_map`.
    pub shrinks :
        (p : Block)
        → Map.get b.header.parent chain.blocks ≡ some p
        → waiting_count r.1.orphans_map ≤ waiting_count chain.orphans_map
    pub attached :
        (p : Block)
        → Map.get b.header.parent chain.blocks ≡ some p
        → r.0 ≡ true
        → Map.get b.hash r.1.blocks ≡ some (record b { index = p.index + 1 })
    pub stored : r.0 ≡ true → exist r.1 b.hash ≡ true
    -- The only new orphan is `b`, and none is new where its parent is known.
    pub older :
        (p : Block)
        → Map.get b.header.parent chain.blocks ≡ some p
        → (h : H256) (x : Block) → Map.get h r.1.orphans ≡ some x
        → Map.get h chain.orphans ≡ some x
    pub newer :
        (h : H256) (x : Block)
        → Map.get h r.1.orphans ≡ some x
        → (Map.get h chain.orphans ≡ some x) ⊎ ((h ≡ b.hash) × (x ≡ b))
    pub grew : waiting_count r.1.orphans_map ≤ suc (waiting_count chain.orphans_map)
    pub refused : r.0 ≡ false → r.1 ≡ chain

  abbrev pub Insertion : Type 0
  Insertion = Block → Blockchain → Run (Bool × Blockchain)

  -- `ins` serves every chain with fewer than `fuel` waiting blocks.
  abbrev pub Serves : ℕ → Insertion → Type 0
  Serves fuel ins =
      (b : Block) (pending : List Block) (chain : Blockchain)
      → IsTree chain
      → IsBuffer pending chain
      → IsFresh b chain
      → waiting_count chain.orphans_map < fuel
      → Returns (ins b chain) (Inserted b pending chain)
