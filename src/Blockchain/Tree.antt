-- ===== src/Blockchain/Tree.antt =====
-- The invariant of the blocks, the states and the tip: every block hangs under its parent, one higher,
-- and the tip is a highest block.
use bitcoin_client_rust.Hash.{H256, H256_eq}
use bitcoin_client_rust.Block.{try_generate_state, Block, State, zero_hash, genesis}
use bitcoin_client_rust.Blockchain.{Blockchain, new, add_block}
use bitcoin_client_rust.Prelude.Map
use bitcoin_client_rust.Prelude.Map.{
  Map, get-insert_cases, get-insert_keeps, get-insert_self, get-insert,
}
use bitcoin_client_rust.Ring.{Ring}
use bitcoin_client_rust.Prelude.{
  Bool, if◌then◌else◌, Option, ◌+◌, ◌≤◌, ◌≡◌, refl, ap, ◌∙◌, ◌⊎◌, inl, inr, none, some, [], ltb,
  Bool-cases, arith,
}

-- The genesis block is its own parent; any other block is one higher than its parent.
abbrev pub Hangs : H256 → Block → Block → Type 0
Hangs h b p =
    ((h ≡ zero_hash) × (b.index ≡ 0) × (b.header.parent ≡ zero_hash)) ⊎ (b.index ≡ p.index + 1)

-- The state after a block: computed and checked, or empty where checks are switched off for tests.
abbrev pub transition : ⦃ring : Ring⦄ → Bool → Block → State → Option State
transition check b s = if check then try_generate_state b s else some []

module _ ⦃ring : Ring⦄ where
  -- The state that follows from the genesis block along the parents of `h`.
  pub data Derives (check : Bool) (blocks : Map H256 Block) : H256 → State → Type 0 where
    root : Derives check blocks zero_hash []
    step :
        {h : H256} {s' : State} (b : Block) (s : State)
        → Map.get h blocks ≡ some b
        → Derives check blocks b.header.parent s
        → transition check b s ≡ some s'
        → Derives check blocks h s'

  pub record IsTree (chain : Blockchain) : Type 0 where
    pub keyed : (h : H256) (b : Block) → Map.get h chain.blocks ≡ some b → b.hash ≡ h
    pub stated :
        (h : H256) (b : Block)
        → Map.get h chain.blocks ≡ some b
        → (s : State) × (Map.get h chain.states ≡ some s)
          × Derives chain.check_trans chain.blocks h s
    pub tip :
        (b : Block) × (Map.get chain.longest_hash chain.blocks ≡ some b)
        × (b.index ≡ chain.max_index)
    pub tallest :
        (h : H256) (b : Block) → Map.get h chain.blocks ≡ some b → b.index ≤ chain.max_index
    pub linked :
        (h : H256) (b : Block)
        → Map.get h chain.blocks ≡ some b
        → (p : Block) × (Map.get b.header.parent chain.blocks ≡ some p) × Hangs h b p
    pub rooted : (g : Block) × (Map.get zero_hash chain.blocks ≡ some g) × (g.index ≡ 0)

Derives-mono :
    ⦃ring : Ring⦄
    → {check : Bool} {m m' : Map H256 Block} {h : H256} {s : State}
    → ((k : H256) (b : Block) → Map.get k m ≡ some b → Map.get k m' ≡ some b)
    → Derives check m h s
    → Derives check m' h s
Derives-mono kept root = root
Derives-mono kept (step b s e d t) = step b s (kept _ b e) (Derives-mono kept d) t

-- The new chain holds the genesis block alone.
new_at :
    (h : H256) (b : Block)
    → Map.get h new.blocks ≡ some b
    → (h ≡ zero_hash) × (b.index ≡ 0) × (b.header.parent ≡ zero_hash)
unfolding new genesis Map.get
new_at h b e = elim (get-insert_cases zero_hash h genesis [] e) [
  | inl (p, q) ↦ (p, ap (λ (y : Block). y.index) q, ap (λ (y : Block). y.header.parent) q)
  | inr (n, old) ↦ absurd (not_in_nil h b old)
]
  where
    not_in_nil : (h : H256) (b : Block) → Map.get h [] ≡ some b → ⊥
    not_in_nil h b old = cc

pub new-IsTree : ⦃ring : Ring⦄ → IsTree new
unfolding new genesis Map.insert Map.get
new-IsTree = record {
  keyed = λ h b e. ground arith;
  stated = λ h b e. let (p, _, _) = new_at h b e in ([], rw p refl, rw p root);
  tip = (genesis, refl, refl);
  tallest = λ h b e. ground arith;
  linked = λ h b e. (genesis, ground arith, inl (new_at h b e));
  rooted = (genesis, refl, refl);
}

module _ ⦃ring : Ring⦄ where
  module _ (chain : Blockchain) (tree : IsTree chain) (b prev longest : Block) (s : State)
      (fresh : Map.get b.hash chain.blocks ≡ none)
      (parent : Map.get b.header.parent chain.blocks ≡ some prev)
      (at_tip : Map.get chain.longest_hash chain.blocks ≡ some longest) (before : State)
      (parent_state : Derives chain.check_trans chain.blocks b.header.parent before)
      (next_state : transition chain.check_trans b before ≡ some s) where
    pub highest : longest.index ≡ chain.max_index
    highest = let (t, found, top) = tree.tip in ground (arith, found, top)

    pub add_block-keeps :
        (h : H256) (x : Block)
        → Map.get h chain.blocks ≡ some x
        → Map.get h (add_block b (prev.index + 1) s longest chain).blocks ≡ some x
    unfolding add_block
    add_block-keeps h x e = get-insert_keeps b.hash h _ chain.blocks fresh e

    pub add_block-IsTree : IsTree (add_block b (prev.index + 1) s longest chain)
    unfolding add_block try_generate_state
    add_block-IsTree = record {
      keyed = λ h x e. elim (get-insert_cases b.hash h _ chain.blocks e) [
        | inl (p, q) ↦ ground arith
        | inr (n, old) ↦ tree.keyed h x old
      ];
      stated = λ h x e. elim (get-insert_cases b.hash h _ chain.blocks e) [
        | inl (p, q) ↦ (
          s,
          rw p (get-insert_self b.hash s chain.states),
          step x before e
              (rw (ap (λ (y : Block). y.header.parent) q)
                (Derives-mono add_block-keeps parent_state))
              (rw q next_state),
        )
        | inr (n, old) ↦
            let (t, f, d) = tree.stated h x old in
            (t, Map.get-insert_ne b.hash h s chain.states n ∙ f, Derives-mono add_block-keeps d)
      ];
      tip = elim (Bool-cases (ltb longest.index (prev.index + 1))) [
        | inl longer ↦
            rw longer
              (record b { index = prev.index + 1 }, get-insert_self b.hash _ chain.blocks, refl)
        | inr shorter ↦
            rw shorter (longest, get-insert_keeps b.hash _ _ chain.blocks fresh at_tip, highest)
      ];
      tallest = λ h x e. elim (get-insert_cases b.hash h _ chain.blocks e) [
        | inl (p, q) ↦ ground (arith, highest)
        | inr (n, old) ↦ ground (arith, highest, tree.tallest h x old)
      ];
      linked = λ h x e. elim (get-insert_cases b.hash h _ chain.blocks e) [
        | inl (p, q) ↦ (
          prev,
          rw (ap (λ (y : Block). y.header.parent) q) (add_block-keeps _ _ parent),
          inr (ap (λ (y : Block). y.index) q),
        )
        | inr (n, old) ↦
            let (parent_block, f, hangs) = tree.linked h x old in
            (parent_block, add_block-keeps _ _ f, hangs)
      ];
      rooted = let (g, f, zero_index) = tree.rooted in (g, add_block-keeps _ _ f, zero_index);
    }
