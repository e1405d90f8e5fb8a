-- ===== src/Blockchain.antt =====
-- src/blockchain.rs: the tree of blocks, the buffer of orphans, the tip and the states. `insert` and
-- `handle_orphan` call each other, on fuel.
use bitcoin_client_rust.Ring.{Ring}
use bitcoin_client_rust.Hash.{H256, H256_eq, lt}
use bitcoin_client_rust.Transaction.{Bincode}
use bitcoin_client_rust.Block.{
  Header, Content, Block, State, genesis, header_hash, validate_signature, try_generate_state,
}
use bitcoin_client_rust.Prelude.Map
use bitcoin_client_rust.Prelude.Map.{Map, contains_key}
use bitcoin_client_rust.Prelude.{
  ℕ, zero, suc, ◌+◌, ◌%◌, ◌^◌, Bool, true, false, not, ◌&&◌, ◌||◌, Option, none, some, List, [],
  ◌∷◌, ◌++◌, if◌then◌else◌, ltb, ◌==◌, Run, ok, panic, out_of_fuel, ◌>>=◌, unwrap,
}
pub mod Tree
pub mod Waiting
pub mod Buffer
pub mod Steps
pub mod Insert
pub mod Valid
pub mod Chain
pub mod Meta
pub mod Orphans
pub mod Views

pub record Blockchain : Type 0 where
  pub blocks : Map H256 Block
  pub orphans_map : Map H256 (List Block)  -- the key is the hash of the parent
  pub orphans : Map H256 Block
  pub longest_hash : H256
  pub max_index : ℕ
  pub difficulty : H256
  pub states : Map H256 State
  pub check_trans : Bool

-- `Blockchain::new`
unfoldable pub new : Blockchain
unfolding genesis
new = record {
  blocks = Map.insert genesis.hash genesis [];
  orphans_map = [];
  orphans = [];
  longest_hash = genesis.hash;
  max_index = 0;
  difficulty = genesis.header.difficulty;
  states = Map.insert genesis.hash [] [];
  check_trans = true;
}

unfoldable pub exist : Blockchain → H256 → Bool
exist chain hash = contains_key hash chain.blocks || contains_key hash chain.orphans

unfoldable pub is_orphan : Blockchain → H256 → Bool
is_orphan chain hash = contains_key hash chain.orphans

-- The vector of children after the push, or the new one.
unfoldable pub with_child : Option (List Block) → Block → List Block
with_child (some children_vec) b = children_vec ++ b ∷ []
with_child none b = b ∷ []

-- The `None` branch of `insert`: the block waits for its parent.
unfoldable pub add_orphan : Block → Blockchain → Blockchain
add_orphan b chain =
    let parent = b.header.parent in
    record chain {
      orphans = Map.insert b.hash b chain.orphans;
      orphans_map =
          Map.insert parent (with_child (Map.get parent chain.orphans_map) b) chain.orphans_map;
    }

-- The loop of `handle_orphan` over the children, with `insert` as an argument.
unfoldable pub insert_children :
    (Block → Blockchain → Run (Bool × Blockchain)) → List Block → Blockchain → Run Blockchain
insert_children ins [] chain = ok chain
insert_children ins (child ∷ children) chain =
    ins child (record chain { orphans = Map.remove child.hash chain.orphans }) >>= λ r.
    insert_children ins children r.1

unfoldable pub handle_orphan :
    (Block → Blockchain → Run (Bool × Blockchain)) → H256 → Blockchain → Run Blockchain
handle_orphan ins new_parent chain = elim (Map.get new_parent chain.orphans_map) [
  | none ↦ ok chain
  | some children_vec ↦
      insert_children ins children_vec
        (record chain { orphans_map = Map.remove new_parent chain.orphans_map })
]

-- The block, with its index, and its state enter the maps, and the tip moves to a higher block.
unfoldable pub add_block : Block → ℕ → State → Block → Blockchain → Blockchain
add_block b cur_index new_state longest_block chain =
    let longer = ltb longest_block.index cur_index in
    record chain {
      states = Map.insert b.hash new_state chain.states;
      longest_hash = if longer then b.hash else chain.longest_hash;
      max_index = if longer then cur_index else chain.max_index;
      blocks = Map.insert b.hash (record b { index = cur_index }) chain.blocks;
    }

module _ ⦃ring : Ring⦄ where
  unfoldable pub try_generate_new_state : Blockchain → Block → Run (Option State)
  try_generate_new_state chain block =
      if not chain.check_trans
      then ok (some [])
      else (unwrap (Map.get block.header.parent chain.states) >>= λ parent_state.
          ok (try_generate_state block parent_state))

  -- The `Some` branch of `insert`. `usize` does not wrap: an index counts blocks in memory.
  unfoldable pub attach :
      (Block → Blockchain → Run (Bool × Blockchain))
      → Block
      → Block
      → Blockchain
      → Run (Bool × Blockchain)
  unfolding try_generate_new_state
  attach ins prev_block block chain = try_generate_new_state chain block >>= λ generated.
      elim generated [
        | none ↦ ok (false, chain)
        | some new_state ↦ unwrap (Map.get chain.longest_hash chain.blocks) >>= λ longest_block.
            handle_orphan ins block.hash
              (add_block block (prev_block.index + 1) new_state longest_block chain)
            >>= λ done. ok (true, done)
      ]

  unfoldable pub insert : ℕ → Block → Blockchain → Run (Bool × Blockchain)
  insert zero block chain = out_of_fuel
  insert (suc fuel) block chain = elim (Map.get block.header.parent chain.blocks) [
    | none ↦ ok (true, add_orphan block chain)
    | some prev_block ↦ attach (insert fuel) prev_block block chain
  ]

module _ ⦃ring : Ring⦄ ⦃bincode : Bincode⦄ where
  unfoldable pub validate_block_meta : Blockchain → Block → Bool
  validate_block_meta chain block =
      if header_hash block.header == block.hash
        && (block.header.difficulty == chain.difficulty
            && (lt (header_hash block.header) chain.difficulty && validate_signature block))
      then true
      else false

  unfoldable pub insert_with_check : ℕ → Block → Blockchain → Run (Bool × Blockchain)
  unfolding exist validate_block_meta
  insert_with_check fuel block chain =
      let run = insert fuel block chain in
      if exist chain block.hash || not (validate_block_meta chain block)
      then ok (false, chain)
      else run

-- The `while` loop of `missing_parent`.
unfoldable pub trace_missing : ℕ → Map H256 Block → H256 → Run H256
trace_missing zero orphans cur = out_of_fuel
trace_missing (suc fuel) orphans cur = elim (Map.get cur orphans) [
  | none ↦ ok cur
  | some b ↦ trace_missing fuel orphans b.header.parent
]

unfoldable pub missing_parent : ℕ → Blockchain → H256 → Run (Option H256)
unfolding is_orphan
missing_parent fuel chain orphan_hash =
    if not (is_orphan chain orphan_hash)
    then ok none
    else (trace_missing fuel chain.orphans orphan_hash >>= λ h. ok (some h))

unfoldable pub tip_block_state : Blockchain → Run State
tip_block_state chain = unwrap (Map.get chain.longest_hash chain.states)

unfoldable pub chain_length : Blockchain → ℕ
chain_length chain = chain.max_index + 1

unfoldable pub get_block : Blockchain → H256 → Option Block
get_block chain hash = elim (Map.get hash chain.blocks) [
  | some b ↦ some b
  | none ↦ Map.get hash chain.orphans
]

unfoldable pub get_blocks : Blockchain → List H256 → List Block
unfolding get_block
get_blocks chain [] = []
get_blocks chain (h ∷ hashes) = elim (get_block chain h) [
  | some b ↦ b ∷ get_blocks chain hashes
  | none ↦ get_blocks chain hashes
]

-- The rounds of `while index >= 0` for `index as i32`, which is negative from 2 ^ 31 on.
unfoldable pub rounds : ℕ → ℕ
rounds index = if ltb (index % 2 ^ 32) (2 ^ 31) then index % 2 ^ 32 + 1 else 0

-- The loop of `hash_chain`. It looks up the parent once more than it pushes.
unfoldable pub walk : ℕ → Map H256 Block → H256 → Block → Run (List H256)
walk zero blocks cur_hash cur_block = ok []
walk (suc n) blocks cur_hash cur_block =
    unwrap (Map.get cur_block.header.parent blocks) >>= λ parent.
    walk n blocks cur_block.header.parent parent >>= λ rest. ok (cur_hash ∷ rest)

unfoldable pub hash_chain : Blockchain → Run (List H256)
unfolding rounds walk
hash_chain chain = unwrap (Map.get chain.longest_hash chain.blocks) >>= λ cur_block.
    walk (rounds cur_block.index) chain.blocks chain.longest_hash cur_block

-- `hash_chain.iter().map(|h| self.get_block(h).unwrap()).collect()`
unfoldable pub unwrap_blocks : Blockchain → List H256 → Run (List Block)
unfolding get_block
unwrap_blocks chain [] = ok []
unwrap_blocks chain (h ∷ hashes) =
    unwrap (get_block chain h) >>= λ b. unwrap_blocks chain hashes >>= λ bs. ok (b ∷ bs)

unfoldable pub block_chain : Blockchain → Run (List Block)
unfolding hash_chain unwrap_blocks
block_chain chain = hash_chain chain >>= unwrap_blocks chain

unfoldable pub change_difficulty : H256 → Blockchain → Blockchain
change_difficulty difficulty chain = record chain { difficulty = difficulty }
