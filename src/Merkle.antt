-- ===== src/Merkle.antt =====
-- src/crypto/merkle.rs: the Merkle tree of a list of hashes, the proof of a place in it, and `verify`.
use bitcoin_client_rust.Ring.{Ring}
use bitcoin_client_rust.Hash.{H256, H256_eq, concat_hash}
use bitcoin_client_rust.Prelude.Float.{round_to}
use bitcoin_client_rust.Prelude.{
  ℕ, zero, suc, ◌+◌, ◌*◌, ◌/◌, ◌%◌, Bool, true, false, Option, none, some, List, [], ◌∷◌, ◌++◌,
  length, if◌then◌else◌, ltb, ◌==◌, nat_eq, Run, ok, panic, out_of_fuel,
}
pub mod Centre
pub mod Proof
pub mod Binding

-- `Node`: a node has both children (`new_non_leaf`) or none (`new_leaf`, `copy`), and `is_leaf` says
-- which. The fields that both kinds have are the first arguments: the hash and the index.
pub data Node : Type 0 where
  leaf : H256 → ℕ → Node
  branch : H256 → ℕ → Node → Node → Node

unfoldable pub hash_of : Node → H256
hash_of (leaf hash index) = hash
hash_of (branch hash index left right) = hash

unfoldable pub index_of : Node → ℕ
index_of (leaf hash index) = index
index_of (branch hash index left right) = index

-- A whole number as an `f32`, which has 24 binary digits.
unfoldable pub f32 : ℕ → ℕ
unfolding round_to
f32 n = round_to 24 n

-- `((l as f32 + r as f32) / 2.0).ceil()`: the conversions and the sum are rounded; the half of a whole `f32` is one
-- too, and so is what `ceil` makes of it.
unfoldable pub middle : ℕ → ℕ → ℕ
unfolding f32
middle l r = (f32 (f32 l + f32 r) + 1) / 2

unfoldable pub new_non_leaf : ⦃ring : Ring⦄ → Node → Node → Node
unfolding hash_of index_of middle concat_hash
new_non_leaf left right =
    branch (concat_hash (hash_of left) (hash_of right) true)
      (middle (index_of left) (index_of right)) left right

-- `Node::copy`: a leaf, whatever the node is.
unfoldable pub copy : Node → ℕ → Node
unfolding hash_of index_of
copy node step = leaf (hash_of node) (index_of node + step)

-- `gen_nodes` from the place `i` on: the leaves carry the hashes of the data.
unfoldable pub gen_nodes : ℕ → List H256 → List Node
gen_nodes i [] = []
gen_nodes i (hash ∷ data_hashes) = leaf hash i ∷ gen_nodes (suc i) data_hashes

-- One round of the `while` loop of `MerkleTree::new`: `ensure_even` copies the last node of an odd
-- level, and the drain joins the nodes two by two.
unfoldable pub next_level : ⦃ring : Ring⦄ → ℕ → List Node → List Node
unfolding new_non_leaf copy
next_level step [] = []
next_level step (node ∷ []) = new_non_leaf node (copy node step) ∷ []
next_level step (left ∷ right ∷ nodes) = new_non_leaf left right ∷ next_level step nodes

module _ ⦃ring : Ring⦄ where
  -- The `while` loop, and the `pop().unwrap()` behind it.
  unfoldable pub build : ℕ → ℕ → List Node → Run Node
  build zero step nodes = out_of_fuel
  build (suc fuel) step [] = panic
  build (suc fuel) step (node ∷ []) = ok node
  build (suc fuel) step (left ∷ right ∷ nodes) =
      build fuel (step * 2) (next_level step (left ∷ right ∷ nodes))

  -- `MerkleTree::new`
  unfoldable pub new : ℕ → List H256 → Run Node
  unfolding gen_nodes build
  new fuel data_hashes = build fuel 1 (gen_nodes 0 data_hashes)

-- `trace_proof`, from the top; `proof` reverses what it pushed.
unfoldable pub trace_proof : ℕ → Node → List H256
trace_proof idx (leaf hash index) = []
trace_proof idx (branch hash index left right) =
    let in_left = trace_proof idx left in
    let in_right = trace_proof idx right in
    if ltb idx index then hash_of right ∷ in_left else hash_of left ∷ in_right

unfoldable pub reverse : List H256 → List H256
reverse [] = []
reverse (h ∷ hs) = reverse hs ++ h ∷ []

unfoldable pub proof : Node → ℕ → List H256
unfolding trace_proof reverse
proof root idx = reverse (trace_proof idx root)

module _ ⦃ring : Ring⦄ where
  -- The loop of `verify`: the running hash, while `bits` is halved.
  unfoldable pub fold_proof : H256 → List H256 → ℕ → H256
  fold_proof acc_hash [] bits = acc_hash
  fold_proof acc_hash (h ∷ hs) bits =
      fold_proof (concat_hash acc_hash h (bits % 2 == 0)) hs (bits / 2)

  unfoldable pub verify : H256 → H256 → List H256 → ℕ → Bool
  unfolding fold_proof
  verify root datum proof index = fold_proof datum proof index == root
