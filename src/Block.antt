-- ===== src/Block.antt =====
-- src/block.rs: headers, contents, blocks, and the UTXO state with the transition that a block makes.
use bitcoin_client_rust.Ring.{Ring}
use bitcoin_client_rust.Hash.{H256, H160, H256_eq, H160_eq, to_be_bytes, gen_difficulty_array}
use bitcoin_client_rust.Transaction.{
  TxInput, TxOutput, SignedTransaction, Bincode, sign_check, sender_addr, is_coinbase_tran,
}
use bitcoin_client_rust.Prelude.Map
use bitcoin_client_rust.Prelude.Map.{Map}
use bitcoin_client_rust.Prelude.{
  ℕ, suc, ◌+◌, ◌-◌, ◌%◌, ◌^◌, ◌≡◌, ◌↔◌, Bool, true, false, ◌&&◌, Option, none, some, List, [], ◌∷◌,
  ◌++◌, map, replicate, if◌then◌else◌, leb, Eq, ◌==◌, ==_iff, nat_eq, arith,
}
pub mod Value
pub mod Keys
pub mod Contents

pub record Header : Type 0 where
  pub parent : H256
  pub nonce : ℕ  -- u32
  pub difficulty : H256
  pub timestamp : ℕ  -- u64
  pub merkle_root : H256

pub record Content : Type 0 where
  pub trans : List SignedTransaction

pub record Block : Type 0 where
  pub hash : H256
  pub index : ℕ  -- usize
  pub header : Header
  pub content : Content

-- The key of an unspent output: the hash of its transaction and its place among the outputs.
pub record OutPoint : Type 0 where
  pub tran_hash : H256
  pub index : ℕ  -- u32

pub OutPoint_beq_iff :
    (a b : OutPoint) → ((a.tran_hash == b.tran_hash && a.index == b.index) ≡ true) ↔ (a ≡ b)
OutPoint_beq_iff a b = (
  λ h. ground (arith, ==_iff a.tran_hash b.tran_hash),
  λ p. ground (arith, ==_iff a.tran_hash b.tran_hash),
)

instance abbrev pub OutPoint_eq : Eq OutPoint
OutPoint_eq = record {
  beq = λ a b. a.tran_hash == b.tran_hash && a.index == b.index;
  reflects = OutPoint_beq_iff;
}

-- `State`: the value and the owner of every unspent output.
abbrev pub State : Type 0
State = Map OutPoint (ℕ × H160)

-- `Header::new`: the timestamp is cut to u64.
unfoldable pub new_header : H256 → ℕ → ℕ → H256 → H256 → Header
new_header parent nonce timestamp difficulty merkle_root = record {
  parent = parent;
  nonce = nonce;
  difficulty = difficulty;
  timestamp = timestamp % 2 ^ 64;
  merkle_root = merkle_root;
}

-- `Header::change_nonce`: `overflowing_add(1).0`
unfoldable pub change_nonce : Header → Header
change_nonce h = record h { nonce = (h.nonce + 1) % 2 ^ 32 }

-- The bytes that `Header::hash` feeds to the digest, in its order.
unfoldable pub header_bytes : Header → List ℕ
header_bytes h =
    h.parent.bytes
    ++ (to_be_bytes 4 h.nonce
        ++ (h.difficulty.bytes ++ (to_be_bytes 8 h.timestamp ++ h.merkle_root.bytes)))

unfoldable pub header_hash : ⦃ring : Ring⦄ → Header → H256
header_hash ⦃ring⦄ h = record { bytes = ring.sha256 (header_bytes h) }

abbrev pub zero_hash : H256
zero_hash = record { bytes = replicate 32 0 }

-- The number of leading zero bits that `config::DIFFICULTY` asks for.
abbrev pub default_difficulty : ℕ
default_difficulty = 17

unfoldable pub genesis : Block
genesis = record {
  hash = zero_hash;
  index = 0;
  header = record {
    parent = zero_hash;
    nonce = 0;
    difficulty = gen_difficulty_array default_difficulty;
    timestamp = 0;
    merkle_root = zero_hash;
  };
  content = record { trans = [] };
}

-- `Block::new`
unfoldable pub new : ⦃ring : Ring⦄ → Header → Content → Block
new header content = record {
  hash = header_hash header;
  index = 0;
  header = header;
  content = content;
}

unfoldable pub get_trans_hashes : Content → List H256
get_trans_hashes c = map (λ t. t.hash) c.trans

module _ ⦃ring : Ring⦄ ⦃bincode : Bincode⦄ where
  unfoldable pub all_signed : List SignedTransaction → Bool
  all_signed [] = true
  all_signed (t ∷ ts) = if sign_check t then all_signed ts else false

  -- One bad signature fails the block.
  unfoldable pub validate_signature : Block → Bool
  unfolding all_signed
  validate_signature b = all_signed b.content.trans

-- A balance is an `i64`, held as its bit pattern: a number below 2 ^ 64, which stands for a negative
-- value from 2 ^ 63 on. `val as i64` keeps the bits of a `u64`, and `+=` and `-=` wrap,
-- as they do in a release build.
abbrev pub i64_add : ℕ → ℕ → ℕ
i64_add a b = (a + b) % 2 ^ 64

abbrev pub i64_sub : ℕ → ℕ → ℕ
i64_sub a b = (a + 2 ^ 64 - b) % 2 ^ 64

abbrev pub i64_negative : ℕ → Bool
i64_negative a = leb (2 ^ 63) a

-- The loop over the inputs: each is removed from the state, and must belong to the sender.
unfoldable pub spend_inputs : H160 → List TxInput → State → ℕ → Option (State × ℕ)
spend_inputs sender [] state balance = some (state, balance)
spend_inputs sender (input ∷ inputs) state balance =
    let point : OutPoint = record { tran_hash = input.pre_hash; index = input.index } in
    elim (Map.get point state) [
      | none ↦ none
      | some (val, owner) ↦
          if owner == sender
          then spend_inputs sender inputs (Map.remove point state) (i64_add balance val)
          else none
    ]

-- The loop over the outputs; `index as u32` wraps.
unfoldable pub add_outputs : H256 → ℕ → List TxOutput → State → ℕ → State × ℕ
add_outputs tran_hash index [] state balance = (state, balance)
add_outputs tran_hash index (output ∷ outputs) state balance =
    let point : OutPoint = record { tran_hash = tran_hash; index = index % 2 ^ 32 } in
    add_outputs tran_hash (suc index) outputs
      (Map.insert point (output.val, output.rec_address) state) (i64_sub balance output.val)

module _ ⦃ring : Ring⦄ where
  -- One round of the loop over the transactions that are no coinbase.
  unfoldable pub apply_tran : SignedTransaction → State → Option State
  apply_tran tran state = elim (spend_inputs (sender_addr tran) tran.transaction.inputs state 0) [
    | none ↦ none
    | some (spent, balance) ↦
        let (added, rest) = add_outputs tran.hash 0 tran.transaction.outputs spent balance in
        if i64_negative rest then none else some added
  ]

  unfoldable pub apply_trans : List SignedTransaction → State → Option State
  apply_trans [] state = some state
  apply_trans (tran ∷ trans) state = elim (apply_tran tran state) [
    | none ↦ none
    | some next ↦ apply_trans trans next
  ]

  -- The output of a coinbase transaction enters the state under the index 0.
  unfoldable pub add_coinbase : SignedTransaction → List TxOutput → State → State
  add_coinbase tran [] state = state
  add_coinbase tran (output ∷ outputs) state =
      let point : OutPoint = record { tran_hash = tran.hash; index = 0 } in
      Map.insert point (output.val, output.rec_address) state

  unfoldable pub generate_state : List SignedTransaction → State → Option State
  unfolding apply_tran apply_trans add_coinbase
  generate_state [] parent_state = none
  generate_state (coinbase ∷ trans) parent_state =
      if is_coinbase_tran coinbase
      then apply_trans trans (add_coinbase coinbase coinbase.transaction.outputs parent_state)
      else none

  -- `Block::try_generate_state`. `outputs[0]` is read only after `is_coinbase_tran` has found one
  -- output, so it never panics.
  unfoldable pub try_generate_state : Block → State → Option State
  unfolding generate_state
  try_generate_state b parent_state = generate_state b.content.trans parent_state
