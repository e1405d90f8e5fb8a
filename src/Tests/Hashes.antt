-- ===== src/Tests/Hashes.antt =====
-- The theorems on hashes, Merkle trees and values at concrete inputs.
use bitcoin_client_rust.Tests.Toy.{toy_ring, toy_bincode, hash_at, first_block, key}
use bitcoin_client_rust.Tests.Toy.{toy_ring-IsRing}
use bitcoin_client_rust.Merkle.{fold_proof}
use bitcoin_client_rust.Merkle.Binding.{Collision, verify-binds}
use bitcoin_client_rust.Hash.{concat_hash}
use bitcoin_client_rust.Hash.{from_be_bytes, gen_difficulty_array}
use bitcoin_client_rust.Hash.Difficulty.{gen_difficulty_array-value}
use bitcoin_client_rust.Prelude.{◌+◌, ◌*◌, ◌^◌, ◌⊎◌}
use bitcoin_client_rust.Hash.{H160, address_of_digest, to_address, lt, from_be_bytes, cmp_address}
use bitcoin_client_rust.Hash.Order.{lt-from_be_bytes, cmp_address-panics}
use bitcoin_client_rust.Block.{
  State, OutPoint_eq, try_generate_state, generate_state, apply_tran, apply_trans, add_coinbase,
}
use bitcoin_client_rust.Block.Value.{
  total, total_outputs, try_generate_state-total, apply_tran-inflates,
}
use bitcoin_client_rust.Transaction
use bitcoin_client_rust.Transaction.{
  SignedTransaction, TxOutput, coinbase_reward, is_coinbase_tran, coinbase_outputs, sender_addr,
  sign, generate_signed_coinbase_transaction, generate_signed_transaction,
}
use bitcoin_client_rust.Merkle.{new, hash_of, proof, verify}
use bitcoin_client_rust.Merkle.Proof.{new-verify}
use bitcoin_client_rust.Prelude.Map
use bitcoin_client_rust.Prelude.{
  ℕ, ◌+◌, ◌^◌, ◌≤◌, ◌≡◌, refl, true, some, [], ◌∷◌, ◌++◌, replicate, ltb, panic, arith, Returns,
}

lt-from_be_bytes_example :
    lt (hash_at 3) (hash_at 5)
    ≡ ltb (from_be_bytes (hash_at 3).bytes) (from_be_bytes (hash_at 5).bytes)
lt-from_be_bytes_example =
    lt-from_be_bytes (hash_at 3) (hash_at 5) (refl, ground arith) (refl, ground arith)

abbrev address_at : ℕ → H160
address_at n = record { bytes = replicate 20 n }

cmp_address-panics_example : cmp_address (address_at 1) (address_at 2) ≡ panic
cmp_address-panics_example = cmp_address-panics (address_at 1) (address_at 2) refl refl

new-verify_example :
    Returns
      (new 3 (hash_at 1 ∷ hash_at 2 ∷ hash_at 3 ∷ []))
      λ root. verify (hash_of root) (hash_at 3) (proof root 2) 2 ≡ true
new-verify_example =
    new-verify (hash_at 1 ∷ hash_at 2 ∷ hash_at 3 ∷ []) 2 (hash_at 3) 3 refl (omega arith)
      (omega arith)

-- The state after the first block.
abbrev first_state : State
first_state =
    (
      record { tran_hash = hash_at 24; index = 0 },
      (50, record { bytes = replicate 19 0 ++ 86 ∷ [] }),
    )
    ∷ []

first_block-state : try_generate_state first_block [] ≡ some first_state
unfolding try_generate_state generate_state is_coinbase_tran coinbase_outputs sender_addr
    generate_signed_coinbase_transaction generate_signed_transaction Transaction.new
    Transaction.hash sign add_coinbase apply_trans address_of_digest to_address Map.insert
first_block-state = refl

first_block-fits :
    total_outputs (generate_signed_coinbase_transaction 3 key).transaction.outputs ≡ 50
unfolding total_outputs generate_signed_coinbase_transaction generate_signed_transaction
    Transaction.new sign
first_block-fits = refl

try_generate_state-total_example : total first_state ≤ total [] + coinbase_reward
unfolding total
try_generate_state-total_example =
    try_generate_state-total first_block [] (omega arith) (omega (arith, first_block-fits), tt)
      first_block-state

-- A transaction that makes an output of 2 ^ 63 + 1 out of nothing.
abbrev forged : SignedTransaction
forged = record {
  transaction = record {
    inputs = [];
    outputs = record { rec_address = address_at 1; val = 2 ^ 63 + 1 } ∷ [];
    ts = 0;
  };
  hash = hash_at 4;
  signature = key;
  public_key = key;
}

apply_tran-inflates_example :
    apply_tran forged []
    ≡ some (Map.insert (record { tran_hash = hash_at 4; index = 0 }) (2 ^ 63 + 1, address_at 1) [])
apply_tran-inflates_example =
    apply_tran-inflates forged (record { rec_address = address_at 1; val = 2 ^ 63 + 1 }) [] refl
      refl (omega arith) (omega arith)

accepted : verify (concat_hash (hash_at 4) (hash_at 9) true) (hash_at 4) (hash_at 9 ∷ []) 0 ≡ true
unfolding verify fold_proof concat_hash
accepted = refl

verify-binds_example : (hash_at 4 ≡ hash_at 4) ⊎ Collision toy_ring
verify-binds_example =
    verify-binds (concat_hash (hash_at 4) (hash_at 9) true) (hash_at 4) (hash_at 4) (hash_at 9 ∷ [])
      (hash_at 9 ∷ []) 0 toy_ring-IsRing refl refl accepted accepted

gen_difficulty_array-value_example :
    (from_be_bytes (gen_difficulty_array 17).bytes + 1) * 2 ^ 17 ≡ 2 ^ 256
gen_difficulty_array-value_example = gen_difficulty_array-value 17 (omega arith)
