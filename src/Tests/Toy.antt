-- ===== src/Tests/Toy.antt =====
-- A toy digest and signature, and small blocks and transactions.
use bitcoin_client_rust.Ring.{Ring, IsRing}
use bitcoin_client_rust.Hash.{H256}
use bitcoin_client_rust.Transaction.{
  TxInput, SignedTransaction, Bincode, generate_signed_coinbase_transaction,
}
use bitcoin_client_rust.Block.{Block, zero_hash}
use bitcoin_client_rust.Prelude.{
  ℕ, ◌+◌, ◌*◌, ◌%◌, refl, true, List, [], ◌∷◌, ◌++◌, replicate, arith,
}

abbrev pub sum : List ℕ → ℕ
sum [] = 7
sum (b ∷ bs) = b + 3 * sum bs

-- The digest is 31 zero bytes and a checksum; every signature verifies.
instance abbrev pub toy_ring : Ring
toy_ring = record {
  sha256 = λ msg. replicate 31 0 ++ sum msg % 256 ∷ [];
  public_key = λ key. key;
  ed25519_sign = λ key msg. key;
  ed25519_verify = λ key msg signature. true;
}

pub toy_ring-IsRing : IsRing toy_ring
toy_ring-IsRing = record {
  sha256-IsBytes = λ msg. (refl, ground arith);
  verify-sign = λ key msg. refl;
}

instance abbrev pub toy_bincode : Bincode
toy_bincode = record { serialize = λ t. t.ts ∷ [] }

abbrev pub hash_at : ℕ → H256
hash_at n = record { bytes = replicate 31 0 ++ n ∷ [] }

abbrev pub block_at : ℕ → ℕ → List SignedTransaction → Block
block_at parent n trans = record {
  hash = hash_at n;
  index = 0;
  header = record {
    parent = hash_at parent;
    nonce = 0;
    difficulty = hash_at 255;
    timestamp = 0;
    merkle_root = zero_hash;
  };
  content = record { trans = trans };
}

abbrev pub key : List ℕ
key = 5 ∷ 6 ∷ []

-- A block on the genesis block, with a coinbase transaction.
abbrev pub first_block : Block
first_block = block_at 0 1 (generate_signed_coinbase_transaction 3 key ∷ [])

-- A block whose parent is not known.
abbrev pub orphan_block : Block
orphan_block = block_at 9 10 []

abbrev pub input_at : ℕ → TxInput
input_at n = record { pre_hash = hash_at n; index = 0 }

abbrev pub spend : ℕ → ℕ → List TxInput → SignedTransaction
spend n ts inputs = record {
  transaction = record { inputs = inputs; outputs = []; ts = ts };
  hash = hash_at n;
  signature = key;
  public_key = key;
}

abbrev pub early : SignedTransaction
early = spend 1 5 (input_at 7 ∷ [])

abbrev pub late : SignedTransaction
late = spend 2 9 (input_at 7 ∷ input_at 8 ∷ [])
