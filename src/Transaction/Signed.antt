-- ===== src/Transaction/Signed.antt =====
-- The builders of src/helper.rs sign what they make.
use bitcoin_client_rust.Ring.{Ring, IsRing}
use bitcoin_client_rust.Hash.{address_of_digest, H160_eq}
use bitcoin_client_rust.Transaction.{
  TxInput, TxOutput, Bincode, new, sign, sign_check, verify, generate_signed_transaction,
  generate_signed_coinbase_transaction, is_coinbase_tran, coinbase_outputs, sender_addr,
}
use bitcoin_client_rust.Prelude.{ℕ, ◌≡◌, refl, true, List, ==_refl}

module _ ⦃ring : Ring⦄ ⦃bincode : Bincode⦄ where
  pub generated-signed :
      (ts : ℕ) (key_pair : List ℕ) (inputs : List TxInput) (outputs : List TxOutput)
      → IsRing ring
      → sign_check (generate_signed_transaction ts key_pair inputs outputs) ≡ true
  unfolding sign_check verify sign generate_signed_transaction new
  generated-signed ts key_pair inputs outputs is_ring = is_ring.verify-sign key_pair _

  pub coinbase-signed :
      (ts : ℕ) (key_pair : List ℕ)
      → IsRing ring
      → sign_check (generate_signed_coinbase_transaction ts key_pair) ≡ true
  unfolding generate_signed_coinbase_transaction
  coinbase-signed ts key_pair is_ring = generated-signed ts key_pair _ _ is_ring

  -- The coinbase transaction that a node makes passes its own test.
  pub coinbase-is_coinbase_tran :
      (ts : ℕ) (key_pair : List ℕ)
      → is_coinbase_tran (generate_signed_coinbase_transaction ts key_pair) ≡ true
  unfolding generate_signed_coinbase_transaction generate_signed_transaction new is_coinbase_tran
      coinbase_outputs sender_addr
  coinbase-is_coinbase_tran ts key_pair =
      let addr = address_of_digest (ring.sha256 (ring.public_key key_pair)) in
      rw (==_refl addr) refl
