-- ===== src/Transaction.antt =====
-- src/transaction.rs: UTXO transactions, their hash and signature, and the coinbase test;
-- src/helper.rs: the builders of signed transactions. `bincode` is a parameter.
use bitcoin_client_rust.Ring.{Ring}
use bitcoin_client_rust.Hash.{H256, H160, H256_eq, H160_eq, address_of_digest}
use bitcoin_client_rust.Prelude.{
  ℕ, ◌≡◌, ◌↔◌, Bool, true, false, not, ◌&&◌, List, [], ◌∷◌, length, if◌then◌else◌, ltb, Eq, ◌==◌,
  ==_iff, nat_eq, arith,
}
pub mod Signed
pub mod Equal

pub record TxInput : Type 0 where
  pub pre_hash : H256
  pub index : ℕ  -- u32

pub record TxOutput : Type 0 where
  pub rec_address : H160
  pub val : ℕ  -- u64

pub record Transaction : Type 0 where
  pub inputs : List TxInput
  pub outputs : List TxOutput
  pub ts : ℕ  -- u64

pub record SignedTransaction : Type 0 where
  pub transaction : Transaction
  pub hash : H256
  pub signature : List ℕ
  pub public_key : List ℕ

pub TxInput_beq_iff :
    (a b : TxInput) → ((a.pre_hash == b.pre_hash && a.index == b.index) ≡ true) ↔ (a ≡ b)
TxInput_beq_iff a b = (
  λ h. ground (arith, ==_iff a.pre_hash b.pre_hash),
  λ p. ground (arith, ==_iff a.pre_hash b.pre_hash),
)

-- `#[derive(Eq, PartialEq, Hash)]`, by which an input is a key of a `HashMap`.
instance abbrev pub TxInput_eq : Eq TxInput
TxInput_eq = record {
  beq = λ a b. a.pre_hash == b.pre_hash && a.index == b.index;
  reflects = TxInput_beq_iff;
}

-- `bincode::serialize` of a transaction.
pub record Bincode : Type 0 where
  pub serialize : Transaction → List ℕ

abbrev pub coinbase_reward : ℕ
coinbase_reward = 50

module _ ⦃ring : Ring⦄ ⦃bincode : Bincode⦄ where
  -- `impl Hashable for Transaction`
  unfoldable pub hash : Transaction → H256
  hash t = record { bytes = ring.sha256 (bincode.serialize t) }

  -- `SignedTransaction::new`
  unfoldable pub new : Transaction → List ℕ → List ℕ → SignedTransaction
  unfolding hash
  new transaction signature public_key = record {
    transaction = transaction;
    hash = hash transaction;
    signature = signature;
    public_key = public_key;
  }

  -- `sign`, by the key pair
  unfoldable pub sign : Transaction → List ℕ → List ℕ
  sign t key = ring.ed25519_sign key (bincode.serialize t)

  unfoldable pub verify : Transaction → List ℕ → List ℕ → Bool
  verify t public_key signature = ring.ed25519_verify public_key (bincode.serialize t) signature

  unfoldable pub sign_check : SignedTransaction → Bool
  unfolding verify
  sign_check t = verify t.transaction t.public_key t.signature

  -- `helper::generate_signed_transaction`; the clock of `Transaction::new` is the argument `ts`.
  unfoldable pub generate_signed_transaction :
      ℕ → List ℕ → List TxInput → List TxOutput → SignedTransaction
  unfolding new sign
  generate_signed_transaction ts key inputs outputs =
      let tran : Transaction = record { inputs = inputs; outputs = outputs; ts = ts } in
      new tran (sign tran key) (ring.public_key key)

module _ ⦃ring : Ring⦄ where
  unfoldable pub sender_addr : SignedTransaction → H160
  sender_addr t = address_of_digest (ring.sha256 t.public_key)

  -- The single output of a coinbase transaction carries the reward and goes to its signer.
  unfoldable pub coinbase_outputs : SignedTransaction → List TxOutput → Bool
  unfolding sender_addr
  coinbase_outputs t [] = false
  coinbase_outputs t (output ∷ []) =
      if not (output.val == coinbase_reward)
      then false
      else if not (sender_addr t == output.rec_address)
      then false
      else true
  coinbase_outputs t (output ∷ other ∷ more) = false

  unfoldable pub is_coinbase_tran : SignedTransaction → Bool
  unfolding coinbase_outputs
  is_coinbase_tran t =
      if ltb 0 (length t.transaction.inputs)
      then false
      else coinbase_outputs t t.transaction.outputs

module _ ⦃ring : Ring⦄ ⦃bincode : Bincode⦄ where
  -- `helper::generate_signed_coinbase_transaction`
  unfoldable pub generate_signed_coinbase_transaction : ℕ → List ℕ → SignedTransaction
  unfolding generate_signed_transaction
  generate_signed_coinbase_transaction ts key =
      let addr = address_of_digest (ring.sha256 (ring.public_key key)) in
      generate_signed_transaction ts key []
        (record { rec_address = addr; val = coinbase_reward } ∷ [])
