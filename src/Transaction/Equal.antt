-- ===== src/Transaction/Equal.antt =====
-- src/transaction.rs: `#[derive(Eq, PartialEq)]` of outputs, transactions and signed transactions, by which they
-- are keys of a `HashMap`.
use bitcoin_client_rust.Hash.{H256_eq, H160_eq}
use bitcoin_client_rust.Transaction.{TxInput_eq, TxOutput, Transaction, SignedTransaction}
use bitcoin_client_rust.Prelude.{
  ◌≡◌, refl, ◌↔◌, Bool, true, false, ◌&&◌, List, [], ◌∷◌, Eq, ◌==◌, ==_iff, nat_eq, bytes_eq, arith,
}

module _ {A : Type 0} ⦃e : Eq A⦄ where
  abbrev pub vec_beq : List A → List A → Bool
  vec_beq [] [] = true
  vec_beq [] (y ∷ ys) = false
  vec_beq (x ∷ xs) [] = false
  vec_beq (x ∷ xs) (y ∷ ys) = x == y && vec_beq xs ys

  pub vec_beq_iff : (xs ys : List A) → (vec_beq xs ys ≡ true) ↔ (xs ≡ ys)
  vec_beq_iff [] [] = (λ _. refl, λ _. refl)
  vec_beq_iff [] (y ∷ ys) = (λ h. cc, λ h. cc)
  vec_beq_iff (x ∷ xs) [] = (λ h. cc, λ h. cc)
  vec_beq_iff (x ∷ xs) (y ∷ ys) = (
    λ h. ground (arith, ==_iff x y, vec_beq_iff xs ys),
    λ h. ground (arith, ==_iff x y, vec_beq_iff xs ys),
  )

pub TxOutput_beq_iff :
    (a b : TxOutput) → ((a.rec_address == b.rec_address && a.val == b.val) ≡ true) ↔ (a ≡ b)
TxOutput_beq_iff a b = (
  λ h. ground (arith, ==_iff a.rec_address b.rec_address),
  λ p. ground (arith, ==_iff a.rec_address b.rec_address),
)

instance abbrev pub TxOutput_eq : Eq TxOutput
TxOutput_eq = record {
  beq = λ a b. a.rec_address == b.rec_address && a.val == b.val;
  reflects = TxOutput_beq_iff;
}

abbrev pub tran_beq : Transaction → Transaction → Bool
tran_beq a b = vec_beq a.inputs b.inputs && (vec_beq a.outputs b.outputs && a.ts == b.ts)

pub tran_beq_iff : (a b : Transaction) → (tran_beq a b ≡ true) ↔ (a ≡ b)
tran_beq_iff a b = (
  λ h. ground (arith, vec_beq_iff a.inputs b.inputs, vec_beq_iff a.outputs b.outputs),
  λ p. ground (arith, vec_beq_iff a.inputs b.inputs, vec_beq_iff a.outputs b.outputs),
)

instance abbrev pub Transaction_eq : Eq Transaction
Transaction_eq = record { beq = tran_beq; reflects = tran_beq_iff }

abbrev pub signed_beq : SignedTransaction → SignedTransaction → Bool
signed_beq a b =
    a.transaction == b.transaction
    && (a.hash == b.hash && (a.signature == b.signature && a.public_key == b.public_key))

pub signed_beq_iff : (a b : SignedTransaction) → (signed_beq a b ≡ true) ↔ (a ≡ b)
signed_beq_iff a b = (
  λ h. ground (
    arith,
    ==_iff a.transaction b.transaction,
    ==_iff a.hash b.hash,
    ==_iff a.signature b.signature,
    ==_iff a.public_key b.public_key,
  ),
  λ p. ground (
    arith,
    ==_iff a.transaction b.transaction,
    ==_iff a.hash b.hash,
    ==_iff a.signature b.signature,
    ==_iff a.public_key b.public_key,
  ),
)

instance abbrev pub SignedTransaction_eq : Eq SignedTransaction
SignedTransaction_eq = record { beq = signed_beq; reflects = signed_beq_iff }
