-- ===== src/Mempool/Signed.antt =====
-- The pending transactions of src/mempool.rs are signed.
use bitcoin_client_rust.Ring.{Ring}
use bitcoin_client_rust.Hash.{H256, H256_eq}
use bitcoin_client_rust.Transaction.{SignedTransaction, Bincode, sign_check}
use bitcoin_client_rust.Mempool.{
  MemPool, new, exist, size, pool_size_limit, add_with_check, try_insert, replace_conflicts,
  remove_buffered_tran, remove_tran_internel, remove_all, find_conflicts, add_all, remove_trans,
}
use bitcoin_client_rust.Transaction.{TxInput_eq}
use bitcoin_client_rust.Prelude.Map
use bitcoin_client_rust.Prelude.Map.{Map}
use bitcoin_client_rust.Prelude.{
  ◌≡◌, inl, inr, true, not, ◌||◌, List, [], ◌∷◌, All, Bool-cases, Option-cases, leb, ◌==◌, arith,
  Eq,
}

module _ {K V : Type 0} ⦃e : Eq K⦄ (P : K × V → Type 0) where
  All-insert : (k : K) (v : V) (m : Map K V) → P (k, v) → All P m → All P (Map.insert k v m)
  unfolding Map.insert
  All-insert k v [] here all = (here, tt)
  All-insert k v ((j, w) ∷ m) here (first, all) = elim (Bool-cases (j == k)) [
    | inl same ↦ rw same (here, all)
    | inr other ↦ rw other (first, All-insert k v m here all)
  ]

  All-remove : (k : K) (m : Map K V) → All P m → All P (Map.remove k m)
  unfolding Map.remove
  All-remove k [] all = tt
  All-remove k ((j, w) ∷ m) (first, all) = elim (Bool-cases (j == k)) [
    | inl same ↦ rw same (All-remove k m all)
    | inr other ↦ rw other (first, All-remove k m all)
  ]

module _ ⦃ring : Ring⦄ ⦃bincode : Bincode⦄ where
  abbrev IsSignedEntry : H256 × SignedTransaction → Type 0
  IsSignedEntry e = sign_check e.1 ≡ true

  -- Every pending transaction is signed.
  abbrev pub AllSigned : MemPool → Type 0
  AllSigned pool = All IsSignedEntry pool.transactions

  remove_all-AllSigned :
      (hashes : List H256) (pool : MemPool) → AllSigned pool → AllSigned (remove_all hashes pool)
  unfolding remove_all remove_tran_internel
  remove_all-AllSigned [] pool signed = signed
  remove_all-AllSigned (h ∷ hashes) pool signed =
      remove_all-AllSigned hashes _ (All-remove IsSignedEntry h pool.transactions signed)

  try_insert-AllSigned :
      (tran : SignedTransaction) (pool : MemPool)
      → sign_check tran ≡ true
      → AllSigned pool
      → AllSigned (try_insert tran pool).0
  unfolding try_insert replace_conflicts remove_buffered_tran
  try_insert-AllSigned tran pool good signed =
      elim (Option-cases
        (find_conflicts tran.transaction.ts tran.transaction.inputs pool.input_tran_map [])) [
          | inl refused ↦ rw (refused, try_insert) signed
          | inr (hs, found) ↦
              rw (found, try_insert)
                (All-insert IsSignedEntry tran.hash tran _ good (remove_all-AllSigned hs _ signed))
        ]

  pub add_with_check-AllSigned :
      (tran : SignedTransaction) (pool : MemPool)
      → AllSigned pool
      → AllSigned (add_with_check tran pool).0
  unfolding add_with_check
  add_with_check-AllSigned tran pool signed =
      elim (Bool-cases
        (exist pool tran.hash || (not (sign_check tran) || leb pool_size_limit (size pool)))) [
          | inl refused ↦ rw (refused, add_with_check) signed
          | inr free ↦
              rw (free, add_with_check)
                (try_insert-AllSigned tran pool (ground (arith, free)) signed)
        ]

  pub remove_trans-AllSigned :
      (hashes : List H256) (pool : MemPool) → AllSigned pool → AllSigned (remove_trans hashes pool)
  unfolding remove_trans remove_tran_internel
  remove_trans-AllSigned [] pool signed = signed
  remove_trans-AllSigned (h ∷ hashes) pool signed =
      elim (Option-cases (Map.get h pool.transactions)) [
        | inl absent ↦ rw (absent, remove_trans) (remove_trans-AllSigned hashes pool signed)
        | inr (t, there) ↦
            rw (there, remove_trans)
              (remove_trans-AllSigned hashes _
                (All-remove IsSignedEntry h pool.transactions signed))
      ]

  -- A pool that the client builds by `add_with_check` from the empty pool is signed.
  pub add_all-AllSigned :
      (trans : List SignedTransaction) (pool : MemPool)
      → AllSigned pool
      → AllSigned (add_all trans pool)
  unfolding add_all
  add_all-AllSigned [] pool signed = signed
  add_all-AllSigned (t ∷ trans) pool signed =
      add_all-AllSigned trans (add_with_check t pool).0 (add_with_check-AllSigned t pool signed)

  pub new-AllSigned : AllSigned new
  unfolding new
  new-AllSigned = tt
