-- ===== src/Mempool/Valid.antt =====
-- What the public operations of the pool guarantee.
use bitcoin_client_rust.Mempool.Added.{
  Seen, Added-IsPool, Added-Seen, add_with_check-Added, Added-found, find_conflicts-blocked,
}
use bitcoin_client_rust.Ring.{Ring}
use bitcoin_client_rust.Hash.{H256, H256_eq}
use bitcoin_client_rust.Transaction.{TxInput, TxInput_eq, SignedTransaction, Bincode}
use bitcoin_client_rust.Block.{Content}
use bitcoin_client_rust.Mempool.{
  MemPool, add_with_check, remove_trans, remove_conflict_tx_inputs, pool_size_limit,
}
use bitcoin_client_rust.Mempool.Claims.{IsPool}
use bitcoin_client_rust.Mempool.Removal.{
  remove_trans-cases, remove_trans-claims, remove_trans-IsPool, remove_spent-Shrinks,
  remove_spent-free,
}
use bitcoin_client_rust.Prelude.Map
use bitcoin_client_rust.Prelude.Map.{Map, get-insert_self, get-insert_cases}
use bitcoin_client_rust.Prelude.{
  ◌≤◌, ◌≡◌, sym, ap, ◌∙◌, ◌⊎◌, inl, inr, false, none, some, List, [], In, Bool-cases, length,
  some_cancel,
}

-- Two transactions of the pool that spend one input are the same.
pub IsPool-no_double_spend :
    (pool : MemPool) (h k : H256) (t u : SignedTransaction) (input : TxInput)
    → IsPool pool
    → Map.get h pool.transactions ≡ some t
    → Map.get k pool.transactions ≡ some u
    → In input t.transaction.inputs
    → In input u.transaction.inputs
    → (h ≡ k) × (t ≡ u)
IsPool-no_double_spend pool h k t u input valid e f m n =
    let a = valid.claimed h t input e m in
    let b = valid.claimed k u input f n in
    let p : h ≡ k = cc (a, b) in
    (p, some_cancel (sym e ∙ ap (λ j. Map.get j pool.transactions) p ∙ f))

module _ ⦃ring : Ring⦄ ⦃bincode : Bincode⦄ where
  -- `add_with_check` keeps the pool consistent (each transaction under its hash, each of its inputs
  -- claimed by it) and within `pool_size_limit`.
  pub add_with_check-IsPool :
      (tran : SignedTransaction) (pool : MemPool)
      → IsPool pool
      → length pool.transactions ≤ pool_size_limit
      → IsPool (add_with_check tran pool).0
        × (length (add_with_check tran pool).0.transactions ≤ pool_size_limit)
  add_with_check-IsPool tran pool valid room =
      Added-IsPool tran pool valid room (add_with_check-Added tran pool)

  -- When `add_with_check` answers false, the pending transactions and the claimed inputs are as
  -- before. When it answers true, the transaction is signed and is in the pool under its hash, and
  -- every transaction of the old pool that shares an input with it has a later timestamp.
  pub add_with_check-Seen :
      (tran : SignedTransaction) (pool : MemPool)
      → IsPool pool
      → Seen tran pool (add_with_check tran pool)
  add_with_check-Seen tran pool valid = Added-Seen tran pool valid (add_with_check-Added tran pool)

-- `remove_trans` keeps the pool consistent; a transaction whose hash is named is gone, any other
-- stays as it was.
pub remove_trans-removes :
    (hs : List H256) (pool : MemPool) (h : H256)
    → IsPool pool
    → IsPool (remove_trans hs pool)
      × ((In h hs × (Map.get h (remove_trans hs pool).transactions ≡ none))
          ⊎ (¬ In h hs
              × (Map.get h (remove_trans hs pool).transactions ≡ Map.get h pool.transactions)))
remove_trans-removes hs pool h valid =
    (remove_trans-IsPool hs pool valid, remove_trans-cases hs pool h)

-- After `remove_conflict_tx_inputs` for the content of a block the pool is consistent, it holds only
-- transactions it held before, and none of them spends an input that the block spends.
pub remove_conflict_tx_inputs-frees :
    (content : Content) (pool : MemPool) (h : H256) (t : SignedTransaction)
    → IsPool pool
    → Map.get h (remove_conflict_tx_inputs content pool).transactions ≡ some t
    → IsPool (remove_conflict_tx_inputs content pool)
      × (Map.get h pool.transactions ≡ some t)
      × ((spender : SignedTransaction) (input : TxInput)
          → In spender content.trans
          → In input spender.transaction.inputs
          → ¬ In input t.transaction.inputs)
unfolding remove_conflict_tx_inputs
remove_conflict_tx_inputs-frees content pool h t valid e =
    let (v, s) = remove_spent-Shrinks content.trans pool valid in
    (
      v,
      s.old h t e,
      λ spender input m k. remove_spent-free content.trans pool spender input h t valid m k e,
    )

pub remove_conflict_tx_inputs-IsPool :
    (content : Content) (pool : MemPool)
    → IsPool pool
    → IsPool (remove_conflict_tx_inputs content pool)
unfolding remove_conflict_tx_inputs
remove_conflict_tx_inputs-IsPool content pool valid =
    (remove_spent-Shrinks content.trans pool valid).0

module _ ⦃ring : Ring⦄ ⦃bincode : Bincode⦄ where
  -- A claim outlives the transaction that made it: once `remove_trans` has taken a transaction out of
  -- the pool, a transaction that spends one of its inputs and is not earlier is still refused.
  pub remove_trans-keeps_claims :
      (hs : List H256) (pool : MemPool) (h : H256) (t tran : SignedTransaction) (input : TxInput)
      → IsPool pool
      → Map.get h pool.transactions ≡ some t
      → In h hs
      → In input t.transaction.inputs
      → In input tran.transaction.inputs
      → t.transaction.ts ≤ tran.transaction.ts
      → (Map.get h (remove_trans hs pool).transactions ≡ none)
        × ((add_with_check tran (remove_trans hs pool)).1 ≡ false)
  remove_trans-keeps_claims hs pool h t tran input valid e m i j late =
      let left = remove_trans hs pool in
      let gone : Map.get h left.transactions ≡ none = elim (remove_trans-cases hs pool h) [
        | inl (k, g) ↦ g
        | inr (n, g) ↦ absurd (n m)
      ] in
      let claim : Map.get input left.input_tran_map ≡ some (h, t.transaction.ts) =
        ap (Map.get input) (remove_trans-claims hs pool) ∙ valid.claimed h t input e i in
      let blocked =
        find_conflicts-blocked tran.transaction.ts tran.transaction.inputs left.input_tran_map []
          input h t.transaction.ts j claim late in
      elim (Bool-cases (add_with_check tran left).1) [
        | inr kept_out ↦ (gone, kept_out)
        | inl taken ↦
            let (hs, found) = Added-found tran left (add_with_check-Added tran left) taken in
            cc (found, blocked)
      ]
