-- ===== src/Tests/Pools.antt =====
-- The pool theorems at pools of one or two transactions.
use bitcoin_client_rust.Tests.Toy.{toy_ring, toy_bincode, hash_at, early, late, input_at, spend}
use bitcoin_client_rust.Hash.{H256_eq}
use bitcoin_client_rust.Transaction.{TxInput, TxInput_eq, SignedTransaction, sign_check, verify}
use bitcoin_client_rust.Block.{Content}
use bitcoin_client_rust.Mempool.{
  MemPool, new, remove_tran_internel, add_with_check, try_insert, exist, size, find_conflicts,
  replace_conflicts, remove_all, claim_inputs, remove_buffered_tran, remove_trans,
  remove_conflict_tx_inputs, remove_spent, remove_inputs, pool_size_limit,
}
use bitcoin_client_rust.Mempool.Claims.{IsPool}
use bitcoin_client_rust.Mempool.Added.{Seen}
use bitcoin_client_rust.Mempool.Reach.{starts, adds, Reach-no_double_spend}
use bitcoin_client_rust.Mempool.Valid.{
  add_with_check-IsPool, add_with_check-Seen, remove_trans-removes, remove_conflict_tx_inputs-frees,
  remove_trans-keeps_claims,
}
use bitcoin_client_rust.Prelude.Map
use bitcoin_client_rust.Prelude.{
  ◌≤◌, ◌≡◌, refl, ◌⊎◌, inl, inr, false, some, none, [], ◌∷◌, length, In, arith,
}

pub new-IsPool : IsPool new
unfolding new Map.get
new-IsPool = record { keyed = λ h t e. cc e; claimed = λ h t input e m. cc e }

-- The pool that holds the later transaction.
abbrev pub one : MemPool
one = (add_with_check late new).0

pub one-IsPool : IsPool one × (length one.transactions ≤ pool_size_limit)
unfolding new
one-IsPool = add_with_check-IsPool late new new-IsPool (omega arith)

one-late : Map.get (hash_at 2) one.transactions ≡ some late
unfolding add_with_check exist size new sign_check verify try_insert remove_buffered_tran
    find_conflicts replace_conflicts remove_all Map.get Map.insert Map.remove
one-late = refl

-- The earlier transaction takes the place of the later one.
add_with_check-IsPool_example :
    IsPool (add_with_check early one).0
    × (length (add_with_check early one).0.transactions ≤ pool_size_limit)
add_with_check-IsPool_example = add_with_check-IsPool early one one-IsPool.0 one-IsPool.1

add_with_check-Seen_example : Seen early one (add_with_check early one)
add_with_check-Seen_example = add_with_check-Seen early one one-IsPool.0

two-early : Map.get early.hash (add_with_check early one).0.transactions ≡ some early
unfolding add_with_check exist size new sign_check verify try_insert remove_buffered_tran
    find_conflicts replace_conflicts remove_all remove_tran_internel claim_inputs Map.get Map.insert
    Map.remove
two-early = refl

-- The later transaction came first, and the earlier one with the same input takes its place.
Reach-no_double_spend_example : (early.hash ≡ early.hash) × (early ≡ early)
Reach-no_double_spend_example =
    Reach-no_double_spend (add_with_check early one).0 early.hash early.hash early early
      (input_at 7) (adds early one (adds late new starts)) two-early two-early (inl refl) (inl refl)

remove_trans-removes_example :
    IsPool (remove_trans (hash_at 2 ∷ []) one)
    × ((In (hash_at 2) (hash_at 2 ∷ [])
          × (Map.get (hash_at 2) (remove_trans (hash_at 2 ∷ []) one).transactions ≡ none))
        ⊎ (¬ In (hash_at 2) (hash_at 2 ∷ [])
            × (Map.get (hash_at 2) (remove_trans (hash_at 2 ∷ []) one).transactions
                ≡ Map.get (hash_at 2) one.transactions)))
remove_trans-removes_example = remove_trans-removes (hash_at 2 ∷ []) one (hash_at 2) one-IsPool.0

-- A block that spends another input.
abbrev content : Content
content = record { trans = spend 6 1 (input_at 3 ∷ []) ∷ [] }

one-stays : Map.get (hash_at 2) (remove_conflict_tx_inputs content one).transactions ≡ some late
unfolding add_with_check exist size new sign_check verify try_insert remove_buffered_tran
    find_conflicts replace_conflicts remove_all Map.get Map.insert Map.remove claim_inputs
    remove_conflict_tx_inputs remove_spent remove_inputs
one-stays = refl

remove_conflict_tx_inputs-frees_example :
    IsPool (remove_conflict_tx_inputs content one)
    × (Map.get (hash_at 2) one.transactions ≡ some late)
    × ((spender : SignedTransaction) (input : TxInput)
        → In spender content.trans
        → In input spender.transaction.inputs
        → ¬ In input late.transaction.inputs)
remove_conflict_tx_inputs-frees_example =
    remove_conflict_tx_inputs-frees content one (hash_at 2) late one-IsPool.0 one-stays

remove_trans-keeps_claims_example :
    (Map.get (hash_at 2) (remove_trans (hash_at 2 ∷ []) one).transactions ≡ none)
    × ((add_with_check (spend 7 9 (input_at 8 ∷ [])) (remove_trans (hash_at 2 ∷ []) one)).1 ≡ false)
remove_trans-keeps_claims_example =
    remove_trans-keeps_claims (hash_at 2 ∷ []) one (hash_at 2) late (spend 7 9 (input_at 8 ∷ []))
      (input_at 8) one-IsPool.0 one-late (inl refl) (inr (inl refl)) (inl refl) (omega arith)
