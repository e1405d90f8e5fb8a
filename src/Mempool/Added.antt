-- ===== src/Mempool/Added.antt =====
-- The two ways that a call of `add_with_check` of src/mempool.rs ends.
use bitcoin_client_rust.Ring.{Ring}
use bitcoin_client_rust.Hash.{H256, H256_eq}
use bitcoin_client_rust.Transaction.{TxInput, TxInput_eq, SignedTransaction, Bincode, sign_check}
use bitcoin_client_rust.Mempool.{
  MemPool, add_with_check, try_insert, replace_conflicts, remove_buffered_tran, remove_all,
  find_conflicts, exist, size, pool_size_limit,
}
use bitcoin_client_rust.Mempool.Claims.{
  IsPool, replace_conflicts-IsPool, remove_all-size, find_conflicts-finds,
}
use bitcoin_client_rust.Prelude.Map
use bitcoin_client_rust.Prelude.Map.{Map, get-insert_self, get-insert_cases}
use bitcoin_client_rust.Prelude.{
  ℕ, suc, ◌≤◌, ◌<◌, ◌≡◌, refl, sym, ap, ◌∙◌, inl, inr, Bool, true, false, none, some, List, [], In,
  Bool-cases, Option-cases, arith, length, leb,
}

-- The pool that `try_insert` works on.
pub unbuffer : SignedTransaction → MemPool → MemPool
unfolding remove_buffered_tran
unbuffer tran pool = (remove_buffered_tran tran.hash pool).0

le_not_lt : {m n : ℕ} → m ≤ n → ¬ (n < m)
le_not_lt p q = omega (arith, p, q)

-- An input that stays claimed blocks every transaction that spends it and is not earlier than the claim.
pub find_conflicts-blocked :
    (ts : ℕ) (inputs : List TxInput) (claims : Map TxInput (H256 × ℕ)) (acc : List H256)
    (input : TxInput) (c : H256) (cts : ℕ)
    → In input inputs
    → Map.get input claims ≡ some (c, cts)
    → cts ≤ ts
    → find_conflicts ts inputs claims acc ≡ none
find_conflicts-blocked ts inputs claims acc input c cts m claim late =
    elim (Option-cases (find_conflicts ts inputs claims acc)) [
      | inl e ↦ e
      | inr (hs, e) ↦
          absurd
            (le_not_lt late (find_conflicts-finds ts inputs claims acc input c cts e m claim).1)
    ]

module _ ⦃ring : Ring⦄ ⦃bincode : Bincode⦄ where
  -- The two ways a call of `add_with_check` ends.
  pub data Added (tran : SignedTransaction) (pool : MemPool) : MemPool × Bool → Type 0 where
    refused :
        (next : MemPool)
        → next.transactions ≡ pool.transactions
        → next.input_tran_map ≡ pool.input_tran_map
        → Added tran pool (next, false)
    accepted :
        (hs : List H256)
        → sign_check tran ≡ true
        → length pool.transactions < pool_size_limit
        → find_conflicts tran.transaction.ts tran.transaction.inputs pool.input_tran_map []
          ≡ some hs
        → Added tran pool (replace_conflicts tran hs (unbuffer tran pool), true)

  try_insert-Added :
      (tran : SignedTransaction) (pool : MemPool)
      → sign_check tran ≡ true
      → length pool.transactions < pool_size_limit
      → Added tran pool (try_insert tran pool)
  unfolding try_insert remove_buffered_tran unbuffer
  try_insert-Added tran pool signed room =
      elim (Option-cases
        (find_conflicts tran.transaction.ts tran.transaction.inputs pool.input_tran_map [])) [
          | inl late ↦ rw (late, try_insert) (refused (unbuffer tran pool) refl refl)
          | inr (hs, found) ↦ rw (found, try_insert) (accepted hs signed room found)
        ]

  pub add_with_check-Added :
      (tran : SignedTransaction) (pool : MemPool) → Added tran pool (add_with_check tran pool)
  unfolding add_with_check exist size
  add_with_check-Added tran pool = elim (Bool-cases (exist pool tran.hash)) [
    | inl known ↦ rw known (refused pool refl refl)
    | inr unknown ↦ elim (Bool-cases (sign_check tran)) [
      | inr forged ↦ rw (unknown, forged) (refused pool refl refl)
      | inl signed ↦ elim (Bool-cases (leb pool_size_limit (length pool.transactions))) [
        | inl full ↦ rw (unknown, signed, full) (refused pool refl refl)
        | inr room ↦ rw (unknown, signed, room) (try_insert-Added tran pool signed (ground arith))
      ]
    ]
  ]

  replace_conflicts-size :
      (tran : SignedTransaction) (hs : List H256) (pool : MemPool)
      → length (replace_conflicts tran hs pool).transactions ≤ suc (length pool.transactions)
  unfolding replace_conflicts
  replace_conflicts-size tran hs pool = omega (
    arith,
    Map.length-insert-le tran.hash tran (remove_all hs pool).transactions,
    remove_all-size hs pool,
  )

  pub Added-IsPool :
      (tran : SignedTransaction) (pool : MemPool) {r : MemPool × Bool}
      → IsPool pool
      → length pool.transactions ≤ pool_size_limit
      → Added tran pool r
      → IsPool r.0 × (length r.0.transactions ≤ pool_size_limit)
  unfolding unbuffer
  Added-IsPool tran pool valid room (refused next same claims) = (
    record {
      keyed = λ h t e. valid.keyed h t (sym (ap (Map.get h) same) ∙ e);
      claimed = λ h t input e m.
          ap (Map.get input) claims ∙ valid.claimed h t input (sym (ap (Map.get h) same) ∙ e) m;
    },
    rw same room,
  )
  Added-IsPool tran pool valid room (accepted hs signed space found) = (
    replace_conflicts-IsPool tran hs (unbuffer tran pool)
        (record { keyed = valid.keyed; claimed = valid.claimed }) found,
    omega (arith, replace_conflicts-size tran hs (unbuffer tran pool), space),
  )

  -- What a caller sees of the two ways.
  abbrev pub Seen : SignedTransaction → MemPool → MemPool × Bool → Type 0
  Seen tran pool (next, false) =
      (next.transactions ≡ pool.transactions) × (next.input_tran_map ≡ pool.input_tran_map)
  Seen tran pool (next, true) =
      (sign_check tran ≡ true)
      × (Map.get tran.hash next.transactions ≡ some tran)
      × ((h : H256) (t : SignedTransaction) (input : TxInput)
          → Map.get h pool.transactions ≡ some t
          → In input t.transaction.inputs
          → In input tran.transaction.inputs
          → tran.transaction.ts < t.transaction.ts)

  pub Added-Seen :
      (tran : SignedTransaction) (pool : MemPool) {r : MemPool × Bool}
      → IsPool pool
      → Added tran pool r
      → Seen tran pool r
  unfolding replace_conflicts
  Added-Seen tran pool valid (refused next same claims) = (same, claims)
  Added-Seen tran pool valid (accepted hs signed space found) = (
    signed,
    get-insert_self tran.hash tran _,
    λ h t input e m n.
        (find_conflicts-finds tran.transaction.ts tran.transaction.inputs pool.input_tran_map []
          input h t.transaction.ts found n (valid.claimed h t input e m)).1,
  )

  pub Added-found :
      (tran : SignedTransaction) (pool : MemPool) {r : MemPool × Bool}
      → Added tran pool r
      → r.1 ≡ true
      → (hs : List H256) × (find_conflicts tran.transaction.ts tran.transaction.inputs
            pool.input_tran_map []
          ≡ some hs)
  Added-found tran pool (refused next same claims) e = cc e
  Added-found tran pool (accepted hs signed space found) e = (hs, found)
