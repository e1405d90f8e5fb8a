-- ===== src/Mempool/Removal.antt =====
-- What the removals leave in the pool.
use bitcoin_client_rust.Hash.{H256, H256_eq}
use bitcoin_client_rust.Transaction.{TxInput, TxInput_eq, SignedTransaction}
use bitcoin_client_rust.Mempool.{
  MemPool, remove_tran_internel, remove_trans, remove_inputs, remove_spent,
}
use bitcoin_client_rust.Mempool.Claims.{IsPool}
use bitcoin_client_rust.Prelude.Map
use bitcoin_client_rust.Prelude.Map.{Map, get-remove_cases, get-remove_ne, get-remove_self}
use bitcoin_client_rust.Prelude.{
  ℕ, ◌≤◌, ◌≡◌, ◌≢◌, refl, ap, ◌∙◌, ◌⊎◌, inl, inr, Option, none, some, List, [], ◌∷◌, ◌==◌, In,
  Bool-cases, Option-cases, ==_iff, arith, subst, length,
}

-- The pool after a removal: no transaction is new or changed.
pub record Shrinks (before after : MemPool) : Type 0 where
  pub old :
      (h : H256) (t : SignedTransaction)
      → Map.get h after.transactions ≡ some t
      → Map.get h before.transactions ≡ some t
  pub fewer : length after.transactions ≤ length before.transactions

Shrinks-refl : (pool : MemPool) → Shrinks pool pool
Shrinks-refl pool = record { old = λ h t e. e; fewer = omega arith }

Shrinks-trans : (a b c : MemPool) → Shrinks a b → Shrinks b c → Shrinks a c
Shrinks-trans a b c p q = record {
  old = λ h t e. p.old h t (q.old h t e);
  fewer = omega (arith, p.fewer, q.fewer);
}

remove-Shrinks : (h : H256) (pool : MemPool) → Shrinks pool (remove_tran_internel h pool)
unfolding remove_tran_internel
remove-Shrinks h pool = record {
  old = λ k t e. (get-remove_cases h k pool.transactions e).1;
  fewer = Map.length-remove-le h pool.transactions;
}

remove-IsPool : (h : H256) (pool : MemPool) → IsPool pool → IsPool (remove_tran_internel h pool)
unfolding remove_tran_internel
remove-IsPool h pool valid = record {
  keyed = λ k t e. valid.keyed k t (get-remove_cases h k pool.transactions e).1;
  claimed = λ k t input e m. valid.claimed k t input (get-remove_cases h k pool.transactions e).1 m;
}

-- One round of `remove_trans`.
remove_one :
    (x : H256) (hs : List H256) (pool : MemPool)
    → (next : MemPool) × (remove_trans (x ∷ hs) pool ≡ remove_trans hs next)
      × (Map.get x next.transactions ≡ none)
      × ((k : H256) → k ≢ x → Map.get k next.transactions ≡ Map.get k pool.transactions)
unfolding remove_trans remove_tran_internel
remove_one x hs pool = elim (Option-cases (Map.get x pool.transactions)) [
  | inl absent ↦ (pool, rw (absent, remove_trans), absent, λ k n. refl)
  | inr (t, found) ↦ (
    remove_tran_internel x pool,
    rw (found, remove_trans),
    get-remove_self x pool.transactions,
    λ k n. get-remove_ne x k pool.transactions n,
  )
]

-- `remove_trans` takes out the transactions of the given hashes, and nothing else.
pub remove_trans-cases :
    (hs : List H256) (pool : MemPool) (h : H256)
    → (In h hs × (Map.get h (remove_trans hs pool).transactions ≡ none))
      ⊎ (¬ In h hs × (Map.get h (remove_trans hs pool).transactions ≡ Map.get h pool.transactions))
remove_trans-cases [] pool h = inr (λ m. m, unfold remove_trans in refl)
remove_trans-cases (x ∷ hs) pool h =
    let (next, step, gone, others) = remove_one x hs pool in
    elim (remove_trans-cases hs next h) [
      | inl (m, e) ↦ inl (inr m, rw step e)
      | inr (n, e) ↦ elim (Bool-cases (h == x)) [
        | inl same ↦
            let p = (==_iff h x).0 same in
            inl (inl p, rw step (e ∙ ap (λ k. Map.get k next.transactions) p ∙ gone))
        | inr other ↦
            let ne : h ≢ x = λ p. cc ((==_iff h x).1 p) in
            inr (λ m. elim m [ inl p ↦ ne p | inr k ↦ n k ], rw step (e ∙ others h ne))
      ]
    ]

pub remove_trans-claims :
    (hs : List H256) (pool : MemPool) → (remove_trans hs pool).input_tran_map ≡ pool.input_tran_map
unfolding remove_trans remove_tran_internel
remove_trans-claims [] pool = refl
remove_trans-claims (x ∷ hs) pool = elim (Option-cases (Map.get x pool.transactions)) [
  | inl absent ↦ rw (absent, remove_trans) (remove_trans-claims hs pool)
  | inr (t, found) ↦ rw (found, remove_trans) (remove_trans-claims hs (remove_tran_internel x pool))
]

pub remove_trans-IsPool :
    (hs : List H256) (pool : MemPool) → IsPool pool → IsPool (remove_trans hs pool)
unfolding remove_trans
remove_trans-IsPool [] pool valid = valid
remove_trans-IsPool (x ∷ hs) pool valid = elim (Option-cases (Map.get x pool.transactions)) [
  | inl absent ↦ rw (absent, remove_trans) (remove_trans-IsPool hs pool valid)
  | inr (t, found) ↦
      rw (found, remove_trans)
        (remove_trans-IsPool hs (remove_tran_internel x pool) (remove-IsPool x pool valid))
]

pub remove_trans-Shrinks : (hs : List H256) (pool : MemPool) → Shrinks pool (remove_trans hs pool)
unfolding remove_trans
remove_trans-Shrinks [] pool = Shrinks-refl pool
remove_trans-Shrinks (x ∷ hs) pool = elim (Option-cases (Map.get x pool.transactions)) [
  | inl absent ↦ rw (absent, remove_trans) (remove_trans-Shrinks hs pool)
  | inr (t, found) ↦
      rw (found, remove_trans)
        (Shrinks-trans pool (remove_tran_internel x pool) _ (remove-Shrinks x pool)
          (remove_trans-Shrinks hs (remove_tran_internel x pool)))
]

same_holder :
    {a b : Option (H256 × ℕ)} {k h : H256} {u ts : ℕ}
    → a ≡ b
    → a ≡ some (k, u)
    → b ≡ some (h, ts)
    → k ≡ h
same_holder e p q = ground arith

-- The claim of an input is dropped together with the transaction that holds it.
drop-IsPool :
    (input : TxInput) (h : H256) (ts : ℕ) (pool : MemPool)
    → IsPool pool
    → Map.get input pool.input_tran_map ≡ some (h, ts)
    → IsPool (
        remove_tran_internel h
          (record pool { input_tran_map = Map.remove input pool.input_tran_map }))
unfolding remove_tran_internel
drop-IsPool input h ts pool valid claim = record {
  keyed = λ k t e. valid.keyed k t (get-remove_cases h k pool.transactions e).1;
  claimed = λ k t i e m.
      let (n, f) = get-remove_cases h k pool.transactions e in
      let own = valid.claimed k t i f m in
      get-remove_ne input i pool.input_tran_map
        (λ p. n (same_holder (ap (λ j. Map.get j pool.input_tran_map) p) own claim))
      ∙ own;
}

-- The pool after the inputs of one transaction were spent.
record Dropped (inputs : List TxInput) (before after : MemPool) : Type 0 where
  pool : IsPool after
  shrinks : Shrinks before after
  free :
      (input : TxInput) (h : H256) (t : SignedTransaction)
      → In input inputs
      → Map.get h after.transactions ≡ some t
      → ¬ In input t.transaction.inputs

remove_inputs-Dropped :
    (inputs : List TxInput) (pool : MemPool)
    → IsPool pool
    → Dropped inputs pool (remove_inputs inputs pool)
unfolding remove_inputs remove_tran_internel
remove_inputs-Dropped [] pool valid = record {
  pool = valid;
  shrinks = Shrinks-refl pool;
  free = λ i h t m e. absurd m;
}
remove_inputs-Dropped (x ∷ xs) pool valid = elim (Option-cases (Map.get x pool.input_tran_map)) [
  | inl free ↦
      let rest = remove_inputs-Dropped xs pool valid in
      rw (free, remove_inputs)
        (record {
          pool = rest.pool;
          shrinks = rest.shrinks;
          free = λ i h t m e k. elim m [
            | inr l ↦ rest.free i h t l e k
            | inl p ↦ cc (
              valid.claimed h t i (rest.shrinks.old h t e) k,
              free,
              ap (λ j. Map.get j pool.input_tran_map) p,
            )
          ];
        })
  | inr ((holder, ts), claim) ↦
      let cut : MemPool = record pool { input_tran_map = Map.remove x pool.input_tran_map } in
      let dropped = drop-IsPool x holder ts pool valid claim in
      let rest = remove_inputs-Dropped xs (remove_tran_internel holder cut) dropped in
      let first = remove-Shrinks holder cut in
      rw (claim, remove_inputs)
        (record {
          pool = rest.pool;
          shrinks = record {
            old = λ h t e. first.old h t (rest.shrinks.old h t e);
            fewer = omega (arith, first.fewer, rest.shrinks.fewer);
          };
          free = λ i h t m e k. elim m [
            | inr l ↦ rest.free i h t l e k
            | inl p ↦
                let own = dropped.claimed h t i (rest.shrinks.old h t e) k in
                cc (own, get-remove_self x pool.input_tran_map, p)
          ];
        })
]

-- Every input of the transactions is free in the pool that is left.
pub remove_spent-Shrinks :
    (trans : List SignedTransaction) (pool : MemPool)
    → IsPool pool
    → IsPool (remove_spent trans pool) × Shrinks pool (remove_spent trans pool)
unfolding remove_spent
remove_spent-Shrinks [] pool valid = (valid, Shrinks-refl pool)
remove_spent-Shrinks (t ∷ ts) pool valid =
    let one = remove_inputs-Dropped t.transaction.inputs pool valid in
    let (v, s) = remove_spent-Shrinks ts (remove_inputs t.transaction.inputs pool) one.pool in
    (v, Shrinks-trans pool _ _ one.shrinks s)

pub remove_spent-free :
    (trans : List SignedTransaction) (pool : MemPool) (spender : SignedTransaction)
    (input : TxInput) (h : H256) (t : SignedTransaction)
    → IsPool pool
    → In spender trans
    → In input spender.transaction.inputs
    → Map.get h (remove_spent trans pool).transactions ≡ some t
    → ¬ In input t.transaction.inputs
unfolding remove_spent
remove_spent-free [] pool spender input h t valid m k e = absurd m
remove_spent-free (x ∷ xs) pool spender input h t valid (inr m) k e =
    remove_spent-free xs _ spender input h t
      (remove_inputs-Dropped x.transaction.inputs pool valid).pool m k e
remove_spent-free (x ∷ xs) pool spender input h t valid (inl p) k e =
    let one = remove_inputs-Dropped x.transaction.inputs pool valid in
    let (v, s) = remove_spent-Shrinks xs (remove_inputs x.transaction.inputs pool) one.pool in
    one.free input h t (subst (λ (y : SignedTransaction). In input y.transaction.inputs) p k)
      (s.old h t e)
