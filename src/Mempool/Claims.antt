-- ===== src/Mempool/Claims.antt =====
-- The invariant of the pool: every transaction claims each of its inputs in `input_tran_map`.
use bitcoin_client_rust.Hash.{H256, H256_eq}
use bitcoin_client_rust.Transaction.{TxInput, TxInput_eq, SignedTransaction}
use bitcoin_client_rust.Mempool.{
  MemPool, find_conflicts, claim_inputs, remove_all, remove_tran_internel, replace_conflicts,
}
use bitcoin_client_rust.Prelude.Map
use bitcoin_client_rust.Prelude.Map.{
  Map, get-insert_cases, get-insert_self, get-insert_ne, get-remove_cases,
}
use bitcoin_client_rust.Prelude.{
  ℕ, ◌≤◌, ◌<◌, ◌≡◌, ◌≢◌, refl, sym, ap, ◌∙◌, ◌⊎◌, inl, inr, some, List, [], ◌∷◌, ◌++◌, ◌==◌, In,
  In-append_left, In-append_right, Bool-cases, Option-cases, ==_iff, arith, ltb, subst, some_cancel,
  length,
}

pub record IsPool (pool : MemPool) : Type 0 where
  pub keyed : (h : H256) (t : SignedTransaction) → Map.get h pool.transactions ≡ some t → t.hash ≡ h
  pub claimed :
      (h : H256) (t : SignedTransaction) (input : TxInput)
      → Map.get h pool.transactions ≡ some t
      → In input t.transaction.inputs
      → Map.get input pool.input_tran_map ≡ some (h, t.transaction.ts)

-- The hashes only grow while the conflicts are gathered.
find_conflicts-grows :
    (ts : ℕ) (inputs : List TxInput) (claims : Map TxInput (H256 × ℕ)) (acc : List H256)
    {hs : List H256} (h : H256)
    → find_conflicts ts inputs claims acc ≡ some hs
    → In h acc
    → In h hs
unfolding find_conflicts
find_conflicts-grows ts [] claims acc h e m = subst (In h) (some_cancel e) m
find_conflicts-grows ts (i ∷ is) claims acc h e m = elim (Option-cases (Map.get i claims)) [
  | inl free ↦ find_conflicts-grows ts is claims acc h (rw (free, find_conflicts) at e) m
  | inr ((c, cts), taken) ↦ elim (Bool-cases (ltb ts cts)) [
    | inr late ↦ absurd (cc (rw (taken, late, find_conflicts) at e))
    | inl early ↦
        find_conflicts-grows ts is claims (acc ++ c ∷ []) h (rw (taken, early, find_conflicts) at e)
          (In-append_left h acc (c ∷ []) m)
  ]
]

-- Every conflicting transaction is found, and is later.
pub find_conflicts-finds :
    (ts : ℕ) (inputs : List TxInput) (claims : Map TxInput (H256 × ℕ)) (acc : List H256)
    {hs : List H256} (input : TxInput) (c : H256) (cts : ℕ)
    → find_conflicts ts inputs claims acc ≡ some hs
    → In input inputs
    → Map.get input claims ≡ some (c, cts)
    → In c hs × (ts < cts)
unfolding find_conflicts
find_conflicts-finds ts [] claims acc input c cts e m found = absurd m
find_conflicts-finds ts (i ∷ is) claims acc input c cts e (inr m) found =
    elim (Option-cases (Map.get i claims)) [
      | inl free ↦
          find_conflicts-finds ts is claims acc input c cts (rw (free, find_conflicts) at e) m found
      | inr ((d, dts), taken) ↦ elim (Bool-cases (ltb ts dts)) [
        | inr late ↦ absurd (cc (rw (taken, late, find_conflicts) at e))
        | inl early ↦
            find_conflicts-finds ts is claims (acc ++ d ∷ []) input c cts
              (rw (taken, early, find_conflicts) at e) m found
      ]
    ]
find_conflicts-finds ts (i ∷ is) claims acc input c cts e (inl same) found =
    let taken : Map.get i claims ≡ some (c, cts) =
      subst (λ k. Map.get k claims ≡ some (c, cts)) same found in
    elim (Bool-cases (ltb ts cts)) [
      | inr late ↦ absurd (cc (rw (taken, late, find_conflicts) at e))
      | inl early ↦ (
        find_conflicts-grows ts is claims (acc ++ c ∷ []) c (rw (taken, early, find_conflicts) at e)
            (In-append_right c acc (c ∷ []) (inl refl)),
        ground arith,
      )
    ]

-- After the claims of a transaction, each of its inputs is its own, and the others are as before.
pub claim_inputs-cases :
    (h : H256) (ts : ℕ) (inputs : List TxInput) (claims : Map TxInput (H256 × ℕ)) (input : TxInput)
    → (In input inputs × (Map.get input (claim_inputs h ts inputs claims) ≡ some (h, ts)))
      ⊎ (¬ In input inputs
          × (Map.get input (claim_inputs h ts inputs claims) ≡ Map.get input claims))
unfolding claim_inputs
claim_inputs-cases h ts [] claims input = inr (λ m. m, refl)
claim_inputs-cases h ts (i ∷ is) claims input =
    elim (claim_inputs-cases h ts is (Map.insert i (h, ts) claims) input) [
      | inl (m, e) ↦ inl (inr m, e)
      | inr (n, e) ↦ elim (Bool-cases (input == i)) [
        | inl same ↦
            let p = (==_iff input i).0 same in
            inl (inl p, e ∙ rw p (get-insert_self i (h, ts) claims))
        | inr other ↦
            let ne : input ≢ i = λ p. cc ((==_iff input i).1 p) in
            inr (
              λ m. elim m [ inl p ↦ ne p | inr k ↦ n k ],
              e ∙ get-insert_ne i input (h, ts) claims ne,
            )
      ]
    ]

-- `remove_all` takes out the named transactions and nothing else, and leaves the claims.
pub remove_all-cases :
    (hs : List H256) (pool : MemPool) (h : H256) {t : SignedTransaction}
    → Map.get h (remove_all hs pool).transactions ≡ some t
    → ¬ In h hs × (Map.get h pool.transactions ≡ some t)
unfolding remove_all remove_tran_internel
remove_all-cases [] pool h e = (λ m. m, e)
remove_all-cases (x ∷ hs) pool h e =
    let (n, f) = remove_all-cases hs (remove_tran_internel x pool) h e in
    let (ne, g) = get-remove_cases x h pool.transactions f in
    (λ m. elim m [ inl p ↦ ne p | inr k ↦ n k ], g)

pub remove_all-claims :
    (hs : List H256) (pool : MemPool) → (remove_all hs pool).input_tran_map ≡ pool.input_tran_map
unfolding remove_all remove_tran_internel
remove_all-claims [] pool = refl
remove_all-claims (x ∷ hs) pool = remove_all-claims hs (remove_tran_internel x pool)

pub remove_all-size :
    (hs : List H256) (pool : MemPool)
    → length (remove_all hs pool).transactions ≤ length pool.transactions
unfolding remove_all remove_tran_internel
remove_all-size [] pool = omega arith
remove_all-size (x ∷ hs) pool = omega (
  arith,
  remove_all-size hs (remove_tran_internel x pool),
  Map.length-remove-le x pool.transactions,
)

claimed_new :
    (tran : SignedTransaction) (hs : List H256) (pool : MemPool) (input : TxInput)
    → In input tran.transaction.inputs
    → Map.get input (replace_conflicts tran hs pool).input_tran_map
      ≡ some (tran.hash, tran.transaction.ts)
unfolding replace_conflicts
claimed_new tran hs pool input m =
    elim (claim_inputs-cases tran.hash tran.transaction.ts tran.transaction.inputs
      (remove_all hs pool).input_tran_map input) [ inl (k, e) ↦ e | inr (n, e) ↦ absurd (n m) ]

-- A transaction that stays shares no input with the new one.
claimed_old :
    (tran : SignedTransaction) (hs : List H256) (pool : MemPool)
    → IsPool pool
    → find_conflicts tran.transaction.ts tran.transaction.inputs pool.input_tran_map [] ≡ some hs
    → (h : H256) (t : SignedTransaction) (input : TxInput)
    → Map.get h (remove_all hs pool).transactions ≡ some t
    → In input t.transaction.inputs
    → Map.get input (replace_conflicts tran hs pool).input_tran_map ≡ some (h, t.transaction.ts)
unfolding replace_conflicts
claimed_old tran hs pool valid found h t input stays m =
    let (kept, before) = remove_all-cases hs pool h stays in
    let claim = valid.claimed h t input before m in
    elim (claim_inputs-cases tran.hash tran.transaction.ts tran.transaction.inputs
      (remove_all hs pool).input_tran_map input) [
        | inr (n, e) ↦ e ∙ ap (Map.get input) (remove_all-claims hs pool) ∙ claim
        | inl (k, e) ↦ absurd (
            kept
              (find_conflicts-finds tran.transaction.ts tran.transaction.inputs pool.input_tran_map
                [] input h t.transaction.ts found k claim).0)
      ]

-- A transaction that replaces its conflicts keeps the invariant.
pub replace_conflicts-IsPool :
    (tran : SignedTransaction) (hs : List H256) (pool : MemPool)
    → IsPool pool
    → find_conflicts tran.transaction.ts tran.transaction.inputs pool.input_tran_map [] ≡ some hs
    → IsPool (replace_conflicts tran hs pool)
unfolding replace_conflicts
replace_conflicts-IsPool tran hs pool valid found = record {
  keyed = λ h t e. elim (get-insert_cases tran.hash h tran _ e) [
    | inl (p, q) ↦ ap (λ (x : SignedTransaction). x.hash) q ∙ sym p
    | inr (n, old) ↦ valid.keyed h t (remove_all-cases hs pool h old).1
  ];
  claimed = λ h t input e m. elim (get-insert_cases tran.hash h tran _ e) [
    | inl (p, q) ↦
        rw (p, ap (λ (x : SignedTransaction). x.transaction.ts) q)
          (claimed_new tran hs pool input
            (subst (λ (x : SignedTransaction). In input x.transaction.inputs) q m))
    | inr (n, old) ↦ claimed_old tran hs pool valid found h t input old m
  ];
}
