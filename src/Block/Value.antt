-- ===== src/Block/Value.antt =====
-- The value in a UTXO state: what a block may add to it, and the outputs that slip past the check.
use bitcoin_client_rust.Ring.{Ring}
use bitcoin_client_rust.Hash.{H256, H160, H160_eq}
use bitcoin_client_rust.Transaction.{
  TxInput, TxOutput, SignedTransaction, is_coinbase_tran, coinbase_outputs, sender_addr,
  coinbase_reward,
}
use bitcoin_client_rust.Block.{
  Block, OutPoint, OutPoint_eq, State, spend_inputs, add_outputs, apply_tran, apply_trans,
  add_coinbase, generate_state, try_generate_state, i64_add, i64_sub, i64_negative,
}
use bitcoin_client_rust.Prelude.Map
use bitcoin_client_rust.Prelude.Map.{Map}
use bitcoin_client_rust.Prelude.{
  ℕ, suc, ◌+◌, ◌%◌, ◌^◌, ◌≤◌, ◌<◌, ◌≡◌, ap, inl, inr, true, some, List, [], ◌∷◌, ◌==◌, some_cancel,
  All, Bool-cases, Option-cases, arith,
}

-- The sum of the values in a state, and of a list of outputs.
unfoldable pub total : State → ℕ
total [] = 0
total ((p, (val, owner)) ∷ m) = val + total m

unfoldable pub total_outputs : List TxOutput → ℕ
total_outputs [] = 0
total_outputs (o ∷ os) = o.val + total_outputs os

total-insert-le :
    (p : OutPoint) (v : ℕ × H160) (m : State) → total (Map.insert p v m) ≤ total m + v.0
unfolding total Map.insert
total-insert-le p v [] = omega arith
total-insert-le p v ((q, (w, a)) ∷ m) = ground (arith, total-insert-le p v m)

total-remove-le_self : (p : OutPoint) (m : State) → total (Map.remove p m) ≤ total m
unfolding total Map.remove
total-remove-le_self p [] = omega arith
total-remove-le_self p ((q, (w, a)) ∷ m) = ground (arith, total-remove-le_self p m)

total-remove-le :
    (p : OutPoint) (m : State) {v : ℕ × H160}
    → Map.get p m ≡ some v
    → total (Map.remove p m) + v.0 ≤ total m
unfolding total Map.remove Map.get
total-remove-le p [] e = cc
total-remove-le p ((q, (w, a)) ∷ m) {v} e = elim (Bool-cases (q == p)) [
  | inr other ↦ rw other (omega (arith, total-remove-le p m (rw other at e)))
  | inl same ↦
      let value : w ≡ v.0 = ap (λ (o : ℕ × H160). o.0) (some_cancel (rw same at e)) in
      rw same (omega (arith, total-remove-le_self p m))
]

-- What leaves the state is what the balance gains.
spend_inputs-total :
    (sender : H160) (inputs : List TxInput) (state : State) (balance : ℕ) {s : State} {b : ℕ}
    → balance < 2 ^ 64
    → spend_inputs sender inputs state balance ≡ some (s, b)
    → (spent : ℕ) × (total s + spent ≤ total state) × (b ≡ (balance + spent) % 2 ^ 64)
unfolding spend_inputs
spend_inputs-total sender [] state balance small e = (0, ground arith, ground arith)
spend_inputs-total sender (input ∷ inputs) state balance small e =
    let point : OutPoint = record { tran_hash = input.pre_hash; index = input.index } in
    elim (Option-cases (Map.get point state)) [
      | inl missing ↦ absurd (cc (rw (missing, spend_inputs) at e))
      | inr ((val, owner), found) ↦ elim (Bool-cases (owner == sender)) [
        | inr foreign ↦ absurd (cc (rw (found, foreign, spend_inputs) at e))
        | inl mine ↦
            let (spent, left, sum) =
              spend_inputs-total sender inputs (Map.remove point state) (i64_add balance val)
                (omega arith) (rw (found, mine, spend_inputs) at e) in
            (val + spent, omega (arith, total-remove-le point state found), omega arith)
      ]
    ]

-- What enters the state is what the balance loses.
add_outputs-total :
    (h : H256) (i : ℕ) (outputs : List TxOutput) (state : State) (balance : ℕ)
    → balance < 2 ^ 64
    → total_outputs outputs < 2 ^ 64
    → (total (add_outputs h i outputs state balance).0 ≤ total state + total_outputs outputs)
      × (((add_outputs h i outputs state balance).1 + total_outputs outputs) % 2 ^ 64 ≡ balance)
      × ((add_outputs h i outputs state balance).1 < 2 ^ 64)
unfolding add_outputs total_outputs
add_outputs-total h i [] state balance small fits = omega arith
add_outputs-total h i (o ∷ os) state balance small fits =
    let point : OutPoint = record { tran_hash = h; index = i % 2 ^ 32 } in
    let next = Map.insert point (o.val, o.rec_address) state in
    let (p, q, r) =
      add_outputs-total h (suc i) os next (i64_sub balance o.val) (omega arith) (omega arith) in
    (omega (arith, total-insert-le point (o.val, o.rec_address) state), omega arith, r)

module _ ⦃ring : Ring⦄ where
  -- A transaction whose outputs sum to less than 2 ^ 63 creates no value.
  apply_tran-total :
      (tran : SignedTransaction) (state : State) {next : State}
      → total state < 2 ^ 63
      → total_outputs tran.transaction.outputs < 2 ^ 63
      → apply_tran tran state ≡ some next
      → total next ≤ total state
  unfolding apply_tran
  apply_tran-total tran state small fits e =
      let sender = sender_addr tran in
      elim (Option-cases (spend_inputs sender tran.transaction.inputs state 0)) [
        | inl failed ↦ absurd (cc (rw (failed, apply_tran) at e))
        | inr ((spent_state, balance), spends) ↦
            let outputs = tran.transaction.outputs in
            let (spent, left, sum) =
              spend_inputs-total sender tran.transaction.inputs state 0 (omega arith) spends in
            let (p, q, r) =
              add_outputs-total tran.hash 0 outputs spent_state balance (omega arith)
                (omega arith) in
            elim (Bool-cases
              (i64_negative (add_outputs tran.hash 0 outputs spent_state balance).1)) [
                | inl negative ↦ absurd (cc (rw (spends, apply_tran, negative) at e))
                | inr fine ↦
                    let final = ap total (some_cancel (rw (spends, apply_tran, fine) at e)) in
                    let kept : (add_outputs tran.hash 0 outputs spent_state balance).1 < 2 ^ 63 =
                      ground arith in
                    omega arith
              ]
      ]

  apply_trans-total :
      (trans : List SignedTransaction) (state : State) {next : State}
      → total state < 2 ^ 63
      → All (λ t. total_outputs t.transaction.outputs < 2 ^ 63) trans
      → apply_trans trans state ≡ some next
      → total next ≤ total state
  unfolding apply_trans
  apply_trans-total [] state small fits e = let same = ap total (some_cancel e) in omega arith
  apply_trans-total (t ∷ ts) state small fits e = elim (Option-cases (apply_tran t state)) [
    | inl failed ↦ absurd (cc (rw (failed, apply_trans) at e))
    | inr (mid, done) ↦
        let first = apply_tran-total t state small fits.0 done in
        let rest = apply_trans-total ts mid (omega arith) fits.1 (rw (done, apply_trans) at e) in
        omega arith
  ]

  coinbase_value :
      (t : SignedTransaction) (outputs : List TxOutput) (state : State)
      → coinbase_outputs t outputs ≡ true
      → total (add_coinbase t outputs state) ≤ total state + coinbase_reward
  unfolding coinbase_outputs add_coinbase
  coinbase_value t [] state e = omega arith
  coinbase_value t (o ∷ []) state e =
      let point : OutPoint = record { tran_hash = t.hash; index = 0 } in
      let reward : o.val ≡ coinbase_reward = ground arith in
      omega (arith, total-insert-le point (o.val, o.rec_address) state)
  coinbase_value t (o ∷ p ∷ os) state e = cc

  -- A coinbase transaction brings in the reward.
  add_coinbase-total :
      (t : SignedTransaction) (state : State)
      → is_coinbase_tran t ≡ true
      → total (add_coinbase t t.transaction.outputs state) ≤ total state + coinbase_reward
  unfolding is_coinbase_tran
  add_coinbase-total t state e = coinbase_value t t.transaction.outputs state (ground arith)

  generate_state-total :
      (trans : List SignedTransaction) (state : State) {next : State}
      → total state + coinbase_reward < 2 ^ 63
      → All (λ t. total_outputs t.transaction.outputs < 2 ^ 63) trans
      → generate_state trans state ≡ some next
      → total next ≤ total state + coinbase_reward
  unfolding generate_state
  generate_state-total [] state small fits e = cc
  generate_state-total (t ∷ ts) state small fits e = elim (Bool-cases (is_coinbase_tran t)) [
    | inr bad ↦ absurd (cc (rw bad at e))
    | inl good ↦
        let start = add_coinbase-total t state good in
        let rest = apply_trans-total ts _ (omega arith) fits.1 (rw good at e) in omega arith
  ]

  -- A block adds at most the coinbase reward to the value of the state, if the value before it and
  -- the outputs of each of its transactions sum to less than 2 ^ 63.
  pub try_generate_state-total :
      (b : Block) (parent_state : State) {next : State}
      → total parent_state + coinbase_reward < 2 ^ 63
      → All (λ t. total_outputs t.transaction.outputs < 2 ^ 63) b.content.trans
      → try_generate_state b parent_state ≡ some next
      → total next ≤ total parent_state + coinbase_reward
  unfolding try_generate_state
  try_generate_state-total b parent_state small fits e =
      generate_state-total b.content.trans parent_state small fits e

  -- The check of the balance misses an output of more than 2 ^ 63: `val as i64` is negative. A
  -- transaction with no input and one such output is accepted, and its output enters the state.
  pub apply_tran-inflates :
      (tran : SignedTransaction) (o : TxOutput) (state : State)
      → tran.transaction.inputs ≡ []
      → tran.transaction.outputs ≡ o ∷ []
      → 2 ^ 63 < o.val
      → o.val < 2 ^ 64
      → apply_tran tran state
        ≡ some
            (Map.insert (record { tran_hash = tran.hash; index = 0 }) (o.val, o.rec_address) state)
  unfolding apply_tran spend_inputs add_outputs
  apply_tran-inflates tran o state no_inputs one_output big fits =
      rw (no_inputs, one_output) (ground arith)
