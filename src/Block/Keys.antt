-- ===== src/Block/Keys.antt =====
-- A block keeps the keys of a state apart, as a `HashMap` has them.
use bitcoin_client_rust.Ring.{Ring}
use bitcoin_client_rust.Hash.{H256, H160, H160_eq}
use bitcoin_client_rust.Transaction.{
  TxInput, TxOutput, SignedTransaction, is_coinbase_tran, sender_addr,
}
use bitcoin_client_rust.Block.{
  Block, OutPoint, OutPoint_eq, State, spend_inputs, add_outputs, apply_tran, apply_trans,
  add_coinbase, generate_state, try_generate_state, i64_add, i64_sub, i64_negative,
}
use bitcoin_client_rust.Prelude.Map
use bitcoin_client_rust.Prelude.Map.{IsMap, insert-IsMap, remove-IsMap}
use bitcoin_client_rust.Prelude.{
  ℕ, suc, ◌%◌, ◌^◌, ◌≡◌, inl, inr, some, List, [], ◌∷◌, Bool-cases, Option-cases, some_cancel,
  subst, ◌==◌,
}

spend_inputs-IsMap :
    (sender : H160) (inputs : List TxInput) (state : State) (balance : ℕ) {r : State × ℕ}
    → IsMap state
    → spend_inputs sender inputs state balance ≡ some r
    → IsMap r.0
unfolding spend_inputs
spend_inputs-IsMap sender [] state balance {r} fresh e =
    subst (λ (q : State × ℕ). IsMap q.0) (some_cancel e) fresh
spend_inputs-IsMap sender (input ∷ inputs) state balance fresh e =
    let point : OutPoint = record { tran_hash = input.pre_hash; index = input.index } in
    elim (Option-cases (Map.get point state)) [
      | inl missing ↦ absurd (cc (rw (missing, spend_inputs) at e))
      | inr ((val, owner), found) ↦ elim (Bool-cases (owner == sender)) [
        | inr foreign ↦ absurd (cc (rw (found, foreign, spend_inputs) at e))
        | inl mine ↦
            spend_inputs-IsMap sender inputs (Map.remove point state) (i64_add balance val)
              (remove-IsMap point state fresh) (rw (found, mine, spend_inputs) at e)
      ]
    ]

add_outputs-IsMap :
    (h : H256) (i : ℕ) (outputs : List TxOutput) (state : State) (balance : ℕ)
    → IsMap state
    → IsMap (add_outputs h i outputs state balance).0
unfolding add_outputs
add_outputs-IsMap h i [] state balance fresh = fresh
add_outputs-IsMap h i (o ∷ os) state balance fresh =
    let point : OutPoint = record { tran_hash = h; index = i % 2 ^ 32 } in
    add_outputs-IsMap h (suc i) os (Map.insert point (o.val, o.rec_address) state)
      (i64_sub balance o.val) (insert-IsMap point (o.val, o.rec_address) state fresh)

module _ ⦃ring : Ring⦄ where
  apply_tran-IsMap :
      (tran : SignedTransaction) (state : State) {next : State}
      → IsMap state
      → apply_tran tran state ≡ some next
      → IsMap next
  unfolding apply_tran
  apply_tran-IsMap tran state fresh e =
      elim (Option-cases (spend_inputs (sender_addr tran) tran.transaction.inputs state 0)) [
        | inl bad ↦ absurd (cc (rw (bad, apply_tran) at e))
        | inr ((left, acc), spent) ↦
            let added = add_outputs tran.hash 0 tran.transaction.outputs left acc in
            elim (Bool-cases (i64_negative added.1)) [
              | inl short ↦ absurd (cc (rw (spent, short, apply_tran) at e))
              | inr covered ↦ subst IsMap (some_cancel (rw (spent, covered, apply_tran) at e)) (
                  add_outputs-IsMap tran.hash 0 tran.transaction.outputs left acc (
                    spend_inputs-IsMap (sender_addr tran) tran.transaction.inputs state 0 fresh
                      spent))
            ]
      ]

  apply_trans-IsMap :
      (trans : List SignedTransaction) (state : State) {next : State}
      → IsMap state
      → apply_trans trans state ≡ some next
      → IsMap next
  unfolding apply_trans
  apply_trans-IsMap [] state fresh e = subst IsMap (some_cancel e) fresh
  apply_trans-IsMap (t ∷ ts) state fresh e = elim (Option-cases (apply_tran t state)) [
    | inl bad ↦ absurd (cc (rw (bad, apply_trans) at e))
    | inr (s, step) ↦
        apply_trans-IsMap ts s (apply_tran-IsMap t state fresh step) (rw (step, apply_trans) at e)
  ]

  add_coinbase-IsMap :
      (tran : SignedTransaction) (outputs : List TxOutput) (state : State)
      → IsMap state
      → IsMap (add_coinbase tran outputs state)
  unfolding add_coinbase
  add_coinbase-IsMap tran [] state fresh = fresh
  add_coinbase-IsMap tran (o ∷ os) state fresh = insert-IsMap _ _ state fresh

  generate_state-IsMap :
      (trans : List SignedTransaction) (state : State) {next : State}
      → IsMap state
      → generate_state trans state ≡ some next
      → IsMap next
  unfolding generate_state
  generate_state-IsMap [] state fresh e = cc e
  generate_state-IsMap (t ∷ ts) state fresh e = elim (Bool-cases (is_coinbase_tran t)) [
    | inr bad ↦ absurd (cc (rw bad at e))
    | inl good ↦
        apply_trans-IsMap ts _ (add_coinbase-IsMap t t.transaction.outputs state fresh)
          (rw good at e)
  ]

  pub try_generate_state-IsMap :
      (b : Block) (state : State) {next : State}
      → IsMap state
      → try_generate_state b state ≡ some next
      → IsMap next
  unfolding try_generate_state
  try_generate_state-IsMap b state fresh e = generate_state-IsMap b.content.trans state fresh e
