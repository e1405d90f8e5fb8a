-- ===== src/Generator/Spends.antt =====
-- A transaction that `generate_valid_tran` makes passes the checks of a block on that state.
use bitcoin_client_rust.Ring.{Ring, IsRing}
use bitcoin_client_rust.Hash.{H256, H160, H160_eq}
use bitcoin_client_rust.Transaction
use bitcoin_client_rust.Transaction.{
  TxInput, TxInput_eq, TxOutput, SignedTransaction, Bincode, generate_signed_transaction,
  sender_addr, sign, sign_check, verify,
}
use bitcoin_client_rust.Block.{OutPoint_eq, State, spend_inputs, add_outputs, apply_tran, i64_add}
use bitcoin_client_rust.Account
use bitcoin_client_rust.Account.{Account}
use bitcoin_client_rust.Generator.{coins_of, collect, outputs_for, generate_valid_tran}
use bitcoin_client_rust.Generator.Coins.{point_of, input_of, sum_coins, owned, coins_of-IsCoins}
use bitcoin_client_rust.Transaction.Signed.{generated-signed}
use bitcoin_client_rust.Prelude.Map
use bitcoin_client_rust.Prelude.Map.{Map, IsMap, get-first, get-behind_some, get-remove_ne}
use bitcoin_client_rust.Prelude.{
  ℕ, ◌+◌, ◌%◌, ◌^◌, ◌≤◌, ◌<◌, ◌≡◌, ◌≢◌, refl, ap, ◌∙◌, inl, inr, true, none, some, List, [], ◌∷◌,
  Bool-cases, ==_refl, ltb, leb, arith,
}

-- Each coin is an output of the state that belongs to the address.
abbrev Backed : H160 → State → Map TxInput ℕ → Type 0
Backed addr state coins =
    (input : TxInput) (val : ℕ)
    → Map.get input coins ≡ some val
    → Map.get (point_of input) state ≡ some (val, addr)

other_key :
    (input other : TxInput) (coins : Map TxInput ℕ) {w : ℕ}
    → Map.get input coins ≡ none
    → Map.get other coins ≡ some w
    → other ≢ input
other_key input other coins new e p = cc (ap (λ (i : TxInput). Map.get i coins) p, new, e)

Backed-later :
    (addr : H160) (state : State) (input : TxInput) (val : ℕ) (coins : Map TxInput ℕ)
    → Map.get input coins ≡ none
    → Backed addr state ((input, val) ∷ coins)
    → Backed addr (Map.remove (point_of input) state) coins
Backed-later addr state input val coins new backed other w e =
    get-remove_ne (point_of input) (point_of other) state
      (λ p. other_key input other coins new e (ap input_of p))
    ∙ backed other w (get-behind_some input other val coins new e)

spend_step :
    (addr : H160) (input : TxInput) (inputs : List TxInput) (state : State) (balance val : ℕ)
    → Map.get (point_of input) state ≡ some (val, addr)
    → spend_inputs addr (input ∷ inputs) state balance
      ≡ spend_inputs addr inputs (Map.remove (point_of input) state) (i64_add balance val)
unfolding spend_inputs
spend_step addr input inputs state balance val e = rw (e, ==_refl addr, spend_inputs) refl

-- What is collected can be spent, adds up to `acc`, and covers the value.
collect-spends :
    (addr : H160) (transfer_val : ℕ) (coins : Map TxInput ℕ) (state : State) (acc : ℕ)
    → IsMap coins
    → Backed addr state coins
    → acc < transfer_val
    → transfer_val ≤ acc + sum_coins coins
    → acc + sum_coins coins < 2 ^ 63
    → (left : State) × (spend_inputs addr (collect transfer_val coins acc).0 state acc
        ≡ some (left, (collect transfer_val coins acc).1))
      × (transfer_val ≤ (collect transfer_val coins acc).1)
      × ((collect transfer_val coins acc).1 < 2 ^ 63)
unfolding collect sum_coins
collect-spends addr transfer_val [] state acc unique backed low enough small = absurd (omega arith)
collect-spends addr transfer_val ((input, val) ∷ coins) state acc (new, unique) backed low enough
      small =
    let coin = backed input val (get-first input val coins) in
    let more : ℕ = (acc + val) % 2 ^ 64 in
    elim (Bool-cases (leb transfer_val more)) [
      | inl covered ↦ (
        Map.remove (point_of input) state,
        rw (covered, collect)
            (spend_step addr input [] state acc val coin ∙ unfold spend_inputs in refl),
        rw (covered, collect) (ground arith),
        rw (covered, collect) (omega arith),
      )
      | inr short ↦
          let (left, spent, covers, bound) =
            collect-spends addr transfer_val coins (Map.remove (point_of input) state) more unique
              (Backed-later addr state input val coins new backed) (ground arith) (omega arith)
              (omega arith) in
          (
            left,
            rw (short, collect)
                (spend_step addr input (collect transfer_val coins more).0 state acc val coin
                  ∙ spent),
            rw (short, collect) covers,
            rw (short, collect) bound,
          )
    ]

-- The outputs use up what was collected.
outputs_for-balance :
    (h : H256) (transfer_val acc : ℕ) (addr rec_addr : H160) (state : State)
    → transfer_val ≤ acc
    → acc < 2 ^ 63
    → (add_outputs h 0 (outputs_for transfer_val acc addr rec_addr) state acc).1 ≡ 0
unfolding outputs_for add_outputs
outputs_for-balance h transfer_val acc addr rec_addr state covers small =
    elim (Bool-cases (ltb transfer_val acc)) [
      | inl change ↦ rw (change, add_outputs) (omega arith)
      | inr exact ↦ rw (exact, add_outputs) (ground arith)
    ]

module _ ⦃ring : Ring⦄ where
  apply_step :
      (tran : SignedTransaction) (state left : State) (acc : ℕ)
      → spend_inputs (sender_addr tran) tran.transaction.inputs state 0 ≡ some (left, acc)
      → (add_outputs tran.hash 0 tran.transaction.outputs left acc).1 ≡ 0
      → (next : State) × (apply_tran tran state ≡ some next)
  unfolding apply_tran
  apply_step tran state left acc spent even = (
    (add_outputs tran.hash 0 tran.transaction.outputs left acc).0,
    rw (spent, even, apply_tran) refl,
  )

module _ ⦃ring : Ring⦄ ⦃bincode : Bincode⦄ where
  -- A signed transaction over spendable inputs that its outputs use up.
  generated-applies :
      (ts port : ℕ) (key_pair : List ℕ) (inputs : List TxInput) (outputs : List TxOutput)
      (state left : State) (acc : ℕ)
      → spend_inputs (Account.new port key_pair).addr inputs state 0 ≡ some (left, acc)
      → ((h : H256) → (add_outputs h 0 outputs left acc).1 ≡ 0)
      → (next : State) × (apply_tran (generate_signed_transaction ts key_pair inputs outputs) state
          ≡ some next)
  unfolding generate_signed_transaction Transaction.new sender_addr Account.new
  generated-applies ts port key_pair inputs outputs state left acc spent even =
      apply_step (generate_signed_transaction ts key_pair inputs outputs) state left acc spent
        (even _)

  generate_valid_tran-some :
      (transfer_val ts : ℕ) (state : State) (account : Account) (rec_addr : H160)
      → 0 < (coins_of state account.addr).1
      → generate_valid_tran transfer_val ts state account rec_addr
        ≡ some (
            generate_signed_transaction ts account.key_pair
              (collect transfer_val (coins_of state account.addr).0 0).0
              (outputs_for transfer_val
                (collect transfer_val (coins_of state account.addr).0 0).1
                account.addr
                rec_addr))
  unfolding generate_valid_tran
  generate_valid_tran-some transfer_val ts state account rec_addr rich =
      let funded : ltb 0 (coins_of state account.addr).1 ≡ true = ground arith in
      rw (funded, generate_valid_tran) refl

  -- With a signature scheme that verifies what it signs, on a state with one entry for each output, in
  -- which the account owns coins of less than 2 ^ 63 in all, `generate_valid_tran` makes a transaction of
  -- any value from 1 to the balance. It is signed, and a block that carries it on this state accepts it:
  -- its inputs are coins of the sender that cover its outputs.
  pub generate_valid_tran-applies :
      (transfer_val ts port : ℕ) (key_pair : List ℕ) (rec_addr : H160) (state : State)
      → IsRing ring
      → IsMap state
      → owned (Account.new port key_pair).addr state < 2 ^ 63
      → 1 ≤ transfer_val
      → transfer_val ≤ owned (Account.new port key_pair).addr state
      → (tran : SignedTransaction) × (generate_valid_tran transfer_val ts state
            (Account.new port key_pair)
            rec_addr
          ≡ some tran)
        × (sign_check tran ≡ true)
        × ((next : State) × (apply_tran tran state ≡ some next))
  unfolding Account.new
  generate_valid_tran-applies transfer_val ts port key_pair rec_addr state is_ring fresh small low
        high =
      let account = Account.new port key_pair in
      let coins = coins_of-IsCoins account.addr state fresh (omega (arith, small)) in
      let (left, spent, covers, bound) =
        collect-spends account.addr transfer_val (coins_of state account.addr).0 state 0
          coins.unique coins.backed (omega (arith, low)) (omega (arith, high, coins.total))
          (omega (arith, small, coins.total)) in
      let acc = (collect transfer_val (coins_of state account.addr).0 0).1 in
      let tran =
        generate_signed_transaction ts key_pair
          (collect transfer_val (coins_of state account.addr).0 0).0
          (outputs_for transfer_val acc account.addr rec_addr) in
      (
        tran,
        generate_valid_tran-some transfer_val ts state account rec_addr
            (omega (arith, coins.balance, low, high)),
        generated-signed ts key_pair _ _ is_ring,
        generated-applies ts port key_pair _ _ state left acc spent
            (λ h. outputs_for-balance h transfer_val acc account.addr rec_addr left covers bound),
      )
