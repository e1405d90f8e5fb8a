-- ===== src/Printable/Shown.antt =====
-- What the printable forms of src/block.rs and src/transaction.rs tell of what they show.
use bitcoin_client_rust.Transaction.{TxInput, TxOutput, SignedTransaction}
use bitcoin_client_rust.Block.{State}
use bitcoin_client_rust.Printable.{
  Format, PrintableState, PrintableTransaction, PrintableTxInput, PrintableTxOutput, state_inputs,
  state_outputs, txinput_to_string_vec, txoutput_to_string_vec, from_signedtx, from_signedtx_vec,
  from_state,
}
use bitcoin_client_rust.Prelude.{
  ℕ, suc, ◌≡◌, refl, ap, sym, ◌∙◌, List, [], ◌∷◌, length, ◌==◌, ==_refl, nat_eq, ok, Returns, true,
  ok_cancel,
}

-- `hex::encode` keeps bytes apart, as `hex::decode` shows.
abbrev pub IsFormat : Format → Type 0
IsFormat format = (a b : List ℕ) → format.encode a ≡ format.encode b → a ≡ b

-- The two agree in all that a printable transaction shows; only the timestamp is not shown.
pub record LooksLike (a b : SignedTransaction) : Type 0 where
  pub hash : a.hash ≡ b.hash
  pub signature : a.signature ≡ b.signature
  pub public_key : a.public_key ≡ b.public_key
  pub inputs : a.transaction.inputs ≡ b.transaction.inputs
  pub outputs : a.transaction.outputs ≡ b.transaction.outputs

cons_inj : {A : Type 0} {x y : A} {xs ys : List A} → x ∷ xs ≡ y ∷ ys → (x ≡ y) × (xs ≡ ys)
cons_inj e = (cc e, cc e)

module _ ⦃format : Format⦄ where
  length-txinputs :
      (state : State) → length (txinput_to_string_vec (state_inputs state)) ≡ length state
  unfolding txinput_to_string_vec state_inputs
  length-txinputs [] = refl
  length-txinputs (e ∷ state) = ap suc (length-txinputs state)

  length-txoutputs :
      (state : State) → length (txoutput_to_string_vec (state_outputs state)) ≡ length state
  unfolding txoutput_to_string_vec state_outputs
  length-txoutputs [] = refl
  length-txoutputs (e ∷ state) = ap suc (length-txoutputs state)

  txinput-inj :
      IsFormat format
      → (i j : TxInput) → format.encode i.pre_hash.bytes ≡ format.encode j.pre_hash.bytes
      → i.index ≡ j.index
      → i ≡ j
  txinput-inj apart i j hash index =
      let bytes = apart i.pre_hash.bytes j.pre_hash.bytes hash in
      λ k. record { pre_hash = record { bytes = bytes k }; index = index k }

  txoutput-inj :
      IsFormat format
      → (o q : TxOutput) → format.encode o.rec_address.bytes ≡ format.encode q.rec_address.bytes
      → o.val ≡ q.val
      → o ≡ q
  txoutput-inj apart o q address val =
      let bytes = apart o.rec_address.bytes q.rec_address.bytes address in
      λ k. record { rec_address = record { bytes = bytes k }; val = val k }

  txinputs-inj :
      IsFormat format
      → (a b : List TxInput) → txinput_to_string_vec a ≡ txinput_to_string_vec b
      → a ≡ b
  unfolding txinput_to_string_vec
  txinputs-inj apart [] [] e = refl
  txinputs-inj apart [] (j ∷ b) e = cc e
  txinputs-inj apart (i ∷ a) [] e = cc e
  txinputs-inj apart (i ∷ a) (j ∷ b) e =
      let (first, rest) = cons_inj e in
      let same =
        txinput-inj apart i j (ap (λ (p : PrintableTxInput). p.pre_hash) first)
          (ap (λ (p : PrintableTxInput). p.index) first) in
      λ k. same k ∷ txinputs-inj apart a b rest k

  txoutputs-inj :
      IsFormat format
      → (a b : List TxOutput) → txoutput_to_string_vec a ≡ txoutput_to_string_vec b
      → a ≡ b
  unfolding txoutput_to_string_vec
  txoutputs-inj apart [] [] e = refl
  txoutputs-inj apart [] (j ∷ b) e = cc e
  txoutputs-inj apart (i ∷ a) [] e = cc e
  txoutputs-inj apart (i ∷ a) (j ∷ b) e =
      let (first, rest) = cons_inj e in
      let same =
        txoutput-inj apart i j (ap (λ (p : PrintableTxOutput). p.rec_address) first)
          (ap (λ (p : PrintableTxOutput). p.val) first) in
      λ k. same k ∷ txoutputs-inj apart a b rest k

  from_signedtx-LooksLike :
      IsFormat format
      → (a b : SignedTransaction) → from_signedtx a ≡ from_signedtx b
      → LooksLike a b
  unfolding from_signedtx
  from_signedtx-LooksLike apart a b e =
      let hash = apart a.hash.bytes b.hash.bytes (ap (λ (p : PrintableTransaction). p.hash) e) in
      record {
        hash = λ k. record { bytes = hash k };
        signature =
            apart a.signature b.signature (ap (λ (p : PrintableTransaction). p.signature) e);
        public_key =
            apart a.public_key b.public_key (ap (λ (p : PrintableTransaction). p.public_key) e);
        inputs =
            txinputs-inj apart a.transaction.inputs b.transaction.inputs
              (ap (λ (p : PrintableTransaction). p.inputs) e);
        outputs =
            txoutputs-inj apart a.transaction.outputs b.transaction.outputs
              (ap (λ (p : PrintableTransaction). p.outputs) e);
      }

  -- Two lists, item by item.
  abbrev pub AllLook : List SignedTransaction → List SignedTransaction → Type 0
  AllLook [] [] = Unit
  AllLook [] (b ∷ bs) = ⊥
  AllLook (a ∷ rest) [] = ⊥
  AllLook (a ∷ rest) (b ∷ bs) = LooksLike a b × AllLook rest bs

  -- If two lists of transactions are shown alike, where hex keeps bytes apart, then they are as long, and their
  -- transactions agree in all but the timestamp.
  pub from_signedtx_vec-AllLook :
      IsFormat format
      → (txs others : List SignedTransaction) → from_signedtx_vec txs ≡ from_signedtx_vec others
      → AllLook txs others
  unfolding from_signedtx_vec
  from_signedtx_vec-AllLook apart [] [] e = tt
  from_signedtx_vec-AllLook apart [] (b ∷ bs) e = cc e
  from_signedtx_vec-AllLook apart (a ∷ txs) [] e = cc e
  from_signedtx_vec-AllLook apart (a ∷ txs) (b ∷ bs) e =
      let (first, rest) = cons_inj e in
      (from_signedtx-LooksLike apart a b first, from_signedtx_vec-AllLook apart txs bs rest)

  -- The printed form of a state, with the lists that its loop fills.
  pub shown : State → PrintableState
  shown state = record {
    inputs = txinput_to_string_vec (state_inputs state);
    outputs = txoutput_to_string_vec (state_outputs state);
    pair_num = length (txinput_to_string_vec (state_inputs state));
  }

  even_lengths :
      (state : State)
      → (length (txinput_to_string_vec (state_inputs state))
          == length (txoutput_to_string_vec (state_outputs state)))
        ≡ true
  even_lengths state = rw (length-txinputs, length-txoutputs) (==_refl (length state))

  pub from_state-shown : (state : State) → from_state state ≡ ok (shown state)
  unfolding from_state shown
  from_state-shown state = rw (even_lengths state) refl

  entries-inj :
      (a b : State) → state_inputs a ≡ state_inputs b → state_outputs a ≡ state_outputs b → a ≡ b
  unfolding state_inputs state_outputs
  entries-inj [] [] e o = refl
  entries-inj [] (y ∷ b) e o = cc e
  entries-inj (x ∷ a) [] e o = cc e
  entries-inj ((p, (v, w)) ∷ a) ((q, (u, z)) ∷ b) e o =
      let (input, inputs) = cons_inj e in
      let (output, outputs) = cons_inj o in
      λ k.
        (
          record { tran_hash = (input k).pre_hash; index = (input k).index },
          ((output k).val, (output k).rec_address),
        )
        ∷ entries-inj a b inputs outputs k

  -- The assertion of `from_state` never fails: every state is shown, in as many pairs as it has entries, and two
  -- states that are shown alike are the same.
  pub from_state-Shows :
      IsFormat format
      → (state : State)
      → Returns (from_state state) λ p.
        (p.pair_num ≡ length state)
        × (length p.inputs ≡ length state)
        × (length p.outputs ≡ length state)
        × ((other : State) → from_state other ≡ ok p → other ≡ state)
  unfolding shown
  from_state-Shows apart state = (
    shown state,
    from_state-shown state,
    (
      length-txinputs state,
      length-txinputs state,
      length-txoutputs state,
      λ other e.
          let same = ok_cancel (sym (from_state-shown other) ∙ e) in
          entries-inj other state
            (txinputs-inj apart (state_inputs other) (state_inputs state)
              (ap (λ (p : PrintableState). p.inputs) same))
            (txoutputs-inj apart (state_outputs other) (state_outputs state)
              (ap (λ (p : PrintableState). p.outputs) same)),
    ),
  )
