-- ===== src/Generator/Rounds.antt =====
-- The rounds of the generator on a valid node.
use bitcoin_client_rust.Ring.{Ring}
use bitcoin_client_rust.Hash.{H256, H256_eq}
use bitcoin_client_rust.Transaction.{SignedTransaction, Bincode}
use bitcoin_client_rust.Block.{Block, State, OutPoint_eq}
use bitcoin_client_rust.Block.Keys.{try_generate_state-IsMap}
use bitcoin_client_rust.Blockchain.{Blockchain, tip_block_state}
use bitcoin_client_rust.Blockchain.Tree.{Derives, root, step}
use bitcoin_client_rust.Blockchain.Valid.{IsValid, tip_block_state-Derives}
use bitcoin_client_rust.Mempool.Valid.{add_with_check-IsPool}
use bitcoin_client_rust.Worker.Kept.{IsKept}
use bitcoin_client_rust.Miner.{ControlSignal, OperatingState, Received, signal, empty, disconnected}
use bitcoin_client_rust.Generator.{
  Generator, Draw, handle_control_signal, offer, tx_generating, generate_in,
  generate_unless_shut_down, round_in, round, random_peer_addr, generate_valid_tran,
}
use bitcoin_client_rust.Miner.Rounds.{Connected}
use bitcoin_client_rust.Prelude.Map.{Map, IsMap}
use bitcoin_client_rust.Prelude.{
  refl, inl, inr, Bool, true, false, [], Option-cases, some_cancel, subst, Returns,
}

module _ ⦃ring : Ring⦄ where
  -- The states of the chain have their keys apart.
  Derives-IsMap :
      (check : Bool) {blocks : Map H256 Block} {h : H256} {s : State}
      → Derives check blocks h s
      → IsMap s
  Derives-IsMap check root = tt
  Derives-IsMap true (step b s e d t) = try_generate_state-IsMap b s (Derives-IsMap true d) t
  Derives-IsMap false (step b s e d t) = subst IsMap (some_cancel t) tt

  pub tip_block_state-IsMap :
      (chain : Blockchain) → IsValid chain → Returns (tip_block_state chain) IsMap
  tip_block_state-IsMap chain valid =
      let (s, run, derived) = tip_block_state-Derives chain valid in
      (s, run, Derives-IsMap chain.check_trans derived)

-- The chain and the pool of a generator are valid.
pub record IsGenerator ⦃ring : Ring⦄ (g : Generator) : Type 0 where
  pub chain : IsValid g.blockchain
  pub pool : IsKept g.mempool

module _ ⦃ring : Ring⦄ ⦃bincode : Bincode⦄ where
  offer-IsGenerator :
      (tran : SignedTransaction) (g : Generator) → IsGenerator g → IsGenerator (offer tran g).0
  unfolding offer
  offer-IsGenerator tran g valid = record {
    chain = valid.chain;
    pool = add_with_check-IsPool tran g.mempool valid.pool.0 valid.pool.1;
  }

  control-IsGenerator :
      (s : ControlSignal) (g : Generator) → IsGenerator g → IsGenerator (handle_control_signal s g)
  unfolding handle_control_signal
  control-IsGenerator ControlSignal.exit g valid = record { chain = valid.chain; pool = valid.pool }
  control-IsGenerator (ControlSignal.start i) g valid = record {
    chain = valid.chain;
    pool = valid.pool;
  }
  control-IsGenerator ControlSignal.paused g valid = record {
    chain = valid.chain;
    pool = valid.pool;
  }

  tx_generating-IsGenerator :
      (draw : Draw) (g : Generator)
      → IsGenerator g
      → Returns (tx_generating draw g) λ r. IsGenerator r.0
  unfolding tx_generating
  tx_generating-IsGenerator draw g valid =
      let (state, run, _) = tip_block_state-IsMap g.blockchain valid.chain in
      elim (Option-cases (random_peer_addr draw.peer g.peers)) [
        | inl nobody ↦ ((g, []), rw (run, nobody) refl, valid)
        | inr (rec_addr, chosen) ↦
            elim (Option-cases
              (generate_valid_tran draw.transfer_val draw.ts state g.account rec_addr)) [
                | inl poor ↦ ((g, []), rw (run, chosen, poor) refl, valid)
                | inr (tran, made) ↦
                    (offer tran g, rw (run, chosen, made) refl, offer-IsGenerator tran g valid)
              ]
      ]

  generate_in-IsGenerator :
      (s : OperatingState) (draw : Draw) (g : Generator)
      → IsGenerator g
      → Returns (generate_in s draw g) λ r. IsGenerator r.0
  unfolding generate_in
  generate_in-IsGenerator OperatingState.shut_down draw g valid = ((g, []), refl, valid)
  generate_in-IsGenerator (OperatingState.run i) draw g valid =
      tx_generating-IsGenerator draw g valid
  generate_in-IsGenerator OperatingState.paused draw g valid =
      tx_generating-IsGenerator draw g valid

  generate_unless-IsGenerator :
      (draw : Draw) (g : Generator)
      → IsGenerator g
      → Returns (generate_unless_shut_down draw g) λ r. IsGenerator r.0
  unfolding generate_unless_shut_down
  generate_unless-IsGenerator draw g = generate_in-IsGenerator g.operating_state draw g

  round_in-IsGenerator :
      (state : OperatingState) (draw : Draw) (received : Received) (g : Generator)
      → IsGenerator g
      → Connected received
      → Returns (round_in state draw received g) λ r. IsGenerator r.0
  unfolding round_in
  round_in-IsGenerator OperatingState.shut_down draw received g valid connected =
      ((g, []), refl, valid)
  round_in-IsGenerator OperatingState.paused draw (signal s) g valid connected =
      ((handle_control_signal s g, []), refl, control-IsGenerator s g valid)
  round_in-IsGenerator OperatingState.paused draw empty g valid connected = ((g, []), refl, valid)
  round_in-IsGenerator OperatingState.paused draw disconnected g valid connected = absurd connected
  round_in-IsGenerator (OperatingState.run i) draw (signal s) g valid connected =
      generate_unless-IsGenerator draw (handle_control_signal s g) (control-IsGenerator s g valid)
  round_in-IsGenerator (OperatingState.run i) draw empty g valid connected =
      generate_unless-IsGenerator draw g valid
  round_in-IsGenerator (OperatingState.run i) draw disconnected g valid connected = absurd connected

  -- A round of a generator whose chain and pool are valid, with an open control channel, ends without a
  -- panic, whatever it draws and receives, and leaves a valid chain and a valid pool.
  pub round-IsGenerator :
      (draw : Draw) (received : Received) (g : Generator)
      → IsGenerator g
      → Connected received
      → Returns (round draw received g) λ r. IsGenerator r.0
  unfolding round
  round-IsGenerator draw received g = round_in-IsGenerator g.operating_state draw received g
