-- ===== src/Control.antt =====
-- The control channels of src/miner.rs and src/transaction_generator.rs: the `Handle`s that send signals, and the
-- threads that take them. `crossbeam` is a parameter, and `IsCrossbeam` names what is documented of it.
use bitcoin_client_rust.Ring.{Ring}
use bitcoin_client_rust.Transaction.{Bincode}
use bitcoin_client_rust.Message.{Effect}
use bitcoin_client_rust.Miner
use bitcoin_client_rust.Miner.{Miner, ControlSignal, OperatingState, Received, signal, empty}
use bitcoin_client_rust.Generator
use bitcoin_client_rust.Generator.{Generator, Draw}
use bitcoin_client_rust.Prelude.{
  ℕ, ◌≡◌, Bool, true, false, Option, none, some, List, [], ◌∷◌, ◌++◌, Run, ok, ◌>>=◌, unwrap,
}
pub mod Turns

-- `channel::unbounded`. A channel is in use while its receiver lives; `pending` and `is_open` observe it.
pub record Crossbeam : Type 1 where
  pub Channel : Type 0
  pub unbounded : Channel
  pub send : ControlSignal → Channel → Option Channel  -- an error where the receiver is gone
  pub recv : Channel → Channel × Received  -- with a sender alive; `empty` where `recv` would wait
  pub hang_up : Channel → Channel  -- the receiver is dropped
  pub pending : Channel → List ControlSignal
  pub is_open : Channel → Bool

-- A message that is sent comes last, and the first is received; a channel without a receiver takes none.
pub record IsCrossbeam (crossbeam : Crossbeam) : Type 0 where
  pub unbounded-pending : crossbeam.pending crossbeam.unbounded ≡ []
  pub unbounded-open : crossbeam.is_open crossbeam.unbounded ≡ true
  pub send-open :
      (s : ControlSignal) (c : crossbeam.Channel)
      → crossbeam.is_open c ≡ true
      → (d : crossbeam.Channel) × (crossbeam.send s c ≡ some d)
        × (crossbeam.pending d ≡ crossbeam.pending c ++ s ∷ [])
        × (crossbeam.is_open d ≡ true)
  pub send-closed :
      (s : ControlSignal) (c : crossbeam.Channel)
      → crossbeam.is_open c ≡ false
      → crossbeam.send s c ≡ none
  pub recv-none : (c : crossbeam.Channel) → crossbeam.pending c ≡ [] → crossbeam.recv c ≡ (c, empty)
  pub recv-some :
      (c : crossbeam.Channel) (s : ControlSignal) (rest : List ControlSignal)
      → crossbeam.pending c ≡ s ∷ rest
      → (d : crossbeam.Channel) × (crossbeam.recv c ≡ (d, signal s))
        × (crossbeam.pending d ≡ rest)
        × (crossbeam.is_open d ≡ crossbeam.is_open c)
  pub hang_up-closed : (c : crossbeam.Channel) → crossbeam.is_open (crossbeam.hang_up c) ≡ false

module _ (crossbeam : Crossbeam) where
  -- The methods of `miner::Handle` and of `transaction_generator::Handle`.
  unfoldable pub exit : crossbeam.Channel → Run crossbeam.Channel
  exit control_chan = unwrap (crossbeam.send ControlSignal.exit control_chan)

  unfoldable pub start : ℕ → crossbeam.Channel → Run crossbeam.Channel
  start lambda control_chan = unwrap (crossbeam.send (ControlSignal.start lambda) control_chan)

  unfoldable pub stop : crossbeam.Channel → Run crossbeam.Channel
  stop control_chan = unwrap (crossbeam.send ControlSignal.exit control_chan)

  unfoldable pub pause : crossbeam.Channel → Run crossbeam.Channel
  pause control_chan = unwrap (crossbeam.send ControlSignal.paused control_chan)

  -- A thread that is shut down returns, and drops the receiver.
  unfoldable pub drop_if_shut_down : OperatingState → crossbeam.Channel → crossbeam.Channel
  drop_if_shut_down OperatingState.shut_down control_chan = crossbeam.hang_up control_chan
  drop_if_shut_down (OperatingState.run i) control_chan = control_chan
  drop_if_shut_down OperatingState.paused control_chan = control_chan

  module _ ⦃ring : Ring⦄ ⦃bincode : Bincode⦄ where
    unfoldable pub after_round :
        crossbeam.Channel
        → Run (Miner × List Effect)
        → Run ((Miner × crossbeam.Channel) × List Effect)
    unfolding drop_if_shut_down
    after_round left rounded =
        rounded >>= λ r. ok ((r.0, drop_if_shut_down r.0.operating_state left), r.1)

    -- One turn of `miner_loop` by its channel.
    unfoldable pub miner_turn_in :
        OperatingState
        → ℕ
        → ℕ
        → ℕ
        → Miner × crossbeam.Channel
        → Run ((Miner × crossbeam.Channel) × List Effect)
    unfolding after_round
    miner_turn_in OperatingState.shut_down fuel ts millis thread = ok (thread, [])
    miner_turn_in (OperatingState.run i) fuel ts millis (miner, control_chan) =
        let (left, received) = crossbeam.recv control_chan in
        after_round left (Miner.round fuel ts millis received miner)
    miner_turn_in OperatingState.paused fuel ts millis (miner, control_chan) =
        let (left, received) = crossbeam.recv control_chan in
        after_round left (Miner.round fuel ts millis received miner)

    unfoldable pub miner_turn :
        ℕ → ℕ → ℕ → Miner × crossbeam.Channel → Run ((Miner × crossbeam.Channel) × List Effect)
    unfolding miner_turn_in
    miner_turn fuel ts millis (miner, control_chan) =
        miner_turn_in miner.operating_state fuel ts millis (miner, control_chan)

    unfoldable pub after_generating :
        crossbeam.Channel
        → Run (Generator × List Effect)
        → Run ((Generator × crossbeam.Channel) × List Effect)
    unfolding drop_if_shut_down
    after_generating left rounded =
        rounded >>= λ r. ok ((r.0, drop_if_shut_down r.0.operating_state left), r.1)

    -- One turn of `transaction_generator_loop` by its channel.
    unfoldable pub generator_turn_in :
        OperatingState
        → Draw
        → Generator × crossbeam.Channel
        → Run ((Generator × crossbeam.Channel) × List Effect)
    unfolding after_generating
    generator_turn_in OperatingState.shut_down draw thread = ok (thread, [])
    generator_turn_in (OperatingState.run i) draw (g, control_chan) =
        let (left, received) = crossbeam.recv control_chan in
        after_generating left (Generator.round draw received g)
    generator_turn_in OperatingState.paused draw (g, control_chan) =
        let (left, received) = crossbeam.recv control_chan in
        after_generating left (Generator.round draw received g)

    unfoldable pub generator_turn :
        Draw → Generator × crossbeam.Channel → Run ((Generator × crossbeam.Channel) × List Effect)
    unfolding generator_turn_in
    generator_turn draw (g, control_chan) =
        generator_turn_in g.operating_state draw (g, control_chan)
