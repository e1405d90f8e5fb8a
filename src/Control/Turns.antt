-- ===== src/Control/Turns.antt =====
-- The turns of the miner of src/miner.rs in which it takes a signal.
use bitcoin_client_rust.Ring.{Ring}
use bitcoin_client_rust.Transaction.{Bincode}
use bitcoin_client_rust.Miner
use bitcoin_client_rust.Miner.{
  Miner, ControlSignal, OperatingState, Received, signal, handle_control_signal, round_in, mine_in,
  mine_unless_shut_down,
}
use bitcoin_client_rust.Control.{
  Crossbeam, miner_turn, miner_turn_in, after_round, drop_if_shut_down,
}
use bitcoin_client_rust.Prelude.{ℕ, ◌≡◌, refl, [], ok}

-- The state in which a signal leaves the miner.
abbrev pub state_after : ControlSignal → OperatingState
state_after ControlSignal.exit = OperatingState.shut_down
state_after (ControlSignal.start lambda) = OperatingState.run lambda
state_after ControlSignal.paused = OperatingState.paused

module _ (crossbeam : Crossbeam) where
  module _ ⦃ring : Ring⦄ ⦃bincode : Bincode⦄ where
    -- A paused miner takes a signal and does nothing else.
    pub paused_turn :
        (fuel ts millis : ℕ) (s : ControlSignal) (miner : Miner) (c d : crossbeam.Channel)
        → miner.operating_state ≡ OperatingState.paused
        → crossbeam.recv c ≡ (d, signal s)
        → miner_turn crossbeam fuel ts millis (miner, c)
          ≡ ok (
            (
              record miner { operating_state = state_after s },
              drop_if_shut_down crossbeam (state_after s) d,
            ),
            [],
          )
    unfolding miner_turn miner_turn_in after_round Miner.round round_in handle_control_signal
    paused_turn fuel ts millis ControlSignal.exit miner c d waits takes = rw (waits, takes) refl
    paused_turn fuel ts millis (ControlSignal.start lambda) miner c d waits takes =
        rw (waits, takes) refl
    paused_turn fuel ts millis ControlSignal.paused miner c d waits takes = rw (waits, takes) refl

    -- A running miner that is told to exit leaves its loop without mining.
    exit_turn :
        (fuel ts millis i : ℕ) (miner : Miner) (c d : crossbeam.Channel)
        → miner.operating_state ≡ OperatingState.run i
        → crossbeam.recv c ≡ (d, signal ControlSignal.exit)
        → miner_turn crossbeam fuel ts millis (miner, c)
          ≡ ok (
            (record miner { operating_state = OperatingState.shut_down }, crossbeam.hang_up d),
            [],
          )
    unfolding miner_turn miner_turn_in after_round Miner.round round_in mine_unless_shut_down
        mine_in handle_control_signal drop_if_shut_down
    exit_turn fuel ts millis i miner c d runs takes = rw (runs, takes) refl

    -- The miner is waiting or runs: its thread has not returned.
    abbrev pub IsAlive : OperatingState → Type 0
    IsAlive OperatingState.shut_down = ⊥
    IsAlive (OperatingState.run i) = Unit
    IsAlive OperatingState.paused = Unit

    pub stopped_turn :
        (state : OperatingState) (fuel ts millis : ℕ) (miner : Miner) (c d : crossbeam.Channel)
        → miner.operating_state ≡ state
        → IsAlive state
        → crossbeam.recv c ≡ (d, signal ControlSignal.exit)
        → miner_turn crossbeam fuel ts millis (miner, c)
          ≡ ok (
            (record miner { operating_state = OperatingState.shut_down }, crossbeam.hang_up d),
            [],
          )
    unfolding drop_if_shut_down
    stopped_turn OperatingState.shut_down fuel ts millis miner c d is alive takes = absurd alive
    stopped_turn (OperatingState.run i) fuel ts millis miner c d is alive takes =
        exit_turn fuel ts millis i miner c d is takes
    stopped_turn OperatingState.paused fuel ts millis miner c d is alive takes =
        paused_turn fuel ts millis ControlSignal.exit miner c d is takes
