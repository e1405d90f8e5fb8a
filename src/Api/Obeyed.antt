-- ===== src/Api/Obeyed.antt =====
-- The signals that requests of src/api/mod.rs send to the miner of src/miner.rs, and what it makes of them.
use Prim.Native.String.{String}
use bitcoin_client_rust.Ring.{Ring}
use bitcoin_client_rust.Transaction.{SignedTransaction, Bincode}
use bitcoin_client_rust.Estimator.{Float}
use bitcoin_client_rust.Miner.{Miner, ControlSignal, OperatingState}
use bitcoin_client_rust.Printable.{Format}
use bitcoin_client_rust.Control.{Crossbeam, IsCrossbeam, miner_turn, drop_if_shut_down}
use bitcoin_client_rust.Api.{Web, Api, handle_request}
use bitcoin_client_rust.Api.Asks.{Ends, IsWeb, to_miner, ask, succeeds, IsReadable}
use bitcoin_client_rust.Api.Answers.{handle_request-Ends}
use bitcoin_client_rust.Control.Turns.{state_after, IsAlive, paused_turn, stopped_turn}
use bitcoin_client_rust.Miner.{signal}
use bitcoin_client_rust.Prelude.{
  sym, inl, inr, false, true, ℕ, ◌≡◌, refl, ap, subst, ◌∙◌, true, ◌++◌, [], ◌∷◌, ok, panic, Returns,
  Eq,
}

module _ (crossbeam : Crossbeam) (float : Float) where
  module _ ⦃ring : Ring⦄ ⦃bincode : Bincode⦄ ⦃tran_eq : Eq SignedTransaction⦄ ⦃web : Web⦄
      ⦃format : Format⦄ where
    -- A request to control a miner whose thread is gone panics.
    closed :
        (req_url : String) (s : ControlSignal) (api : Api crossbeam float)
        → IsCrossbeam crossbeam
        → IsWeb web
        → IsReadable crossbeam float api
        → crossbeam.is_open api.miner ≡ false
        → ask (web.join req_url) ≡ to_miner s
        → handle_request crossbeam float req_url api ≡ panic
    closed req_url s api law known readable gone asks =
        let ends =
          subst (λ a. Ends crossbeam float a api (handle_request crossbeam float req_url api)) asks
            (handle_request-Ends crossbeam float req_url api law known readable) in
        elim ends [ inl (listens, _) ↦ cc (listens, gone) | inr (_, panics) ↦ panics ]

    -- A request that sends a signal to a miner whose channel is open and empty is answered with success, and then
    -- the miner receives the signal.
    sends :
        (req_url : String) (s : ControlSignal) (api : Api crossbeam float)
        → IsCrossbeam crossbeam
        → IsWeb web
        → IsReadable crossbeam float api
        → crossbeam.is_open api.miner ≡ true
        → crossbeam.pending api.miner ≡ []
        → ask (web.join req_url) ≡ to_miner s
        → Returns (handle_request crossbeam float req_url api) λ r.
          (succeeds crossbeam float r.1 ≡ true)
          × (r.0 ≡ record api { miner = r.0.miner })
          × ((left : crossbeam.Channel) × (crossbeam.recv r.0.miner ≡ (left, signal s)))
    sends req_url s api law known readable listens none_pending asks =
        let ends =
          subst (λ a. Ends crossbeam float a api (handle_request crossbeam float req_url api)) asks
            (handle_request-Ends crossbeam float req_url api law known readable) in
        elim ends [
          | inl (_, (r, run, (kept, (last, _), success))) ↦
              let (d, takes, _, _) =
                law.recv-some r.0.miner s [] (last ∙ ap (λ q. q ++ s ∷ []) none_pending) in
              (r, run, (success, kept, (d, takes)))
          | inr (gone, _) ↦ cc (listens, gone)
        ]

    -- A miner that waits, with its channel open and empty, obeys the next request that controls it: the request is
    -- answered with success, and with its next turn the miner is in the state that the request asks for; nothing
    -- else of it changes, and it does not mine in this turn.
    pub handle_request-obeyed :
        (fuel ts millis : ℕ) (req_url : String) (s : ControlSignal) (miner : Miner)
        (api : Api crossbeam float)
        → IsCrossbeam crossbeam
        → IsWeb web
        → IsReadable crossbeam float api
        → miner.operating_state ≡ OperatingState.paused
        → crossbeam.is_open api.miner ≡ true
        → crossbeam.pending api.miner ≡ []
        → ask (web.join req_url) ≡ to_miner s
        → Returns (handle_request crossbeam float req_url api) λ r.
          (succeeds crossbeam float r.1 ≡ true)
          × ((left : crossbeam.Channel) × (miner_turn crossbeam fuel ts millis (miner, r.0.miner)
                ≡ ok ((record miner { operating_state = state_after s }, left), [])))
    handle_request-obeyed fuel ts millis req_url s miner api law known readable waits listens
          none_pending asks =
        let (r, run, (success, _, (d, takes))) =
          sends req_url s api law known readable listens none_pending asks in
        (
          r,
          run,
          (
            success,
            (
              drop_if_shut_down crossbeam (state_after s) d,
              paused_turn crossbeam fuel ts millis s miner r.0.miner d waits takes,
            ),
          ),
        )

    -- A request to stop is answered by a node whose miner waits or runs, with its channel open and empty; with its
    -- next turn the miner shuts down, without mining, and then the next request that controls the miner panics.
    pub stop_request-closes :
        (fuel ts millis : ℕ) (req_url next : String) (s : ControlSignal) (miner : Miner)
        (api : Api crossbeam float)
        → IsCrossbeam crossbeam
        → IsWeb web
        → IsReadable crossbeam float api
        → IsAlive crossbeam miner.operating_state
        → crossbeam.is_open api.miner ≡ true
        → crossbeam.pending api.miner ≡ []
        → ask (web.join req_url) ≡ to_miner ControlSignal.exit
        → ask (web.join next) ≡ to_miner s
        → Returns (handle_request crossbeam float req_url api) λ r.
          (left : crossbeam.Channel) × (miner_turn crossbeam fuel ts millis (miner, r.0.miner)
            ≡ ok ((record miner { operating_state = OperatingState.shut_down }, left), []))
          × (handle_request crossbeam float next (record r.0 { miner = left }) ≡ panic)
    stop_request-closes fuel ts millis req_url next s miner api law known readable alive listens
          none_pending asks again =
        let (r, run, (_, kept, (d, takes))) =
          sends req_url ControlSignal.exit api law known readable listens none_pending asks in
        let left = crossbeam.hang_up d in
        (
          r,
          run,
          (
            left,
            stopped_turn crossbeam miner.operating_state fuel ts millis miner r.0.miner d refl alive
                takes,
            subst
                (λ (a : Api crossbeam float).
                  handle_request crossbeam float next (record a { miner = left }) ≡ panic)
                (sym kept)
                (closed next s (record api { miner = left }) law known
                  (record { chain = readable.chain; small = readable.small }) (law.hang_up-closed d)
                  again),
          ),
        )
