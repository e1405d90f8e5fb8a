-- ===== src/Api/Asks.antt =====
-- What a request to the HTTP interface of src/api/mod.rs asks of the node, and the answers that fit it.
use Prim.Native.String.{String}
use bitcoin_client_rust.Ring.{Ring}
use bitcoin_client_rust.Blockchain.Valid.{IsValid}
use bitcoin_client_rust.Estimator.{Float}
use bitcoin_client_rust.Block.{Block}
use bitcoin_client_rust.Blockchain.{block_chain}
use bitcoin_client_rust.Printable.{Format}
use bitcoin_client_rust.Printable.Heights.{Dated}
use bitcoin_client_rust.Miner.{ControlSignal}
use bitcoin_client_rust.Control.{Crossbeam}
use bitcoin_client_rust.Api.{
  Joined, url, bad_url, Page, Web, Endpoint, miner_start, miner_stop, miner_pause,
  blockchain_showheader, blockchain_showtx, blockchain_showstate, mempool_showtx, txgenerator_stop,
  txgenerator_pause, estimator_ft, not_found, endpoint_of, Param, missing, malformed, value,
  get_param, Api, Response, json, estimate, html,
}
use bitcoin_client_rust.Prelude.{
  ◌<◌, ◌^◌, ◌≡◌, Bool, true, false, some, List, [], ◌∷◌, ◌++◌, Run, ok, none, In, panic, Returns,
  ◌⊎◌,
}

-- `Tera::render` knows the template of every page.
abbrev pub IsWeb : Web → Type 0
IsWeb web = (page : Page) → (text : String) × (web.render page ≡ some text)

-- What a request asks of the node.
pub data Ask : Type 0 where
  invalid reads reads_headers : Ask
  to_miner to_generator : ControlSignal → Ask

abbrev pub ask_start : Param → Ask
ask_start missing = invalid
ask_start (malformed e) = invalid
ask_start (value lambda) = to_miner (ControlSignal.start lambda)

abbrev pub ask_estimate : Param → Ask
ask_estimate missing = invalid
ask_estimate (malformed e) = invalid
ask_estimate (value n) = reads

abbrev pub ask_endpoint : Endpoint → List (String × String) → Ask
ask_endpoint miner_start pairs = ask_start (get_param "lambda" pairs)
ask_endpoint miner_stop pairs = to_miner ControlSignal.exit
ask_endpoint miner_pause pairs = to_miner ControlSignal.paused
ask_endpoint blockchain_showheader pairs = reads_headers
ask_endpoint blockchain_showtx pairs = reads
ask_endpoint blockchain_showstate pairs = reads
ask_endpoint mempool_showtx pairs = reads
ask_endpoint txgenerator_stop pairs = to_generator ControlSignal.exit
ask_endpoint txgenerator_pause pairs = to_generator ControlSignal.paused
ask_endpoint estimator_ft pairs = ask_estimate (get_param "n" pairs)
ask_endpoint not_found pairs = invalid

abbrev pub ask : Joined → Ask
ask (bad_url e) = invalid
ask (url path pairs) = ask_endpoint (endpoint_of path) pairs

module _ (crossbeam : Crossbeam) (float : Float) where
  abbrev pub succeeds : Response crossbeam float → Bool
  succeeds (json status success message) = success
  succeeds (estimate res) = res.success
  succeeds (html text) = true

  -- The signal is the last in the channel that it was sent on.
  abbrev pub Sent : ControlSignal → crossbeam.Channel → crossbeam.Channel → Type 0
  Sent s before after =
      (crossbeam.pending after ≡ crossbeam.pending before ++ s ∷ [])
      × (crossbeam.is_open after ≡ true)

  -- The answer fits what was asked, and all but the channel of a signal is as it was.
  abbrev pub Answers :
      Ask → Api crossbeam float → Api crossbeam float → Response crossbeam float → Type 0
  Answers invalid before after response = (after ≡ before) × (succeeds response ≡ false)
  Answers reads before after response = (after ≡ before) × (succeeds response ≡ true)
  Answers reads_headers before after response = (after ≡ before) × (succeeds response ≡ true)
  Answers (to_miner s) before after response =
      (after ≡ record before { miner = after.miner })
      × Sent s before.miner after.miner
      × (succeeds response ≡ true)
  Answers (to_generator s) before after response =
      (after ≡ record before { transaction_generator = after.transaction_generator })
      × Sent s before.transaction_generator after.transaction_generator
      × (succeeds response ≡ true)

  module _ ⦃ring : Ring⦄ ⦃format : Format⦄ where
    -- A request for the headers is answered where every block of the chain has a timestamp in the range of dates,
    -- and panics where one has not.
    abbrev pub Shows :
        Ask → Api crossbeam float → Run (Api crossbeam float × Response crossbeam float) → Type 0
    Shows a before call =
        (bs : List Block) × (block_chain before.blockchain ≡ ok bs)
        × ((((b : Block) → In b bs → Dated b) × Returns call λ r. Answers a before r.0 r.1)
            ⊎ ((b : Block) × In b bs × (format.date b.header.timestamp ≡ none) × (call ≡ panic)))

    -- How a request ends: with an answer that fits, but for a signal to a thread that is gone, and for headers
    -- with a timestamp that is no date, which panic.
    abbrev pub Ends :
        Ask → Api crossbeam float → Run (Api crossbeam float × Response crossbeam float) → Type 0
    Ends invalid before call = Returns call λ r. Answers invalid before r.0 r.1
    Ends reads before call = Returns call λ r. Answers reads before r.0 r.1
    Ends reads_headers before call = Shows reads_headers before call
    Ends (to_miner s) before call =
        ((crossbeam.is_open before.miner ≡ true)
          × Returns call λ r. Answers (to_miner s) before r.0 r.1)
        ⊎ ((crossbeam.is_open before.miner ≡ false) × (call ≡ panic))
    Ends (to_generator s) before call =
        ((crossbeam.is_open before.transaction_generator ≡ true)
          × Returns call λ r. Answers (to_generator s) before r.0 r.1)
        ⊎ ((crossbeam.is_open before.transaction_generator ≡ false) × (call ≡ panic))

  -- An API server over a valid chain.
  pub record IsReadable ⦃ring : Ring⦄ (api : Api crossbeam float) : Type 0 where
    pub chain : IsValid api.blockchain
    pub small : api.blockchain.max_index < 2 ^ 31
