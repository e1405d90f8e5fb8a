-- ===== src/Api/Answers.antt =====
-- The answers of the HTTP interface of src/api/mod.rs.
use Prim.Native.String.{String}
use bitcoin_client_rust.Ring.{Ring}
use bitcoin_client_rust.Transaction.{SignedTransaction}
use bitcoin_client_rust.Blockchain.Valid.{tip_block_state-Derives}
use bitcoin_client_rust.Blockchain.Views.{block_chain-Returns}
use bitcoin_client_rust.Estimator.{Float, first_arrivals, estimator, start_first_timestamp_estimate}
use bitcoin_client_rust.Estimator.Defined.{estimator-Covered}
use bitcoin_client_rust.Miner.{ControlSignal}
use bitcoin_client_rust.Mempool
use bitcoin_client_rust.Printable.{Format, from_content_vec}
use bitcoin_client_rust.Printable.Heights.{index-from_block_vec, from_block_vec-undated}
use bitcoin_client_rust.Printable.Shown.{shown, from_state-shown}
use bitcoin_client_rust.Control.{Crossbeam, IsCrossbeam, start, stop, pause}
use bitcoin_client_rust.Api.{
  Joined, url, bad_url, Page, header_page, tx_page, state_page, Web, Endpoint, miner_start,
  miner_stop, miner_pause, blockchain_showheader, blockchain_showtx, blockchain_showstate,
  mempool_showtx, txgenerator_stop, txgenerator_pause, estimator_ft, not_found, endpoint_of, Param,
  missing, malformed, value, get_param, Api, json, html, check_estimator, answer_estimate,
  parse_error, signal_miner, signal_generator, start_miner, show_page, run_estimator, show_header,
  show_contents, show_state, show_mempool, handle_endpoint, handle_joined, handle_request,
}
use bitcoin_client_rust.Api.Asks.{
  Ends, Shows, IsWeb, reads, reads_headers, to_miner, to_generator, ask_start, ask_estimate,
  ask_endpoint, ask, Answers, IsReadable,
}
use bitcoin_client_rust.Prelude.{
  Bool-cases, inl, inr, ◌≡◌, refl, true, false, List, [], map, Eq, Run, ok, unwrap, Returns,
}

module _ (crossbeam : Crossbeam) (float : Float) ⦃ring : Ring⦄ ⦃format : Format⦄ where
  signal_miner-Ends :
      (s : ControlSignal) (api : Api crossbeam float)
      → IsCrossbeam crossbeam
      → Ends crossbeam float
          (to_miner s)
          api
          (signal_miner crossbeam float (unwrap (crossbeam.send s api.miner)) api)
  unfolding signal_miner
  signal_miner-Ends s api law = elim (Bool-cases (crossbeam.is_open api.miner)) [
    | inl listens ↦
        let (c, sent, last, alive) = law.send-open s api.miner listens in
        inl (
          listens,
          (
            (record api { miner = c }, json 200 true "ok"),
            rw sent refl,
            (refl, (last, alive), refl),
          ),
        )
    | inr gone ↦ inr (gone, rw (law.send-closed s api.miner gone) refl)
  ]

  signal_generator-Ends :
      (s : ControlSignal) (api : Api crossbeam float)
      → IsCrossbeam crossbeam
      → Ends crossbeam float (to_generator s) api (
          signal_generator crossbeam float
            (unwrap (crossbeam.send s api.transaction_generator))
            api)
  unfolding signal_generator
  signal_generator-Ends s api law =
      elim (Bool-cases (crossbeam.is_open api.transaction_generator)) [
        | inl listens ↦
            let (c, sent, last, alive) = law.send-open s api.transaction_generator listens in
            inl (
              listens,
              (
                (record api { transaction_generator = c }, json 200 true "ok"),
                rw sent refl,
                (refl, (last, alive), refl),
              ),
            )
        | inr gone ↦ inr (gone, rw (law.send-closed s api.transaction_generator gone) refl)
      ]

  start_miner-Ends :
      (p : Param) (api : Api crossbeam float)
      → IsCrossbeam crossbeam
      → Ends crossbeam float (ask_start p) api (start_miner crossbeam float p api)
  unfolding start_miner parse_error start
  start_miner-Ends missing api law = ((api, json 200 false "missing lambda"), refl, (refl, refl))
  start_miner-Ends (malformed e) api law =
      ((api, parse_error crossbeam float e), refl, (refl, refl))
  start_miner-Ends (value lambda) api law = signal_miner-Ends (ControlSignal.start lambda) api law

  show_page-Answers :
      ⦃web : Web⦄
      → (page : Page) (api : Api crossbeam float) → IsWeb web
      → Returns (show_page crossbeam float page api) λ r. Answers crossbeam float reads api r.0 r.1
  unfolding show_page
  show_page-Answers page api known =
      let (text, rendered) = known page in ((api, html text), rw rendered refl, (refl, refl))

  answer_estimate-Answers :
      (call : Run (float.f64 × float.f64)) (res : float.f64 × float.f64) (api : Api crossbeam float)
      → call ≡ ok res
      → Returns
          (answer_estimate crossbeam float call api)
          λ r. Answers crossbeam float reads api r.0 r.1
  unfolding answer_estimate check_estimator
  answer_estimate-Answers call res api run = (
    (api, check_estimator crossbeam float true res.0 res.1 (Mempool.size api.mempool)),
    rw run refl,
    (refl, refl),
  )

  module _ ⦃tran_eq : Eq SignedTransaction⦄ where
    run_estimator-Ends :
        (p : Param) (api : Api crossbeam float)
        → Ends crossbeam float (ask_estimate p) api (run_estimator crossbeam float p api)
    unfolding run_estimator parse_error start_first_timestamp_estimate
    run_estimator-Ends missing api = ((api, json 200 false "missing lambda"), refl, (refl, refl))
    run_estimator-Ends (malformed e) api =
        ((api, parse_error crossbeam float e), refl, (refl, refl))
    run_estimator-Ends (value n) api =
        let arrivals = first_arrivals api.mempool.transactions api.mempool.ts_addr_map [] in
        let (_, (p, run)) = estimator-Covered float arrivals api.peers.info_map n in
        answer_estimate-Answers (estimator float arrivals api.peers.info_map n) _ api run

    module _ ⦃web : Web⦄ where
      show_header-Shows :
          (api : Api crossbeam float)
          → IsWeb web
          → IsReadable crossbeam float api
          → Shows crossbeam float reads_headers api (show_header crossbeam float api)
      unfolding show_header
      show_header-Shows api known readable =
          let (bs, run, _) = block_chain-Returns api.blockchain readable.chain readable.small in
          elim (from_block_vec-undated bs) [
            | inl dated ↦
                let (ps, printed, _) = index-from_block_vec bs dated in
                let (r, shows, answers) = show_page-Answers (header_page ps) api known in
                (bs, run, inl (dated, (r, rw (run, printed) shows, answers)))
            | inr (b, m, undated, panics) ↦ (bs, run, inr (b, m, undated, rw (run, panics) refl))
          ]

      show_contents-Answers :
          (api : Api crossbeam float)
          → IsWeb web
          → IsReadable crossbeam float api
          → Returns
              (show_contents crossbeam float api)
              λ r. Answers crossbeam float reads api r.0 r.1
      unfolding show_contents
      show_contents-Answers api known readable =
          let (bs, _, (_, _, _, run)) =
            block_chain-Returns api.blockchain readable.chain readable.small in
          let (r, shows, answers) =
            show_page-Answers (tx_page (from_content_vec (map (λ b. b.content) bs))) api known in
          (r, rw run shows, answers)

      show_state-Answers :
          (api : Api crossbeam float)
          → IsWeb web
          → IsReadable crossbeam float api
          → Returns (show_state crossbeam float api) λ r. Answers crossbeam float reads api r.0 r.1
      unfolding show_state
      show_state-Answers api known readable =
          let (state, run, _) = tip_block_state-Derives api.blockchain readable.chain in
          let (r, shows, answers) = show_page-Answers (state_page (shown state)) api known in
          (r, rw (run, from_state-shown state) shows, answers)

      handle_endpoint-Ends :
          (endpoint : Endpoint) (pairs : List (String × String)) (api : Api crossbeam float)
          → IsCrossbeam crossbeam
          → IsWeb web
          → IsReadable crossbeam float api
          → Ends crossbeam float
              (ask_endpoint endpoint pairs)
              api
              (handle_endpoint crossbeam float endpoint pairs api)
      unfolding handle_endpoint stop pause show_mempool
      handle_endpoint-Ends miner_start pairs api law known readable =
          start_miner-Ends (get_param "lambda" pairs) api law
      handle_endpoint-Ends miner_stop pairs api law known readable =
          signal_miner-Ends ControlSignal.exit api law
      handle_endpoint-Ends miner_pause pairs api law known readable =
          signal_miner-Ends ControlSignal.paused api law
      handle_endpoint-Ends blockchain_showheader pairs api law known readable =
          show_header-Shows api known readable
      handle_endpoint-Ends blockchain_showtx pairs api law known readable =
          show_contents-Answers api known readable
      handle_endpoint-Ends blockchain_showstate pairs api law known readable =
          show_state-Answers api known readable
      handle_endpoint-Ends mempool_showtx pairs api law known readable =
          show_page-Answers _ api known
      handle_endpoint-Ends txgenerator_stop pairs api law known readable =
          signal_generator-Ends ControlSignal.exit api law
      handle_endpoint-Ends txgenerator_pause pairs api law known readable =
          signal_generator-Ends ControlSignal.paused api law
      handle_endpoint-Ends estimator_ft pairs api law known readable =
          run_estimator-Ends (get_param "n" pairs) api
      handle_endpoint-Ends not_found pairs api law known readable =
          ((api, json 404 false "endpoint not found"), refl, (refl, refl))

      handle_joined-Ends :
          (joined : Joined) (api : Api crossbeam float)
          → IsCrossbeam crossbeam
          → IsWeb web
          → IsReadable crossbeam float api
          → Ends crossbeam float (ask joined) api (handle_joined crossbeam float joined api)
      unfolding handle_joined
      handle_joined-Ends (bad_url e) api law known readable = (_, refl, (refl, refl))
      handle_joined-Ends (url path pairs) api law known readable =
          handle_endpoint-Ends (endpoint_of path) pairs api law known readable

      -- Over a valid chain of fewer than 2 ^ 31 levels and with templates that render, two kinds of requests panic,
      -- and no other: one that controls a thread that is gone, and one for the headers of a chain with a block whose
      -- timestamp is out of the range of dates. Every other is answered: with a failure exactly for a bad url, an
      -- unknown path, or a parameter that is missing or no number. A request to control puts its signal last in the
      -- channel of its thread and changes nothing else; any other changes nothing.
      pub handle_request-Ends :
          (req_url : String) (api : Api crossbeam float)
          → IsCrossbeam crossbeam
          → IsWeb web
          → IsReadable crossbeam float api
          → Ends crossbeam float
              (ask (web.join req_url))
              api
              (handle_request crossbeam float req_url api)
      unfolding handle_request
      handle_request-Ends req_url api = handle_joined-Ends (web.join req_url) api
