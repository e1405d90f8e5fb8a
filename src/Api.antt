-- ===== src/Api.antt =====
-- src/api/mod.rs: the HTTP interface, one function per endpoint. A request is answered once, or its thread panics.
-- The crates `url`, `tera` and `crossbeam` are parameters; JSON is shown as its fields, and reaches the client.
use Prim.Native.String
use Prim.Native.String.{String}
use bitcoin_client_rust.Ring.{Ring}
use bitcoin_client_rust.Transaction.{SignedTransaction}
use bitcoin_client_rust.Blockchain.{Blockchain, block_chain, tip_block_state}
use bitcoin_client_rust.Blockchain.Views.{content_chain}
use bitcoin_client_rust.Mempool.{MemPool, size}
use bitcoin_client_rust.Peers.{Peers}
use bitcoin_client_rust.Estimator.{Float, start_first_timestamp_estimate}
use bitcoin_client_rust.Printable.{
  Format, PrintableBlock, PrintableContent, PrintableState, PrintableTransaction, from_block_vec,
  from_content_vec, from_state, from_signedtx_vec,
}
use bitcoin_client_rust.Control.{Crossbeam, start, stop, pause}
use bitcoin_client_rust.Prelude.Map
use bitcoin_client_rust.Prelude.Map.{Map}
use bitcoin_client_rust.Prelude.Text.{
  String_eq, codes, Parsed, number, empty_text, invalid_digit, overflow, parse_u64,
}
use bitcoin_client_rust.Prelude.{
  ℕ, Bool, true, false, Option, none, some, List, [], ◌∷◌, map, length, if◌then◌else◌, Eq, ◌==◌,
  Run, ok, ◌>>=◌, unwrap,
}
pub mod Asks
pub mod Answers
pub mod Obeyed

-- What `base_url.join` makes of the url of a request: the path and the pairs of the query, or an error.
pub data Joined : Type 0 where
  url : String → List (String × String) → Joined
  bad_url : String → Joined

-- What a template shows.
pub data Page : Type 0 where
  header_page : List PrintableBlock → Page
  tx_page : List PrintableContent → Page
  state_page : PrintableState → Page
  mempool_page : List PrintableTransaction → ℕ → Page

-- The crates that a request goes through: `Url::join`, by the address of the server, and `Tera::render`.
pub record Web : Type 0 where
  pub join : String → Joined
  pub render : Page → Option String

pub data Endpoint : Type 0 where
  miner_start miner_stop miner_pause : Endpoint
  blockchain_showheader blockchain_showtx blockchain_showstate mempool_showtx : Endpoint
  txgenerator_stop txgenerator_pause estimator_ft not_found : Endpoint

-- `match url.path()`
unfoldable pub endpoint_of : String → Endpoint
endpoint_of path =
    if path == "/miner/start"
    then miner_start
    else if path == "/miner/stop"
    then miner_stop
    else if path == "/miner/pause"
    then miner_pause
    else if path == "/blockchain/showheader"
    then blockchain_showheader
    else if path == "/blockchain/showtx"
    then blockchain_showtx
    else if path == "/blockchain/showstate"
    then blockchain_showstate
    else if path == "/mempool/showtx"
    then mempool_showtx
    else if path == "/txgenerator/stop"
    then txgenerator_stop
    else if path == "/txgenerator/pause"
    then txgenerator_pause
    else if path == "/estimator/ft"
    then estimator_ft
    else not_found

-- `params.into_owned().collect()`: of two pairs with one key the later stays.
unfoldable pub collect_params : List (String × String) → Map String String → Map String String
collect_params [] params = params
collect_params ((key, value) ∷ pairs) params = collect_params pairs (Map.insert key value params)

-- A parameter that must be there and be a number.
pub data Param : Type 0 where
  missing : Param
  malformed : String → Param
  value : ℕ → Param

unfoldable pub param_of : Option String → Param
param_of none = missing
param_of (some v) = elim (parse_u64 (codes v)) [
  | number n ↦ value n
  | empty_text ↦ malformed "cannot parse integer from empty string"
  | invalid_digit ↦ malformed "invalid digit found in string"
  | overflow ↦ malformed "number too large to fit in target type"
]

unfoldable pub get_param : String → List (String × String) → Param
unfolding collect_params param_of
get_param key pairs = param_of (Map.get key (collect_params pairs []))

module _ (crossbeam : Crossbeam) (float : Float) where
  -- `Server`, with what its locks guard.
  pub record Api : Type 0 where
    pub miner : crossbeam.Channel
    pub transaction_generator : crossbeam.Channel
    pub blockchain : Blockchain
    pub mempool : MemPool
    pub peers : Peers

  -- `EstimatorRes`
  pub record EstimatorRes : Type 0 where
    pub success : Bool
    pub recall : float.f64
    pub precision : float.f64
    pub mempool_size : ℕ

  -- The status and an `ApiResponse`, the JSON of an estimate, or a page.
  pub data Response : Type 0 where
    json : ℕ → Bool → String → Response
    estimate : EstimatorRes → Response
    html : String → Response

  -- The macro `check_estimator!`, with its parameters in their order.
  unfoldable pub check_estimator : Bool → float.f64 → float.f64 → ℕ → Response
  check_estimator success precision recall mempool_size = estimate (record {
    success = success;
    recall = recall;
    precision = precision;
    mempool_size = mempool_size;
  })

  unfoldable pub parse_error : String → Response
  parse_error e = json 200 false (String.◌++◌ "error parsing lambda: " e)

  -- The end of the endpoints that send a signal.
  unfoldable pub signal_miner : Run crossbeam.Channel → Api → Run (Api × Response)
  signal_miner sent api = sent >>= λ c. ok (record api { miner = c }, json 200 true "ok")

  unfoldable pub signal_generator : Run crossbeam.Channel → Api → Run (Api × Response)
  signal_generator sent api =
      sent >>= λ c. ok (record api { transaction_generator = c }, json 200 true "ok")

  unfoldable pub start_miner : Param → Api → Run (Api × Response)
  unfolding signal_miner parse_error start
  start_miner missing api = ok (api, json 200 false "missing lambda")
  start_miner (malformed e) api = ok (api, parse_error e)
  start_miner (value lambda) api = signal_miner (start crossbeam lambda api.miner) api

  unfoldable pub show_page : ⦃web : Web⦄ → Page → Api → Run (Api × Response)
  show_page ⦃web⦄ page api = unwrap (web.render page) >>= λ text. ok (api, html text)

  unfoldable pub answer_estimate : Run (float.f64 × float.f64) → Api → Run (Api × Response)
  unfolding check_estimator
  answer_estimate estimated api =
      estimated >>= λ res. ok (api, check_estimator true res.0 res.1 (size api.mempool))

  module _ ⦃ring : Ring⦄ ⦃tran_eq : Eq SignedTransaction⦄ where
    unfoldable pub run_estimator : Param → Api → Run (Api × Response)
    unfolding parse_error answer_estimate start_first_timestamp_estimate
    run_estimator missing api = ok (api, json 200 false "missing lambda")
    run_estimator (malformed e) api = ok (api, parse_error e)
    run_estimator (value n) api =
        answer_estimate
          (start_first_timestamp_estimate float api.mempool.transactions api.mempool.ts_addr_map
            api.peers.info_map n)
          api

    module _ ⦃web : Web⦄ ⦃format : Format⦄ where
      -- The endpoints that show a page.
      unfoldable pub show_header : Api → Run (Api × Response)
      unfolding show_page
      show_header api = block_chain api.blockchain >>= λ blocks.
          from_block_vec blocks >>= λ pblocks. show_page (header_page pblocks) api

      unfoldable pub show_contents : Api → Run (Api × Response)
      unfolding show_page
      show_contents api = content_chain api.blockchain >>= λ contents.
          show_page (tx_page (from_content_vec contents)) api

      unfoldable pub show_state : Api → Run (Api × Response)
      unfolding show_page
      show_state api = tip_block_state api.blockchain >>= λ state.
          from_state state >>= λ pstate. show_page (state_page pstate) api

      unfoldable pub show_mempool : Api → Run (Api × Response)
      unfolding show_page
      show_mempool api =
          let ptrans = from_signedtx_vec (map (λ e. e.1) api.mempool.transactions) in
          show_page (mempool_page ptrans (length ptrans)) api

      unfoldable pub handle_endpoint :
          Endpoint → List (String × String) → Api → Run (Api × Response)
      unfolding get_param start_miner signal_miner signal_generator show_header show_contents
          show_state show_mempool run_estimator
      handle_endpoint miner_start pairs api = start_miner (get_param "lambda" pairs) api
      handle_endpoint miner_stop pairs api = signal_miner (stop crossbeam api.miner) api
      handle_endpoint miner_pause pairs api = signal_miner (pause crossbeam api.miner) api
      handle_endpoint blockchain_showheader pairs api = show_header api
      handle_endpoint blockchain_showtx pairs api = show_contents api
      handle_endpoint blockchain_showstate pairs api = show_state api
      handle_endpoint mempool_showtx pairs api = show_mempool api
      handle_endpoint txgenerator_stop pairs api =
          signal_generator (stop crossbeam api.transaction_generator) api
      handle_endpoint txgenerator_pause pairs api =
          signal_generator (pause crossbeam api.transaction_generator) api
      handle_endpoint estimator_ft pairs api = run_estimator (get_param "n" pairs) api
      handle_endpoint not_found pairs api = ok (api, json 404 false "endpoint not found")

      unfoldable pub handle_joined : Joined → Api → Run (Api × Response)
      unfolding handle_endpoint endpoint_of
      handle_joined (bad_url e) api = ok (api, json 200 false (String.◌++◌ "error parsing url: " e))
      handle_joined (url path pairs) api = handle_endpoint (endpoint_of path) pairs api

      -- The thread of one request.
      unfoldable pub handle_request : String → Api → Run (Api × Response)
      unfolding handle_joined
      handle_request req_url api = handle_joined (web.join req_url) api
