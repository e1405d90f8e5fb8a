-- ===== src/Tests/Web.antt =====
-- The theorems on the HTTP interface, the printable forms, and the supernode at small nodes.
use bitcoin_client_rust.Tests.Toy.{toy_ring, toy_bincode, key, early}
use bitcoin_client_rust.Tests.Crates.{
  toy_format, toy_format-IsFormat, toy_web, toy_web-IsWeb, toy_crossbeam, toy_crossbeam-IsCrossbeam,
  whole,
}
use bitcoin_client_rust.Tests.Nodes.{home}
use bitcoin_client_rust.Transaction.Equal.{SignedTransaction_eq}
use bitcoin_client_rust.Block.{Block, Content}
use bitcoin_client_rust.Blockchain
use bitcoin_client_rust.Blockchain.{block_chain}
use bitcoin_client_rust.Blockchain.Views.{content_chain}
use bitcoin_client_rust.Blockchain.Valid.{new-IsValid}
use bitcoin_client_rust.Mempool
use bitcoin_client_rust.Peers
use bitcoin_client_rust.Miner.{Miner, ControlSignal, OperatingState}
use bitcoin_client_rust.Printable.{from_signedtx_vec, from_block_vec, from_content_vec}
use bitcoin_client_rust.Printable.Shown.{AllLook, from_signedtx_vec-AllLook}
use bitcoin_client_rust.Printable.Heights.{below, block_chain-numbers}
use bitcoin_client_rust.Control.{miner_turn}
use bitcoin_client_rust.Api.{Api, endpoint_of, get_param, collect_params, handle_request, param_of}
use bitcoin_client_rust.Api.Asks.{Ends, IsReadable, ask, succeeds, to_miner}
use bitcoin_client_rust.Api.Answers.{handle_request-Ends}
use bitcoin_client_rust.Api.Obeyed.{handle_request-obeyed, stop_request-closes}
use bitcoin_client_rust.Supernode.{run_supernode, api_of}
use bitcoin_client_rust.Supernode.Reach.{starts, ReadsOnly, Reach-ReadsOnly}
use bitcoin_client_rust.Worker.Keeps.{IsNode}
use bitcoin_client_rust.Prelude.Text.{parse_u64, parse_digits}
use bitcoin_client_rust.Prelude.Map
use bitcoin_client_rust.Prelude.{
  suc, ◌≡◌, refl, true, ok, panic, List, [], ◌∷◌, map, Returns, arith,
}

abbrev pub quiet : Api toy_crossbeam whole
quiet = record {
  miner = (true, []);
  transaction_generator = (true, []);
  blockchain = Blockchain.new;
  mempool = Mempool.new;
  peers = Peers.new;
}

quiet-IsReadable : IsReadable toy_crossbeam whole quiet
unfolding Blockchain.new
quiet-IsReadable = record { chain = new-IsValid; small = omega arith }

abbrev waiting : Miner
waiting = record {
  operating_state = OperatingState.paused;
  blockchain = Blockchain.new;
  mempool = Mempool.new;
  nonce = 0;
  mined_num = 0;
  key_pair = key;
}

from_signedtx_vec-AllLook_example :
    AllLook (early ∷ []) (record early { transaction = record early.transaction { ts = 6 } } ∷ [])
unfolding from_signedtx_vec
from_signedtx_vec-AllLook_example =
    from_signedtx_vec-AllLook toy_format-IsFormat (early ∷ [])
      (record early { transaction = record early.transaction { ts = 6 } } ∷ []) refl

block_chain-numbers_example :
    (bs : List Block) × (cs : List Content) × (block_chain Blockchain.new ≡ ok bs)
    × (content_chain Blockchain.new ≡ ok cs)
    × Returns
        (from_block_vec bs)
        (λ ps. map (λ p. p.index) ps ≡ below (suc Blockchain.new.max_index))
    × (map (λ p. p.index) (from_content_vec cs) ≡ below (suc Blockchain.new.max_index))
block_chain-numbers_example =
    block_chain-numbers Blockchain.new new-IsValid quiet-IsReadable.small
      (λ h b there. ("1970-01-01", refl))

start_asked : ask (toy_web.join "/miner/start") ≡ to_miner (ControlSignal.start 7)
unfolding endpoint_of get_param collect_params param_of parse_u64 parse_digits Map.insert Map.get
start_asked = refl

stop_asked : ask (toy_web.join "/miner/stop") ≡ to_miner ControlSignal.exit
unfolding endpoint_of
stop_asked = refl

handle_request-Ends_example :
    Ends toy_crossbeam whole
      (ask (toy_web.join "/blockchain/showstate"))
      quiet
      (handle_request toy_crossbeam whole "/blockchain/showstate" quiet)
handle_request-Ends_example =
    handle_request-Ends toy_crossbeam whole "/blockchain/showstate" quiet toy_crossbeam-IsCrossbeam
      toy_web-IsWeb quiet-IsReadable

handle_request-obeyed_example :
    Returns (handle_request toy_crossbeam whole "/miner/start" quiet) λ r.
      (succeeds toy_crossbeam whole r.1 ≡ true)
      × ((left : toy_crossbeam.Channel) × (miner_turn toy_crossbeam 1 2 3 (waiting, r.0.miner)
            ≡ ok ((record waiting { operating_state = OperatingState.run 7 }, left), [])))
handle_request-obeyed_example =
    handle_request-obeyed toy_crossbeam whole 1 2 3 "/miner/start" (ControlSignal.start 7) waiting
      quiet toy_crossbeam-IsCrossbeam toy_web-IsWeb quiet-IsReadable refl refl refl start_asked

stop_request-closes_example : Returns (handle_request toy_crossbeam whole "/miner/stop" quiet) λ r.
    (left : toy_crossbeam.Channel) × (miner_turn toy_crossbeam 1 2 3 (waiting, r.0.miner)
      ≡ ok ((record waiting { operating_state = OperatingState.shut_down }, left), []))
    × (handle_request toy_crossbeam whole "/miner/start" (record r.0 { miner = left }) ≡ panic)
stop_request-closes_example =
    stop_request-closes toy_crossbeam whole 1 2 3 "/miner/stop" "/miner/start"
      (ControlSignal.start 7) waiting quiet toy_crossbeam-IsCrossbeam toy_web-IsWeb quiet-IsReadable
      tt refl refl stop_asked start_asked

Reach-ReadsOnly_example :
    (let n = run_supernode (λ i. key) 2 home in
      IsNode n.shared
      × ReadsOnly toy_crossbeam whole
          (ask (toy_web.join "/miner/stop"))
          (api_of toy_crossbeam whole n)
          (handle_request toy_crossbeam whole "/miner/stop" (api_of toy_crossbeam whole n)))
unfolding run_supernode
Reach-ReadsOnly_example =
    Reach-ReadsOnly toy_crossbeam whole (λ i. key) 2 home (run_supernode (λ i. key) 2 home)
      "/miner/stop" toy_crossbeam-IsCrossbeam toy_web-IsWeb starts quiet-IsReadable.small
