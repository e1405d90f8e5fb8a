-- ===== src/Tests/Connections.antt =====
-- The theorems on connections and the event loop, at a connection of one message and a loop of one peer.
use bitcoin_client_rust.Hash.{from_be_bytes, to_be_bytes}
use bitcoin_client_rust.Message.{Handle, Message, Effect}
use bitcoin_client_rust.Framing.{
  WriteContext, takes, write, write_round, read, fill, put_at, process, grow, new_reader,
  new_writer,
}
use bitcoin_client_rust.Framing.Writing.{IsWriter, owed, new_writer-IsWriter}
use bitcoin_client_rust.Framing.Ending.{write-Returns}
use bitcoin_client_rust.Framing.Pipe.{
  Pipe, start, send, put, get, Reach, starts, sends, puts, gets, Reach-prefix, Reach-delivers,
}
use bitcoin_client_rust.Server.{Server, register}
use bitcoin_client_rust.Server.Events.{Loop, with_contexts, add_peer, handle_event, handle_events}
use bitcoin_client_rust.Server.{Server}
use bitcoin_client_rust.Server.Relay.{relay, handle_event-relays}
use bitcoin_client_rust.Spread.Dandelion.{Chance}
use bitcoin_client_rust.Spread.{diffusion}
use bitcoin_client_rust.Spread.Overflow.{diffusion-panics}
use bitcoin_client_rust.Spread.Spreaders.{dandelion_plus, new_spreading, get_spreader}
use bitcoin_client_rust.Spread.Sound.{NoLoop, Drawn}
use bitcoin_client_rust.Spread.Relays.{Spreads}
use bitcoin_client_rust.Spread.Spreads.{get_spreader-Spreads}
use bitcoin_client_rust.Mempool
use bitcoin_client_rust.Message.{new_transaction_hashes}
use bitcoin_client_rust.Tests.Toy.{toy_ring, toy_bincode, hash_at}
use bitcoin_client_rust.Server.Events.{Event, control, broadcast_message}
use bitcoin_client_rust.Server.Sockets.{IsLoop, add_peer-IsLoop}
use bitcoin_client_rust.Server.Stale.{closing, closing-panics}
use bitcoin_client_rust.Tests.Nodes.{home, no_server, no_server-IsServer}
use bitcoin_client_rust.Server.Positions.{Once}
use bitcoin_client_rust.Spread.Dandelion.{set_routing_table}
use bitcoin_client_rust.Spread.Balance.{Balanced, set_routing_table-Balanced}
use bitcoin_client_rust.Prelude.Map
use bitcoin_client_rust.Prelude.Map.{Map}
use bitcoin_client_rust.Prelude.{
  true, leb, ◌^◌, zero, suc, In, ◌⊎◌, Run, ok, panic, nat_eq, ◌≡◌, refl, false, some, none, List, ℕ,
  [], ◌∷◌, ◌++◌, arith, Returns,
}

-- A message of one byte leaves the writer.
abbrev gone : Pipe
gone = put 1 (put 0 (put 4 (put 0 (send (9 ∷ []) (start false)))))

gone-Reach : Reach false gone
gone-Reach = puts 1 _ (
    puts 0 _ (
      puts 4 _
        (puts 0 _ (sends (9 ∷ []) _ starts (record { low = omega arith; high = omega arith })))))

abbrev arrived : Pipe
arrived = get (9 ∷ []) [] (get (0 ∷ 0 ∷ 0 ∷ 1 ∷ []) (9 ∷ []) gone)

arrived-Reach : Reach false arrived
unfolding write_round read fill put_at process grow new_reader new_writer from_be_bytes to_be_bytes
arrived-Reach =
    gets (9 ∷ []) [] _ (gets (0 ∷ 0 ∷ 0 ∷ 1 ∷ []) (9 ∷ []) _ gone-Reach refl (omega arith)) refl
      (omega arith)

Reach-prefix_example : (pending : List (List ℕ)) × (arrived.sent ≡ arrived.received ++ pending)
Reach-prefix_example = Reach-prefix false arrived arrived-Reach

Reach-delivers_example : arrived.received ≡ arrived.sent
unfolding write_round read fill put_at process grow new_reader new_writer from_be_bytes to_be_bytes
Reach-delivers_example = Reach-delivers false 0 arrived arrived-Reach refl refl

abbrev busy : WriteContext
busy = new_writer ((7 ∷ 8 ∷ []) ∷ []) false

write-Returns_example :
    Returns
      (write 9 (takes 3 ∷ takes 5 ∷ []) busy)
      λ r. IsWriter r.0.0 × (owed busy ≡ r.0.1 ++ owed r.0.0)
write-Returns_example =
    write-Returns 9 (takes 3 ∷ takes 5 ∷ []) busy (new_writer-IsWriter ((7 ∷ 8 ∷ []) ∷ []) false)
      (omega arith)

abbrev no_peers : Loop
no_peers = record { table = no_server; readers = []; writers = []; workers = true }

no_peers-IsLoop : IsLoop no_peers
unfolding Map.get
no_peers-IsLoop = record {
  table = no_server-IsServer;
  workers = refl;
  reader = λ k h e. cc e;
  writer = λ k h e. cc e;
}

-- A loop with one peer, and a spreader that schedules nothing.
abbrev one_peer : Loop
one_peer = add_peer 0 home no_peers

one_peer-IsLoop : IsLoop one_peer
unfolding Map.get
one_peer-IsLoop = add_peer-IsLoop 0 home no_peers no_peers-IsLoop refl

one_peer-there : Map.get 0 one_peer.table.peers ≡ some (record { addr = home; key = 0 })
unfolding add_peer with_contexts register Map.get Map.insert
one_peer-there = refl

abbrev no_spread : Server → Message → Run (List Effect)
no_spread table msg = ok []

abbrev first_drawn : Server → Chance
first_drawn table = record {
  clock = λ i. i;
  takes = λ delay. leb delay (10 ^ 19);
  shuffled = table.peer_list;
  phase = 0;
  choice = 0;
  outbound = 0 ∷ 1 ∷ [];
  fail_safe_delay = 1;
}

first_drawn-Drawn : (table : Server) → Drawn (first_drawn table) table.peer_list
first_drawn-Drawn table = record {
  shuffled = λ k m. m;
  whole = refl;
  takes = λ delay small. ground arith;
  fail_safe = omega arith;
  choice = λ someone. someone;
  outbound = λ many. (0, 1, refl, λ e. omega (arith, e));
}

no_routes : NoLoop (new_spreading Mempool.new).routing_table
unfolding new_spreading Map.get
no_routes k out e = cc e

abbrev relayed : Event
relayed = control (broadcast_message (new_transaction_hashes (hash_at 4 ∷ [])))

handle_event-relays_example :
    Returns
      (handle_event
        (relay dandelion_plus first_drawn none (new_spreading Mempool.new))
        6
        relayed
        one_peer)
      λ after. IsLoop after.0
unfolding add_peer register
handle_event-relays_example =
    handle_event-relays dandelion_plus first_drawn none (new_spreading Mempool.new) 6 relayed
      one_peer first_drawn-Drawn no_routes one_peer-IsLoop (omega arith)

get_spreader-Spreads_example : Spreads (
    get_spreader dandelion_plus
      (first_drawn one_peer.table)
      one_peer.table.peers
      one_peer.table.peer_list
      (new_transaction_hashes (hash_at 4 ∷ []))
      none
      (new_spreading Mempool.new))
unfolding add_peer register
get_spreader-Spreads_example =
    get_spreader-Spreads dandelion_plus (first_drawn one_peer.table) one_peer.table
      (new_transaction_hashes (hash_at 4 ∷ [])) none (new_spreading Mempool.new)
      one_peer-IsLoop.table (omega arith) (first_drawn-Drawn one_peer.table) no_routes

closing-panics_example : handle_events no_spread 3 (closing 0) one_peer ≡ panic
closing-panics_example =
    closing-panics no_spread 3 0 (record { addr = home; key = 0 }) one_peer one_peer-IsLoop
      one_peer-there

abbrev keys : List ℕ
keys = 0 ∷ 1 ∷ 2 ∷ 3 ∷ 4 ∷ []

keys-Once : Once keys
keys-Once =
    (λ m. omega arith, (λ m. omega arith, (λ m. omega arith, (λ m. omega arith, (λ m. m, tt)))))

set_routing_table-Balanced_example : Returns (set_routing_table (1 ∷ 3 ∷ []) keys []) λ table.
    Balanced 1 3 table
    × (Map.get 1 table ≡ some 3)
    × (Map.get 3 table ≡ some 1)
    × ((k : ℕ) → In k keys → (Map.get k table ≡ some 1) ⊎ (Map.get k table ≡ some 3))
set_routing_table-Balanced_example =
    set_routing_table-Balanced 1 3 (λ p. omega (arith, p)) keys keys-Once

-- The numbers below `n`.
abbrev keys_below : ℕ → List ℕ
keys_below zero = []
keys_below (suc n) = n ∷ keys_below n

abbrev peers_below : ℕ → Map ℕ Handle
peers_below zero = []
peers_below (suc n) = (n, record { addr = home; key = n }) ∷ peers_below n

diffusion-panics_example :
    diffusion
      (λ delay. leb delay (10 ^ 19))
      (λ i. i)
      (peers_below 80)
      (keys_below 80)
      (new_transaction_hashes (hash_at 4 ∷ []))
      []
    ≡ panic
diffusion-panics_example =
    diffusion-panics (λ delay. leb delay (10 ^ 19)) (λ i. i) (peers_below 80) (keys_below 80)
      (new_transaction_hashes (hash_at 4 ∷ [])) [] (λ delay long small. ground arith) (omega arith)
