-- ===== src/Server/Relay.antt =====
-- The event loop of src/network/server.rs with the spreaders of src/spread.rs.
use bitcoin_client_rust.Ring.{Ring}
use bitcoin_client_rust.Transaction.{Bincode}
use bitcoin_client_rust.Message.{Message, Effect}
use bitcoin_client_rust.Server.{Server}
use bitcoin_client_rust.Server.Events.{Loop, Event, handle_event}
use bitcoin_client_rust.Server.Positions.{IsServer}
use bitcoin_client_rust.Server.Sockets.{IsLoop}
use bitcoin_client_rust.Server.Turns.{Fits, handle_event-IsLoop}
use bitcoin_client_rust.Spread.{Spreading}
use bitcoin_client_rust.Spread.Dandelion.{Chance}
use bitcoin_client_rust.Spread.Spreaders.{Spreader, get_spreader}
use bitcoin_client_rust.Spread.Sound.{NoLoop, Drawn}
use bitcoin_client_rust.Spread.Spreads.{get_spreader-Spreads}
use bitcoin_client_rust.Prelude.{ℕ, refl, Option, List, Run, ok, ◌>>=◌, Returns, ◌≤◌, length}

module _ ⦃ring : Ring⦄ ⦃bincode : Bincode⦄ where
  -- `self.spreader.spread(…)`, with what it draws for a table.
  unfoldable pub relay :
      Spreader → (Server → Chance) → Option ℕ → Spreading → Server → Message → Run (List Effect)
  unfolding get_spreader
  relay kind chance src_peer_key s table msg =
      get_spreader kind (chance table) table.peers table.peer_list msg src_peer_key s >>= λ r.
      ok r.1

  relay-Returns :
      (kind : Spreader) (chance : Server → Chance) (src_peer_key : Option ℕ) (s : Spreading)
      → ((table : Server) → Drawn (chance table) table.peer_list)
      → NoLoop s.routing_table
      → (table : Server) (msg : Message) → IsServer table
      → length table.peer_list ≤ 77
      → Returns (relay kind chance src_peer_key s table msg) λ effects. Unit {0}
  unfolding relay
  relay-Returns kind chance src_peer_key s drawn free table msg sound few =
      let (r, run, _) =
        get_spreader-Spreads kind (chance table) table msg src_peer_key s sound few (drawn table)
          free in
      (r.1, rw run refl, tt)

  -- Whatever the kind of the spreader, with numbers drawn from the table, a timer that takes each delay up to 253,000
  -- years, a worker that still receives, and no key routed to itself, a turn of the event loop for an event that
  -- brings what it must (a free key for a new peer, rounds for the loop of `write`, for a queue a peer that is still
  -- there, and for a broadcast at most 77 peers) ends without a panic, and keeps the table, the readers and the
  -- writers together and sound.
  pub handle_event-relays :
      (kind : Spreader) (chance : Server → Chance) (src_peer_key : Option ℕ) (s : Spreading)
      (fuel : ℕ) (event : Event) (loop : Loop)
      → ((table : Server) → Drawn (chance table) table.peer_list)
      → NoLoop s.routing_table
      → IsLoop loop
      → Fits fuel event loop
      → Returns
          (handle_event (relay kind chance src_peer_key s) fuel event loop)
          λ after. IsLoop after.0
  handle_event-relays kind chance src_peer_key s fuel event loop drawn free =
      handle_event-IsLoop (relay kind chance src_peer_key s)
        (relay-Returns kind chance src_peer_key s drawn free) fuel event loop
