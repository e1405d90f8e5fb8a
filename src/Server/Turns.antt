-- ===== src/Server/Turns.antt =====
-- A turn of the event loop keeps the table, the readers and the writers together.
use bitcoin_client_rust.Server.Sockets.{
  IsLoop, process_readable-IsLoop, process_writable-IsLoop, add_peer-IsLoop,
}
use bitcoin_client_rust.Message.{
  Message, Handle, Effect, new_transaction_hashes, new_dandelion_transactions, ping, pong,
  new_block_hashes, get_blocks, blocks, get_transactions, transactions, new_peers, introduce,
}
use bitcoin_client_rust.Server.Peerlist.{write_all-Returns}
use bitcoin_client_rust.Framing.{Offer}
use bitcoin_client_rust.Server.{
  Server, write_all, Source, socket, queue, process_broadcast, source_of,
}
use bitcoin_client_rust.Server.Positions.{IsServer}
use bitcoin_client_rust.Server.Events.{
  Loop, connect_new_peer, broadcast_message, Arrival, Readiness, Event, control, incoming, token,
  sends, add_peer, process_control, register_write_interest, read_if, write_if, peer_event,
  handle_event,
}
use bitcoin_client_rust.Prelude.Map
use bitcoin_client_rust.Prelude.Map.{
  Map, contains_key, get-insert, get-insert_cases, get-insert_ne, get-remove_ne,
}
use bitcoin_client_rust.Prelude.{
  ℕ, ◌+◌, ◌*◌, ◌≤◌, ◌≡◌, refl, inl, inr, Bool, true, false, Option-cases, some, none, List, [],
  ◌++◌, map, length, nat_eq, Run, Returns,
}

-- What an event must bring: a free key for a new peer, rounds for the loop of `write`, for a queue a peer
-- that is still there, and for a broadcast no more peers than a diffusion can schedule.
abbrev pub HasPeer : Source → Loop → Type 0
HasPeer (socket peer_id) loop = Unit
HasPeer (queue peer_id) loop = (h : Handle) × (Map.get peer_id loop.table.peers ≡ some h)

abbrev pub Fits : ℕ → Event → Loop → Type 0
Fits fuel (control (broadcast_message msg)) loop = length loop.table.peer_list ≤ 77
Fits fuel (control (connect_new_peer addr none)) loop = Unit
Fits fuel (control (connect_new_peer addr (some key))) loop = Map.get key loop.table.peers ≡ none
Fits fuel (incoming key addr) loop = Map.get key loop.table.peers ≡ none
Fits fuel (token id r) loop = (3 * length r.offers + 3 ≤ fuel) × HasPeer (source_of id) loop

read_if-IsLoop :
    (readable : Bool) (peer_id : ℕ) (arrivals : List Arrival) (loop : Loop)
    → IsLoop loop
    → Returns (read_if readable peer_id arrivals loop) λ r. IsLoop r.0
unfolding read_if
read_if-IsLoop false peer_id arrivals loop valid = ((loop, []), refl, valid)
read_if-IsLoop true peer_id arrivals loop valid =
    elim (Option-cases (Map.get peer_id loop.table.peers)) [
      | inl away ↦ ((loop, []), rw away refl, valid)
      | inr (h, there) ↦ rw there (process_readable-IsLoop peer_id h arrivals loop valid there)
    ]

write_if-IsLoop :
    (fuel : ℕ) (writable : Bool) (peer_id : ℕ) (offers : List Offer) (loop : Loop)
    → IsLoop loop
    → 3 * length offers + 3 ≤ fuel
    → Returns (write_if fuel writable peer_id offers loop) λ r. IsLoop r.0
unfolding write_if
write_if-IsLoop fuel false peer_id offers loop valid enough = ((loop, []), refl, valid)
write_if-IsLoop fuel true peer_id offers loop valid enough =
    elim (Option-cases (Map.get peer_id loop.table.peers)) [
      | inl away ↦ ((loop, []), rw away refl, valid)
      | inr (h, there) ↦
          rw there (process_writable-IsLoop fuel peer_id h offers loop valid enough there)
    ]

peer_event-IsLoop :
    (fuel : ℕ) (source : Source) (r : Readiness) (loop : Loop)
    → IsLoop loop
    → 3 * length r.offers + 3 ≤ fuel
    → HasPeer source loop
    → Returns (peer_event fuel source r loop) λ after. IsLoop after.0
unfolding peer_event register_write_interest
peer_event-IsLoop fuel (queue peer_id) r loop valid enough (h, there) =
    ((loop, []), rw there refl, valid)
peer_event-IsLoop fuel (socket peer_id) r loop valid enough present =
    let (first, read, kept) = read_if-IsLoop r.readable peer_id r.arrivals loop valid in
    let (second, wrote, sound) =
      write_if-IsLoop fuel r.writable peer_id r.offers first.0 kept enough in
    ((second.0, first.1 ++ second.1), rw (read, wrote) refl, sound)

written :
    (msg : Message) (table : Server)
    → IsServer table
    → Returns (write_all table.peer_list table.peers msg) λ effects. Unit {0}
written msg table valid =
    let (effects, run, _) = write_all-Returns table.peer_list table.peers msg valid.listed in
    (effects, run, tt)

-- The spreader of the server schedules a message on a sound table of at most 77 peers without a panic.
module _ (spread : Server → Message → Run (List Effect))
    (spread-Returns : (table : Server) (msg : Message)
      → IsServer table
      → length table.peer_list ≤ 77
      → Returns (spread table msg) λ effects. Unit {0}) where
  process_broadcast-Returns :
      (msg : Message) (table : Server)
      → IsServer table
      → length table.peer_list ≤ 77
      → Returns (process_broadcast spread msg table) λ effects. Unit {0}
  unfolding process_broadcast
  process_broadcast-Returns (new_transaction_hashes x) table valid few =
      spread-Returns table (new_transaction_hashes x) valid few
  process_broadcast-Returns (new_dandelion_transactions x) table valid few =
      spread-Returns table (new_dandelion_transactions x) valid few
  process_broadcast-Returns (ping x) table valid few = written (ping x) table valid
  process_broadcast-Returns (pong x) table valid few = written (pong x) table valid
  process_broadcast-Returns (new_block_hashes x) table valid few =
      written (new_block_hashes x) table valid
  process_broadcast-Returns (get_blocks x) table valid few = written (get_blocks x) table valid
  process_broadcast-Returns (blocks x) table valid few = written (blocks x) table valid
  process_broadcast-Returns (get_transactions x) table valid few =
      written (get_transactions x) table valid
  process_broadcast-Returns (transactions x) table valid few = written (transactions x) table valid
  process_broadcast-Returns (new_peers x) table valid few = written (new_peers x) table valid
  process_broadcast-Returns (introduce x) table valid few = written (introduce x) table valid

  -- If the spreader does not panic on a sound table of at most 77 peers, a turn of the loop for an event that brings what it must
  -- ends without a panic, and keeps the table, the readers and the writers together and sound.
  pub handle_event-IsLoop :
      (fuel : ℕ) (event : Event) (loop : Loop)
      → IsLoop loop
      → Fits fuel event loop
      → Returns (handle_event spread fuel event loop) λ after. IsLoop after.0
  unfolding handle_event process_control
  handle_event-IsLoop fuel (control (broadcast_message msg)) loop valid fits =
      let (effects, run, _) = process_broadcast-Returns msg loop.table valid.table fits in
      ((loop, map sends effects), rw run refl, valid)
  handle_event-IsLoop fuel (control (connect_new_peer addr none)) loop valid fits =
      ((loop, []), refl, valid)
  handle_event-IsLoop fuel (control (connect_new_peer addr (some key))) loop valid fits =
      ((add_peer key addr loop, []), refl, add_peer-IsLoop key addr loop valid fits)
  handle_event-IsLoop fuel (incoming key addr) loop valid fits =
      ((add_peer key addr loop, []), refl, add_peer-IsLoop key addr loop valid fits)
  handle_event-IsLoop fuel (token id r) loop valid (enough, present) =
      peer_event-IsLoop fuel (source_of id) r loop valid enough present
