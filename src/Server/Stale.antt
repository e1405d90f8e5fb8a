-- ===== src/Server/Stale.antt =====
-- An event of a peer that is gone.
use bitcoin_client_rust.Message.{Message, Handle, Effect}
use bitcoin_client_rust.Framing.{ReadContext, fill, read, ReadResult}
use bitcoin_client_rust.Framing.Codec.{take-nil}
use bitcoin_client_rust.Server.{Server, socket, queue, socket_token, writer_token}
use bitcoin_client_rust.Server.Peerlist.{source_of-token}
use bitcoin_client_rust.Server.Events.{
  send_all, Loop, Arrival, ready, Readiness, Event, token, read_on, read_all, process_readable,
  register_write_interest, read_if, write_if, peer_event, handle_event, handle_events, forget,
}
use bitcoin_client_rust.Server.Sockets.{IsLoop, forget-IsLoop}
use bitcoin_client_rust.Prelude.Map
use bitcoin_client_rust.Prelude.Map.{get-remove}
use bitcoin_client_rust.Prelude.{
  ℕ, ◌-◌, ◌≡◌, ◌∙◌, ap, refl, true, false, some, none, ok, List, [], ◌∷◌, Run, panic, Returns,
  nat_eq,
}

-- The events of a peer that closed its end, with something still in its queue.
abbrev pub closing : ℕ → List Event
closing peer_id =
    token (socket_token peer_id)
      (record { readable = true; writable = false; arrivals = ready [] ∷ []; offers = [] })
    ∷ token (writer_token peer_id)
        (record { readable = true; writable = false; arrivals = []; offers = [] })
    ∷ []

nothing_read : (reader : ReadContext) → read [] reader ≡ (reader, ReadResult.eof)
unfolding read fill
nothing_read reader = rw (take-nil (reader.msg_length - reader.read_length)) refl

gone_queue :
    (fuel peer_id : ℕ) (r : Readiness) (loop : Loop)
    → Map.get peer_id loop.table.peers ≡ none
    → peer_event fuel (queue peer_id) r loop ≡ panic
unfolding peer_event register_write_interest
gone_queue fuel peer_id r loop away = rw away refl

nothing_all : (reader : ReadContext) → read_all (ready [] ∷ []) reader ≡ ((reader, []), false)
unfolding read_all read_on
nothing_all reader = ap (λ r. read_on r (read_all [] r.0)) (nothing_read reader)

closed_read :
    (peer_id : ℕ) (h : Handle) (reader : ReadContext) (loop after : Loop)
    → Map.get peer_id loop.table.peers ≡ some h
    → Map.get peer_id loop.readers ≡ some reader
    → forget peer_id loop ≡ ok after
    → process_readable peer_id (ready [] ∷ []) loop ≡ ok (after, [])
unfolding process_readable send_all
closed_read peer_id h reader loop after there at run = rw (there, at, nothing_all reader, run) refl

read_if-there :
    (peer_id : ℕ) (h : Handle) (arrivals : List Arrival) (loop : Loop)
    → Map.get peer_id loop.table.peers ≡ some h
    → read_if true peer_id arrivals loop ≡ process_readable peer_id arrivals loop
unfolding read_if
read_if-there peer_id h arrivals loop there = rw (there, read_if) refl

-- A peer that closes the connection is forgotten.
closed_socket :
    (fuel peer_id : ℕ) (h : Handle) (loop : Loop)
    → IsLoop loop
    → Map.get peer_id loop.table.peers ≡ some h
    → Returns
        (peer_event fuel
          (socket peer_id)
          (record { readable = true; writable = false; arrivals = ready [] ∷ []; offers = [] })
          loop)
        λ r. Map.get peer_id r.0.table.peers ≡ none
unfolding peer_event write_if
closed_socket fuel peer_id h loop valid there =
    let (reader, at) = valid.reader peer_id h there in
    let (after, run, (kept, away)) = forget-IsLoop peer_id h loop valid there in
    (
      (after, []),
      rw
          (read_if-there peer_id h (ready [] ∷ []) loop there
            ∙ closed_read peer_id h reader loop after there at run)
          refl,
      away,
    )

-- If a peer of a sound loop closes its end while its queue holds a message, and `poll` returns both events, that of
-- the socket first, then the loop panics.
pub closing-panics :
    (spread : Server → Message → Run (List Effect)) (fuel peer_id : ℕ) (h : Handle) (loop : Loop)
    → IsLoop loop
    → Map.get peer_id loop.table.peers ≡ some h
    → handle_events spread fuel (closing peer_id) loop ≡ panic
unfolding handle_events handle_event
closing-panics spread fuel peer_id h loop valid there =
    let (r, first, away) = closed_socket fuel peer_id h loop valid there in
    rw
      (
        (source_of-token peer_id).0,
        (source_of-token peer_id).1,
        first,
        gone_queue fuel peer_id _ r.0 away,
      )
      refl
