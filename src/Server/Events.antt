-- ===== src/Server/Events.antt =====
-- src/network/server.rs: the event loop. The poll, the listener and the channels are libraries: an event
-- carries what they deliver, and the poll does not fail.
use bitcoin_client_rust.Message.{Message, Handle, Effect}
use bitcoin_client_rust.Mempool.{SocketAddr}
use bitcoin_client_rust.Framing.{
  ReadContext, ReadResult, continue, message, read, new_reader, WriteContext, WriteResult, complete,
  chan_closed, Offer, WriteEnd, ended, blocked, broken, write, new_writer,
}
use bitcoin_client_rust.Server.{
  Server, Source, socket, queue, register, drop_peer, process_broadcast, source_of,
}
use bitcoin_client_rust.Prelude.Map
use bitcoin_client_rust.Prelude.Map.{Map, contains_key}
use bitcoin_client_rust.Prelude.{
  ℕ, ◌&&◌, Bool, true, false, Option, some, none, List, [], ◌∷◌, ◌++◌, map, if◌then◌else◌, nat_eq,
  Run, ok, panic, ◌>>=◌, unwrap,
}

-- `Context`: the table, and for each peer of it the two contexts that its slab entry holds. `workers` says whether a
-- worker still holds the receiver of `new_msg_chan`.
pub record Loop : Type 0 where
  pub table : Server
  pub readers : Map ℕ ReadContext
  pub writers : Map ℕ WriteContext
  pub workers : Bool

-- `ControlSignal`; a connection has the key of its slab entry, if the peer could be reached.
pub data ControlSignal : Type 0 where
  connect_new_peer : SocketAddr → Option ℕ → ControlSignal
  broadcast_message : Message → ControlSignal

-- What a call of `read` finds at the socket.
pub data Arrival : Type 0 where
  ready : List ℕ → Arrival
  would_block failed : Arrival

-- `event.readiness()`, with what the socket then does.
pub record Readiness : Type 0 where
  pub readable : Bool
  pub writable : Bool
  pub arrivals : List Arrival
  pub offers : List Offer

pub data Event : Type 0 where
  control : ControlSignal → Event  -- one signal of the channel
  incoming : ℕ → SocketAddr → Event  -- one connection of the listener, and its key
  token : ℕ → Readiness → Event

-- What the loop hands on: messages for peers, payloads for the workers, bytes for a socket.
pub data Output : Type 0 where
  sends : Effect → Output
  yields : List ℕ → Handle → Output
  puts : ℕ → List ℕ → Output

-- A read, and what comes after it, unless the connection ended.
unfoldable pub read_on :
    ReadContext × ReadResult
    → (ReadContext × List (List ℕ)) × Bool
    → (ReadContext × List (List ℕ)) × Bool
read_on (next, continue) rest = rest
read_on (next, ReadResult.eof) rest = ((next, []), false)
read_on (next, message m) ((last, payloads), stays) = ((last, m ∷ payloads), stays)

-- The loop of `process_readable`: the payloads, and whether the peer stays.
unfoldable pub read_all : List Arrival → ReadContext → (ReadContext × List (List ℕ)) × Bool
unfolding read_on
read_all [] ctx = ((ctx, []), true)
read_all (would_block ∷ arrivals) ctx = ((ctx, []), true)
read_all (failed ∷ arrivals) ctx = ((ctx, []), false)
read_all (ready bytes ∷ arrivals) ctx =
    let round = read bytes ctx in read_on round (read_all arrivals round.0)

-- A peer that is gone leaves the list and the slab.
unfoldable pub forget : ℕ → Loop → Run Loop
forget peer_id loop = drop_peer peer_id loop.table >>= λ table. ok (record {
  table = table;
  readers = Map.remove peer_id loop.readers;
  writers = Map.remove peer_id loop.writers;
  workers = loop.workers;
})

-- `new_msg_chan.send((m, handle)).unwrap()` for each message.
unfoldable pub send_all : Bool → Handle → List (List ℕ) → Run (List Output)
send_all workers handle [] = ok []
send_all true handle (m ∷ payloads) = ok (yields m handle ∷ map (λ n. yields n handle) payloads)
send_all false handle (m ∷ payloads) = panic

unfoldable pub process_readable : ℕ → List Arrival → Loop → Run (Loop × List Output)
unfolding read_all send_all forget
process_readable peer_id arrivals loop = unwrap (Map.get peer_id loop.table.peers) >>= λ handle.
    unwrap (Map.get peer_id loop.readers) >>= λ reader.
    let ((next, payloads), stays) = read_all arrivals reader in
    send_all loop.workers handle payloads >>= λ outputs.
    let gone = forget peer_id loop >>= λ after. ok (after, outputs) in
    if stays
    then ok (record loop { readers = Map.insert peer_id next loop.readers }, outputs)
    else gone

-- Whether the peer stays after `write`; a closed queue only ends the interest in it.
unfoldable pub stays_after : WriteEnd → Bool
stays_after blocked = true
stays_after broken = false
stays_after (ended complete) = true
stays_after (ended chan_closed) = true
stays_after (ended WriteResult.eof) = false

unfoldable pub process_writable : ℕ → ℕ → List Offer → Loop → Run (Loop × List Output)
unfolding stays_after forget
process_writable fuel peer_id offers loop = unwrap (Map.get peer_id loop.writers) >>= λ writer.
    write fuel offers writer >>= λ r.
    let gone = forget peer_id loop >>= λ after. ok (after, puts peer_id r.0.1 ∷ []) in
    if stays_after r.1
    then ok
        (record loop { writers = Map.insert peer_id r.0.0 loop.writers }, puts peer_id r.0.1 ∷ [])
    else gone

-- The contexts of `peer::new` enter the slab with the handle, where `register` has not refused it.
unfoldable pub with_contexts : Server × Option Handle → ℕ → Loop → Loop
with_contexts (table, none) key loop = loop
with_contexts (table, some handle) key loop = record {
  table = table;
  readers = Map.insert key new_reader loop.readers;
  writers = Map.insert key (new_writer [] false) loop.writers;
  workers = loop.workers;
}

-- `accept` and `connect`, once there is a stream.
unfoldable pub add_peer : ℕ → SocketAddr → Loop → Loop
unfolding with_contexts
add_peer key addr loop = with_contexts (register key addr loop.table) key loop

-- `process_control`; `spread` is the spreader's.
unfoldable pub process_control :
    (Server → Message → Run (List Effect)) → ControlSignal → Loop → Run (Loop × List Output)
unfolding add_peer
process_control spread (connect_new_peer addr none) loop = ok (loop, [])
process_control spread (connect_new_peer addr (some key)) loop = ok (add_peer key addr loop, [])
process_control spread (broadcast_message msg) loop =
    process_broadcast spread msg loop.table >>= λ effects. ok (loop, map sends effects)

-- `register_write_interest`: only the index of the slab matters.
unfoldable pub register_write_interest : ℕ → Loop → Run (Unit {0})
register_write_interest peer_id loop = unwrap (Map.get peer_id loop.table.peers) >>= λ peer. ok tt

unfoldable pub read_if : Bool → ℕ → List Arrival → Loop → Run (Loop × List Output)
read_if readable peer_id arrivals loop =
    if readable && contains_key peer_id loop.table.peers
    then process_readable peer_id arrivals loop
    else ok (loop, [])

unfoldable pub write_if : ℕ → Bool → ℕ → List Offer → Loop → Run (Loop × List Output)
write_if fuel writable peer_id offers loop =
    if writable && contains_key peer_id loop.table.peers
    then process_writable fuel peer_id offers loop
    else ok (loop, [])

-- A peer's event, by its token: its socket is ready, or its queue has something to write. A peer that is not
-- there before it is read is not there to be written either, so the two `continue` end nothing more.
unfoldable pub peer_event : ℕ → Source → Readiness → Loop → Run (Loop × List Output)
unfolding read_if write_if register_write_interest process_readable process_writable
peer_event fuel (socket peer_id) r loop =
    read_if r.readable peer_id r.arrivals loop >>= λ after_read.
    write_if fuel r.writable peer_id r.offers after_read.0 >>= λ after_write.
    ok (after_write.0, after_read.1 ++ after_write.1)
peer_event fuel (queue peer_id) r loop =
    register_write_interest peer_id loop >>= λ interest. ok (loop, [])

-- One turn of `listen`.
unfoldable pub handle_event :
    (Server → Message → Run (List Effect)) → ℕ → Event → Loop → Run (Loop × List Output)
unfolding process_control add_peer peer_event
handle_event spread fuel (control signal) loop = process_control spread signal loop
handle_event spread fuel (incoming key addr) loop = ok (add_peer key addr loop, [])
handle_event spread fuel (token id readiness) loop = peer_event fuel (source_of id) readiness loop

-- The events of one `poll`, in their order.
unfoldable pub handle_events :
    (Server → Message → Run (List Effect)) → ℕ → List Event → Loop → Run (Loop × List Output)
unfolding handle_event
handle_events spread fuel [] loop = ok (loop, [])
handle_events spread fuel (event ∷ events) loop = handle_event spread fuel event loop >>= λ first.
    handle_events spread fuel events first.0 >>= λ others. ok (others.0, first.1 ++ others.1)
