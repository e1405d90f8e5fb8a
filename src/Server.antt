-- ===== src/Server.antt =====
-- src/network/server.rs: the table of peers of the event loop, and what a control signal sends. The
-- sockets, the poll and the slab are libraries: a peer is the handle that the table keeps for its key.
use bitcoin_client_rust.Message.{
  Message, Handle, new_transaction_hashes, new_dandelion_transactions, ping, pong, new_block_hashes,
  get_blocks, blocks, get_transactions, transactions, new_peers, introduce, Effect, write,
}
use bitcoin_client_rust.Prelude.Map
use bitcoin_client_rust.Prelude.Map.{Map, contains_key}
use bitcoin_client_rust.Mempool.{SocketAddr}
use bitcoin_client_rust.Prelude.{
  ℕ, zero, suc, ◌+◌, ◌-◌, ◌*◌, ◌/◌, ◌%◌, Bool, true, false, Option, some, none, List, [], ◌∷◌, ◌++◌,
  length, leb, if◌then◌else◌, ◌==◌, nat_eq, Run, ok, panic, ◌>>=◌, unwrap,
}
pub mod Peerlist
pub mod Positions
pub mod Removal
pub mod Events
pub mod Sockets
pub mod Turns
pub mod Relay
pub mod Stale

abbrev pub max_incoming_client : ℕ
max_incoming_client = 256

-- `peers` is the slab: `vacant_key` of an entry is chosen by it, and is an argument.
pub record Server : Type 0 where
  pub peers : Map ℕ Handle
  pub peer_list : List ℕ

-- `register`, once the stream and the writer queue are registered with the poll.
unfoldable pub register : ℕ → SocketAddr → Server → Server × Option Handle
register key addr server =
    let handle : Handle = record { addr = addr; key = key } in
    if leb max_incoming_client key then (server, none) else (
      record {
        peers = Map.insert key handle server.peers;
        peer_list = server.peer_list ++ key ∷ [];
      },
      some handle,
    )

-- `peer_list.iter().position(|&x| x == peer_id)`
unfoldable pub position : ℕ → List ℕ → Option ℕ
position peer_id [] = none
position peer_id (x ∷ xs) =
    let rest = position peer_id xs in
    if x == peer_id then some 0 else elim rest [ some i ↦ some (suc i) | none ↦ none ]

-- The last item, with what stands before it.
unfoldable pub split_last : ℕ → List ℕ → List ℕ × ℕ
split_last x [] = ([], x)
split_last x (y ∷ ys) = let (front, last) = split_last y ys in (x ∷ front, last)

unfoldable pub set_at : ℕ → ℕ → List ℕ → List ℕ
set_at i v [] = []
set_at zero v (x ∷ xs) = v ∷ xs
set_at (suc i) v (x ∷ xs) = x ∷ set_at i v xs

-- `Vec::swap_remove`, at an index in range: the last item takes the place.
unfoldable pub swap_remove : ℕ → List ℕ → List ℕ
unfolding split_last set_at
swap_remove index [] = []
swap_remove index (x ∷ xs) = let (front, last) = split_last x xs in set_at index last front

-- What `process_readable` and `process_writable` do with a peer that is gone.
unfoldable pub drop_peer : ℕ → Server → Run Server
unfolding position swap_remove
drop_peer peer_id server = unwrap (Map.get peer_id server.peers) >>= λ gone.
    unwrap (position peer_id server.peer_list) >>= λ index. ok (record {
      peers = Map.remove peer_id server.peers;
      peer_list = swap_remove index server.peer_list;
    })

-- `for peer_id in &self.peer_list { self.peers[*peer_id].handle.write(msg.clone()) }`
unfoldable pub write_all : List ℕ → Map ℕ Handle → Message → Run (List Effect)
write_all [] peers msg = ok []
write_all (peer_id ∷ peer_list) peers msg = unwrap (Map.get peer_id peers) >>= λ handle.
    write_all peer_list peers msg >>= λ effects. ok (write handle msg ∷ effects)

-- The branch `BroadcastMessage` of `process_control`; `spread` is the spreader's.
unfoldable pub process_broadcast :
    (Server → Message → Run (List Effect)) → Message → Server → Run (List Effect)
unfolding write_all
process_broadcast spread (new_transaction_hashes hashes) server =
    spread server (new_transaction_hashes hashes)
process_broadcast spread (new_dandelion_transactions trans) server =
    spread server (new_dandelion_transactions trans)
process_broadcast spread (ping nonce) server = write_all server.peer_list server.peers (ping nonce)
process_broadcast spread (pong nonce) server = write_all server.peer_list server.peers (pong nonce)
process_broadcast spread (new_block_hashes hashes) server =
    write_all server.peer_list server.peers (new_block_hashes hashes)
process_broadcast spread (get_blocks hashes) server =
    write_all server.peer_list server.peers (get_blocks hashes)
process_broadcast spread (blocks bs) server = write_all server.peer_list server.peers (blocks bs)
process_broadcast spread (get_transactions hashes) server =
    write_all server.peer_list server.peers (get_transactions hashes)
process_broadcast spread (transactions trans) server =
    write_all server.peer_list server.peers (transactions trans)
process_broadcast spread (new_peers content) server =
    write_all server.peer_list server.peers (new_peers content)
process_broadcast spread (introduce content) server =
    write_all server.peer_list server.peers (introduce content)

-- The tokens of an event: two for each peer, the socket and the queue of messages to write.
pub data Source : Type 0 where
  socket queue : ℕ → Source

-- `peer_id = token_id >> 1`, by `token_id & 0x01`.
unfoldable pub source_of : ℕ → Source
source_of token_id = if token_id % 2 == 0 then socket (token_id / 2) else queue (token_id / 2)

-- The tokens that `register` uses.
unfoldable pub socket_token : ℕ → ℕ
socket_token key = key * 2

unfoldable pub writer_token : ℕ → ℕ
writer_token key = key * 2 + 1
