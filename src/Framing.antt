-- ===== src/Framing.antt =====
-- src/network/peer.rs: the framing of messages on a socket, a length of four bytes and then the payload.
-- The socket is an argument: the bytes that a `read` got, the number of bytes that a `write` took.
use bitcoin_client_rust.Hash.{from_be_bytes, to_be_bytes}
use bitcoin_client_rust.Prelude.{
  ℕ, zero, suc, ◌+◌, ◌-◌, ◌^◌, ◌%◌, ◌≤◌, ◌<◌, ◌≡◌, refl, Bool, true, false, Option, some, none,
  List, [], ◌∷◌, ◌++◌, length, take, drop, replicate, if◌then◌else◌, ltb, ◌==◌, nat_eq, arith, not,
  Run, ok, out_of_fuel, ◌>>=◌,
}
pub mod Reading
pub mod Codec
pub mod Writing
pub mod Frame
pub mod Awaits
pub mod Pipe
pub mod Ending

pub data DecodeState : Type 0 where
  length_part payload_part : DecodeState

pub data ReadResult : Type 0 where
  continue eof : ReadResult
  message : List ℕ → ReadResult

pub record ReadContext : Type 0 where
  pub buffer : List ℕ
  pub msg_length : ℕ
  pub read_length : ℕ
  pub state : DecodeState

-- `reader.read(&mut buffer[read_length..msg_length])`, of a socket that has `available` bytes ready:
-- what it puts into the slice, at most its length.
unfoldable pub fill : List ℕ → ReadContext → List ℕ
fill available ctx = take (ctx.msg_length - ctx.read_length) available

-- The buffer with the bytes written at the place.
unfoldable pub put_at : ℕ → List ℕ → List ℕ → List ℕ
put_at place bytes buffer = take place buffer ++ (bytes ++ drop (place + length bytes) buffer)

-- `Vec::resize` to at least the length, with zeros.
unfoldable pub grow : ℕ → List ℕ → List ℕ
grow len buffer =
    if ltb (length buffer) len then buffer ++ replicate (len - length buffer) 0 else buffer

-- A full buffer: the length of the payload, or the payload.
unfoldable pub process : ReadContext → ReadContext × ReadResult
unfolding grow
process ctx = elim ctx.state [
  | length_part ↦
      let message_length = from_be_bytes (take 4 ctx.buffer) in
      (
        record {
          buffer = grow message_length ctx.buffer;
          msg_length = message_length;
          read_length = 0;
          state = payload_part;
        },
        continue,
      )
  | payload_part ↦ (
    record ctx { msg_length = 4; read_length = 0; state = length_part },
    message (take ctx.msg_length ctx.buffer),
  )
]

-- `ReadContext::read`, where the socket has no error; with an error it changes nothing.
unfoldable pub read : List ℕ → ReadContext → ReadContext × ReadResult
unfolding fill put_at process
read available ctx =
    let bytes = fill available ctx in
    let filled : ReadContext = record ctx {
      buffer = put_at ctx.read_length bytes ctx.buffer;
      read_length = ctx.read_length + length bytes;
    } in
    if length bytes == 0
    then (ctx, eof)
    else if filled.read_length == filled.msg_length
    then process filled
    else (filled, continue)

-- `new`: the reader waits for a length.
unfoldable pub new_reader : ReadContext
new_reader = record { buffer = replicate 4 0; msg_length = 4; read_length = 0; state = length_part }

pub data WriteResult : Type 0 where
  complete eof chan_closed : WriteResult

pub record WriteContext : Type 0 where
  pub queue : List (List ℕ)
  pub closed : Bool  -- the senders of the queue are gone
  pub len_buffer : List ℕ
  pub msg_buffer : List ℕ
  pub msg_length : ℕ
  pub written_length : ℕ
  pub state : DecodeState  -- `WriteState` has the same two constructors

unfoldable pub new_writer : List (List ℕ) → Bool → WriteContext
new_writer queue closed = record {
  queue = queue;
  closed = closed;
  len_buffer = replicate 4 0;
  msg_buffer = [];
  msg_length = 0;
  written_length = 0;
  state = payload_part;
}

-- One round of the loop of `write`: the bytes that went out, and the result where the loop ends. The
-- writer takes `taken` of the bytes that it is offered; an error leaves everything as it is.
unfoldable pub write_round : ℕ → WriteContext → (WriteContext × List ℕ) × Option WriteResult
write_round taken ctx = elim ctx.state [
  | length_part ↦
      let sent = take taken (drop ctx.written_length ctx.len_buffer) in
      if ctx.written_length == 4
      then ((record ctx { written_length = 0; state = payload_part }, []), none)
      else if length sent == 0
      then ((ctx, []), some eof)
      else ((record ctx { written_length = ctx.written_length + length sent }, sent), none)
  | payload_part ↦
      let sent = take taken (drop ctx.written_length (take ctx.msg_length ctx.msg_buffer)) in
      if ctx.written_length == ctx.msg_length
      then elim ctx.queue [
        | [] ↦ ((ctx, []), some (if ctx.closed then chan_closed else complete))
        | msg ∷ queue ↦ (
          (
            record ctx {
              queue = queue;
              msg_buffer = msg;
              msg_length = length msg;
              len_buffer = to_be_bytes 4 (length msg % 2 ^ 32);
              written_length = 0;
              state = length_part;
            },
            [],
          ),
          none,
        )
      ]
      else if length sent == 0
      then ((ctx, []), some eof)
      else ((record ctx { written_length = ctx.written_length + length sent }, sent), none)
]

-- What a `write` of the socket does: it takes up to so many bytes, or fails. When there is no more of them
-- the socket would block.
pub data Offer : Type 0 where
  takes : ℕ → Offer
  failed : Offer

pub data WriteEnd : Type 0 where
  ended : WriteResult → WriteEnd
  blocked broken : WriteEnd

-- Whether the next round calls `write` of the socket.
unfoldable pub is_offered : WriteContext → Bool
is_offered ctx = elim ctx.state [
  | length_part ↦ not (ctx.written_length == 4)
  | payload_part ↦ not (ctx.written_length == ctx.msg_length)
]

-- A round and what comes after it, unless the loop ends.
unfoldable pub then_go_on :
    (WriteContext × List ℕ) × Option WriteResult
    → Run ((WriteContext × List ℕ) × WriteEnd)
    → Run ((WriteContext × List ℕ) × WriteEnd)
then_go_on (round, some result) rest = ok (round, ended result)
then_go_on ((next, sent), none) rest = rest >>= λ r. ok ((r.0.0, sent ++ r.0.1), r.1)

-- `WriteContext::write`, with the rounds that are left; `flush` has no error.
unfoldable pub write : ℕ → List Offer → WriteContext → Run ((WriteContext × List ℕ) × WriteEnd)
unfolding is_offered write_round then_go_on
write zero offers ctx = out_of_fuel
write (suc fuel) offers ctx =
    let silent = then_go_on (write_round 0 ctx) (write fuel offers (write_round 0 ctx).0.0) in
    let offering : Run ((WriteContext × List ℕ) × WriteEnd) = elim offers [
      | [] ↦ ok ((ctx, []), blocked)
      | failed ∷ rest ↦ ok ((ctx, []), broken)
      | takes n ∷ rest ↦ then_go_on (write_round n ctx) (write fuel rest (write_round n ctx).0.0)
    ] in
    if is_offered ctx then offering else silent
