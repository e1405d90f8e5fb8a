-- ===== src/Framing/Awaits.antt =====
-- A reader before a stream of frames: what it will get, and what one `read` takes of it.
use bitcoin_client_rust.Framing.Frame.{IsFrame, length-grow, length-put_at, first-IsFrame}
use bitcoin_client_rust.Hash.{from_be_bytes, to_be_bytes}
use bitcoin_client_rust.Framing.{
  ReadContext, ReadResult, length_part, payload_part, continue, message, fill, put_at, process,
  read,
}
use bitcoin_client_rust.Framing.Codec.{
  frame, frames, length-to_be_bytes, append_assoc, append-cancel, length-take,
}
use bitcoin_client_rust.Framing.Reading.{take-put_at, length-fill-le}
use bitcoin_client_rust.Prelude.{
  ℕ, ◌+◌, ◌^◌, ◌%◌, ◌≤◌, ◌<◌, ◌≡◌, refl, sym, ap, ◌∙◌, false, Bool-cases, List, [], ◌∷◌, ◌++◌,
  length, length-append, take, ◌==◌, nat_eq, arith, inl, inr, All,
}

-- A reader that got a part of a length, before a stream: the two are the frames of the messages.
pub record Lengthwise (ctx : ReadContext) (stream : List ℕ) (msgs : List (List ℕ)) : Type 0 where
  pub state : ctx.state ≡ length_part
  pub due : ctx.msg_length ≡ 4
  pub place : ctx.read_length < 4
  pub room : 4 ≤ length ctx.buffer
  pub rest : take ctx.read_length ctx.buffer ++ stream ≡ frames msgs

-- A reader that got a part of a payload, before a stream: the two are the payload of the first message
-- and the frames of the others.
pub record Payloadwise (ctx : ReadContext) (stream : List ℕ) (m : List ℕ) (ms : List (List ℕ))
    : Type 0 where
  pub state : ctx.state ≡ payload_part
  pub due : ctx.msg_length ≡ length m
  pub place : ctx.read_length < length m
  pub room : length m ≤ length ctx.buffer
  pub large : 4 ≤ length ctx.buffer
  pub rest : take ctx.read_length ctx.buffer ++ stream ≡ m ++ frames ms

-- A reader that will get the messages from the stream.
pub data Awaits (ctx : ReadContext) (stream : List ℕ) (msgs : List (List ℕ)) : Type 0 where
  at_length : Lengthwise ctx stream msgs → Awaits ctx stream msgs
  at_payload :
      (m : List ℕ) (ms : List (List ℕ))
      → msgs ≡ m ∷ ms
      → Payloadwise ctx stream m ms
      → Awaits ctx stream msgs

-- What a reader gets by one `read` of a part of the stream that is there: the messages that it answers, and
-- the bytes that it leaves.
abbrev pub delivered : ReadResult → List (List ℕ)
delivered continue = []
delivered ReadResult.eof = []
delivered (message m) = m ∷ []

-- The outcome of a read: the answered messages are the next of those awaited.
abbrev pub Reads : List ℕ → List (List ℕ) → ReadContext × ReadResult → Type 0
Reads stream msgs (next, result) =
    (ms : List (List ℕ)) × (msgs ≡ delivered result ++ ms) × Awaits next stream ms

read_header-Awaits :
    (available later : List ℕ) (msgs : List (List ℕ)) (ctx : ReadContext)
    → 0 < length (fill available ctx)
    → All IsFrame msgs
    → Lengthwise ctx (fill available ctx ++ later) msgs
    → Reads later msgs (read available ctx)
unfolding read process
read_header-Awaits available later msgs ctx some_bytes sound w =
    let fits = length-fill-le available ctx in
    let got : (length (fill available ctx) == 0) ≡ false = ground arith in
    let head =
      take-put_at ctx.read_length (fill available ctx) ctx.buffer
        (omega (arith, w.place, w.room)) in
    let same =
      length-put_at ctx.read_length (fill available ctx) ctx.buffer
        (omega (arith, fits, w.place, w.room, w.due)) in
    let joined =
      ap (λ zs. zs ++ later) head
      ∙ (append_assoc (take ctx.read_length ctx.buffer) (fill available ctx) later ∙ w.rest) in
    elim (Bool-cases (ctx.read_length + length (fill available ctx) == ctx.msg_length)) [
      | inl full ↦
          let end : ctx.read_length + length (fill available ctx) ≡ 4 = ground (arith, w.due) in
          let buffer = put_at ctx.read_length (fill available ctx) ctx.buffer in
          let (m, ms, next, valid, size, rest) =
            first-IsFrame (take 4 buffer) later msgs
              (length-take 4 buffer (omega (arith, same, w.room))) sound
              (ap (λ n. take n buffer ++ later) (sym end) ∙ joined) in
          let (grown, kept) = length-grow (from_be_bytes (take 4 buffer)) buffer in
          rw (got, full, w.state)
            (
              msgs,
              refl,
              at_payload m ms next (record {
                state = refl;
                due = size;
                place = valid.low;
                room = omega (arith, grown, size);
                large = omega (arith, kept, same, w.room);
                rest = rest;
              }),
            )
      | inr more ↦
          rw (got, more)
            (
              msgs,
              refl,
              at_length (record {
                state = w.state;
                due = w.due;
                place = ground (arith, fits, w.due, w.place);
                room = omega (arith, same, w.room);
                rest = joined;
              }),
            )
    ]

read_payload-Awaits :
    (available later m : List ℕ) (ms : List (List ℕ)) (ctx : ReadContext)
    → 0 < length (fill available ctx)
    → Payloadwise ctx (fill available ctx ++ later) m ms
    → Reads later (m ∷ ms) (read available ctx)
unfolding read process
read_payload-Awaits available later m ms ctx some_bytes w =
    let fits = length-fill-le available ctx in
    let got : (length (fill available ctx) == 0) ≡ false = ground arith in
    let head =
      take-put_at ctx.read_length (fill available ctx) ctx.buffer
        (omega (arith, w.place, w.room)) in
    let same =
      length-put_at ctx.read_length (fill available ctx) ctx.buffer
        (omega (arith, fits, w.place, w.room, w.due)) in
    let buffer = put_at ctx.read_length (fill available ctx) ctx.buffer in
    let joined =
      ap (λ zs. zs ++ later) head
      ∙ (append_assoc (take ctx.read_length ctx.buffer) (fill available ctx) later ∙ w.rest) in
    elim (Bool-cases (ctx.read_length + length (fill available ctx) == ctx.msg_length)) [
      | inl full ↦
          let end : ctx.read_length + length (fill available ctx) ≡ ctx.msg_length = ground arith in
          let (payload, rest) =
            append-cancel (take ctx.msg_length buffer) later m (frames ms)
              (length-take ctx.msg_length buffer (omega (arith, same, w.room, w.due)) ∙ w.due)
              (ap (λ n. take n buffer ++ later) (sym end) ∙ joined) in
          rw (got, full, w.state)
            (
              ms,
              ap (λ n. n ∷ ms) (sym payload),
              at_length (record {
                state = refl;
                due = refl;
                place = omega arith;
                room = omega (arith, same, w.large);
                rest = rest;
              }),
            )
      | inr more ↦
          rw (got, more)
            (
              m ∷ ms,
              refl,
              at_payload m ms refl (record {
                state = w.state;
                due = w.due;
                place = ground (arith, fits, w.due, w.place);
                room = omega (arith, same, w.room);
                large = omega (arith, same, w.large);
                rest = joined;
              }),
            )
    ]

-- A reader that awaits messages takes some bytes of them: it answers the next message or none, and awaits
-- the others from the rest of the stream.
pub read-Awaits :
    (available later : List ℕ) (msgs : List (List ℕ)) (ctx : ReadContext)
    → 0 < length (fill available ctx)
    → All IsFrame msgs
    → Awaits ctx (fill available ctx ++ later) msgs
    → Reads later msgs (read available ctx)
read-Awaits available later msgs ctx some_bytes sound (at_length w) =
    read_header-Awaits available later msgs ctx some_bytes sound w
read-Awaits available later msgs ctx some_bytes sound (at_payload m ms e w) =
    let (ns, split, awaits) = read_payload-Awaits available later m ms ctx some_bytes w in
    (ns, e ∙ split, awaits)

pub Awaits-due :
    (ctx : ReadContext) (stream : List ℕ) (msgs : List (List ℕ))
    → Awaits ctx stream msgs
    → ctx.read_length < ctx.msg_length
Awaits-due ctx stream msgs (at_length w) = omega (arith, w.place, w.due)
Awaits-due ctx stream msgs (at_payload m ms e w) = omega (arith, w.place, w.due)

-- A reader before the end of the stream awaits nothing.
pub Awaits-end : (ctx : ReadContext) (msgs : List (List ℕ)) → Awaits ctx [] msgs → msgs ≡ []
Awaits-end ctx [] w = refl
Awaits-end ctx (m ∷ ms) (at_length w) = absurd (
    omega (
      arith,
      ap length w.rest,
      length-append (take ctx.read_length ctx.buffer) [],
      length-append (frame m) (frames ms),
      length-append (to_be_bytes 4 (length m % 2 ^ 32)) m,
      length-to_be_bytes 4 (length m % 2 ^ 32),
      length-take ctx.read_length ctx.buffer (omega (arith, w.place, w.room)),
      w.place,
    ))
Awaits-end ctx (m ∷ ms) (at_payload n ns e w) = absurd (
    omega (
      arith,
      ap length w.rest,
      length-append (take ctx.read_length ctx.buffer) [],
      length-append n (frames ns),
      length-take ctx.read_length ctx.buffer (omega (arith, w.place, w.room)),
      w.place,
    ))
