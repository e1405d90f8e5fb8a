-- ===== src/Framing/Pipe.antt =====
-- A writer and a reader at the two ends of a connection, and what passes between them.
use bitcoin_client_rust.Framing.{
  ReadContext, WriteContext, fill, read, write_round, complete, new_reader, new_writer,
}
use bitcoin_client_rust.Framing.Codec.{
  frame, frames, frames-last, append_assoc, append-nil, take-drop,
}
use bitcoin_client_rust.Framing.Writing.{
  owed, IsWriter, write_round-owed, owed-send, write_round-complete,
}
use bitcoin_client_rust.Framing.Awaits.{
  Awaits, Awaits-due, Awaits-end, at_length, at_payload, delivered, read-Awaits,
}
use bitcoin_client_rust.Framing.Frame.{IsFrame}
use bitcoin_client_rust.Prelude.{
  ℕ, zero, suc, ◌-◌, ◌<◌, ◌≡◌, refl, sym, ap, ◌∙◌, Bool, subst, some, List, [], ◌∷◌, ◌++◌, length,
  take, drop, arith, All,
}

-- The messages that were sent so far, the writer, the bytes on their way, the reader, and the messages that it
-- answered so far.
pub record Pipe : Type 0 where
  pub sent : List (List ℕ)
  pub writer : WriteContext
  pub wire : List ℕ
  pub reader : ReadContext
  pub received : List (List ℕ)

abbrev pub start : Bool → Pipe
start closed = record {
  sent = [];
  writer = new_writer [] closed;
  wire = [];
  reader = new_reader;
  received = [];
}

-- A message enters the queue.
abbrev pub send : List ℕ → Pipe → Pipe
send m p = record p {
  sent = p.sent ++ m ∷ [];
  writer = record p.writer { queue = p.writer.queue ++ m ∷ [] };
}

-- One round of `write`, whose socket takes up to so many bytes.
abbrev pub put : ℕ → Pipe → Pipe
put taken p =
    let ((next, bytes), result) = write_round taken p.writer in
    record p { writer = next; wire = p.wire ++ bytes }

-- One `read`, when a first part of the wire has arrived; what does not fit stays on the wire.
abbrev pub get : List ℕ → List ℕ → Pipe → Pipe
get available later p =
    let (next, result) = read available p.reader in
    record p {
      wire = drop (p.reader.msg_length - p.reader.read_length) available ++ later;
      reader = next;
      received = p.received ++ delivered result;
    }

-- What can happen to a connection, in any order.
pub data Reach (closed : Bool) : Pipe → Type 0 where
  starts : Reach closed (start closed)
  sends : (m : List ℕ) (p : Pipe) → Reach closed p → IsFrame m → Reach closed (send m p)
  puts : (taken : ℕ) (p : Pipe) → Reach closed p → Reach closed (put taken p)
  gets :
      (available later : List ℕ) (p : Pipe)
      → Reach closed p
      → p.wire ≡ available ++ later
      → 0 < length available
      → Reach closed (get available later p)

-- The messages that the reader has yet to answer.
record Flows (p : Pipe) : Type 0 where
  pending : List (List ℕ)
  sound : All IsFrame pending
  split : p.sent ≡ p.received ++ pending
  writer : IsWriter p.writer
  awaits : Awaits p.reader (p.wire ++ owed p.writer) pending

All-append_last :
    (ms : List (List ℕ)) (m : List ℕ) → All IsFrame ms → IsFrame m → All IsFrame (ms ++ m ∷ [])
All-append_last [] m sound valid = (valid, tt)
All-append_last (n ∷ ms) m (first, sound) valid = (first, All-append_last ms m sound valid)

All-append_right : (ms ns : List (List ℕ)) → All IsFrame (ms ++ ns) → All IsFrame ns
All-append_right [] ns sound = sound
All-append_right (m ∷ ms) ns (valid, sound) = All-append_right ms ns sound

-- One more message at the end of the stream.
Awaits-last :
    (ctx : ReadContext) (stream : List ℕ) (msgs : List (List ℕ)) (m : List ℕ)
    → Awaits ctx stream msgs
    → Awaits ctx (stream ++ frame m) (msgs ++ m ∷ [])
Awaits-last ctx stream msgs m (at_length w) = at_length (record {
  state = w.state;
  due = w.due;
  place = w.place;
  room = w.room;
  rest =
      sym (append_assoc (take ctx.read_length ctx.buffer) stream (frame m))
      ∙ (ap (λ zs. zs ++ frame m) w.rest ∙ sym (frames-last msgs m));
})
Awaits-last ctx stream msgs m (at_payload n ns e w) =
    at_payload n (ns ++ m ∷ []) (ap (λ zs. zs ++ m ∷ []) e) (record {
      state = w.state;
      due = w.due;
      place = w.place;
      room = w.room;
      large = w.large;
      rest =
          sym (append_assoc (take ctx.read_length ctx.buffer) stream (frame m))
          ∙ (ap (λ zs. zs ++ frame m) w.rest
              ∙ (append_assoc n (frames ns) (frame m)
                  ∙ ap (λ zs. n ++ zs) (sym (frames-last ns m))));
    })

start-Flows : (closed : Bool) → Flows (start closed)
unfolding new_writer new_reader owed
start-Flows closed = record {
  pending = [];
  sound = tt;
  split = refl;
  writer = record { header = refl; whole = refl; place = omega arith };
  awaits =
      at_length
        (record { state = refl; due = refl; place = omega arith; room = omega arith; rest = refl });
}

send-Flows : (m : List ℕ) (p : Pipe) → IsFrame m → Flows p → Flows (send m p)
send-Flows m p valid flows = record {
  pending = flows.pending ++ m ∷ [];
  sound = All-append_last flows.pending m flows.sound valid;
  split = ap (λ zs. zs ++ m ∷ []) flows.split ∙ append_assoc p.received flows.pending (m ∷ []);
  writer = record {
    header = flows.writer.header;
    whole = flows.writer.whole;
    place = flows.writer.place;
  };
  awaits =
      subst (λ zs. Awaits p.reader zs (flows.pending ++ m ∷ []))
        (append_assoc p.wire (owed p.writer) (frame m)
          ∙ ap (λ zs. p.wire ++ zs) (sym (owed-send m p.writer)))
        (Awaits-last p.reader (p.wire ++ owed p.writer) flows.pending m flows.awaits);
}

put-Flows : (taken : ℕ) (p : Pipe) → Flows p → Flows (put taken p)
put-Flows taken p flows =
    let (valid, owes) = write_round-owed taken p.writer flows.writer in
    record {
      pending = flows.pending;
      sound = flows.sound;
      split = flows.split;
      writer = valid;
      awaits =
          subst (λ zs. Awaits p.reader zs flows.pending)
            (ap (λ zs. p.wire ++ zs) owes
              ∙ sym (append_assoc p.wire (write_round taken p.writer).0.1 _))
            flows.awaits;
    }

take-some : (n : ℕ) (xs : List ℕ) → 0 < n → 0 < length xs → 0 < length (take n xs)
take-some zero xs low some_items = absurd (omega (arith, low))
take-some (suc n) [] low some_items = absurd (omega (arith, some_items))
take-some (suc n) (x ∷ xs) low some_items = omega arith

arrival :
    (k : ℕ) (available later : List ℕ)
    → available ++ later ≡ take k available ++ (drop k available ++ later)
arrival k available later =
    ap (λ zs. zs ++ later) (sym (take-drop k available))
    ∙ append_assoc (take k available) (drop k available) later

get-Flows :
    (available later : List ℕ) (p : Pipe)
    → p.wire ≡ available ++ later
    → 0 < length available
    → Flows p
    → Flows (get available later p)
unfolding fill
get-Flows available later p arrived some_bytes flows =
    let due = Awaits-due p.reader (p.wire ++ owed p.writer) flows.pending flows.awaits in
    let k = p.reader.msg_length - p.reader.read_length in
    let stream : p.wire ++ owed p.writer
        ≡ fill available p.reader ++ ((drop k available ++ later) ++ owed p.writer) =
      ap (λ zs. zs ++ owed p.writer) (arrived ∙ arrival k available later)
      ∙ append_assoc (take k available) (drop k available ++ later) (owed p.writer) in
    let (ms, split, awaits) =
      read-Awaits available ((drop k available ++ later) ++ owed p.writer) flows.pending p.reader
        (take-some k available (omega (arith, due)) some_bytes) flows.sound
        (subst (λ zs. Awaits p.reader zs flows.pending) stream flows.awaits) in
    record {
      pending = ms;
      sound =
          All-append_right (delivered (read available p.reader).1) ms
            (subst (All IsFrame) split flows.sound);
      split =
          flows.split ∙ (ap (λ zs. p.received ++ zs) split ∙ sym (append_assoc p.received _ ms));
      writer = flows.writer;
      awaits = awaits;
    }

Reach-Flows : (closed : Bool) (p : Pipe) → Reach closed p → Flows p
Reach-Flows closed p starts = start-Flows closed
Reach-Flows closed p (sends m q reach valid) = send-Flows m q valid (Reach-Flows closed q reach)
Reach-Flows closed p (puts taken q reach) = put-Flows taken q (Reach-Flows closed q reach)
Reach-Flows closed p (gets available later q reach arrived some_bytes) =
    get-Flows available later q arrived some_bytes (Reach-Flows closed q reach)

-- However sends, writes and reads follow each other, and however the sockets cut the bytes, what the
-- reader answered is a first part of the messages sent, in their order.
pub Reach-prefix :
    (closed : Bool) (p : Pipe)
    → Reach closed p
    → (pending : List (List ℕ)) × (p.sent ≡ p.received ++ pending)
Reach-prefix closed p reach = let flows = Reach-Flows closed p reach in (flows.pending, flows.split)

-- However sends of messages of at least one byte and fewer than 2 ^ 32, rounds of `write` and reads follow each
-- other, and however the sockets cut the bytes: once the writer answers `Complete` and nothing is on the wire, the
-- reader has answered all the messages that were sent, in their order.
pub Reach-delivers :
    (closed : Bool) (taken : ℕ) (p : Pipe)
    → Reach closed p
    → (write_round taken p.writer).1 ≡ some complete
    → p.wire ≡ []
    → p.received ≡ p.sent
Reach-delivers closed taken p reach done dry =
    let flows = Reach-Flows closed p reach in
    let none_left : p.wire ++ owed p.writer ≡ [] =
      ap (λ zs. zs ++ owed p.writer) dry ∙ write_round-complete taken p.writer flows.writer done in
    let nothing =
      Awaits-end p.reader flows.pending
        (subst (λ zs. Awaits p.reader zs flows.pending) none_left flows.awaits) in
    sym (flows.split ∙ (ap (λ zs. p.received ++ zs) nothing ∙ append-nil p.received))
