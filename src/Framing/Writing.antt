-- ===== src/Framing/Writing.antt =====
-- What a writer owes to its socket.
use bitcoin_client_rust.Hash.{to_be_bytes}
use bitcoin_client_rust.Framing.{
  WriteContext, complete, DecodeState, length_part, payload_part, write_round, new_writer,
}
use bitcoin_client_rust.Framing.Codec.{
  frame, frames, frames-last, length-to_be_bytes, append_assoc, drop-take, drop-all, take-all,
  length-drop, length-take, length-take-whole,
}
use bitcoin_client_rust.Prelude.{
  ℕ, ◌+◌, ◌^◌, ◌%◌, ◌≤◌, ◌≡◌, refl, sym, ap, ◌∙◌, Bool, Bool-cases, some, List, [], ◌∷◌, ◌++◌,
  length, take, drop, ◌==◌, nat_eq, arith, inl, inr, ◌⊎◌,
}

-- The bytes that are still to be sent: the rest of the frame, and the frames of the queue.
unfoldable pub owed : WriteContext → List ℕ
owed ctx = elim ctx.state [
  | length_part ↦
      drop ctx.written_length ctx.len_buffer
      ++ (take ctx.msg_length ctx.msg_buffer ++ frames ctx.queue)
  | payload_part ↦ drop ctx.written_length (take ctx.msg_length ctx.msg_buffer) ++ frames ctx.queue
]

-- The length of the part that a writer is at.
abbrev pub part_length : WriteContext → ℕ
part_length ctx = elim ctx.state [ length_part ↦ 4 | payload_part ↦ ctx.msg_length ]

-- The places of a writer are within its buffers.
pub record IsWriter (ctx : WriteContext) : Type 0 where
  pub header : length ctx.len_buffer ≡ 4
  pub whole : ctx.msg_length ≡ length ctx.msg_buffer
  pub place : ctx.written_length ≤ part_length ctx

-- Some of the bytes behind the place go out, and the place moves over them.
sent-owed :
    (taken place : ℕ) (part behind : List ℕ)
    → drop place part ++ behind
      ≡ take taken (drop place part)
        ++ (drop (place + length (take taken (drop place part))) part ++ behind)
sent-owed taken place part behind =
    ap (λ zs. zs ++ behind) (drop-take place taken part)
    ∙ append_assoc (take taken (drop place part)) _ behind

sent-place :
    (taken place : ℕ) (part : List ℕ)
    → place ≤ length part
    → place + length (take taken (drop place part)) ≤ length part
sent-place taken place part room =
    omega (arith, length-take-whole taken (drop place part), length-drop place part)

new_frame :
    (m : List ℕ) (ms : List (List ℕ))
    → frame m ++ frames ms ≡ to_be_bytes 4 (length m % 2 ^ 32) ++ (take (length m) m ++ frames ms)
new_frame m ms =
    append_assoc (to_be_bytes 4 (length m % 2 ^ 32)) m (frames ms)
    ∙ ap (λ zs. to_be_bytes 4 (length m % 2 ^ 32) ++ (zs ++ frames ms))
        (sym (take-all (length m) m (omega arith)))

pub DecodeState-cases : (s : DecodeState) → (s ≡ length_part) ⊎ (s ≡ payload_part)
DecodeState-cases length_part = inl refl
DecodeState-cases payload_part = inr refl

pub List-cases :
    (xs : List (List ℕ)) → (xs ≡ []) ⊎ ((m : List ℕ) × (ms : List (List ℕ)) × (xs ≡ m ∷ ms))
List-cases [] = inl refl
List-cases (m ∷ ms) = inr (m, ms, refl)

write_length-owed :
    (taken : ℕ) (ctx : WriteContext)
    → ctx.state ≡ length_part
    → IsWriter ctx
    → (let ((next, sent), result) = write_round taken ctx in
        IsWriter next × (owed ctx ≡ sent ++ owed next))
unfolding write_round owed
write_length-owed taken ctx part valid =
    let place : ctx.written_length ≤ 4 = rw part at valid.place in
    elim (Bool-cases (ctx.written_length == 4)) [
      | inl full ↦
          let none_left =
            drop-all ctx.written_length ctx.len_buffer (ground (arith, valid.header)) in
          rw (part, full)
            (
              record { header = valid.header; whole = valid.whole; place = omega arith },
              ap (λ zs. zs ++ (take ctx.msg_length ctx.msg_buffer ++ frames ctx.queue)) none_left,
            )
      | inr more ↦
          elim (Bool-cases (length (take taken (drop ctx.written_length ctx.len_buffer)) == 0)) [
            | inl stuck ↦
                rw (part, more, stuck)
                  (record { header = valid.header; whole = valid.whole; place = place }, refl)
            | inr some_bytes ↦
                rw (part, more, some_bytes)
                  (
                    record {
                      header = valid.header;
                      whole = valid.whole;
                      place = omega (
                        arith,
                        sent-place taken ctx.written_length ctx.len_buffer
                            (omega (arith, valid.header, place)),
                        valid.header,
                      );
                    },
                    sent-owed taken ctx.written_length ctx.len_buffer _,
                  )
          ]
    ]

write_payload-owed :
    (taken : ℕ) (ctx : WriteContext)
    → ctx.state ≡ payload_part
    → IsWriter ctx
    → (let ((next, sent), result) = write_round taken ctx in
        IsWriter next × (owed ctx ≡ sent ++ owed next))
unfolding write_round owed
write_payload-owed taken ctx part valid =
    let place : ctx.written_length ≤ ctx.msg_length = rw part at valid.place in
    let payload = take ctx.msg_length ctx.msg_buffer in
    let size = length-take ctx.msg_length ctx.msg_buffer (omega (arith, valid.whole)) in
    elim (Bool-cases (ctx.written_length == ctx.msg_length)) [
      | inl full ↦
          let none_left = drop-all ctx.written_length payload (ground (arith, size)) in
          elim (List-cases ctx.queue) [
            | inl empty ↦
                rw (part, full, empty)
                  (
                    record { header = valid.header; whole = valid.whole; place = place },
                    ap (λ ms. drop ctx.written_length payload ++ frames ms) (sym empty),
                  )
            | inr (m, ms, next) ↦
                rw (part, full, next)
                  (
                    record { header = length-to_be_bytes 4 _; whole = refl; place = omega arith },
                    ap (λ zs. zs ++ (frame m ++ frames ms)) none_left ∙ new_frame m ms,
                  )
          ]
      | inr more ↦ elim (Bool-cases (length (take taken (drop ctx.written_length payload)) == 0)) [
        | inl stuck ↦
            rw (part, more, stuck)
              (record { header = valid.header; whole = valid.whole; place = place }, refl)
        | inr some_bytes ↦
            rw (part, more, some_bytes)
              (
                record {
                  header = valid.header;
                  whole = valid.whole;
                  place = omega (
                    arith,
                    sent-place taken ctx.written_length payload (omega (arith, size, place)),
                    size,
                  );
                },
                sent-owed taken ctx.written_length payload _,
              )
      ]
    ]

-- A round of `write` on a writer whose places are within its buffers sends the next of the bytes that it
-- owes, and then owes the others; the places stay within the buffers.
pub write_round-owed :
    (taken : ℕ) (ctx : WriteContext)
    → IsWriter ctx
    → (let ((next, sent), result) = write_round taken ctx in
        IsWriter next × (owed ctx ≡ sent ++ owed next))
write_round-owed taken ctx valid = elim (DecodeState-cases ctx.state) [
  | inl part ↦ write_length-owed taken ctx part valid
  | inr part ↦ write_payload-owed taken ctx part valid
]

last_frame :
    (front m : List ℕ) (queue : List (List ℕ))
    → front ++ frames (queue ++ m ∷ []) ≡ (front ++ frames queue) ++ frame m
last_frame front m queue =
    ap (λ zs. front ++ zs) (frames-last queue m) ∙ sym (append_assoc front (frames queue) (frame m))

-- A message that enters the queue is owed after all others.
pub owed-send :
    (m : List ℕ) (ctx : WriteContext)
    → owed (record ctx { queue = ctx.queue ++ m ∷ [] }) ≡ owed ctx ++ frame m
unfolding owed
owed-send m ctx = elim (DecodeState-cases ctx.state) [
  | inl part ↦ rw part (
      ap (λ zs. drop ctx.written_length ctx.len_buffer ++ zs)
        (last_frame (take ctx.msg_length ctx.msg_buffer) m ctx.queue)
      ∙ sym (append_assoc (drop ctx.written_length ctx.len_buffer) _ (frame m)))
  | inr part ↦
      rw part
        (last_frame (drop ctx.written_length (take ctx.msg_length ctx.msg_buffer)) m ctx.queue)
]

-- A writer that answers `Complete` owes nothing.
pub write_round-complete :
    (taken : ℕ) (ctx : WriteContext)
    → IsWriter ctx
    → (write_round taken ctx).1 ≡ some complete
    → owed ctx ≡ []
unfolding write_round owed
write_round-complete taken ctx valid done = elim (DecodeState-cases ctx.state) [
  | inl part ↦ elim (Bool-cases (ctx.written_length == 4)) [
    | inl full ↦ absurd (cc (rw (part, full) at done))
    | inr more ↦
        elim (Bool-cases (length (take taken (drop ctx.written_length ctx.len_buffer)) == 0)) [
          | inl stuck ↦ absurd (cc (rw (part, more, stuck) at done))
          | inr some_bytes ↦ absurd (cc (rw (part, more, some_bytes) at done))
        ]
  ]
  | inr part ↦
      let payload = take ctx.msg_length ctx.msg_buffer in
      elim (Bool-cases (ctx.written_length == ctx.msg_length)) [
        | inl full ↦
            let size = length-take ctx.msg_length ctx.msg_buffer (omega (arith, valid.whole)) in
            let none_left = drop-all ctx.written_length payload (ground (arith, size)) in
            elim (List-cases ctx.queue) [
              | inl empty ↦ rw (part, empty, none_left) refl
              | inr (m, ms, next) ↦ absurd (cc (rw (part, full, next) at done))
            ]
        | inr more ↦
            elim (Bool-cases (length (take taken (drop ctx.written_length payload)) == 0)) [
              | inl stuck ↦ absurd (cc (rw (part, more, stuck) at done))
              | inr some_bytes ↦ absurd (cc (rw (part, more, some_bytes) at done))
            ]
      ]
]

pub new_writer-IsWriter :
    (queue : List (List ℕ)) (closed : Bool) → IsWriter (new_writer queue closed)
unfolding new_writer
new_writer-IsWriter queue closed = record { header = refl; whole = refl; place = omega arith }
