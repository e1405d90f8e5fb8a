-- ===== src/Framing/Reading.antt =====
-- How a reader takes in a frame, however the socket cuts it up.
use bitcoin_client_rust.Framing.{
  ReadContext, ReadResult, length_part, payload_part, continue, message, fill, put_at, process,
  read,
}
use bitcoin_client_rust.Framing.Codec.{suc_plus, zero_plus}
use bitcoin_client_rust.Prelude.{
  ℕ, zero, suc, ◌+◌, ◌-◌, ◌≤◌, ◌<◌, ◌≡◌, refl, sym, ap, ◌∙◌, List, [], ◌∷◌, ◌++◌, length, take,
  drop, ◌==◌, nat_eq, arith, Bool-cases, false, ◌⊎◌, inl, inr,
}

-- The places of a reader are within its buffer.
pub record IsReader (ctx : ReadContext) : Type 0 where
  pub room : ctx.msg_length ≤ length ctx.buffer
  pub partial : ctx.read_length ≤ ctx.msg_length

pub length-take-le : (n : ℕ) (xs : List ℕ) → length (take n xs) ≤ n
length-take-le zero xs = omega arith
length-take-le (suc n) [] = omega arith
length-take-le (suc n) (x ∷ xs) = omega (arith, length-take-le n xs)

pub length-fill-le :
    (available : List ℕ) (ctx : ReadContext)
    → length (fill available ctx) ≤ ctx.msg_length - ctx.read_length
unfolding fill
length-fill-le available ctx = length-take-le (ctx.msg_length - ctx.read_length) available

pub take-append : (xs ys : List ℕ) → take (length xs) (xs ++ ys) ≡ xs
take-append [] ys = refl
take-append (x ∷ xs) ys = ap (λ zs. x ∷ zs) (take-append xs ys)

-- What was received before and the new bytes are the head of the buffer.
pub take-put_at :
    (place : ℕ) (bytes buffer : List ℕ)
    → place ≤ length buffer
    → take (place + length bytes) (put_at place bytes buffer) ≡ take place buffer ++ bytes
unfolding put_at
take-put_at zero bytes buffer room =
    ap (λ n. take n (bytes ++ drop (0 + length bytes) buffer)) (zero_plus (length bytes))
    ∙ take-append bytes (drop (0 + length bytes) buffer)
take-put_at (suc place) bytes [] room = absurd (omega (arith, room))
take-put_at (suc place) bytes (b ∷ buffer) room =
    rw (suc_plus place (length bytes))
      (ap (λ zs. b ∷ zs) (take-put_at place bytes buffer (omega (arith, room))))

-- A payload of no bytes is taken for the end of the connection: the slice that is read into is empty,
-- so `read` answers `EOF` whatever the socket has.
pub read-empty_payload :
    (available : List ℕ) (ctx : ReadContext)
    → ctx.state ≡ payload_part
    → ctx.msg_length ≡ 0
    → read available ctx ≡ (ctx, ReadResult.eof)
unfolding read fill
read-empty_payload available ctx payload none_left =
    let nothing : ctx.msg_length - ctx.read_length ≡ 0 = omega arith in rw nothing refl

-- While a payload comes in, a reader whose places are within its buffer appends the bytes that it gets to those it has. When the
-- payload is complete it answers all of them, and waits for the next length; else it goes on, with the
-- bytes so far at the head of its buffer.
pub read-appends :
    (available : List ℕ) (ctx : ReadContext)
    → IsReader ctx
    → ctx.state ≡ payload_part
    → 0 < length (fill available ctx)
    → (let (next, result) = read available ctx in
        let bytes = take ctx.read_length ctx.buffer ++ fill available ctx in
        ((ctx.read_length + length (fill available ctx) ≡ ctx.msg_length)
          × (result ≡ message bytes)
          × (next.msg_length ≡ 4)
          × (next.read_length ≡ 0)
          × (next.state ≡ length_part))
        ⊎ ((ctx.read_length + length (fill available ctx) < ctx.msg_length)
            × (result ≡ continue)
            × (take next.read_length next.buffer ≡ bytes)
            × (next.msg_length ≡ ctx.msg_length)
            × (next.state ≡ payload_part)))
unfolding read process
read-appends available ctx valid payload some_bytes =
    let room = valid.room in
    let partial = valid.partial in
    let fits = length-fill-le available ctx in
    let got : (length (fill available ctx) == 0) ≡ false = ground arith in
    let head = take-put_at ctx.read_length (fill available ctx) ctx.buffer (omega arith) in
    elim (Bool-cases (ctx.read_length + length (fill available ctx) == ctx.msg_length)) [
      | inl full ↦
          let end : ctx.read_length + length (fill available ctx) ≡ ctx.msg_length = ground arith in
          inl (
            end,
            rw (got, full, payload)
                (ap (λ n. message (take n (put_at ctx.read_length (fill available ctx) ctx.buffer)))
                    (sym end)
                  ∙ ap message head),
            rw (got, full, payload) refl,
            rw (got, full, payload) refl,
            rw (got, full, payload) refl,
          )
      | inr more ↦ inr (
        ground arith,
        rw (got, more) refl,
        rw (got, more) head,
        rw (got, more) refl,
        rw (got, more) payload,
      )
    ]
