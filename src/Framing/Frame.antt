-- ===== src/Framing/Frame.antt =====
-- The frames that a connection carries, and the buffer of a reader.
use bitcoin_client_rust.Hash.{from_be_bytes, to_be_bytes}
use bitcoin_client_rust.Framing.{put_at, grow}
use bitcoin_client_rust.Framing.Codec.{
  frames, from_be_bytes-to_be_bytes, length-to_be_bytes, append_assoc, append-cancel,
  length-replicate, length-take, length-drop,
}
use bitcoin_client_rust.Prelude.{
  ℕ, ◌+◌, ◌-◌, ◌^◌, ◌%◌, ◌≤◌, ◌<◌, ◌≡◌, refl, sym, ap, ◌∙◌, Bool-cases, List, [], ◌∷◌, ◌++◌, length,
  length-append, take, drop, replicate, ltb, nat_eq, arith, inl, inr, All,
}

-- A message that a frame can carry: not empty, and shorter than 2 ^ 32.
pub record IsFrame (m : List ℕ) : Type 0 where
  pub low : 0 < length m
  pub high : length m < 2 ^ 32

pub length-grow :
    (n : ℕ) (buffer : List ℕ)
    → (n ≤ length (grow n buffer)) × (length buffer ≤ length (grow n buffer))
unfolding grow
length-grow n buffer = elim (Bool-cases (ltb (length buffer) n)) [
  | inl short ↦ rw short (
    ground (
      arith,
      length-append buffer (replicate (n - length buffer) 0),
      length-replicate {A = ℕ} (n - length buffer) 0,
    ),
    omega (arith, length-append buffer (replicate (n - length buffer) 0)),
  )
  | inr fits ↦ rw fits (ground arith, omega arith)
]

pub length-put_at :
    (place : ℕ) (bytes buffer : List ℕ)
    → place + length bytes ≤ length buffer
    → length (put_at place bytes buffer) ≡ length buffer
unfolding put_at
length-put_at place bytes buffer room =
    let front = length-take place buffer (omega (arith, room)) in
    let back = length-drop (place + length bytes) buffer in
    omega (
      arith,
      length-append (take place buffer) (bytes ++ drop (place + length bytes) buffer),
      length-append bytes (drop (place + length bytes) buffer),
      front,
      back,
      room,
    )

-- Four bytes before a stream, which together are frames: the length of the first payload.
pub first-IsFrame :
    (header later : List ℕ) (msgs : List (List ℕ))
    → length header ≡ 4
    → All IsFrame msgs
    → header ++ later ≡ frames msgs
    → (m : List ℕ) × (ms : List (List ℕ)) × (msgs ≡ m ∷ ms)
      × IsFrame m
      × (from_be_bytes header ≡ length m)
      × (later ≡ m ++ frames ms)
first-IsFrame header later [] four sound e =
    absurd (omega (arith, ap length e, length-append header later, four))
first-IsFrame header later (m ∷ ms) four (valid, sound) e =
    let size : length m % 2 ^ 32 ≡ length m = omega (arith, valid.high) in
    let (same, rest) =
      append-cancel header later (to_be_bytes 4 (length m % 2 ^ 32)) (m ++ frames ms)
        (four ∙ sym (length-to_be_bytes 4 (length m % 2 ^ 32)))
        (e ∙ append_assoc (to_be_bytes 4 (length m % 2 ^ 32)) m (frames ms)) in
    (
      m,
      ms,
      refl,
      valid,
      ap from_be_bytes same
          ∙ (ap (λ n. from_be_bytes (to_be_bytes 4 n)) size
              ∙ from_be_bytes-to_be_bytes (length m) valid.high),
      rest,
    )
