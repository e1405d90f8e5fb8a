-- ===== src/Spread/Overflow.antt =====
-- `diffusion` of src/spread.rs to so many peers that its delays run out of the dates.
use bitcoin_client_rust.Message.{Message, Handle}
use bitcoin_client_rust.Spread.{
  Guards, schedule, base_gap_time, next_gap_time, as_i64, next_send_time, diffuse, diffusion,
}
use bitcoin_client_rust.Spread.Delays.{RefusesLonger, exceeds, both}
use bitcoin_client_rust.Prelude.Float.{round_to, round_by, goes_up, ulp}
use bitcoin_client_rust.Prelude.Map
use bitcoin_client_rust.Prelude.Map.{Map}
use bitcoin_client_rust.Prelude.{
  ℕ, zero, suc, ◌*◌, ◌^◌, ◌<◌, ◌≤◌, ◌≡◌, refl, inl, inr, Bool, true, List, [], ◌∷◌, length, ltb,
  Bool-cases, Option-cases, panic, arith, nat_eq,
}

ltb-lt : (m n : ℕ) → ltb m n ≡ true → m < n
ltb-lt m n e = ground (arith, e)

-- The write after `n` others panics, if none of them does.
diffuse-panics :
    (n : ℕ) (takes : ℕ → Bool) (clock : ℕ → ℕ) (i gap_time send_time : ℕ) (keys : List ℕ)
    (peers : Map ℕ Handle) (msg : Message) (guards : Guards)
    → RefusesLonger takes
    → exceeds n gap_time send_time ≡ true
    → n < length keys
    → diffuse takes clock i gap_time send_time keys peers msg guards ≡ panic
unfolding diffuse schedule
diffuse-panics n takes clock i gap_time send_time [] peers msg guards law long many =
    absurd (omega (arith, many))
diffuse-panics zero takes clock i gap_time send_time (k ∷ keys) peers msg guards law long many =
    elim (Option-cases (Map.get k peers)) [
      | inl gone ↦ rw gone refl
      | inr (h, found) ↦
          let (past, fits) =
            both (ltb (10 ^ 19) (send_time * 1000)) (ltb (send_time * 1000) (2 ^ 63 * 1000)) long in
          let refused =
            law (send_time * 1000) (ltb-lt (10 ^ 19) (send_time * 1000) past)
              (ltb-lt (send_time * 1000) (2 ^ 63 * 1000) fits) in
          rw (found, refused) refl
    ]
diffuse-panics (suc n) takes clock i gap_time send_time (k ∷ keys) peers msg guards law long many =
    elim (Option-cases (Map.get k peers)) [
      | inl gone ↦ rw gone refl
      | inr (h, found) ↦ elim (Bool-cases (takes (send_time * 1000))) [
        | inr refused ↦ rw (found, refused) refl
        | inl taken ↦
            let grown = next_gap_time gap_time in
            rw (found, taken)
              (diffuse-panics n takes clock (suc i) grown (next_send_time send_time grown) keys
                peers msg _ law long (omega (arith, many)))
      ]
    ]

-- A diffusion to 78 peers or more panics, whatever the peers and the message, with a timer that takes no delay of
-- more than 10 ^ 19 microseconds: the delay grows by a half with each peer, and that of the 78th is too long.
pub diffusion-panics :
    (takes : ℕ → Bool) (clock : ℕ → ℕ) (peers : Map ℕ Handle) (shuffled : List ℕ) (msg : Message)
    (guards : Guards)
    → RefusesLonger takes
    → 78 ≤ length shuffled
    → diffusion takes clock peers shuffled msg guards ≡ panic
unfolding diffusion next_gap_time next_send_time as_i64 round_to round_by goes_up ulp
diffusion-panics takes clock peers shuffled msg guards law many =
    diffuse-panics 77 takes clock 0 base_gap_time (as_i64 base_gap_time) shuffled peers msg guards
      law refl (omega (arith, many))
