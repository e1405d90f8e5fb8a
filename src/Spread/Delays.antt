-- ===== src/Spread/Delays.antt =====
-- The delays that `diffusion` of src/spread.rs asks of the timer.
use bitcoin_client_rust.Message.{Message, Handle}
use bitcoin_client_rust.Spread.{
  TimerTask, Guards, peer_write, schedule, schedule_writes, base_gap_time, next_gap_time, as_i64,
  next_send_time, diffuse, diffusion,
}
use bitcoin_client_rust.Prelude.Float.{round_to, round_by, goes_up, ulp}
use bitcoin_client_rust.Prelude.Map
use bitcoin_client_rust.Prelude.Map.{Map}
use bitcoin_client_rust.Prelude.{
  ℕ, zero, suc, ◌+◌, ◌*◌, ◌^◌, ◌<◌, ◌≤◌, ◌≡◌, refl, inl, inr, Bool, true, false, ◌&&◌, some, List,
  [], ◌∷◌, In, length, ltb, leb, ok, Returns, arith, nat_eq,
}

-- Each listed key has its handle.
abbrev pub Listed : List ℕ → Map ℕ Handle → Type 0
Listed keys peers = (k : ℕ) → In k keys → (h : Handle) × (Map.get k peers ≡ some h)

-- The timer takes each delay of at most 8 * 10 ^ 18 microseconds, or 253,000 years: a date goes to the year 262143.
abbrev pub TakesDates : (ℕ → Bool) → Type 0
TakesDates takes = (delay : ℕ) → delay ≤ 8 * 10 ^ 18 → takes delay ≡ true

-- The timer takes none of more than 10 ^ 19 microseconds, up to the largest number of milliseconds in an `i64`.
abbrev pub RefusesLonger : (ℕ → Bool) → Type 0
RefusesLonger takes = (delay : ℕ) → 10 ^ 19 < delay → delay < 2 ^ 63 * 1000 → takes delay ≡ false

pub schedule-Returns :
    (takes : ℕ → Bool) (nano delay : ℕ) (task : TimerTask) (guards : Guards)
    → TakesDates takes
    → delay ≤ 8 * 10 ^ 18
    → schedule takes nano delay task guards ≡ ok (Map.insert nano (delay, task) guards)
unfolding schedule
schedule-Returns takes nano delay task guards law small = rw (law delay small) refl

pub schedule_writes-Returns :
    (delay : ℕ → ℕ) (takes : ℕ → Bool) (clock : ℕ → ℕ) (i : ℕ) (keys : List ℕ)
    (peers : Map ℕ Handle) (msg : Message) (guards : Guards)
    → TakesDates takes
    → ((j : ℕ) → j < i + length keys → delay j ≤ 8 * 10 ^ 18)
    → Listed keys peers
    → Returns (schedule_writes delay takes clock i keys peers msg guards) λ g. Unit {0}
unfolding schedule_writes
schedule_writes-Returns delay takes clock i [] peers msg guards law small listed =
    (guards, refl, tt)
schedule_writes-Returns delay takes clock i (k ∷ keys) peers msg guards law small listed =
    let (h, found) = listed k (inl refl) in
    let next = Map.insert (clock i) (delay i, peer_write h msg) guards in
    let taken =
      schedule-Returns takes (clock i) (delay i) (peer_write h msg) guards law
        (small i (omega arith)) in
    let (g, run, _) =
      schedule_writes-Returns delay takes clock (suc i) keys peers msg next law
        (λ j less. small j (omega (arith, less))) (λ j m. listed j (inr m)) in
    (g, rw (found, taken) run, tt)

-- Whether the first `n` delays of the loop are short enough.
abbrev within : ℕ → ℕ → ℕ → Bool
within zero gap_time send_time = true
within (suc n) gap_time send_time =
    let grown = next_gap_time gap_time in
    leb (send_time * 1000) (8 * 10 ^ 18) && within n grown (next_send_time send_time grown)

-- Whether the delay after `n` rounds of the loop is too long.
abbrev pub exceeds : ℕ → ℕ → ℕ → Bool
exceeds zero gap_time send_time =
    ltb (10 ^ 19) (send_time * 1000) && ltb (send_time * 1000) (2 ^ 63 * 1000)
exceeds (suc n) gap_time send_time =
    let grown = next_gap_time gap_time in exceeds n grown (next_send_time send_time grown)

pub both : (a b : Bool) → (a && b) ≡ true → (a ≡ true) × (b ≡ true)
both true true e = (refl, refl)
both true false e = cc e
both false b e = cc e

leb-le : (m n : ℕ) → leb m n ≡ true → m ≤ n
leb-le m n e = ground (arith, e)

diffuse-Returns :
    (n : ℕ) (takes : ℕ → Bool) (clock : ℕ → ℕ) (i gap_time send_time : ℕ) (keys : List ℕ)
    (peers : Map ℕ Handle) (msg : Message) (guards : Guards)
    → TakesDates takes
    → within n gap_time send_time ≡ true
    → length keys ≤ n
    → Listed keys peers
    → Returns (diffuse takes clock i gap_time send_time keys peers msg guards) λ g. Unit {0}
unfolding diffuse
diffuse-Returns n takes clock i gap_time send_time [] peers msg guards law small few listed =
    (guards, refl, tt)
diffuse-Returns zero takes clock i gap_time send_time (k ∷ keys) peers msg guards law small few
      listed =
    absurd (omega (arith, few))
diffuse-Returns (suc n) takes clock i gap_time send_time (k ∷ keys) peers msg guards law small few
      listed =
    let (h, found) = listed k (inl refl) in
    let grown = next_gap_time gap_time in
    let (now, later) =
      both (leb (send_time * 1000) (8 * 10 ^ 18)) (within n grown (next_send_time send_time grown))
        small in
    let next = Map.insert (clock i) (send_time * 1000, peer_write h msg) guards in
    let taken =
      schedule-Returns takes (clock i) (send_time * 1000) (peer_write h msg) guards law
        (leb-le (send_time * 1000) (8 * 10 ^ 18) now) in
    let (g, run, _) =
      diffuse-Returns n takes clock (suc i) grown (next_send_time send_time grown) keys peers msg
        next law later (omega (arith, few)) (λ j m. listed j (inr m)) in
    (g, rw (found, taken) run, tt)

-- `diffusion` schedules its writes to up to 77 peers that are there.
pub diffusion-Returns :
    (takes : ℕ → Bool) (clock : ℕ → ℕ) (peers : Map ℕ Handle) (shuffled : List ℕ) (msg : Message)
    (guards : Guards)
    → TakesDates takes
    → length shuffled ≤ 77
    → Listed shuffled peers
    → Returns (diffusion takes clock peers shuffled msg guards) λ g. Unit {0}
unfolding diffusion next_gap_time next_send_time as_i64 round_to round_by goes_up ulp
diffusion-Returns takes clock peers shuffled msg guards law few listed =
    diffuse-Returns 77 takes clock 0 base_gap_time (as_i64 base_gap_time) shuffled peers msg guards
      law refl few listed
