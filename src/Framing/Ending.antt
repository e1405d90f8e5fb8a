-- ===== src/Framing/Ending.antt =====
-- The loop of `write` ends.
use bitcoin_client_rust.Framing.{
  WriteContext, WriteResult, WriteEnd, chan_closed, complete, ended, blocked, broken, Offer, takes,
  failed, length_part, payload_part, write_round, is_offered, then_go_on, write,
}
use bitcoin_client_rust.Framing.Codec.{append_assoc}
use bitcoin_client_rust.Framing.Writing.{
  owed, IsWriter, write_round-owed, DecodeState-cases, List-cases,
}
use bitcoin_client_rust.Prelude.{
  ℕ, zero, suc, ◌+◌, ◌*◌, ◌≤◌, ◌<◌, ◌≡◌, refl, sym, ap, ◌∙◌, Bool, true, false, not, Bool-cases,
  Option-cases, some, none, Run, Returns, List, [], ◌∷◌, ◌++◌, length, if◌then◌else◌, ◌==◌, nat_eq,
  arith, inl, inr, ◌⊎◌,
}

-- The rounds until the socket is called or the loop ends.
abbrev rank : WriteContext → ℕ
rank ctx = if is_offered ctx then 1 else elim ctx.state [ length_part ↦ 3 | payload_part ↦ 2 ]

rank-bound : (ctx : WriteContext) → rank ctx ≤ 3
rank-bound ctx = elim (Bool-cases (is_offered ctx)) [
  | inl e ↦ rw e (omega arith)
  | inr e ↦ elim (DecodeState-cases ctx.state) [
    | inl part ↦ rw (e, part) (omega arith)
    | inr part ↦ rw (e, part) (omega arith)
  ]
]

not-false : (b : Bool) → not b ≡ false → b ≡ true
not-false true e = refl
not-false false e = sym e

rank-low : (ctx : WriteContext) → 0 < rank ctx
rank-low ctx = elim (Bool-cases (is_offered ctx)) [
  | inl e ↦ rw e (omega arith)
  | inr e ↦ elim (DecodeState-cases ctx.state) [
    | inl part ↦ rw (e, part) (omega arith)
    | inr part ↦ rw (e, part) (omega arith)
  ]
]

-- A round that does not call the socket ends the loop or comes nearer to the next call.
silent-rank :
    (ctx : WriteContext)
    → is_offered ctx ≡ false
    → ((result : WriteResult) × ((write_round 0 ctx).1 ≡ some result))
      ⊎ (((write_round 0 ctx).1 ≡ none) × (rank (write_round 0 ctx).0.0 < rank ctx))
unfolding write_round is_offered
silent-rank ctx quiet = elim (DecodeState-cases ctx.state) [
  | inl part ↦
      let full : (ctx.written_length == 4) ≡ true = not-false _ (rw part at quiet) in
      rw (part, full)
        (inr (
          refl,
          elim (Bool-cases (0 == ctx.msg_length)) [
            | inl none_left ↦ rw none_left (omega arith)
            | inr more ↦ rw more (omega arith)
          ],
        ))
  | inr part ↦
      let full : (ctx.written_length == ctx.msg_length) ≡ true = not-false _ (rw part at quiet) in
      elim (List-cases ctx.queue) [
        | inl empty ↦
            inl (if ctx.closed then chan_closed else complete, rw (part, full, empty) refl)
        | inr (m, ms, next) ↦ rw (part, full, next) (inr (refl, omega arith))
      ]
]

-- The end of the loop, with what it sent.
abbrev Sends : WriteContext → (WriteContext × List ℕ) × WriteEnd → Type 0
Sends ctx ((next, sent), end) = IsWriter next × (owed ctx ≡ sent ++ owed next)

round-Sends :
    (taken : ℕ) (ctx : WriteContext) (rest : Run ((WriteContext × List ℕ) × WriteEnd))
    → IsWriter ctx
    → ((write_round taken ctx).1 ≡ none → Returns rest (Sends (write_round taken ctx).0.0))
    → Returns (then_go_on (write_round taken ctx) rest) (Sends ctx)
unfolding then_go_on
round-Sends taken ctx rest valid after =
    let (fits, first) = write_round-owed taken ctx valid in
    elim (Option-cases (write_round taken ctx).1) [
      | inl goes_on ↦
          let (r, done, (sound, owes)) = after goes_on in
          (
            ((r.0.0, (write_round taken ctx).0.1 ++ r.0.1), r.1),
            rw (goes_on, done) refl,
            (
              sound,
              first
                  ∙ (ap (λ zs. (write_round taken ctx).0.1 ++ zs) owes
                      ∙ sym (append_assoc (write_round taken ctx).0.1 r.0.1 (owed r.0.0))),
            ),
          )
      | inr (result, stops) ↦
          (((write_round taken ctx).0, ended result), rw stops refl, (fits, first))
    ]

-- A round without the socket, and a loop that ends from there.
quiet-Sends :
    (fuel : ℕ) (offers : List Offer) (ctx : WriteContext)
    → IsWriter ctx
    → is_offered ctx ≡ false
    → (rank (write_round 0 ctx).0.0 < rank ctx
        → Returns (write fuel offers (write_round 0 ctx).0.0) (Sends (write_round 0 ctx).0.0))
    → Returns (write (suc fuel) offers ctx) (Sends ctx)
unfolding write
quiet-Sends fuel offers ctx valid quiet after = rw quiet (
    round-Sends 0 ctx _ valid λ goes_on. elim (silent-rank ctx quiet) [
      | inl (result, stops) ↦ absurd (cc (goes_on, stops))
      | inr (same, nearer) ↦ after nearer
    ])

write-Sends :
    (fuel : ℕ) (offers : List Offer) (ctx : WriteContext)
    → IsWriter ctx
    → 3 * length offers + rank ctx ≤ fuel
    → Returns (write fuel offers ctx) (Sends ctx)
unfolding write
write-Sends zero offers ctx valid enough = absurd (omega (arith, rank-low ctx, enough))
write-Sends (suc fuel) [] ctx valid enough = elim (Bool-cases (is_offered ctx)) [
  | inl offering ↦ rw offering (((ctx, []), blocked), refl, (valid, refl))
  | inr quiet ↦ quiet-Sends fuel [] ctx valid quiet λ nearer.
      write-Sends fuel [] (write_round 0 ctx).0.0 (write_round-owed 0 ctx valid).0
        (omega (arith, nearer, enough))
]
write-Sends (suc fuel) (failed ∷ offers) ctx valid enough = elim (Bool-cases (is_offered ctx)) [
  | inl offering ↦ rw offering (((ctx, []), broken), refl, (valid, refl))
  | inr quiet ↦ quiet-Sends fuel (failed ∷ offers) ctx valid quiet λ nearer.
      write-Sends fuel (failed ∷ offers) (write_round 0 ctx).0.0 (write_round-owed 0 ctx valid).0
        (omega (arith, nearer, enough))
]
write-Sends (suc fuel) (takes n ∷ offers) ctx valid enough = elim (Bool-cases (is_offered ctx)) [
  | inl offering ↦ rw offering (
      round-Sends n ctx _ valid λ goes_on.
        write-Sends fuel offers (write_round n ctx).0.0 (write_round-owed n ctx valid).0
          (omega (arith, rank-low ctx, rank-bound (write_round n ctx).0.0, enough)))
  | inr quiet ↦ quiet-Sends fuel (takes n ∷ offers) ctx valid quiet λ nearer.
      write-Sends fuel (takes n ∷ offers) (write_round 0 ctx).0.0 (write_round-owed 0 ctx valid).0
        (omega (arith, nearer, enough))
]

-- On a writer whose places are within its buffers `write` ends, with three rounds for each time that the
-- socket is called and three more. What it sent are the next of the bytes that the writer owed; the writer
-- then owes the others, and its places are within its buffers.
pub write-Returns :
    (fuel : ℕ) (offers : List Offer) (ctx : WriteContext)
    → IsWriter ctx
    → 3 * length offers + 3 ≤ fuel
    → Returns (write fuel offers ctx) λ r. IsWriter r.0.0 × (owed ctx ≡ r.0.1 ++ owed r.0.0)
write-Returns fuel offers ctx valid enough =
    write-Sends fuel offers ctx valid (omega (arith, rank-bound ctx, enough))
