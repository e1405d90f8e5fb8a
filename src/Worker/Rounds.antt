-- ===== src/Worker/Rounds.antt =====
-- A round of `worker_loop` of src/network/worker.rs, from the bytes of the channel on.
use bitcoin_client_rust.Ring.{Ring}
use bitcoin_client_rust.Transaction.{Bincode}
use bitcoin_client_rust.Message.{Message, Handle, Effect, write, broadcast}
use bitcoin_client_rust.Worker.{Context, Shared, deliver, worker_round}
use bitcoin_client_rust.Worker.Keeps.{IsNode, NotBlocks, handle-IsNode}
use bitcoin_client_rust.Prelude.{
  ℕ, ◌<◌, ◌^◌, ◌≡◌, refl, subst, inl, inr, true, Option, none, some, List, [], ◌∷◌, ok, panic, Run,
  Returns, Option-cases,
}

deliver-ok : (effects : List Effect) → deliver true effects ≡ ok effects
unfolding deliver
deliver-ok [] = refl
deliver-ok (write peer msg ∷ effects) = rw (deliver-ok effects) refl
deliver-ok (broadcast msg source ∷ effects) = rw (deliver-ok effects) refl

module _ ⦃ring : Ring⦄ ⦃bincode : Bincode⦄ where
  -- A payload that is no message, or a message but `Blocks`.
  abbrev pub Short : Option Message → Type 0
  Short none = Unit
  Short (some msg) = NotBlocks msg

  -- How a round ends, by what its payload decodes to.
  abbrev pub RoundEnds : Option Message → Run (Shared × List Effect) → Type 0
  RoundEnds none call = call ≡ panic
  RoundEnds (some msg) call = Returns call λ r. IsNode r.0

  -- While the server still takes broadcasts, on a node with a valid chain shorter than 2 ^ 31, a valid pool and valid
  -- peers, a worker that receives a payload which is not `Blocks` ends the round in one of two ways: a payload that
  -- decodes to no message panics; any other is handled without a panic, and leaves the chain, the pool and the peers
  -- valid.
  pub worker_round-RoundEnds :
      (decode : List ℕ → Option Message) (fuel : ℕ) (ctx : Context) (clock : ℕ → ℕ) (bytes : List ℕ)
      (peer : Handle) (s : Shared)
      → Short (decode bytes)
      → IsNode s
      → s.blockchain.max_index < 2 ^ 31
      → RoundEnds (decode bytes) (worker_round decode true fuel ctx clock (some (bytes, peer)) s)
  unfolding worker_round
  worker_round-RoundEnds decode fuel ctx clock bytes peer s short valid small =
      elim (Option-cases (decode bytes)) [
        | inl garbage ↦ rw garbage refl
        | inr (msg, decoded) ↦
            let other = subst (λ m. Short m) decoded short in
            let ((next, effects), run, kept) =
              handle-IsNode fuel ctx clock msg peer s other valid small in
            rw decoded ((next, effects), rw (run, deliver-ok effects) refl, kept)
      ]
