-- ===== src/Miner/Search.antt =====
-- The search for a nonce, and what a found block leaves of the node.
use bitcoin_client_rust.Ring.{Ring}
use bitcoin_client_rust.Hash.{H256, lt}
use bitcoin_client_rust.Block.{Header, change_nonce, header_hash}
use bitcoin_client_rust.Miner.{try_nonces, mining_base, mining_step}
use bitcoin_client_rust.Prelude.{
  ℕ, zero, suc, ◌<◌, ◌≡◌, refl, ◌⊎◌, inl, inr, Bool, true, false, Bool-cases, arith,
}

-- The header after `k` changes of the nonce.
abbrev pub after : ℕ → Header → Header
after zero header = header
after (suc k) header = after k (change_nonce header)

module _ ⦃ring : Ring⦄ where
  -- How the search over `n` nonces ends: at the first nonce that is good enough, or past all of them.
  abbrev pub Searched : ℕ → Header → H256 → Header × Bool → Type 0
  Searched n header difficulty (last, bingo) =
      ((bingo ≡ true)
        × (k : ℕ) × (k < n)
        × (last ≡ after k header)
        × (lt (header_hash last) difficulty ≡ true)
        × ((j : ℕ) → j < k → lt (header_hash (after j header)) difficulty ≡ false))
      ⊎ ((bingo ≡ false)
          × (last ≡ after n header)
          × ((j : ℕ) → j < n → lt (header_hash (after j header)) difficulty ≡ false))

  -- The nonces before `k + 1` are the first one and the `k` after it.
  none_before :
      (k : ℕ) (header : Header) (difficulty : H256)
      → lt (header_hash header) difficulty ≡ false
      → ((j : ℕ) → j < k → lt (header_hash (after j (change_nonce header))) difficulty ≡ false)
      → (j : ℕ) → j < suc k
      → lt (header_hash (after j header)) difficulty ≡ false
  none_before k header difficulty bad rest zero m = bad
  none_before k header difficulty bad rest (suc j) m = rest j (omega arith)

  Searched-later :
      (n : ℕ) (header : Header) (difficulty : H256) {r : Header × Bool}
      → lt (header_hash header) difficulty ≡ false
      → Searched n (change_nonce header) difficulty r
      → Searched (suc n) header difficulty r
  Searched-later n header difficulty bad (inl (hit, k, small, same, good, before)) =
      inl (hit, suc k, omega arith, same, good, none_before k header difficulty bad before)
  Searched-later n header difficulty bad (inr (miss, same, before)) =
      inr (miss, same, none_before n header difficulty bad before)

  try_nonces-Searched :
      (n : ℕ) (header : Header) (difficulty : H256)
      → Searched n header difficulty (try_nonces n header difficulty)
  unfolding try_nonces
  try_nonces-Searched zero header difficulty = inr (refl, refl, λ j m. absurd (omega (arith, m)))
  try_nonces-Searched (suc n) header difficulty =
      elim (Bool-cases (lt (header_hash header) difficulty)) [
        | inl good ↦
            rw (good, try_nonces)
              (inl (refl, 0, omega arith, refl, good, λ j m. absurd (omega (arith, m))))
        | inr bad ↦
            rw (bad, try_nonces)
              (Searched-later n header difficulty bad
                (try_nonces-Searched n (change_nonce header) difficulty))
      ]

  -- `mining_base` tries up to `MINING_STEP` nonces from the one in the header. It answers true with the
  -- first header whose hash is below the difficulty, if there is one among them, and else false with the
  -- header past all of them.
  pub mining_base-Searched :
      (header : Header) (difficulty : H256)
      → Searched mining_step header difficulty (mining_base header difficulty)
  unfolding mining_base
  mining_base-Searched header difficulty = try_nonces-Searched mining_step header difficulty
