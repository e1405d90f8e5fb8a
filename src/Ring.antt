-- ===== src/Ring.antt =====
-- What the source takes from the `ring` crate: SHA-256 and Ed25519 over bytes. They are parameters,
-- and `IsRing` names the documented behaviour that some theorems use.
use bitcoin_client_rust.Prelude.{ℕ, ◌<◌, ◌≡◌, Bool, true, List, length, All}

pub record Ring : Type 0 where
  pub sha256 : List ℕ → List ℕ  -- digest::digest(&digest::SHA256, …)
  pub public_key : List ℕ → List ℕ  -- Ed25519KeyPair::public_key, of a key pair
  pub ed25519_sign : List ℕ → List ℕ → List ℕ  -- Ed25519KeyPair::sign: key pair, message
  pub ed25519_verify : List ℕ → List ℕ → List ℕ → Bool  -- EdDSAParameters.verify: key, message, signature

-- A byte array of the given length.
abbrev pub IsBytes : ℕ → List ℕ → Type 0
IsBytes n bs = (length bs ≡ n) × All (λ b. b < 256) bs

pub record IsRing (ring : Ring) : Type 0 where
  pub sha256-IsBytes : (msg : List ℕ) → IsBytes 32 (ring.sha256 msg)
  pub verify-sign :
      (key msg : List ℕ)
      → ring.ed25519_verify (ring.public_key key) msg (ring.ed25519_sign key msg) ≡ true
