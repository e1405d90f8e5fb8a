-- ===== src/Merkle/Centre.antt =====
-- Where the nodes of a level of src/crypto/merkle.rs stand, while the floats that place them are exact.
use bitcoin_client_rust.Ring.{Ring}
use bitcoin_client_rust.Merkle.{Node, f32, middle, next_level}
use bitcoin_client_rust.Prelude.Float.{round_to-exact}
use bitcoin_client_rust.Prelude.{
  ℕ, ◌+◌, ◌*◌, ◌/◌, ◌^◌, ◌≤◌, ◌<◌, ◌≡◌, ap, ◌∙◌, ◌⊎◌, inl, inr, List, [], ◌∷◌, arith, ltb, true,
  false,
}

f32-exact : (n : ℕ) → n < 2 ^ 24 → f32 n ≡ n
unfolding f32
f32-exact n small = round_to-exact 24 n small

middle-exact : (l r : ℕ) → l + r < 2 ^ 24 → middle l r ≡ (l + r + 1) / 2
unfolding middle
middle-exact l r small =
    ap (λ n. (n + 1) / 2)
      (ap f32 (λ k. f32-exact l (omega (arith, small)) k + f32-exact r (omega (arith, small)) k)
        ∙ f32-exact (l + r) small)

-- The first index of a level, `c` past the start of what its node covers, is such that two
-- neighbours meet in the middle.
abbrev pub Centred : ℕ → ℕ → Type 0
Centred w c = (c + c + 1 ≡ w) ⊎ (c + c ≡ w)

pub middle-Centred :
    (w c s : ℕ) → Centred w c → s + w + w < 2 ^ 23 → middle (s + c) (s + c + w) ≡ s + w
middle-Centred w c s (inl e) room =
    middle-exact (s + c) (s + c + w) (omega (arith, room)) ∙ omega arith
middle-Centred w c s (inr e) room =
    middle-exact (s + c) (s + c + w) (omega (arith, room)) ∙ omega arith

pub goes_left : (i m : ℕ) → i < m → ltb i m ≡ true
goes_left i m before = ground arith

pub goes_right : (i m : ℕ) → m ≤ i → ltb i m ≡ false
goes_right i m after = ground arith

-- What a level covers by steps of `w`, with one more step.
abbrev pub span : ℕ → List Node → ℕ
span w [] = w
span w (node ∷ nodes) = w + span w nodes

pub span-covers : (w : ℕ) (nodes : List Node) → w ≤ span w nodes
span-covers w [] = omega arith
span-covers w (node ∷ nodes) = omega arith

module _ ⦃ring : Ring⦄ where
  pub span-next_level :
      (w : ℕ) (nodes : List Node) → span (w * 2) (next_level w nodes) ≤ span w nodes + 2 * w
  unfolding next_level
  span-next_level w [] = omega arith
  span-next_level w (node ∷ []) = omega arith
  span-next_level w (l ∷ r ∷ nodes) = omega (arith, span-next_level w nodes)
