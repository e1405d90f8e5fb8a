-- ===== src/Merkle/Binding.antt =====
-- What an accepted proof binds: another datum at the same place needs two messages of one digest.
use bitcoin_client_rust.Ring.{Ring, IsRing}
use bitcoin_client_rust.Hash.{H256, H256_eq, concat_hash}
use bitcoin_client_rust.Merkle.{fold_proof, verify}
use bitcoin_client_rust.Prelude.{
  ℕ, ◌%◌, ◌/◌, ◌≡◌, ◌≢◌, refl, sym, ap, ◌∙◌, ◌⊎◌, inl, inr, Bool, true, false, List, [], ◌∷◌, ◌++◌,
  length, ◌==◌, ==_iff, nat_eq, length-append, if◌then◌else◌, Bool-cases, list_beq, list_beq_iff,
  arith,
}

-- Two messages with the same SHA-256 digest.
abbrev pub Collision : Ring → Type 0
Collision ring = (x : List ℕ) × (y : List ℕ) × ((x ≢ y) × (ring.sha256 x ≡ ring.sha256 y))

-- Equal messages whose first parts are equally long have equal parts.
split_equal :
    (xs ys us vs : List ℕ) → length xs ≡ length us → xs ++ ys ≡ us ++ vs → (xs ≡ us) × (ys ≡ vs)
split_equal [] ys [] vs len e = (refl, e)
split_equal [] ys (u ∷ us) vs len e = absurd (omega (arith, len))
split_equal (x ∷ xs) ys [] vs len e = absurd (omega (arith, len))
split_equal (x ∷ xs) ys (u ∷ us) vs len e =
    let tails : xs ++ ys ≡ us ++ vs = cc e in
    let heads : x ≡ u = cc e in
    let (p, q) = split_equal xs ys us vs (omega (arith, len)) tails in (cc (heads, p), q)

-- The message that a step of the proof hashes.
abbrev message_of : List ℕ → List ℕ → Bool → List ℕ
message_of d h left = if left then d ++ h else h ++ d

message_of-cancel :
    (d h e k : List ℕ) (left : Bool)
    → length d ≡ length e
    → message_of d h left ≡ message_of e k left
    → d ≡ e
message_of-cancel d h e k true len same = (split_equal d h e k len same).0
message_of-cancel d h e k false len same =
    (split_equal h d k e (omega (arith, len, ap length same, length-append h d, length-append k e))
      same).1

module _ ⦃ring : Ring⦄ where
  same_or_Collision :
      (d e h k : H256) (left : Bool)
      → length d.bytes ≡ length e.bytes
      → concat_hash d h left ≡ concat_hash e k left
      → (d ≡ e) ⊎ Collision ring
  unfolding concat_hash
  same_or_Collision d e h k left len same =
      let x = message_of d.bytes h.bytes left in
      let y = message_of e.bytes k.bytes left in
      elim (Bool-cases (list_beq x y)) [
        | inl equal ↦ inl (
            ap (λ bs. record { bytes = bs })
              (message_of-cancel d.bytes h.bytes e.bytes k.bytes left len
                ((list_beq_iff x y).0 equal)))
        | inr other ↦
            inr (x, y, (λ p. cc ((list_beq_iff x y).1 p, other), ap (λ (z : H256). z.bytes) same))
      ]

  concat_hash-length :
      (d h : H256) (left : Bool) → IsRing ring → length (concat_hash d h left).bytes ≡ 32
  unfolding concat_hash
  concat_hash-length d h left is_ring = (is_ring.sha256-IsBytes _).0

  fold_proof-binds :
      (hs ks : List H256) (d e : H256) (bits : ℕ)
      → IsRing ring
      → length hs ≡ length ks
      → length d.bytes ≡ length e.bytes
      → fold_proof d hs bits ≡ fold_proof e ks bits
      → (d ≡ e) ⊎ Collision ring
  unfolding fold_proof
  fold_proof-binds [] [] d e bits is_ring len same equal = inl equal
  fold_proof-binds [] (k ∷ ks) d e bits is_ring len same equal = absurd (omega (arith, len))
  fold_proof-binds (h ∷ hs) [] d e bits is_ring len same equal = absurd (omega (arith, len))
  fold_proof-binds (h ∷ hs) (k ∷ ks) d e bits is_ring len same equal =
      let left = bits % 2 == 0 in
      elim (fold_proof-binds hs ks (concat_hash d h left) (concat_hash e k left) (bits / 2) is_ring
        (omega (arith, len))
        (concat_hash-length d h left is_ring ∙ sym (concat_hash-length e k left is_ring)) equal) [
          | inl joined ↦ same_or_Collision d e h k left same joined
          | inr found ↦ inr found
        ]

  -- If `verify` accepts two data of the same length at one place, with proofs of one length, under one
  -- root, then the data are the same, or two different messages with one SHA-256 digest are at hand.
  pub verify-binds :
      (root d e : H256) (hs ks : List H256) (index : ℕ)
      → IsRing ring
      → length hs ≡ length ks
      → length d.bytes ≡ length e.bytes
      → verify root d hs index ≡ true
      → verify root e ks index ≡ true
      → (d ≡ e) ⊎ Collision ring
  unfolding verify
  verify-binds root d e hs ks index is_ring len same first second =
      fold_proof-binds hs ks d e index is_ring len same (
        (==_iff (fold_proof d hs index) root).0 first
        ∙ sym ((==_iff (fold_proof e ks index) root).0 second))
