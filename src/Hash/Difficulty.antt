-- ===== src/Hash/Difficulty.antt =====
-- The number that `gen_difficulty_array` of src/helper.rs stands for.
use bitcoin_client_rust.Hash.{from_be_bytes, difficulty_bytes, gen_difficulty_array}
use bitcoin_client_rust.Prelude.{
  ℕ, zero, suc, ◌+◌, ◌-◌, ◌*◌, ◌/◌, ◌^◌, ◌≤◌, ◌<◌, ◌≡◌, ◌≢◌, refl, sym, ◌∷◌, length, ltb,
  Bool-cases, inl, inr, ap, ◌∙◌, ◌==◌, nat_eq, arith,
}

length-difficulty_bytes : (n k : ℕ) → length (difficulty_bytes n k) ≡ n
unfolding difficulty_bytes
length-difficulty_bytes zero k = omega arith
length-difficulty_bytes (suc n) k = omega (arith, length-difficulty_bytes n (k - 8))

-- The first byte before the number of the others.
from_be_bytes-first :
    (b n k : ℕ)
    → from_be_bytes (b ∷ difficulty_bytes n k) ≡ b * 256 ^ n + from_be_bytes (difficulty_bytes n k)
unfolding from_be_bytes
from_be_bytes-first b n k = rw (length-difficulty_bytes n k) refl

swap : (a b c : ℕ) → a * b * c ≡ a * c * b
swap a b c = grind arith

-- A first byte of `k` leading zeros, before bytes of no leading zeros.
partial_byte : (b p v m : ℕ) → (b + 1) * p ≡ 256 → v + 1 ≡ m → (b * m + v + 1) * p ≡ 256 * m
partial_byte b p v m whole ones =
    let same : b * m + v + 1 ≡ (b + 1) * m = grind (arith, ones) in
    ap (λ n. n * p) same ∙ (swap (b + 1) m p ∙ ap (λ n. n * m) whole)

zero_byte : (p v m : ℕ) → (v + 1) * p ≡ m → (0 * m + v + 1) * (256 * p) ≡ 256 * m
zero_byte p v m e = grind (arith, e)

power_suc : (n : ℕ) → 256 ^ suc n ≡ 256 * 256 ^ n
power_suc n = grind arith

power_of_8 : (j : ℕ) → 2 ^ suc (suc (suc (suc (suc (suc (suc (suc j))))))) ≡ 256 * 2 ^ j
power_of_8 j = grind arith

power_8 : (k : ℕ) → 8 ≤ k → 2 ^ k ≡ 256 * 2 ^ (k - 8)
power_8 k high =
    let e : k ≡ suc (suc (suc (suc (suc (suc (suc (suc (k - 8)))))))) = omega (arith, high) in
    ap (λ i. 2 ^ i) e ∙ power_of_8 (k - 8)

small_byte : (k : ℕ) → k < 8 → k ≢ 0 → (255 / 2 ^ k + 1) * 2 ^ k ≡ 256
small_byte zero low some_zeros = absurd (some_zeros refl)
small_byte (suc zero) low some_zeros = refl
small_byte (suc (suc zero)) low some_zeros = refl
small_byte (suc (suc (suc zero))) low some_zeros = refl
small_byte (suc (suc (suc (suc zero)))) low some_zeros = refl
small_byte (suc (suc (suc (suc (suc zero))))) low some_zeros = refl
small_byte (suc (suc (suc (suc (suc (suc zero)))))) low some_zeros = refl
small_byte (suc (suc (suc (suc (suc (suc (suc zero))))))) low some_zeros = refl
small_byte (suc (suc (suc (suc (suc (suc (suc (suc k)))))))) low some_zeros =
    absurd (omega (arith, low))

size : (n k : ℕ) → 256 ^ length (difficulty_bytes n k) ≡ 256 ^ n
size n k = ap (λ i. 256 ^ i) (length-difficulty_bytes n k)

whole : (n k : ℕ) → 256 * 256 ^ length (difficulty_bytes n k) ≡ 256 ^ suc n
whole n k = ap (λ m. 256 * m) (size n k) ∙ sym (power_suc n)

-- The number of the bytes and one, 2 ^ k times, is the number of values of the bytes.
difficulty_bytes-value :
    (n k : ℕ) → k ≤ 8 * n → (from_be_bytes (difficulty_bytes n k) + 1) * 2 ^ k ≡ 256 ^ n
unfolding difficulty_bytes from_be_bytes
difficulty_bytes-value zero k low = let e : k ≡ 0 = omega (arith, low) in rw e refl
difficulty_bytes-value (suc n) k low = elim (Bool-cases (k == 0)) [
  | inl none_left ↦
      let e : k ≡ 0 = ground arith in
      let rest = difficulty_bytes-value n 0 (omega arith) in
      let ones : from_be_bytes (difficulty_bytes n 0) + 1 ≡ 256 ^ n = omega (arith, rest) in
      rw e (partial_byte 255 1 _ _ refl (ones ∙ sym (size n 0)) ∙ whole n 0)
  | inr some_zeros ↦ elim (Bool-cases (ltb k 8)) [
    | inl few ↦
        let rest = difficulty_bytes-value n 0 (omega arith) in
        let ones : from_be_bytes (difficulty_bytes n 0) + 1 ≡ 256 ^ n = omega (arith, rest) in
        let gone : k - 8 ≡ 0 = ground arith in
        rw (some_zeros, few, gone)
          (partial_byte (255 / 2 ^ k) (2 ^ k) _ _ (small_byte k (ground arith) (ground arith))
              (ones ∙ sym (size n 0))
            ∙ whole n 0)
    | inr many ↦
        let rest = difficulty_bytes-value n (k - 8) (omega (arith, low)) in
        rw (some_zeros, many)
          (ap
              (λ p.
                (0 * 256 ^ length (difficulty_bytes n (k - 8))
                  + from_be_bytes (difficulty_bytes n (k - 8))
                  + 1)
                * p)
              (power_8 k (ground arith))
            ∙ (zero_byte (2 ^ (k - 8)) _ _ (rest ∙ sym (size n (k - 8))) ∙ whole n (k - 8)))
  ]
]

-- A difficulty of up to 256 leading zero bits is 2 ^ (256 - k) - 1: its number and one, 2 ^ k times, is
-- 2 ^ 256.
pub gen_difficulty_array-value :
    (k : ℕ) → k ≤ 256 → (from_be_bytes (gen_difficulty_array k).bytes + 1) * 2 ^ k ≡ 2 ^ 256
unfolding gen_difficulty_array
gen_difficulty_array-value k low = difficulty_bytes-value 32 k (omega (arith, low))
