-- ===== src/Hash/Order.antt =====
-- The order on hashes and addresses of src/crypto/hash.rs, as numbers.
use Prim.Native.Nat.pow
use native.Mathlib.Omega.{pow_step}
use bitcoin_client_rust.Ring.{IsBytes}
use bitcoin_client_rust.Hash.{H256, H160, from_be_bytes, cmp, cmp_address, try_into_16, lt}
use bitcoin_client_rust.Prelude.{
  ℕ, zero, suc, ◌+◌, ◌*◌, ◌^◌, ◌<◌, ◌≡◌, refl, ap, ◌∙◌, sym, true, false, List, [], ◌∷◌, length,
  take, drop, All, ◌==◌, nat_eq, panic, arith, ltb,
}

suc_plus : (n m : ℕ) → suc n + m ≡ suc (n + m)
suc_plus n m = omega arith

zero_plus : (m : ℕ) → 0 + m ≡ m
zero_plus m = omega arith

times_assoc : (a b c : ℕ) → a * (b * c) ≡ a * b * c
times_assoc a b c = grind arith

one_times : (k : ℕ) → k ≡ 1 * k
one_times k = omega arith

pow_add : (n m : ℕ) → 256 ^ (n + m) ≡ 256 ^ n * 256 ^ m
pow_add zero m =
    ap (λ k. 256 ^ k) (zero_plus m)
    ∙ one_times (256 ^ m)
    ∙ sym (ap (λ k. k * 256 ^ m) (pow.zero 256))
pow_add (suc n) m =
    ap (λ k. 256 ^ k) (suc_plus n m)
    ∙ pow_step 256 (n + m)
    ∙ ap (λ k. 256 * k) (pow_add n m)
    ∙ times_assoc 256 (256 ^ n) (256 ^ m)
    ∙ sym (ap (λ k. k * 256 ^ m) (pow_step 256 n))

length-take : (n m : ℕ) (bs : List ℕ) → length bs ≡ n + m → length (take n bs) ≡ n
length-take zero m bs e = refl
length-take (suc n) m [] e = omega arith
length-take (suc n) m (b ∷ bs) e = ap suc (length-take n m bs (omega arith))

length-drop : (n m : ℕ) (bs : List ℕ) → length bs ≡ n + m → length (drop n bs) ≡ m
length-drop zero m bs e = omega (arith, e)
length-drop (suc n) m [] e = omega arith
length-drop (suc n) m (b ∷ bs) e = length-drop n m bs (omega arith)

-- The number of the bytes splits where the bytes are split.
from_be_bytes-split :
    (n m : ℕ) (bs : List ℕ)
    → length bs ≡ n + m
    → from_be_bytes bs ≡ from_be_bytes (take n bs) * 256 ^ m + from_be_bytes (drop n bs)
unfolding from_be_bytes
from_be_bytes-split zero m bs e = omega arith
from_be_bytes-split (suc n) m [] e = omega arith
from_be_bytes-split (suc n) m (b ∷ bs) e =
    grind (
      arith,
      from_be_bytes-split n m bs (omega arith),
      length-take n m bs (omega arith),
      pow_add n m,
    )

from_be_bytes-bound : (bs : List ℕ) → All (λ b. b < 256) bs → from_be_bytes bs < 256 ^ length bs
unfolding from_be_bytes
from_be_bytes-bound [] h = omega arith
from_be_bytes-bound (b ∷ bs) h = grind (arith, from_be_bytes-bound bs h.1)

-- The slices 0..16 and 16..20 of an address.
upper : (a : H160) → length a.bytes ≡ 20 → (length (take 16 a.bytes) == 16) ≡ true
upper a p = rw (length-take 16 4 a.bytes (omega arith)) refl

lower : (a : H160) → length a.bytes ≡ 20 → (length (take 4 (drop 16 a.bytes)) == 16) ≡ false
lower a p =
    rw (length-take 4 0 (drop 16 a.bytes) (omega (arith, length-drop 16 4 a.bytes (omega arith))))
      refl

-- `H160::cmp` panics on every pair of addresses: it converts the four bytes 16..20 to `[u8; 16]`.
pub cmp_address-panics :
    (a b : H160) → length a.bytes ≡ 20 → length b.bytes ≡ 20 → cmp_address a b ≡ panic
unfolding cmp_address try_into_16
cmp_address-panics a b p q = rw (upper a p, lower a p) refl

-- The bytes of a part of the array are bytes.
All-take : (n : ℕ) (bs : List ℕ) → All (λ b. b < 256) bs → All (λ b. b < 256) (take n bs)
All-take zero bs h = tt
All-take (suc n) [] h = tt
All-take (suc n) (b ∷ bs) h = (h.0, All-take n bs h.1)

All-drop : (n : ℕ) (bs : List ℕ) → All (λ b. b < 256) bs → All (λ b. b < 256) (drop n bs)
All-drop zero bs h = h
All-drop (suc n) [] h = tt
All-drop (suc n) (b ∷ bs) h = All-drop n bs h.1

take-all : (n : ℕ) (bs : List ℕ) → length bs ≡ n → take n bs ≡ bs
take-all zero [] e = refl
take-all zero (b ∷ bs) e = absurd (omega (arith, e))
take-all (suc n) [] e = refl
take-all (suc n) (b ∷ bs) e = ap (λ cs. b ∷ cs) (take-all n bs (omega arith))

-- A hash as its two halves.
halves :
    (h : H256)
    → IsBytes 32 h.bytes
    → (from_be_bytes h.bytes
        ≡ from_be_bytes (take 16 h.bytes) * 256 ^ 16 + from_be_bytes (take 16 (drop 16 h.bytes)))
      × (from_be_bytes (take 16 (drop 16 h.bytes)) < 256 ^ 16)
halves h (len, small) =
    let rest = length-drop 16 16 h.bytes (omega arith) in
    let same = take-all 16 (drop 16 h.bytes) rest in
    let bound = from_be_bytes-bound (drop 16 h.bytes) (All-drop 16 h.bytes small) in
    (rw same (from_be_bytes-split 16 16 h.bytes (omega arith)), rw same (rw rest at bound))

-- `<` on hashes is `<` on the 256-bit numbers whose big-endian bytes they are.
pub lt-from_be_bytes :
    (a b : H256)
    → IsBytes 32 a.bytes
    → IsBytes 32 b.bytes
    → lt a b ≡ ltb (from_be_bytes a.bytes) (from_be_bytes b.bytes)
unfolding lt cmp
lt-from_be_bytes a b p q =
    let (x, y) = halves a p in let (z, w) = halves b q in rw (x, z) (ground (arith, y, w))
