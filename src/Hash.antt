-- ===== src/Hash.antt =====
-- src/crypto/hash.rs: hashes and addresses as byte arrays, their order, and the conversion between
-- them; src/helper.rs: `gen_difficulty_array`.
use Prim.Native.Nat.{compare, Ordering}
use bitcoin_client_rust.Ring.{Ring}
use bitcoin_client_rust.Prelude.{
  ℕ, zero, suc, ◌+◌, ◌-◌, ◌*◌, ◌/◌, ◌%◌, ◌^◌, ◌≡◌, refl, ap, ◌↔◌, Bool, true, false, Option, none,
  some, List, [], ◌∷◌, ◌++◌, length, take, drop, replicate, if◌then◌else◌, ltb, leb, Eq, ◌==◌,
  nat_eq, list_beq, list_beq_iff, Run, ok, ◌>>=◌, unwrap, arith,
}
pub mod Order
pub mod Difficulty

-- `[u8; 32]` and `[u8; 20]`; the lengths are hypotheses where they matter (`IsBytes`).
pub record H256 : Type 0 where
  pub bytes : List ℕ

pub record H160 : Type 0 where
  pub bytes : List ℕ

pub H256_beq_iff : (a b : H256) → (list_beq a.bytes b.bytes ≡ true) ↔ (a ≡ b)
H256_beq_iff a b = (
  λ h. ap (λ bs. record { bytes = bs }) ((list_beq_iff a.bytes b.bytes).0 h),
  λ p. (list_beq_iff a.bytes b.bytes).1 (ap (λ (h : H256). h.bytes) p),
)

pub H160_beq_iff : (a b : H160) → (list_beq a.bytes b.bytes ≡ true) ↔ (a ≡ b)
H160_beq_iff a b = (
  λ h. ap (λ bs. record { bytes = bs }) ((list_beq_iff a.bytes b.bytes).0 h),
  λ p. (list_beq_iff a.bytes b.bytes).1 (ap (λ (h : H160). h.bytes) p),
)

-- `#[derive(Eq, PartialEq)]`
instance abbrev pub H256_eq : Eq H256
H256_eq = record { beq = λ a b. list_beq a.bytes b.bytes; reflects = H256_beq_iff }

instance abbrev pub H160_eq : Eq H160
H160_eq = record { beq = λ a b. list_beq a.bytes b.bytes; reflects = H160_beq_iff }

-- `concat_hash`, as the new value of `self`.
unfoldable pub concat_hash : ⦃ring : Ring⦄ → H256 → H256 → Bool → H256
concat_hash ⦃ring⦄ self input left = record {
  bytes = ring.sha256 (if left then self.bytes ++ input.bytes else input.bytes ++ self.bytes);
}

-- `to_address` and `From<H256> for H160`: the bytes 12..32.
unfoldable pub to_address : H256 → H160
to_address h = record { bytes = take 20 (drop 12 h.bytes) }

-- `impl Hashable for H256`
unfoldable pub hash : ⦃ring : Ring⦄ → H256 → H256
hash ⦃ring⦄ h = record { bytes = ring.sha256 h.bytes }

-- `From<Digest> for H160`
unfoldable pub address_of_digest : List ℕ → H160
unfolding to_address
address_of_digest digest = let h256 : H256 = record { bytes = digest } in to_address h256

-- `u128::from_be_bytes`, over any number of bytes.
unfoldable pub from_be_bytes : List ℕ → ℕ
from_be_bytes [] = 0
from_be_bytes (b ∷ bs) = b * 256 ^ length bs + from_be_bytes bs

-- `to_be_bytes` of an integer of `w` bytes.
unfoldable pub to_be_bytes : ℕ → ℕ → List ℕ
to_be_bytes zero n = []
to_be_bytes (suc w) n = n / 256 ^ w % 256 ∷ to_be_bytes w n

-- `<[u8; 16]>::try_from(&[u8])`: any other length is an error.
unfoldable pub try_into_16 : List ℕ → Option (List ℕ)
try_into_16 bs = if length bs == 16 then some bs else none

-- `Ord for H256`: the higher half first, then the lower. The halves of `[u8; 32]` are `[u8; 16]`.
unfoldable pub cmp : H256 → H256 → Ordering
unfolding from_be_bytes
cmp self other =
    let self_higher = from_be_bytes (take 16 self.bytes) in
    let self_lower = from_be_bytes (take 16 (drop 16 self.bytes)) in
    let other_higher = from_be_bytes (take 16 other.bytes) in
    let other_lower = from_be_bytes (take 16 (drop 16 other.bytes)) in
    elim (compare self_higher other_higher) [
      | Ordering.eq ↦ compare self_lower other_lower
      | Ordering.lt ↦ Ordering.lt
      | Ordering.gt ↦ Ordering.gt
    ]

-- `Ord for H160`: the second half is the slice 16..20.
unfoldable pub cmp_address : H160 → H160 → Run Ordering
unfolding from_be_bytes try_into_16
cmp_address self other = unwrap (try_into_16 (take 16 self.bytes)) >>= λ self_higher.
    unwrap (try_into_16 (take 4 (drop 16 self.bytes))) >>= λ self_lower.
    unwrap (try_into_16 (take 16 other.bytes)) >>= λ other_higher.
    unwrap (try_into_16 (take 4 (drop 16 other.bytes))) >>= λ other_lower.
    let higher = compare (from_be_bytes self_higher) (from_be_bytes other_higher) in
    ok (elim higher [
      | Ordering.eq ↦ compare (from_be_bytes self_lower) (from_be_bytes other_lower)
      | Ordering.lt ↦ Ordering.lt
      | Ordering.gt ↦ Ordering.gt
    ])

-- `<` through `partial_cmp`, which is `Some(self.cmp(other))`.
unfoldable pub lt : H256 → H256 → Bool
unfolding cmp
lt a b = elim (cmp a b) [ Ordering.lt ↦ true | _ ↦ false ]

-- The loop of `gen_difficulty_array` over the bytes that are left. The count never matters once it
-- is 0 or less, so it is a natural number; a count below 0 at the call acts as 0.
unfoldable pub difficulty_bytes : ℕ → ℕ → List ℕ
difficulty_bytes zero zero_cnt = []
difficulty_bytes (suc n) zero_cnt =
    (if zero_cnt == 0 then 255 else if ltb zero_cnt 8 then 255 / 2 ^ zero_cnt else 0)
    ∷ difficulty_bytes n (zero_cnt - 8)

unfoldable pub gen_difficulty_array : ℕ → H256
unfolding difficulty_bytes
gen_difficulty_array zero_cnt = record { bytes = difficulty_bytes 32 zero_cnt }
