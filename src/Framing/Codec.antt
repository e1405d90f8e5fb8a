-- ===== src/Framing/Codec.antt =====
-- The frames of messages as bytes: a length of four bytes, and the payload.
use bitcoin_client_rust.Hash.{from_be_bytes, to_be_bytes}
pub use mathlib.Core.List.{append-nil, append_assoc, head-eq_of_cons-eq, tail-eq_of_cons-eq}
use bitcoin_client_rust.Prelude.{
  ℕ, zero, suc, ◌+◌, ◌-◌, ◌%◌, ◌^◌, ◌≤◌, ◌<◌, ◌≡◌, refl, sym, ap, ◌∙◌, List, [], ◌∷◌, ◌++◌, length,
  take, drop, replicate, arith,
}

-- The length of a frame is read as it was written.
pub from_be_bytes-to_be_bytes : (n : ℕ) → n < 2 ^ 32 → from_be_bytes (to_be_bytes 4 n) ≡ n
unfolding from_be_bytes to_be_bytes
from_be_bytes-to_be_bytes n small = omega (arith, small)

pub length-to_be_bytes : (w n : ℕ) → length (to_be_bytes w n) ≡ w
unfolding to_be_bytes
length-to_be_bytes zero n = omega arith
length-to_be_bytes (suc w) n = omega (arith, length-to_be_bytes w n)

abbrev pub frame : List ℕ → List ℕ
frame m = to_be_bytes 4 (length m % 2 ^ 32) ++ m

-- The bytes of some messages, one after the other.
abbrev pub frames : List (List ℕ) → List ℕ
frames [] = []
frames (m ∷ ms) = frame m ++ frames ms

pub suc_plus : (m n : ℕ) → suc m + n ≡ suc (m + n)
suc_plus m n = omega arith

pub zero_plus : (n : ℕ) → 0 + n ≡ n
zero_plus n = omega arith

module _ {A : Type 0} where
  pub take-drop : (n : ℕ) (xs : List A) → take n xs ++ drop n xs ≡ xs
  take-drop zero xs = refl
  take-drop (suc n) [] = refl
  take-drop (suc n) (x ∷ xs) = ap (λ zs. x ∷ zs) (take-drop n xs)

  -- Two splits of one list at one place are the same.
  pub append-cancel :
      (xs ys us vs : List A) → length xs ≡ length us → xs ++ ys ≡ us ++ vs → (xs ≡ us) × (ys ≡ vs)
  append-cancel [] ys [] vs l e = (refl, e)
  append-cancel [] ys (u ∷ us) vs l e = absurd (omega (arith, l))
  append-cancel (x ∷ xs) ys [] vs l e = absurd (omega (arith, l))
  append-cancel (x ∷ xs) ys (u ∷ us) vs l e =
      let (front, back) = append-cancel xs ys us vs (omega (arith, l)) (tail-eq_of_cons-eq e) in
      (cc (head-eq_of_cons-eq e, front), back)

  pub take-nil : (n : ℕ) → take {A = A} n [] ≡ []
  take-nil zero = refl
  take-nil (suc n) = refl

  drop-nil : (n : ℕ) → drop {A = A} n [] ≡ []
  drop-nil zero = refl
  drop-nil (suc n) = refl

  front-back : (n : ℕ) (xs : List A) → xs ≡ take n xs ++ drop (length (take n xs)) xs
  front-back zero xs = refl
  front-back (suc n) [] = refl
  front-back (suc n) (x ∷ xs) = ap (λ zs. x ∷ zs) (front-back n xs)

  drop-plus : (m n : ℕ) (xs : List A) → drop (m + n) xs ≡ drop n (drop m xs)
  drop-plus zero n xs = ap (λ k. drop k xs) (zero_plus n)
  drop-plus (suc m) n [] = drop-nil (suc m + n) ∙ sym (drop-nil n)
  drop-plus (suc m) n (x ∷ xs) = rw (suc_plus m n) (drop-plus m n xs)

  -- What is behind a place is the next items, and what is behind those.
  pub drop-take :
      (place n : ℕ) (xs : List A)
      → drop place xs ≡ take n (drop place xs) ++ drop (place + length (take n (drop place xs))) xs
  drop-take place n xs =
      front-back n (drop place xs)
      ∙ ap (λ zs. take n (drop place xs) ++ zs)
          (sym (drop-plus place (length (take n (drop place xs))) xs))

  pub length-drop : (n : ℕ) (xs : List A) → length (drop n xs) ≡ length xs - n
  length-drop zero xs = omega arith
  length-drop (suc n) [] = omega arith
  length-drop (suc n) (x ∷ xs) = omega (arith, length-drop n xs)

  pub length-replicate : (n : ℕ) (x : A) → length (replicate n x) ≡ n
  length-replicate zero x = omega arith
  length-replicate (suc n) x = omega (arith, length-replicate n x)

  pub length-take : (n : ℕ) (xs : List A) → n ≤ length xs → length (take n xs) ≡ n
  length-take zero xs room = omega arith
  length-take (suc n) [] room = absurd (omega (arith, room))
  length-take (suc n) (x ∷ xs) room = omega (arith, length-take n xs (omega (arith, room)))

  pub length-take-whole : (n : ℕ) (xs : List A) → length (take n xs) ≤ length xs
  length-take-whole zero xs = omega arith
  length-take-whole (suc n) [] = omega arith
  length-take-whole (suc n) (x ∷ xs) = omega (arith, length-take-whole n xs)

  pub drop-all : (n : ℕ) (xs : List A) → length xs ≤ n → drop n xs ≡ []
  drop-all zero [] h = refl
  drop-all zero (x ∷ xs) h = absurd (omega (arith, h))
  drop-all (suc n) [] h = refl
  drop-all (suc n) (x ∷ xs) h = drop-all n xs (omega (arith, h))

  pub take-all : (n : ℕ) (xs : List A) → length xs ≤ n → take n xs ≡ xs
  take-all n [] h = take-nil n
  take-all zero (x ∷ xs) h = absurd (omega (arith, h))
  take-all (suc n) (x ∷ xs) h = ap (λ zs. x ∷ zs) (take-all n xs (omega (arith, h)))

pub frames-append : (ms ns : List (List ℕ)) → frames (ms ++ ns) ≡ frames ms ++ frames ns
frames-append [] ns = refl
frames-append (m ∷ ms) ns =
    ap (λ zs. frame m ++ zs) (frames-append ms ns)
    ∙ sym (append_assoc (frame m) (frames ms) (frames ns))

pub frames-last : (ms : List (List ℕ)) (m : List ℕ) → frames (ms ++ m ∷ []) ≡ frames ms ++ frame m
frames-last ms m = frames-append ms (m ∷ []) ∙ ap (λ zs. frames ms ++ zs) (append-nil (frame m))
