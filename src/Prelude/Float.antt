-- ===== src/Prelude/Float.antt =====
-- The rounding of the floats: a number of at most `bits` binary digits, to the nearest, and to even in the middle.
use bitcoin_client_rust.Prelude.{
  ℕ, zero, suc, ◌+◌, ◌*◌, ◌/◌, ◌%◌, ◌^◌, ◌<◌, ◌≡◌, refl, ap, ◌∙◌, Bool, true, false, ◌&&◌, ◌||◌,
  ltb, ◌==◌, nat_eq, if◌then◌else◌, arith,
}

-- The distance of neighbours where `n` lies; a number has at most 256 digits more than the limit.
unfoldable pub ulp : ℕ → ℕ → ℕ → ℕ
ulp zero limit n = 1
ulp (suc fuel) limit n = elim (ltb n limit) [ true ↦ 1 | false ↦ 2 * ulp fuel limit (n / 2) ]

-- Whether the rest of a division goes up.
unfoldable pub goes_up : ℕ → ℕ → ℕ → Bool
goes_up u q r = ltb u (2 * r) || (2 * r == u && q % 2 == 1)

unfoldable pub round_by : ℕ → ℕ → ℕ
unfolding goes_up
round_by u n = u * (if goes_up u (n / u) (n % u) then n / u + 1 else n / u)

unfoldable pub round_to : ℕ → ℕ → ℕ
unfolding ulp round_by
round_to bits n = round_by (ulp 256 (2 ^ bits) n) n

round_by-one : (n : ℕ) → round_by 1 n ≡ n
unfolding round_by goes_up
round_by-one n =
    let stays : (ltb 1 (2 * (n % 1)) || (2 * (n % 1) == 1 && n / 1 % 2 == 1)) ≡ false =
      ground arith in
    rw stays (omega arith)

one_if : (fits : Bool) (u : ℕ) → fits ≡ true → elim fits [ true ↦ 1 | false ↦ u ] ≡ 1
one_if true u e = refl
one_if false u e = cc e

ulp-small : (fuel limit n : ℕ) → n < limit → ulp (suc fuel) limit n ≡ 1
unfolding ulp
ulp-small fuel limit n small = one_if (ltb n limit) _ (ground (arith, small))

-- A whole number of at most `bits` digits is not changed.
pub round_to-exact : (bits n : ℕ) → n < 2 ^ bits → round_to bits n ≡ n
unfolding round_to
round_to-exact bits n small =
    ap (λ u. round_by u n) (ulp-small 255 (2 ^ bits) n small) ∙ round_by-one n
