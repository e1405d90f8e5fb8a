-- ===== src/Prelude/Text.antt =====
-- `str`: native texts, their equality, and `str::parse::<u64>` of the standard library.
use Prim.Native.Char.{code}
use Prim.Native.Nat.{ℕ, ◌+◌, ◌-◌, ◌*◌, ◌^◌}
use Prim.Native.String.{String}
use text.Mathlib.Text.{◌==◌}
use text.Mathlib.TextEquality.{eq_iff}
use mathlib.Core.Bool.{◌&&◌}
use mathlib.Core.List.{List, [], ◌∷◌}
use bitcoin_client_rust.Prelude.Tests.{Eq, leb, ltb, nat_beq, if◌then◌else◌}

instance abbrev pub String_eq : Eq String
String_eq = record { beq = λ a b. a == b; reflects = eq_iff }

abbrev pub codes : String → List ℕ
codes String.[] = []
codes (String.◌∷◌ c s) = code c ∷ codes s

-- `ParseIntError`, and the number where there is none.
pub data Parsed : Type 0 where
  number : ℕ → Parsed
  empty_text invalid_digit overflow : Parsed

-- The loop over the digits: each is checked before the multiplication and the addition.
unfoldable pub parse_digits : List ℕ → ℕ → Parsed
parse_digits [] acc = number acc
parse_digits (c ∷ cs) acc =
    let next = acc * 10 + (c - 48) in
    let rest = parse_digits cs next in
    if leb 48 c && leb c 57 then (if ltb next (2 ^ 64) then rest else overflow) else invalid_digit

-- One leading `+` is dropped where a digit follows.
unfoldable pub parse_u64 : List ℕ → Parsed
unfolding parse_digits
parse_u64 [] = empty_text
parse_u64 (c ∷ []) = parse_digits (c ∷ []) 0
parse_u64 (c ∷ d ∷ cs) =
    if nat_beq c 43 then parse_digits (d ∷ cs) 0 else parse_digits (c ∷ d ∷ cs) 0
