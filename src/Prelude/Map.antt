-- ===== src/Prelude/Map.antt =====
-- `std::collections::HashMap` as an association list, for keys with an equality test. The order of
-- the list stands for the iteration order, which the standard library leaves open.
use Prim.Native.Nat.{suc, ◌≤◌}
use mathlib.Core.Path.{◌≡◌, refl, sym, ap, ◌∙◌}
use mathlib.Core.Logic.{◌⊎◌, ◌≢◌, inl, inr}
use mathlib.Core.Bool.{Bool, true, false}
use mathlib.Core.List.{List, [], ◌∷◌}
use mathlib.Core.Option.{Option, none, some}
use native.Mathlib.Omega.{arith}
use bitcoin_client_rust.Prelude.Tests.{Eq, ◌==◌, if◌then◌else◌, ==_iff, ==_refl, Bool-cases}
use bitcoin_client_rust.Prelude.Lists.{length}

abbrev pub Map {ℓ κ} : Type ℓ → Type κ → Type (ℓ ⊔ κ)
Map K V = List (K × V)

abbrev pub is_some {ℓ} : {A : Type ℓ} → Option A → Bool
is_some none = false
is_some (some a) = true

module _ {ℓ κ} {K : Type ℓ} {V : Type κ} ⦃e : Eq K⦄ where
  unfoldable pub get : K → Map K V → Option V
  get k [] = none
  get k ((j, v) ∷ m) = if j == k then some v else get k m

  unfoldable pub insert : K → V → Map K V → Map K V
  insert k v [] = (k, v) ∷ []
  insert k v ((j, w) ∷ m) = if j == k then (k, v) ∷ m else (j, w) ∷ insert k v m

  unfoldable pub remove : K → Map K V → Map K V
  remove k [] = []
  remove k ((j, w) ∷ m) = if j == k then remove k m else (j, w) ∷ remove k m

  abbrev pub contains_key : K → Map K V → Bool
  contains_key k m = is_some (get k m)

  pub get-insert :
      (k j : K) (v : V) (m : Map K V) → get j (insert k v m) ≡ (if k == j then some v else get j m)
  unfolding get insert
  get-insert k j v [] = refl
  get-insert k j v ((i, w) ∷ m) =
      ground (arith, ==_iff k j, ==_iff i k, ==_iff i j, get-insert k j v m)

  pub get-remove : (k j : K) (m : Map K V) → get j (remove k m) ≡ (if k == j then none else get j m)
  unfolding get remove
  get-remove k j [] = ground arith
  get-remove k j ((i, w) ∷ m) = ground (arith, ==_iff k j, ==_iff i k, ==_iff i j, get-remove k j m)

  pub get-insert_self : (k : K) (v : V) (m : Map K V) → get k (insert k v m) ≡ some v
  get-insert_self k v m = simp (get-insert, ==_refl)

  pub get-remove_self : (k : K) (m : Map K V) → get k (remove k m) ≡ none
  get-remove_self k m = simp (get-remove, ==_refl)

  pub length-insert_new :
      (k : K) (v : V) (m : Map K V) → get k m ≡ none → length (insert k v m) ≡ suc (length m)
  unfolding get insert
  length-insert_new k v [] h = refl
  length-insert_new k v ((i, w) ∷ m) h = ground (arith, length-insert_new k v m)

  pub length-insert-le : (k : K) (v : V) (m : Map K V) → length (insert k v m) ≤ suc (length m)
  unfolding insert
  length-insert-le k v [] = omega arith
  length-insert-le k v ((i, w) ∷ m) = ground (arith, length-insert-le k v m)

  pub length-remove-le : (k : K) (m : Map K V) → length (remove k m) ≤ length m
  unfolding remove
  length-remove-le k [] = omega arith
  length-remove-le k ((i, w) ∷ m) = ground (arith, length-remove-le k m)

  -- Where a value that is found after a write or a removal comes from.
  pub get-insert_cases :
      (k j : K) (v : V) (m : Map K V) {w : V}
      → get j (insert k v m) ≡ some w
      → ((j ≡ k) × (w ≡ v)) ⊎ ((j ≢ k) × (get j m ≡ some w))
  get-insert_cases k j v m h = elim (Bool-cases (k == j)) [
    | inl same ↦ inl (sym ((==_iff k j).0 same), ground (arith, get-insert k j v m))
    | inr other ↦ inr (λ p. cc ((==_iff k j).1 (sym p)), ground (arith, get-insert k j v m))
  ]

  pub get-insert_ne : (k j : K) (v : V) (m : Map K V) → j ≢ k → get j (insert k v m) ≡ get j m
  get-insert_ne k j v m n = elim (Bool-cases (k == j)) [
    | inl same ↦ absurd (n (sym ((==_iff k j).0 same)))
    | inr other ↦ rw (get-insert, other)
  ]

  -- A write at a new key keeps every value.
  pub get-insert_keeps :
      (k j : K) (v : V) (m : Map K V) {w : V}
      → get k m ≡ none
      → get j m ≡ some w
      → get j (insert k v m) ≡ some w
  get-insert_keeps k j v m new h = ground (arith, get-insert k j v m, ==_iff k j)

  pub get-remove_cases :
      (k j : K) (m : Map K V) {w : V} → get j (remove k m) ≡ some w → (j ≢ k) × (get j m ≡ some w)
  get-remove_cases k j m h = elim (Bool-cases (k == j)) [
    | inl same ↦ absurd (cc (h, get-remove k j m))
    | inr other ↦ (λ p. cc ((==_iff k j).1 (sym p)), ground (arith, get-remove k j m))
  ]

  pub get-remove_ne : (k j : K) (m : Map K V) → j ≢ k → get j (remove k m) ≡ get j m
  get-remove_ne k j m n = elim (Bool-cases (k == j)) [
    | inl same ↦ absurd (n (sym ((==_iff k j).0 same)))
    | inr other ↦ rw (get-remove, other)
  ]

  -- No key stands twice in the list, as in a `HashMap`.
  abbrev pub IsMap : Map K V → Type (ℓ ⊔ κ)
  IsMap [] = Unit
  IsMap ((k, v) ∷ m) = (get k m ≡ none) × IsMap m

  get-remove-none : (k j : K) (m : Map K V) → get j m ≡ none → get j (remove k m) ≡ none
  get-remove-none k j m h = ground (arith, get-remove k j m)

  pub insert-IsMap : (k : K) (v : V) (m : Map K V) → IsMap m → IsMap (insert k v m)
  unfolding insert
  insert-IsMap k v [] valid = (unfold get in refl, tt)
  insert-IsMap k v ((j, w) ∷ m) (new, valid) = elim (Bool-cases (j == k)) [
    | inl same ↦ rw same (rw (← (==_iff j k).0 same) new, valid)
    | inr other ↦
        rw other (ground (arith, get-insert k j v m, ==_iff k j), insert-IsMap k v m valid)
  ]

  pub remove-IsMap : (k : K) (m : Map K V) → IsMap m → IsMap (remove k m)
  unfolding remove
  remove-IsMap k [] valid = tt
  remove-IsMap k ((j, w) ∷ m) (new, valid) = elim (Bool-cases (j == k)) [
    | inl same ↦ rw same (remove-IsMap k m valid)
    | inr other ↦ rw other (get-remove-none k j m new, remove-IsMap k m valid)
  ]

  -- The first entry of the list is found, and any other is found behind it.
  pub get-first : (k : K) (v : V) (m : Map K V) → get k ((k, v) ∷ m) ≡ some v
  unfolding get
  get-first k v m = rw (==_refl k) refl

  pub get-behind : (k j : K) (v : V) (m : Map K V) → j ≢ k → get j ((k, v) ∷ m) ≡ get j m
  unfolding get
  get-behind k j v m n = elim (Bool-cases (k == j)) [
    | inl same ↦ absurd (n (sym ((==_iff k j).0 same)))
    | inr other ↦ rw other refl
  ]

  pub get-behind_some :
      (k j : K) (v : V) (m : Map K V) {w : V}
      → get k m ≡ none
      → get j m ≡ some w
      → get j ((k, v) ∷ m) ≡ some w
  get-behind_some k j v m {w} new found =
      get-behind k j v m (λ p. apart (ap (λ i. get i m) p ∙ new) found) ∙ found
    where
      apart : get j m ≡ none → get j m ≡ some w → ⊥
      apart e f = cc (e, f)
