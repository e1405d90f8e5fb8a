-- ===== src/Estimator/Defined.antt =====
-- The estimator of src/network/estimator.rs ends: each port that is counted has a sum.
use bitcoin_client_rust.Ring.{Ring}
use bitcoin_client_rust.Hash.{H160}
use bitcoin_client_rust.Transaction.{SignedTransaction}
use bitcoin_client_rust.Mempool.{SocketAddr}
use bitcoin_client_rust.Estimator.{
  InfoMap, Tally, is_at, count_of, tally, Float, recall, precision, estimator, match_inputs,
}
use bitcoin_client_rust.Prelude.Map
use bitcoin_client_rust.Prelude.Map.{Map, get-insert}
use bitcoin_client_rust.Prelude.{
  ℕ, ◌+◌, ◌≤◌, ◌≡◌, refl, ap, ◌∙◌, ==_iff, arith, Bool-cases, inl, inr, some, [], ◌∷◌, ◌==◌, nat_eq,
  ok, Returns,
}

-- The port has a sum, of at least the count.
abbrev pub HasSum : Map ℕ ℕ → ℕ → ℕ → Type 0
HasSum sums port count = (sum : ℕ) × (Map.get port sums ≡ some sum) × (count ≤ sum)

-- Every port that is counted has a sum, of at least its count.
abbrev pub Covered : Map ℕ ℕ → Map ℕ ℕ → Type 0
Covered sums [] = Unit
Covered sums ((port, count) ∷ counts) = HasSum sums port count × Covered sums counts

-- More is added to the sum of a port.
abbrev raise : ℕ → ℕ → Map ℕ ℕ → Map ℕ ℕ
raise port more sums = Map.insert port (count_of (Map.get port sums) + more) sums

HasSum-raise :
    (port other count more : ℕ) (sums : Map ℕ ℕ)
    → HasSum sums other count
    → HasSum (raise port more sums) other count
unfolding count_of
HasSum-raise port other count more sums (old, found, low) = elim (Bool-cases (port == other)) [
  | inl same ↦
      let there : Map.get port sums ≡ some old =
        ap (λ k. Map.get k sums) ((==_iff port other).0 same) ∙ found in
      (old + more, rw (get-insert, same, there) refl, omega (arith, low))
  | inr apart ↦ (old, rw (get-insert, apart) found, low)
]

Covered-raise :
    (port more : ℕ) (sums counts : Map ℕ ℕ)
    → Covered sums counts
    → Covered (raise port more sums) counts
Covered-raise port more sums [] covered = tt
Covered-raise port more sums ((other, count) ∷ counts) (first, covered) =
    (HasSum-raise port other count more sums first, Covered-raise port more sums counts covered)

Covered-insert_count :
    (port count : ℕ) (sums counts : Map ℕ ℕ)
    → HasSum sums port count
    → Covered sums counts
    → Covered sums (Map.insert port count counts)
unfolding Map.insert
Covered-insert_count port count sums [] here covered = (here, tt)
Covered-insert_count port count sums ((other, old) ∷ counts) here (first, covered) =
    elim (Bool-cases (other == port)) [
      | inl same ↦ rw same (here, covered)
      | inr apart ↦ rw apart (first, Covered-insert_count port count sums counts here covered)
    ]

tally-Covered :
    (addr : H160) (info_map : InfoMap) (ip_map : Map SocketAddr ℕ) (t : Tally)
    → Covered t.precision_sum t.precision_count
    → Covered
        (tally addr info_map ip_map t).precision_sum
        (tally addr info_map ip_map t).precision_count
unfolding tally
tally-Covered addr info_map [] t covered = covered
tally-Covered addr info_map ((ip, count) ∷ ip_map) t covered =
    let sum = count_of (Map.get ip.port t.precision_sum) + count in
    let grown = Covered-raise ip.port count t.precision_sum t.precision_count covered in
    let here : HasSum (raise ip.port count t.precision_sum) ip.port count =
      (sum, Map.get-insert_self ip.port sum t.precision_sum, omega arith) in
    elim (Bool-cases (is_at addr ip.port info_map)) [
      | inl matched ↦
          tally-Covered addr info_map ip_map _
            (rw matched (Covered-insert_count ip.port count _ t.precision_count here grown))
      | inr other ↦ tally-Covered addr info_map ip_map _ (rw other grown)
    ]

module _ (float : Float) where
  recall-Covered :
      (info_map : InfoMap) (matches : Map H160 (Map SocketAddr ℕ)) (final_recall : float.f64)
      (t : Tally)
      → Covered t.precision_sum t.precision_count
      → Covered
          (recall float info_map matches final_recall t).1.precision_sum
          (recall float info_map matches final_recall t).1.precision_count
  unfolding recall
  recall-Covered info_map [] final_recall t covered = covered
  recall-Covered info_map ((addr, ip_map) ∷ matches) final_recall t covered =
      recall-Covered info_map matches _ _
        (tally-Covered addr info_map ip_map (record t { sum_count = 0; map_count = 0 }) covered)

  precision-Returns :
      (counts sums : Map ℕ ℕ) (final_precision : float.f64)
      → Covered sums counts
      → Returns (precision float counts sums final_precision) λ p. Unit {0}
  unfolding precision
  precision-Returns [] sums final_precision covered = (final_precision, refl, tt)
  precision-Returns ((port, count) ∷ counts) sums final_precision ((sum, found, low), covered) =
      let next = float.plus final_precision (float.over (float.of count) (float.of sum)) in
      let (p, run, _) = precision-Returns counts sums next covered in (p, rw found run, tt)

  -- Whatever it is given, the estimator ends without a panic: every port that it counts has a sum, of at least
  -- the count.
  pub estimator-Covered :
      ⦃ring : Ring⦄
      → (map_data : Map SignedTransaction SocketAddr) (info_map : InfoMap) (n : ℕ)
      → (let (final_recall, t) =
            recall float info_map
              (match_inputs map_data [])
              (float.of 0)
              (record { sum_count = 0; map_count = 0; precision_count = []; precision_sum = [] }) in
          Covered t.precision_sum t.precision_count
          × ((p : float.f64) × (estimator float map_data info_map n
                ≡ ok (float.over final_recall (float.of n), float.over p (float.of n)))))
  unfolding estimator
  estimator-Covered map_data info_map n =
      let start : Tally = record {
        sum_count = 0;
        map_count = 0;
        precision_count = [];
        precision_sum = [];
      } in
      let covered = recall-Covered info_map (match_inputs map_data []) (float.of 0) start tt in
      let (final_recall, t) = recall float info_map (match_inputs map_data []) (float.of 0) start in
      let (p, run, _) = precision-Returns t.precision_count t.precision_sum (float.of 0) covered in
      (covered, (p, rw run refl))
