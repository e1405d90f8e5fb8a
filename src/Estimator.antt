-- ===== src/Estimator.antt =====
-- src/network/estimator.rs: which peer each transaction is taken to come from, by its first arrival, and how
-- often that is right. The counts are of transactions in memory and do not wrap; `f64` and the
-- derived equality of transactions are parameters.
use bitcoin_client_rust.Ring.{Ring}
use bitcoin_client_rust.Hash.{H256, H256_eq, H160, H160_eq, address_of_digest}
use bitcoin_client_rust.Transaction.{SignedTransaction}
use bitcoin_client_rust.Mempool.{SocketAddr}
use bitcoin_client_rust.Prelude.Map
use bitcoin_client_rust.Prelude.Map.{Map}
use bitcoin_client_rust.Prelude.{
  ℕ, ◌+◌, ◌-◌, ◌^◌, ◌≡◌, ◌↔◌, ◌&&◌, ==_iff, bytes_eq, arith, Bool, true, false, Option, some, none,
  List, [], ◌∷◌, if◌then◌else◌, ltb, Eq, ◌==◌, nat_eq, Run, ok, ◌>>=◌, unwrap,
}
pub mod Defined

pub SocketAddr_beq_iff : (a b : SocketAddr) → ((a.ip == b.ip && a.port == b.port) ≡ true) ↔ (a ≡ b)
SocketAddr_beq_iff a b =
    (λ h. ground (arith, ==_iff a.ip b.ip), λ p. ground (arith, ==_iff a.ip b.ip))

-- The equality by which an address is a key of a `HashMap`.
instance abbrev pub SocketAddr_eq : Eq SocketAddr
SocketAddr_eq = record {
  beq = λ a b. a.ip == b.ip && a.port == b.port;
  reflects = SocketAddr_beq_iff;
}

abbrev pub localhost : SocketAddr
localhost = record { ip = 127 ∷ 0 ∷ 0 ∷ 1 ∷ []; port = 8080 }

-- The inner loop of `start_first_timestamp_estimate`; it starts from `i64::max_value()`.
unfoldable pub earliest_of : List (SocketAddr × ℕ) → ℕ → SocketAddr → SocketAddr
earliest_of [] earliest res_ip = res_ip
earliest_of ((ip, timestamp) ∷ ip2time) earliest res_ip =
    let sooner = earliest_of ip2time timestamp ip in
    let later = earliest_of ip2time earliest res_ip in
    if ltb timestamp earliest then sooner else later

-- The public key and the port of each address.
abbrev pub InfoMap : Type 0
InfoMap = Map H160 (List ℕ × ℕ)

-- The loop of `check_right_count`.
unfoldable pub check_right_count : Map H160 SocketAddr → InfoMap → ℕ
check_right_count res [] = 0
check_right_count res ((addr, (key, port)) ∷ info_map) =
    let count = check_right_count res info_map in
    elim (Map.get addr res) [
      | none ↦ count
      | some estimated_ip ↦ if estimated_ip.port == port then count + 1 else count
    ]

unfoldable pub count_of : Option ℕ → ℕ
count_of none = 0
count_of (some count) = count

module _ ⦃tran_eq : Eq SignedTransaction⦄ where
  -- The outer loop of `start_first_timestamp_estimate`.
  unfoldable pub first_arrivals :
      Map H256 SignedTransaction
      → Map H256 (List (SocketAddr × ℕ))
      → Map SignedTransaction SocketAddr
      → Map SignedTransaction SocketAddr
  unfolding earliest_of
  first_arrivals transactions [] map_data = map_data
  first_arrivals transactions ((hash, ip2time) ∷ timestamp_map) map_data =
      let res_ip = earliest_of ip2time (2 ^ 63 - 1) localhost in
      first_arrivals transactions timestamp_map (elim (Map.get hash transactions) [
        | some trans ↦ Map.insert trans res_ip map_data
        | none ↦ map_data
      ])

module _ ⦃ring : Ring⦄ where
  -- The first loop of `estimator`: how many transactions of each sender came first from each peer.
  unfoldable pub match_inputs :
      Map SignedTransaction SocketAddr → Map H160 (Map SocketAddr ℕ) → Map H160 (Map SocketAddr ℕ)
  unfolding count_of
  match_inputs [] matches = matches
  match_inputs ((trans, ip) ∷ map_data) matches =
      let addr = address_of_digest (ring.sha256 trans.public_key) in
      match_inputs map_data (
        Map.insert addr
          (elim (Map.get addr matches) [
            | some ip2count ↦ Map.insert ip (count_of (Map.get ip ip2count) + 1) ip2count
            | none ↦ (ip, 1) ∷ []
          ])
          matches)

-- Whether the address is known to stand at the port.
unfoldable pub is_at : H160 → ℕ → InfoMap → Bool
is_at addr port info_map = elim (Map.get addr info_map) [
  | some (key, ans_port) ↦ ans_port == port
  | none ↦ false
]

-- The counts of the second loop of `estimator`; the two maps go by port.
pub record Tally : Type 0 where
  pub sum_count : ℕ
  pub map_count : ℕ
  pub precision_count : Map ℕ ℕ
  pub precision_sum : Map ℕ ℕ

-- The loop over the peers that one sender's transactions came from.
unfoldable pub tally : H160 → InfoMap → Map SocketAddr ℕ → Tally → Tally
unfolding is_at count_of
tally addr info_map [] t = t
tally addr info_map ((ip, count) ∷ ip_map) t =
    let matched = is_at addr ip.port info_map in
    tally addr info_map ip_map (record {
      sum_count = t.sum_count + count;
      map_count = if matched then count else t.map_count;
      precision_count =
          if matched then Map.insert ip.port count t.precision_count else t.precision_count;
      precision_sum =
          Map.insert ip.port (count_of (Map.get ip.port t.precision_sum) + count) t.precision_sum;
    })

-- The numbers of `f64` that the estimator uses.
pub record Float : Type 1 where
  pub f64 : Type 0
  pub of : ℕ → f64
  pub plus : f64 → f64 → f64
  pub over : f64 → f64 → f64

module _ (float : Float) where
  -- The loop over the senders: the sum of the recalls, and the counts by port.
  unfoldable pub recall :
      InfoMap → Map H160 (Map SocketAddr ℕ) → float.f64 → Tally → float.f64 × Tally
  unfolding tally
  recall info_map [] final_recall t = (final_recall, t)
  recall info_map ((addr, ip_map) ∷ matches) final_recall t =
      let next = tally addr info_map ip_map (record t { sum_count = 0; map_count = 0 }) in
      recall info_map matches
        (float.plus final_recall (float.over (float.of next.map_count) (float.of next.sum_count)))
        next

  -- The loop over the counts by port.
  unfoldable pub precision : Map ℕ ℕ → Map ℕ ℕ → float.f64 → Run float.f64
  precision [] sums final_precision = ok final_precision
  precision ((port, count) ∷ counts) sums final_precision = unwrap (Map.get port sums) >>= λ sum.
      precision counts sums
        (float.plus final_precision (float.over (float.of count) (float.of sum)))

  -- `estimator`: the recall and the precision.
  unfoldable pub estimator :
      ⦃ring : Ring⦄ → Map SignedTransaction SocketAddr → InfoMap → ℕ → Run (float.f64 × float.f64)
  unfolding match_inputs recall precision
  estimator map_data info_map n =
      let (final_recall, t) =
        recall info_map (match_inputs map_data []) (float.of 0)
          (record { sum_count = 0; map_count = 0; precision_count = []; precision_sum = [] }) in
      precision t.precision_count t.precision_sum (float.of 0) >>= λ final_precision.
      ok (float.over final_recall (float.of n), float.over final_precision (float.of n))

  unfoldable pub start_first_timestamp_estimate :
      ⦃ring : Ring⦄
      → ⦃tran_eq : Eq SignedTransaction⦄ → Map H256 SignedTransaction
      → Map H256 (List (SocketAddr × ℕ))
      → InfoMap
      → ℕ
      → Run (float.f64 × float.f64)
  unfolding first_arrivals estimator
  start_first_timestamp_estimate transactions timestamp_map info_map n =
      estimator (first_arrivals transactions timestamp_map []) info_map n
