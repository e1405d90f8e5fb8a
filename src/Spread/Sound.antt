-- ===== src/Spread/Sound.antt =====
-- The spreaders of src/spread.rs on a sound table of peers.
use bitcoin_client_rust.Ring.{Ring}
use bitcoin_client_rust.Transaction.{Bincode}
use bitcoin_client_rust.Message.{Message, Handle, write}
use bitcoin_client_rust.Server.Positions.{Once}
use bitcoin_client_rust.Spread.{Spreading, dandelion_plus_reset_epoch}
use bitcoin_client_rust.Spread.Dandelion.{
  Chance, is_diffuser_prob, epoch, route_peers, without, set_routing_table, get_k_random_peers,
  try_set_table, relay_routed, source_key,
}
use bitcoin_client_rust.Spread.Delays.{TakesDates, schedule-Returns}
use bitcoin_client_rust.Spread.Balance.{without-In}
use bitcoin_client_rust.Prelude.Map
use bitcoin_client_rust.Prelude.Map.{Map, get-insert_cases}
use bitcoin_client_rust.Prelude.{
  ℕ, ◌^◌, zero, suc, ◌+◌, ◌*◌, ◌<◌, ◌≤◌, ◌≡◌, ◌≢◌, refl, sym, ◌∙◌, inl, inr, true, false, ◌&&◌,
  Option, none, some, List, [], ◌∷◌, In, length, get_elem?, ltb, leb, ◌==◌, ==_iff, ==_ne, nat_eq,
  Bool-cases, Option-cases, Returns, arith,
}

-- No key is routed to itself.
abbrev pub NoLoop : Map ℕ ℕ → Type 0
NoLoop table = (k out : ℕ) → Map.get k table ≡ some out → out ≢ k

insert-NoLoop :
    (k out : ℕ) (table : Map ℕ ℕ) → out ≢ k → NoLoop table → NoLoop (Map.insert k out table)
insert-NoLoop k out table apart free j o e = elim (get-insert_cases k j out table e) [
  | inl (p, q) ↦ λ same. apart (sym q ∙ same ∙ p)
  | inr (n, old) ↦ free j o old
]

route_peers-NoLoop :
    (first second : ℕ) (peer_set : List ℕ) (out_cnt1 out_cnt2 : ℕ) (table : Map ℕ ℕ)
    → ((k : ℕ) → In k peer_set → (first ≢ k) × (second ≢ k))
    → NoLoop table
    → NoLoop (route_peers first second peer_set out_cnt1 out_cnt2 table)
unfolding route_peers
route_peers-NoLoop first second [] out_cnt1 out_cnt2 table apart free = free
route_peers-NoLoop first second (p ∷ peer_set) out_cnt1 out_cnt2 table apart free =
    let (n1, n2) = apart p (inl refl) in
    elim (Bool-cases (ltb out_cnt1 out_cnt2)) [
      | inl less ↦ rw less (
          route_peers-NoLoop first second peer_set (out_cnt1 + 1) out_cnt2 _
            (λ k m. apart k (inr m)) (insert-NoLoop p first table n1 free))
      | inr more ↦ rw more (
          route_peers-NoLoop first second peer_set out_cnt1 (out_cnt2 + 1) _
            (λ k m. apart k (inr m)) (insert-NoLoop p second table n2 free))
    ]

empty-NoLoop : NoLoop []
unfolding Map.get
empty-NoLoop k out e = cc e

set_routing_table-NoLoop :
    (first second : ℕ) (peer_list : List ℕ)
    → first ≢ second
    → Returns (set_routing_table (first ∷ second ∷ []) peer_list []) NoLoop
unfolding set_routing_table
set_routing_table-NoLoop first second peer_list different =
    let apart : (first == second) ≡ false = ground (arith, ==_iff first second) in
    let once = insert-NoLoop first second [] (λ p. different (sym p)) empty-NoLoop in
    let crossed = insert-NoLoop second first _ different once in
    (
      route_peers first second (without first second peer_list) 0 0
          (Map.insert second first (Map.insert first second [])),
      rw apart refl,
      route_peers-NoLoop first second (without first second peer_list) 0 0 _
          (λ k m.
            let (_, n1, n2) = (without-In first second different k peer_list).0 m in
            (λ p. n1 (sym p), λ p. n2 (sym p)))
          crossed,
    )

-- What the random numbers of a call are: a shuffled list has the peers of the list, the choice is a place in it,
-- two different peers are drawn from more than two, the delay of the fail-safe check is at most 253,000 years, and
-- the timer takes each delay up to this one.
pub record Drawn ⦃ring : Ring⦄ ⦃bincode : Bincode⦄ (chance : Chance) (peer_list : List ℕ)
    : Type 0 where
  pub shuffled : (k : ℕ) → In k chance.shuffled → In k peer_list
  pub whole : length chance.shuffled ≡ length peer_list
  pub choice : 0 < length peer_list → chance.choice < length peer_list
  pub outbound :
      2 < length peer_list
      → (first second : ℕ) × (chance.outbound ≡ first ∷ second ∷ []) × (first ≢ second)
  pub takes : TakesDates chance.takes
  pub fail_safe : chance.fail_safe_delay ≤ 8 * 10 ^ 15

pub get_elem?-some :
    {A : Type 0} (xs : List A) (i : ℕ)
    → i < length xs
    → (a : A) × (get_elem? xs i ≡ some a) × In a xs
get_elem?-some [] i small = absurd (omega (arith, small))
get_elem?-some (x ∷ xs) zero small = (x, refl, inl refl)
get_elem?-some (x ∷ xs) (suc i) small =
    let (a, found, m) = get_elem?-some xs i (omega (arith, small)) in (a, found, inr m)

no_entries : (m : Map ℕ ℕ) → length m ≡ 0 → m ≡ []
no_entries [] e = refl
no_entries (x ∷ m) e = absurd (omega (arith, e))

module _ ⦃ring : Ring⦄ ⦃bincode : Bincode⦄ where
  -- Two different peers are drawn from two or more.
  get_k_random_peers-two :
      (chance : Chance) (peer_list : List ℕ)
      → Once peer_list
      → Drawn chance peer_list
      → 2 ≤ length peer_list
      → (first second : ℕ) × (get_k_random_peers peer_list 2 chance.outbound ≡ first ∷ second ∷ [])
        × (first ≢ second)
  unfolding get_k_random_peers
  get_k_random_peers-two chance [] once drawn two = absurd (omega (arith, two))
  get_k_random_peers-two chance (a ∷ []) once drawn two = absurd (omega (arith, two))
  get_k_random_peers-two chance (a ∷ b ∷ []) (new, _) drawn two = (a, b, refl, λ p. new (inl p))
  get_k_random_peers-two chance (a ∷ b ∷ c ∷ list) once drawn two =
      let (first, second, outbound, apart) = drawn.outbound (omega arith) in
      let large : leb (length (a ∷ b ∷ c ∷ list)) 2 ≡ false = ground arith in
      (first, second, rw large outbound, apart)

  pub try_set_table-NoLoop :
      (chance : Chance) (peer_list : List ℕ) (s : Spreading)
      → Once peer_list
      → Drawn chance peer_list
      → NoLoop s.routing_table
      → Returns (try_set_table chance peer_list s) λ r. NoLoop r.routing_table
  unfolding try_set_table
  try_set_table-NoLoop chance peer_list s once drawn free =
      elim (Bool-cases (length s.routing_table == 0 && leb 2 (length peer_list))) [
        | inl fresh ↦
            let empty = no_entries s.routing_table (ground (arith, fresh)) in
            let (first, second, picked, apart) =
              get_k_random_peers-two chance peer_list once drawn (ground (arith, fresh)) in
            let (table, run, kept) = set_routing_table-NoLoop first second peer_list apart in
            let taken =
              schedule-Returns chance.takes (chance.clock 0) epoch dandelion_plus_reset_epoch
                s.guard_map drawn.takes (omega arith) in
            (
              record s {
                routing_table = table;
                is_diffuser = ltb chance.phase is_diffuser_prob;
                guard_map =
                    Map.insert (chance.clock 0) (epoch, dandelion_plus_reset_epoch) s.guard_map;
              },
              rw (fresh, picked, empty, run, taken) refl,
              kept,
            )
        | inr stale ↦ elim (Bool-cases (ltb (length peer_list) 2)) [
          | inl few ↦ (record s { is_diffuser = true }, rw (stale, few) refl, free)
          | inr many ↦ (s, rw (stale, many) refl, free)
        ]
      ]

  pub relay_routed-Returns :
      (src_key : ℕ) (peers : Map ℕ Handle) (msg : Message) (table : Map ℕ ℕ)
      → NoLoop table
      → Returns (relay_routed src_key peers msg table) λ effects. Unit {0}
  unfolding relay_routed
  relay_routed-Returns src_key peers msg table free = elim (Option-cases (Map.get src_key table)) [
    | inl none_routed ↦ ([], rw (none_routed, relay_routed) refl, tt)
    | inr (out, routed) ↦ elim (Option-cases (Map.get out peers)) [
      | inl gone ↦ ([], rw (routed, gone, relay_routed) refl, tt)
      | inr (handle, there) ↦
          let other : (out == src_key) ≡ false = ==_ne (free src_key out routed) in
          (write handle msg ∷ [], rw (routed, there, other, relay_routed) refl, tt)
    ]
  ]

  pub source_key-Returns :
      (chance : Chance) (peer_list : List ℕ) (src_peer_key : Option ℕ)
      → Drawn chance peer_list
      → 0 < length peer_list
      → Returns (source_key chance peer_list src_peer_key) λ k. Unit {0}
  unfolding source_key
  source_key-Returns chance peer_list (some key) drawn someone = (key, refl, tt)
  source_key-Returns chance peer_list none drawn someone =
      let (k, found, _) = get_elem?-some peer_list chance.choice (drawn.choice someone) in
      (k, rw found refl, tt)
