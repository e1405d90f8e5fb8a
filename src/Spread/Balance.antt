-- ===== src/Spread/Balance.antt =====
-- The routing table of src/helper.rs: every peer has an outbound peer, and the two share the others evenly.
use bitcoin_client_rust.Server.Positions.{Once}
use bitcoin_client_rust.Spread.Dandelion.{route_peers, without, set_routing_table}
use bitcoin_client_rust.Prelude.Map
use bitcoin_client_rust.Prelude.Map.{
  Map, get-insert, get-insert_cases, get-insert_keeps, get-insert_ne, get-insert_self,
}
use bitcoin_client_rust.Prelude.{
  ℕ, suc, ◌+◌, ◌≤◌, ◌≡◌, ◌≢◌, refl, sym, ap, subst, ◌∙◌, inl, inr, ◌⊎◌, ◌↔◌, true, false, ◌||◌,
  some, none, List, [], ◌∷◌, In, if◌then◌else◌, ltb, ◌==◌, ==_iff, nat_eq, Bool-cases, Returns,
  arith,
}

-- How many peers a table routes to one.
unfoldable pub routes_to : ℕ → Map ℕ ℕ → ℕ
routes_to d [] = 0
routes_to d ((peer, outbound) ∷ table) =
    if outbound == d then suc (routes_to d table) else routes_to d table

routes_to-insert_new :
    (d k v : ℕ) (m : Map ℕ ℕ)
    → Map.get k m ≡ none
    → routes_to d (Map.insert k v m) ≡ (if v == d then suc (routes_to d m) else routes_to d m)
unfolding routes_to Map.insert Map.get
routes_to-insert_new d k v [] new = refl
routes_to-insert_new d k v ((i, w) ∷ m) new = elim (Bool-cases (i == k)) [
  | inl same ↦ absurd (cc (rw same at new))
  | inr other ↦ rw other (ground (arith, routes_to-insert_new d k v m (rw other at new)))
]

-- A table between two outbound peers that takes turns.
pub record Balanced (first second : ℕ) (table : Map ℕ ℕ) : Type 0 where
  pub low : routes_to first table ≤ routes_to second table
  pub high : routes_to second table ≤ suc (routes_to first table)

module _ (first second : ℕ) (different : first ≢ second) where
  to_first :
      (k : ℕ) (m : Map ℕ ℕ)
      → Map.get k m ≡ none
      → (routes_to first (Map.insert k first m) ≡ suc (routes_to first m))
        × (routes_to second (Map.insert k first m) ≡ routes_to second m)
  to_first k m new = (
    routes_to-insert_new first k first m new ∙ rw ((==_iff first first).1 refl) refl,
    routes_to-insert_new second k first m new ∙ ground (arith, ==_iff first second),
  )

  to_second :
      (k : ℕ) (m : Map ℕ ℕ)
      → Map.get k m ≡ none
      → (routes_to second (Map.insert k second m) ≡ suc (routes_to second m))
        × (routes_to first (Map.insert k second m) ≡ routes_to first m)
  to_second k m new = (
    routes_to-insert_new second k second m new ∙ rw ((==_iff second second).1 refl) refl,
    routes_to-insert_new first k second m new ∙ ground (arith, ==_iff second first),
  )

  -- What the loop makes of a table: it stays balanced, keeps its entries, and has the peers.
  record Routes (peers : List ℕ) (before after : Map ℕ ℕ) : Type 0 where
    balanced : Balanced first second after
    kept : (k d : ℕ) → Map.get k before ≡ some d → Map.get k after ≡ some d
    routed : (k : ℕ) → In k peers → (Map.get k after ≡ some first) ⊎ (Map.get k after ≡ some second)

  -- One peer, and then the others.
  next_peer :
      (k d : ℕ) (peers : List ℕ) (before after : Map ℕ ℕ)
      → (d ≡ first) ⊎ (d ≡ second)
      → Map.get k before ≡ none
      → Routes peers (Map.insert k d before) after
      → Routes (k ∷ peers) before after
  next_peer k d peers before after which new routes =
      let here = routes.kept k d (get-insert_self k d before) in
      record {
        balanced = routes.balanced;
        kept = λ j e f. routes.kept j e (get-insert_keeps k j d before new f);
        routed = λ j m. elim m [
          | inl p ↦ elim which [
            | inl q ↦ inl (ap (λ i. Map.get i after) p ∙ (here ∙ ap (λ i. some i) q))
            | inr q ↦ inr (ap (λ i. Map.get i after) p ∙ (here ∙ ap (λ i. some i) q))
          ]
          | inr later ↦ routes.routed j later
        ];
      }

  route_peers-Routes :
      (peers : List ℕ) (c1 c2 : ℕ) (table : Map ℕ ℕ)
      → Once peers
      → ((k : ℕ) → In k peers → Map.get k table ≡ none)
      → routes_to first table ≡ suc c1
      → routes_to second table ≡ suc c2
      → c1 ≤ c2
      → c2 ≤ suc c1
      → Routes peers table (route_peers first second peers c1 c2 table)
  unfolding route_peers
  route_peers-Routes [] c1 c2 table once new e1 e2 low high = record {
    balanced = record { low = omega (arith, e1, e2, low); high = omega (arith, e1, e2, high) };
    kept = λ k d e. e;
    routed = λ k m. absurd m;
  }
  route_peers-Routes (k ∷ peers) c1 c2 table (apart, once) new e1 e2 low high =
      let vacant = new k (inl refl) in
      let others : (d j : ℕ) → In j peers → Map.get j (Map.insert k d table) ≡ none = λ d j m.
        get-insert_ne k j d table (λ p. apart (subst (λ i. In i peers) p m)) ∙ new j (inr m) in
      elim (Bool-cases (ltb c1 c2)) [
        | inl behind ↦
            let (f, s) = to_first k table vacant in
            rw behind (
              next_peer k first peers table _ (inl refl) vacant (
                route_peers-Routes peers (c1 + 1) c2 (Map.insert k first table) once (others first)
                  (omega (arith, f, e1)) (s ∙ e2) (ground arith) (omega (arith, high))))
        | inr even ↦
            let (s, f) = to_second k table vacant in
            rw even (
              next_peer k second peers table _ (inr refl) vacant (
                route_peers-Routes peers c1 (c2 + 1) (Map.insert k second table) once
                  (others second) (f ∙ e1) (omega (arith, s, e2)) (omega (arith, low))
                  (ground arith)))
      ]

  -- The table of the two outbound peers, before the loop.
  abbrev crossed : Map ℕ ℕ
  crossed = Map.insert second first (Map.insert first second [])

  crossed-new : (k : ℕ) → k ≢ first → k ≢ second → Map.get k crossed ≡ none
  unfolding Map.get
  crossed-new k n1 n2 =
      get-insert_ne second k first (Map.insert first second []) n2
      ∙ get-insert_ne first k second [] n1

  once_crossed : Map.get second (Map.insert first second []) ≡ none
  unfolding Map.get
  once_crossed = get-insert_ne first second second [] (λ p. different (sym p))

  crossed-first : routes_to first crossed ≡ 1
  unfolding routes_to Map.get
  crossed-first =
      (to_first second (Map.insert first second []) once_crossed).0
      ∙ ap suc ((to_second first [] refl).1)

  crossed-second : routes_to second crossed ≡ 1
  unfolding routes_to Map.get
  crossed-second =
      (to_first second (Map.insert first second []) once_crossed).1 ∙ (to_second first [] refl).0

  outbound : (k x : ℕ) → (x == first || x == second) ≡ true → k ≡ x → ¬ ((k ≢ first) × (k ≢ second))
  outbound k x out p (n1, n2) = ground (arith, ==_iff x first, ==_iff x second)

  inbound : (k x : ℕ) → (x == first || x == second) ≡ false → k ≡ x → (k ≢ first) × (k ≢ second)
  inbound k x inside p = (λ q. ground (arith, ==_iff x first), λ q. ground (arith, ==_iff x second))

  -- The other peers.
  pub without-In :
      (k : ℕ) (peers : List ℕ)
      → In k (without first second peers) ↔ (In k peers × (k ≢ first) × (k ≢ second))
  unfolding without
  without-In k [] = (λ m. absurd m, λ m. absurd m.0)
  without-In k (x ∷ peers) =
      let (to, from) = without-In k peers in
      elim (Bool-cases (x == first || x == second)) [
        | inl out ↦
            rw (out, without)
              (
                λ m. let (m1, n1, n2) = to m in (inr m1, n1, n2),
                λ m. elim m.0 [
                  | inl p ↦ absurd (outbound k x out p (m.1, m.2))
                  | inr later ↦ from (later, m.1, m.2)
                ],
              )
        | inr inside ↦
            rw (inside, without)
              (
                λ m. elim m [
                  | inl p ↦ (inl p, (inbound k x inside p).0, (inbound k x inside p).1)
                  | inr later ↦ let (m1, n1, n2) = to later in (inr m1, n1, n2)
                ],
                λ m. elim m.0 [ inl p ↦ inl p | inr later ↦ inr (from (later, m.1, m.2)) ],
              )
      ]

  without-Once : (peers : List ℕ) → Once peers → Once (without first second peers)
  unfolding without
  without-Once [] once = once
  without-Once (x ∷ peers) (apart, once) = elim (Bool-cases (x == first || x == second)) [
    | inl out ↦ rw (out, without) (without-Once peers once)
    | inr inside ↦
        rw (inside, without) (λ m. apart ((without-In x peers).0 m).0, without-Once peers once)
  ]

  -- If a peer is listed once and two different peers are drawn, `set_routing_table` does not panic on
  -- an empty table. Then each drawn peer is routed to the other, every listed peer to one of the two, and
  -- the numbers of peers routed to the two differ by at most one.
  pub set_routing_table-Balanced :
      (peer_list : List ℕ)
      → Once peer_list
      → Returns (set_routing_table (first ∷ second ∷ []) peer_list []) λ table.
        Balanced first second table
        × (Map.get first table ≡ some second)
        × (Map.get second table ≡ some first)
        × ((k : ℕ)
            → In k peer_list
            → (Map.get k table ≡ some first) ⊎ (Map.get k table ≡ some second))
  unfolding set_routing_table
  set_routing_table-Balanced peer_list once =
      let apart : (first == second) ≡ false = ground (arith, ==_iff first second) in
      let others = without first second peer_list in
      let routes =
        route_peers-Routes others 0 0 crossed (without-Once peer_list once)
          (λ k m. let (_, n1, n2) = (without-In k peer_list).0 m in crossed-new k n1 n2)
          crossed-first crossed-second (omega arith) (omega arith) in
      let first_routed = routes.kept first second (
        get-insert_ne second first first (Map.insert first second []) different
        ∙ get-insert_self first second []) in
      let second_routed =
        routes.kept second first (get-insert_self second first (Map.insert first second [])) in
      (
        route_peers first second others 0 0 crossed,
        rw apart refl,
        (
          routes.balanced,
          first_routed,
          second_routed,
          λ k m. elim (Bool-cases (k == first || k == second)) [
            | inl out ↦ elim (Bool-cases (k == first)) [
              | inl p ↦ inr (
                  ap (λ i. Map.get i (route_peers first second others 0 0 crossed))
                    ((==_iff k first).0 p)
                  ∙ first_routed)
              | inr q ↦ inl (
                  ap (λ i. Map.get i (route_peers first second others 0 0 crossed))
                    ((==_iff k second).0 (rw q at out))
                  ∙ second_routed)
            ]
            | inr inside ↦
                let (n1, n2) = inbound k k inside refl in
                routes.routed k ((without-In k peer_list).1 (m, n1, n2))
          ],
        ),
      )
