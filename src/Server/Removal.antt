-- ===== src/Server/Removal.antt =====
-- A peer that is gone leaves both the slab and the list of keys.
use bitcoin_client_rust.Server.Positions.{
  Once, IsServer, Without, swap_remove-first, later, position-here,
}
use bitcoin_client_rust.Message.{Handle}
use bitcoin_client_rust.Mempool.{SocketAddr}
use bitcoin_client_rust.Server.{
  Server, register, max_incoming_client, position, swap_remove, drop_peer,
}
use bitcoin_client_rust.Prelude.Map
use bitcoin_client_rust.Prelude.Map.{
  get-remove_cases, get-remove_ne, get-insert_self, get-insert_cases,
}
use bitcoin_client_rust.Prelude.{
  ℕ, ◌≡◌, ◌≢◌, refl, sym, ap, ◌∙◌, ◌⊎◌, inl, inr, ◌↔◌, some, none, List, [], ◌∷◌, In, Bool-cases,
  ◌==◌, ==_iff, nat_eq, Returns, subst, ◌++◌, ◌<◌, ◌≤◌, In-append_left, In-append_right, leb, arith,
}

-- The index of a key that is there, and what `swap_remove` leaves at it.
removed :
    (p : ℕ) (xs : List ℕ)
    → Once xs
    → In p xs
    → (i : ℕ) × ((position p xs ≡ some i) × Without p xs (swap_remove i xs))
removed p [] once m = absurd m
removed p (x ∷ xs) once m = elim (Bool-cases (x == p)) [
  | inl here ↦ (
    0,
    (
      position-here p x xs here,
      subst (λ q. Without q (x ∷ xs) (swap_remove 0 (x ∷ xs))) ((==_iff x p).0 here)
          (swap_remove-first x xs once),
    ),
  )
  | inr there ↦ elim m [
    | inl e ↦ cc ((==_iff x p).1 (sym e), there)
    | inr l ↦ later p x xs there once l (removed p xs once.1 l)
  ]
]

-- When a peer that is in the table is gone, `drop_peer` does not panic: its key leaves the list and the
-- slab, every other peer stays, and the two still hold the same keys.
pub drop_peer-IsServer :
    (peer_id : ℕ) (h : Handle) (server : Server)
    → IsServer server
    → Map.get peer_id server.peers ≡ some h
    → Returns (drop_peer peer_id server) λ after.
      IsServer after × ((k : ℕ) → In k after.peer_list ↔ (In k server.peer_list × (k ≢ peer_id)))
unfolding drop_peer
drop_peer-IsServer peer_id h server valid there =
    let (i, (found, (once, same))) =
      removed peer_id server.peer_list valid.once (valid.stored peer_id h there) in
    let after : Server = record {
      peers = Map.remove peer_id server.peers;
      peer_list = swap_remove i server.peer_list;
    } in
    (
      after,
      rw (there, found) refl,
      (
        record {
          once = once;
          listed = λ k m.
              let (old, other) = (same k).0 m in
              let (g, e) = valid.listed k old in
              (g, get-remove_ne peer_id k server.peers other ∙ e);
          stored = λ k g e.
              let (other, old) = get-remove_cases peer_id k server.peers e in
              (same k).1 (valid.stored k g old, other);
        },
        same,
      ),
    )

In-last : (k : ℕ) (xs : List ℕ) (key : ℕ) → In k (xs ++ key ∷ []) → In k xs ⊎ (k ≡ key)
In-last k [] key (inl p) = inr p
In-last k [] key (inr m) = absurd m
In-last k (x ∷ xs) key (inl p) = inl (inl p)
In-last k (x ∷ xs) key (inr m) = elim (In-last k xs key m) [ inl l ↦ inl (inr l) | inr p ↦ inr p ]

-- A key that the slab does not have is not in the list.
unlisted :
    (key : ℕ) (server : Server)
    → IsServer server
    → Map.get key server.peers ≡ none
    → ¬ In key server.peer_list
unlisted key server valid vacant m = let (g, e) = valid.listed key m in cc (e, vacant)

Once-append : (xs : List ℕ) (key : ℕ) → Once xs → ¬ In key xs → Once (xs ++ key ∷ [])
Once-append [] key once new = (λ m. m, tt)
Once-append (x ∷ xs) key (first, once) new = (
  λ m. elim (In-last x xs key m) [ inl l ↦ first l | inr p ↦ new (inl (sym p)) ],
  Once-append xs key once (λ m. new (inr m)),
)

-- A new key of the slab enters the list and the slab together, below `MAX_INCOMING_CLIENT`; a key from
-- there on is refused, and nothing changes. Either way the two hold the same keys.
pub register-IsServer :
    (key : ℕ) (addr : SocketAddr) (server : Server)
    → IsServer server
    → Map.get key server.peers ≡ none
    → IsServer (register key addr server).0
      × (((key < max_incoming_client)
            × (Map.get key (register key addr server).0.peers
                ≡ some (record { addr = addr; key = key })))
          ⊎ ((max_incoming_client ≤ key) × (register key addr server ≡ (server, none))))
unfolding register
register-IsServer key addr server valid vacant =
    let handle : Handle = record { addr = addr; key = key } in
    elim (Bool-cases (leb max_incoming_client key)) [
      | inl full ↦ (rw full valid, inr (ground arith, rw (full, register) refl))
      | inr room ↦ (
        rw room (record {
          once = Once-append server.peer_list key valid.once (unlisted key server valid vacant);
          listed = λ k m. elim (In-last k server.peer_list key m) [
            | inr p ↦ (
              handle,
              ap (λ j. Map.get j (Map.insert key handle server.peers)) p
                  ∙ get-insert_self key handle server.peers,
            )
            | inl l ↦
                let (g, e) = valid.listed k l in
                (g, Map.get-insert_keeps key k handle server.peers vacant e)
          ];
          stored = λ k g e. elim (get-insert_cases key k handle server.peers e) [
            | inl (p, q) ↦ In-append_right k server.peer_list (key ∷ []) (inl p)
            | inr (n, old) ↦ In-append_left k server.peer_list (key ∷ []) (valid.stored k g old)
          ];
        }),
        inl (ground arith, rw room (get-insert_self key handle server.peers)),
      )
    ]
