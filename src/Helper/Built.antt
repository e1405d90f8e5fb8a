-- ===== src/Helper/Built.antt =====
-- What the helpers of src/helper.rs make.
use bitcoin_client_rust.Estimator.{SocketAddr_eq}
use bitcoin_client_rust.Mempool.{SocketAddr}
use bitcoin_client_rust.Spread.Sound.{get_elem?-some}
use bitcoin_client_rust.Helper.{retain, select_from, select_destination}
use bitcoin_client_rust.Prelude.{
  ℕ, ◌<◌, ◌≡◌, ◌≢◌, refl, sym, ◌⊎◌, inl, inr, List, [], ◌∷◌, length, In, subst, ◌∙◌, ◌==◌, ==_iff,
  ne_of_==, Bool-cases, Returns, arith,
}

-- What is left is of the list, and not the address.
retain-In :
    (inbound_addr x : SocketAddr) (list : List SocketAddr)
    → In x (retain inbound_addr list)
    → In x list × (x ≢ inbound_addr)
unfolding retain
retain-In inbound_addr x [] m = absurd m
retain-In inbound_addr x (y ∷ list) m = elim (Bool-cases (y == inbound_addr)) [
  | inl same ↦
      let (later, apart) = retain-In inbound_addr x list (rw same at m) in (inr later, apart)
  | inr other ↦ elim (rw other at m) [
    | inl p ↦ (inl p, λ q. ne_of_== other (sym p ∙ q))
    | inr later ↦ let (n, apart) = retain-In inbound_addr x list later in (inr n, apart)
  ]
]

-- All that is not the address is left.
retain-keeps :
    (inbound_addr x : SocketAddr) (list : List SocketAddr)
    → In x list
    → x ≢ inbound_addr
    → In x (retain inbound_addr list)
unfolding retain
retain-keeps inbound_addr x [] m apart = absurd m
retain-keeps inbound_addr x (y ∷ list) m apart = elim (Bool-cases (y == inbound_addr)) [
  | inl same ↦ rw same (elim m [
    | inl p ↦ absurd (apart (p ∙ (==_iff y inbound_addr).0 same))
    | inr later ↦ retain-keeps inbound_addr x list later apart
  ])
  | inr other ↦
      rw other
        (elim m [ inl p ↦ inl p | inr later ↦ inr (retain-keeps inbound_addr x list later apart) ])
]

all_same :
    (inbound_addr x : SocketAddr) (list : List SocketAddr)
    → retain inbound_addr list ≡ []
    → In x list
    → x ≡ inbound_addr
all_same inbound_addr x list nothing m = elim (Bool-cases (x == inbound_addr)) [
  | inl same ↦ (==_iff x inbound_addr).0 same
  | inr other ↦
      absurd (subst (λ l. In x l) nothing (retain-keeps inbound_addr x list m (ne_of_== other)))
]

-- A peer of the list that is not the source; the source only where the list has no other.
abbrev pub Chosen : List SocketAddr → SocketAddr → SocketAddr → Type 0
Chosen destinations inbound_addr dest =
    (In dest destinations × (dest ≢ inbound_addr))
    ⊎ ((dest ≡ inbound_addr) × ((x : SocketAddr) → In x destinations → x ≡ inbound_addr))

select_from-Chosen :
    (rand_idx : ℕ) (destinations left : List SocketAddr) (inbound_addr : SocketAddr)
    → retain inbound_addr destinations ≡ left
    → (0 < length left → rand_idx < length left)
    → Returns (select_from rand_idx inbound_addr left) (Chosen destinations inbound_addr)
unfolding select_from
select_from-Chosen rand_idx destinations [] inbound_addr kept drawn =
    (inbound_addr, refl, inr (refl, λ x m. all_same inbound_addr x destinations kept m))
select_from-Chosen rand_idx destinations (y ∷ left) inbound_addr kept drawn =
    let (dest, found, m) = get_elem?-some (y ∷ left) rand_idx (drawn (omega arith)) in
    (
      dest,
      rw found refl,
      inl (retain-In inbound_addr dest destinations (subst (λ l. In dest l) (sym kept) m)),
    )

-- With a number drawn among the candidates, `select_destination` never panics: it gives a destination of the list
-- that is not the source, and the source itself only where the list has no other.
pub select_destination-Chosen :
    (rand_idx : ℕ) (destinations : List SocketAddr) (inbound_addr : SocketAddr)
    → (0 < length (retain inbound_addr destinations)
        → rand_idx < length (retain inbound_addr destinations))
    → Returns
        (select_destination rand_idx destinations inbound_addr)
        (Chosen destinations inbound_addr)
unfolding select_destination
select_destination-Chosen rand_idx destinations inbound_addr =
    select_from-Chosen rand_idx destinations (retain inbound_addr destinations) inbound_addr refl
