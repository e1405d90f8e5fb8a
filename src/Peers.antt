-- ===== src/Peers.antt =====
-- src/peers.rs: the addresses that a node knows, with the public key and the port of each.
use bitcoin_client_rust.Hash.{H160, H160_eq}
use bitcoin_client_rust.Prelude.Map
use bitcoin_client_rust.Prelude.Map.{Map, get-insert_self, get-insert_ne, get-remove_ne}
use bitcoin_client_rust.Prelude.{
  ℕ, ◌≡◌, ◌≢◌, refl, ap, ◌∙◌, inl, inr, Bool, true, false, some, List, [], ◌∷◌, length, In,
  if◌then◌else◌, ◌==◌, Bool-cases, ==_iff, Run, ok, ◌>>=◌, unwrap, Returns, map,
}

-- `(H160, public key, port)`, as it is sent to other nodes.
abbrev pub PeerInfo : Type 0
PeerInfo = H160 × (List ℕ × ℕ)

pub record Peers : Type 0 where
  pub addrs : List H160  -- a HashSet, each address once
  pub info_map : Map H160 (List ℕ × ℕ)

unfoldable pub new : Peers
new = record { addrs = []; info_map = [] }

-- `HashSet::contains`, `HashSet::insert` and `HashSet::remove`.
unfoldable pub set_contains : H160 → List H160 → Bool
set_contains addr [] = false
set_contains addr (a ∷ addrs) = if a == addr then true else set_contains addr addrs

unfoldable pub set_insert : H160 → List H160 → List H160
set_insert addr addrs = if set_contains addr addrs then addrs else addr ∷ addrs

unfoldable pub set_remove : H160 → List H160 → List H160
set_remove addr [] = []
set_remove addr (a ∷ addrs) = if a == addr then addrs else a ∷ set_remove addr addrs

unfoldable pub insert : H160 → List ℕ → ℕ → Peers → Peers
unfolding set_insert
insert addr pub_key port peers = record {
  addrs = set_insert addr peers.addrs;
  info_map = Map.insert addr (pub_key, port) peers.info_map;
}

unfoldable pub remove : H160 → Peers → Peers
unfolding set_remove
remove addr peers = record {
  addrs = set_remove addr peers.addrs;
  info_map = Map.remove addr peers.info_map;
}

unfoldable pub contains : Peers → H160 → Bool
contains peers addr = set_contains addr peers.addrs

-- The map of `get_all_peers_info` over the addresses.
unfoldable pub infos_of : List H160 → Map H160 (List ℕ × ℕ) → Run (List PeerInfo)
infos_of [] info_map = ok []
infos_of (addr ∷ addrs) info_map = unwrap (Map.get addr info_map) >>= λ info.
    infos_of addrs info_map >>= λ infos. ok ((addr, info) ∷ infos)

unfoldable pub get_all_peers_info : Peers → Run (List PeerInfo)
unfolding infos_of
get_all_peers_info peers = infos_of peers.addrs peers.info_map

unfoldable pub size : Peers → ℕ
size peers = length peers.addrs

-- Every address of the set has its entry in the map.
abbrev pub IsPeers : Peers → Type 0
IsPeers peers =
    (addr : H160)
    → In addr peers.addrs
    → (info : List ℕ × ℕ) × (Map.get addr peers.info_map ≡ some info)

In-old :
    (addr : H160) (addrs : List H160) (a : H160) (known : Bool)
    → a ≢ addr
    → In a (if known then addrs else addr ∷ addrs)
    → In a addrs
In-old addr addrs a true ne m = m
In-old addr addrs a false ne (inl p) = absurd (ne p)
In-old addr addrs a false ne (inr m) = m

pub insert-IsPeers :
    (addr : H160) (pub_key : List ℕ) (port : ℕ) (peers : Peers)
    → IsPeers peers
    → IsPeers (insert addr pub_key port peers)
unfolding insert set_insert
insert-IsPeers addr pub_key port peers valid a m = elim (Bool-cases (a == addr)) [
  | inl same ↦
      let p = (==_iff a addr).0 same in
      (
        (pub_key, port),
        ap (λ x. Map.get x (Map.insert addr (pub_key, port) peers.info_map)) p
            ∙ get-insert_self addr (pub_key, port) peers.info_map,
      )
  | inr other ↦
      let ne : a ≢ addr = λ p. cc ((==_iff a addr).1 p) in
      let (info, e) = valid a (In-old addr peers.addrs a (set_contains addr peers.addrs) ne m) in
      (info, get-insert_ne addr a (pub_key, port) peers.info_map ne ∙ e)
]

infos_of-Returns :
    (addrs : List H160) (info_map : Map H160 (List ℕ × ℕ))
    → ((addr : H160) → In addr addrs → (info : List ℕ × ℕ) × (Map.get addr info_map ≡ some info))
    → Returns (infos_of addrs info_map) λ infos. map (λ i. i.0) infos ≡ addrs
unfolding infos_of
infos_of-Returns [] info_map known = ([], refl, refl)
infos_of-Returns (addr ∷ addrs) info_map known =
    let (info, e) = known addr (inl refl) in
    let (infos, run, same) = infos_of-Returns addrs info_map (λ a m. known a (inr m)) in
    ((addr, info) ∷ infos, rw (e, run) refl, ap (λ rest. addr ∷ rest) same)

-- Where every address has its entry, `get_all_peers_info` does not panic and lists each address once, in
-- the order of the set.
pub get_all_peers_info-Returns :
    (peers : Peers)
    → IsPeers peers
    → Returns (get_all_peers_info peers) λ infos. map (λ i. i.0) infos ≡ peers.addrs
unfolding get_all_peers_info
get_all_peers_info-Returns peers valid = infos_of-Returns peers.addrs peers.info_map valid
