-- ===== src/Server/Peerlist.antt =====
-- The list of peers and the slab hold the same keys.
use bitcoin_client_rust.Message.{Handle, Message, write}
use bitcoin_client_rust.Server.{
  Server, write_all, socket, queue, source_of, socket_token, writer_token,
}
use bitcoin_client_rust.Prelude.Map
use bitcoin_client_rust.Prelude.{
  ℕ, suc, ◌≡◌, refl, ap, inl, inr, some, List, [], ◌∷◌, In, length, nat_eq, arith, Returns,
}

-- The tokens of a peer lead back to it.
pub source_of-token :
    (key : ℕ)
    → (source_of (socket_token key) ≡ socket key) × (source_of (writer_token key) ≡ queue key)
unfolding source_of socket_token writer_token
source_of-token key = (ground arith, ground arith)

-- Each listed key has its handle in the slab.
abbrev pub IsListed : Server → Type 0
IsListed server = (k : ℕ) → In k server.peer_list → (h : Handle) × (Map.get k server.peers ≡ some h)

pub write_all-Returns :
    (keys : List ℕ) (peers : Map.Map ℕ Handle) (msg : Message)
    → ((k : ℕ) → In k keys → (h : Handle) × (Map.get k peers ≡ some h))
    → Returns (write_all keys peers msg) λ effects. length effects ≡ length keys
unfolding write_all
write_all-Returns [] peers msg listed = ([], refl, refl)
write_all-Returns (k ∷ keys) peers msg listed =
    let (h, e) = listed k (inl refl) in
    let (effects, run, len) = write_all-Returns keys peers msg (λ j m. listed j (inr m)) in
    (write h msg ∷ effects, rw (e, run) refl, ap suc len)
