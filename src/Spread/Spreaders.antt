-- ===== src/Spread/Spreaders.antt =====
-- src/spread.rs: the kinds of spreaders, how each starts, and which `spread` it runs.
use bitcoin_client_rust.Ring.{Ring}
use bitcoin_client_rust.Transaction.{Bincode}
use bitcoin_client_rust.Mempool.{MemPool}
use bitcoin_client_rust.Message.{Message, Handle, Effect}
use bitcoin_client_rust.Spread.{Spreading, Guards, spread_default, spread_trickle, diffusion}
use bitcoin_client_rust.Spread.Dandelion.{Chance, spread_dandelion, spread_dandelion_plus}
use bitcoin_client_rust.Prelude.Map.{Map}
use bitcoin_client_rust.Prelude.{ℕ, true, Option, none, List, [], Run, ok, ◌>>=◌}

pub data Spreader : Type 0 where
  default trickle diffusing dandelion dandelion_plus : Spreader

-- `new` of each kind, with `new_base`: dandelion++ starts as a diffuser, and no other kind asks for it.
unfoldable pub new_spreading : MemPool → Spreading
new_spreading mempool = record {
  guard_map = [];
  mempool = mempool;
  target_index = none;
  routing_table = [];
  is_diffuser = true;
}

-- What the kinds that only schedule writes leave.
unfoldable pub with_guards : Run Guards → Spreading → Run (Spreading × List Effect)
with_guards scheduled s = scheduled >>= λ guards. ok (record s { guard_map = guards }, [])

module _ ⦃ring : Ring⦄ ⦃bincode : Bincode⦄ where
  -- `get_spreader`, as the `spread` of the kind.
  unfoldable pub get_spreader :
      Spreader
      → Chance
      → Map ℕ Handle
      → List ℕ
      → Message
      → Option ℕ
      → Spreading
      → Run (Spreading × List Effect)
  unfolding with_guards spread_default spread_trickle diffusion spread_dandelion
      spread_dandelion_plus
  get_spreader default chance peers peer_list msg src_peer_key s =
      with_guards (spread_default chance.takes chance.clock peers peer_list msg s.guard_map) s
  get_spreader trickle chance peers peer_list msg src_peer_key s =
      with_guards (spread_trickle chance.takes chance.clock peers chance.shuffled msg s.guard_map) s
  get_spreader diffusing chance peers peer_list msg src_peer_key s =
      with_guards (diffusion chance.takes chance.clock peers chance.shuffled msg s.guard_map) s
  get_spreader dandelion chance peers peer_list msg src_peer_key s =
      spread_dandelion chance peers peer_list msg s
  get_spreader dandelion_plus chance peers peer_list msg src_peer_key s =
      spread_dandelion_plus chance peers peer_list msg src_peer_key s
