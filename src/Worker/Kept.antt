-- ===== src/Worker/Kept.antt =====
-- What the handlers of src/network/worker.rs leave of the pool.
use bitcoin_client_rust.Hash.{H256, H160_eq, H256_eq}
use bitcoin_client_rust.Transaction.{TxInput_eq}
use bitcoin_client_rust.Block.{Content}
use bitcoin_client_rust.Mempool.{
  MemPool, insert_ts_and_addr, remove_trans, remove_conflict_tx_inputs, pool_size_limit,
}
use bitcoin_client_rust.Mempool.Claims.{IsPool}
use bitcoin_client_rust.Mempool.Removal.{
  remove_spent-Shrinks, remove_trans-IsPool, remove_trans-Shrinks,
}
use bitcoin_client_rust.Message.{Handle}
use bitcoin_client_rust.Worker.{record_arrivals}
use bitcoin_client_rust.Prelude.Map
use bitcoin_client_rust.Prelude.{ℕ, suc, ◌≤◌, ◌≡◌, refl, sym, ap, ◌∙◌, List, [], ◌∷◌, arith, length}

-- A consistent pool within its limit.
abbrev pub IsKept : MemPool → Type 0
IsKept pool = IsPool pool × (length pool.transactions ≤ pool_size_limit)

-- Only the transactions and the claims matter to it.
pub same-IsKept :
    (before after : MemPool)
    → after.transactions ≡ before.transactions
    → after.input_tran_map ≡ before.input_tran_map
    → IsKept before
    → IsKept after
same-IsKept before after same claims (valid, room) = (
  record {
    keyed = λ h t e. valid.keyed h t (sym (ap (Map.get h) same) ∙ e);
    claimed = λ h t input e m.
        ap (Map.get input) claims ∙ valid.claimed h t input (sym (ap (Map.get h) same) ∙ e) m;
  },
  rw same room,
)

pub arrival-IsKept :
    (h : H256) (peer : Handle) (now : ℕ) (pool : MemPool)
    → IsKept pool
    → IsKept (insert_ts_and_addr h peer.addr now pool)
unfolding insert_ts_and_addr
arrival-IsKept h peer now pool kept =
    same-IsKept pool (insert_ts_and_addr h peer.addr now pool) refl refl kept

pub record_arrivals-IsKept :
    (clock : ℕ → ℕ) (i : ℕ) (peer : Handle) (hashes : List H256) (pool : MemPool)
    → IsKept pool
    → IsKept (record_arrivals clock i peer hashes pool)
unfolding record_arrivals
record_arrivals-IsKept clock i peer [] pool kept = kept
record_arrivals-IsKept clock i peer (h ∷ hashes) pool kept =
    record_arrivals-IsKept clock (suc i) peer hashes (insert_ts_and_addr h peer.addr (clock i) pool)
      (arrival-IsKept h peer (clock i) pool kept)

pub remove_trans-IsKept :
    (hs : List H256) (pool : MemPool) → IsKept pool → IsKept (remove_trans hs pool)
remove_trans-IsKept hs pool (valid, room) =
    (remove_trans-IsPool hs pool valid, omega (arith, (remove_trans-Shrinks hs pool).fewer, room))

pub remove_conflict_tx_inputs-IsKept :
    (content : Content) (pool : MemPool)
    → IsKept pool
    → IsKept (remove_conflict_tx_inputs content pool)
unfolding remove_conflict_tx_inputs
remove_conflict_tx_inputs-IsKept content pool (valid, room) =
    let (sound, shrinks) = remove_spent-Shrinks content.trans pool valid in
    (sound, omega (arith, shrinks.fewer, room))
