-- ===== src/Mempool.antt =====
-- src/mempool.rs: the pool of pending transactions, the map from spent inputs to the transactions that
-- claim them, the arrival times that a supernode records, and the buffer of the dandelion spreaders.
use bitcoin_client_rust.Ring.{Ring}
use bitcoin_client_rust.Hash.{H256, H256_eq}
use bitcoin_client_rust.Transaction.{
  TxInput, TxInput_eq, SignedTransaction, Bincode, sign_check, generate_signed_coinbase_transaction,
}
use bitcoin_client_rust.Block.{Content}
use bitcoin_client_rust.Prelude.Map
use bitcoin_client_rust.Prelude.Map.{Map, contains_key}
use bitcoin_client_rust.Prelude.{
  ℕ, Bool, true, false, not, ◌||◌, Option, none, some, List, [], ◌∷◌, ◌++◌, map, if◌then◌else◌, ltb,
  leb, length,
}
pub mod Claims
pub mod Removal
pub mod Added
pub mod Valid
pub mod Reach
pub mod Signed

-- `std::net::SocketAddr`
pub record SocketAddr : Type 0 where
  pub ip : List ℕ
  pub port : ℕ  -- u16

pub record MemPool : Type 0 where
  pub transactions : Map H256 SignedTransaction
  pub input_tran_map : Map TxInput (H256 × ℕ)  -- the hash and the timestamp of the transaction
  pub ts_addr_map : Map H256 (List (SocketAddr × ℕ))
  pub dandelion_buffer : Map H256 SignedTransaction

abbrev pub pool_size_limit : ℕ
pool_size_limit = 100000

unfoldable pub new : MemPool
new = record { transactions = []; input_tran_map = []; ts_addr_map = []; dandelion_buffer = [] }

unfoldable pub exist : MemPool → H256 → Bool
exist pool hash = contains_key hash pool.transactions

unfoldable pub size : MemPool → ℕ
size pool = length pool.transactions

unfoldable pub empty : MemPool → Bool
empty pool = elim pool.transactions [ [] ↦ true | t ∷ ts ↦ false ]

unfoldable pub insert_buffer_tran : SignedTransaction → MemPool → MemPool
insert_buffer_tran tran pool = record pool {
  dandelion_buffer = Map.insert tran.hash tran pool.dandelion_buffer;
}

unfoldable pub contains_buffered_tran : MemPool → H256 → Bool
contains_buffered_tran pool hash = contains_key hash pool.dandelion_buffer

unfoldable pub remove_buffered_tran : H256 → MemPool → MemPool × Option SignedTransaction
remove_buffered_tran hash pool = (
  record pool { dandelion_buffer = Map.remove hash pool.dandelion_buffer },
  Map.get hash pool.dandelion_buffer,
)

-- The clock of `get_current_time_in_nano` is the argument `now`.
unfoldable pub insert_ts_and_addr : H256 → SocketAddr → ℕ → MemPool → MemPool
insert_ts_and_addr hash addr now pool =
    let entry : List (SocketAddr × ℕ) = elim (Map.get hash pool.ts_addr_map) [
      | some v ↦ v ++ (addr, now) ∷ []
      | none ↦ (addr, now) ∷ []
    ] in
    record pool { ts_addr_map = Map.insert hash entry pool.ts_addr_map }

unfoldable pub remove_tran_internel : H256 → MemPool → MemPool
remove_tran_internel hash pool = record pool {
  transactions = Map.remove hash pool.transactions;
  dandelion_buffer = Map.remove hash pool.dandelion_buffer;
}

-- The first loop of `try_insert`: the hashes of the conflicting transactions, or none where one of
-- them is not later than `ts`.
unfoldable pub find_conflicts :
    ℕ → List TxInput → Map TxInput (H256 × ℕ) → List H256 → Option (List H256)
find_conflicts ts [] claims to_remove_hash = some to_remove_hash
find_conflicts ts (input ∷ inputs) claims to_remove_hash = elim (Map.get input claims) [
  | none ↦ find_conflicts ts inputs claims to_remove_hash
  | some (conf_hash, conf_ts) ↦
      if ltb ts conf_ts
      then find_conflicts ts inputs claims (to_remove_hash ++ conf_hash ∷ [])
      else none
]

-- The second loop.
unfoldable pub remove_all : List H256 → MemPool → MemPool
remove_all [] pool = pool
remove_all (hash ∷ hashes) pool = remove_all hashes (remove_tran_internel hash pool)

-- The third loop.
unfoldable pub claim_inputs :
    H256 → ℕ → List TxInput → Map TxInput (H256 × ℕ) → Map TxInput (H256 × ℕ)
claim_inputs hash ts [] claims = claims
claim_inputs hash ts (input ∷ inputs) claims =
    claim_inputs hash ts inputs (Map.insert input (hash, ts) claims)

-- What `try_insert` does once the conflicts are known to be later.
unfoldable pub replace_conflicts : SignedTransaction → List H256 → MemPool → MemPool
replace_conflicts tran to_remove_hash pool =
    let cleared = remove_all to_remove_hash pool in
    record cleared {
      input_tran_map =
          claim_inputs tran.hash tran.transaction.ts tran.transaction.inputs cleared.input_tran_map;
      transactions = Map.insert tran.hash tran cleared.transactions;
    }

unfoldable pub try_insert : SignedTransaction → MemPool → MemPool × Bool
unfolding remove_buffered_tran replace_conflicts
try_insert tran pool =
    let unbuffered = (remove_buffered_tran tran.hash pool).0 in
    elim (find_conflicts tran.transaction.ts tran.transaction.inputs unbuffered.input_tran_map []) [
      | none ↦ (unbuffered, false)
      | some to_remove_hash ↦ (replace_conflicts tran to_remove_hash unbuffered, true)
    ]

unfoldable pub remove_trans : List H256 → MemPool → MemPool
remove_trans [] pool = pool
remove_trans (hash ∷ trans) pool = elim (Map.get hash pool.transactions) [
  | some t ↦ remove_trans trans (remove_tran_internel hash pool)
  | none ↦ remove_trans trans pool
]

-- The loop of `remove_conflict_tx_inputs` over the inputs of one transaction.
unfoldable pub remove_inputs : List TxInput → MemPool → MemPool
remove_inputs [] pool = pool
remove_inputs (input ∷ inputs) pool = elim (Map.get input pool.input_tran_map) [
  | none ↦ remove_inputs inputs pool
  | some (tx_hash, ts) ↦ remove_inputs inputs (
      remove_tran_internel tx_hash
        (record pool { input_tran_map = Map.remove input pool.input_tran_map }))
]

unfoldable pub remove_spent : List SignedTransaction → MemPool → MemPool
remove_spent [] pool = pool
remove_spent (t ∷ trans) pool = remove_spent trans (remove_inputs t.transaction.inputs pool)

unfoldable pub remove_conflict_tx_inputs : Content → MemPool → MemPool
unfolding remove_spent
remove_conflict_tx_inputs content pool = remove_spent content.trans pool

unfoldable pub get_trans : MemPool → List H256 → List SignedTransaction
get_trans pool [] = []
get_trans pool (h ∷ hashes) = elim (Map.get h pool.transactions) [
  | some t ↦ t ∷ get_trans pool hashes
  | none ↦ get_trans pool hashes
]

module _ ⦃ring : Ring⦄ ⦃bincode : Bincode⦄ where
  unfoldable pub add_with_check : SignedTransaction → MemPool → MemPool × Bool
  unfolding exist size
  add_with_check tran pool =
      if exist pool tran.hash || (not (sign_check tran) || leb pool_size_limit (size pool))
      then (pool, false)
      else try_insert tran pool

  -- `MemPool::new_with_trans`
  unfoldable pub add_all : List SignedTransaction → MemPool → MemPool
  add_all [] pool = pool
  add_all (t ∷ trans) pool = add_all trans (add_with_check t pool).0

  -- The key pair and the clock are arguments; the transactions stand in the order of the map.
  unfoldable pub create_content : ℕ → List ℕ → MemPool → Content
  create_content ts key pool = record {
    trans = generate_signed_coinbase_transaction ts key ∷ map (λ e. e.1) pool.transactions;
  }
