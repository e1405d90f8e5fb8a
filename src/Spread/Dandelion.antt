-- ===== src/Spread/Dandelion.antt =====
-- src/spread.rs and src/helper.rs: the dandelion and dandelion++ spreaders and the routing table.
use bitcoin_client_rust.Ring.{Ring}
use bitcoin_client_rust.Hash.{H256}
use bitcoin_client_rust.Transaction.{SignedTransaction, Bincode}
use bitcoin_client_rust.Mempool.{
  MemPool, remove_buffered_tran, insert_buffer_tran, contains_buffered_tran,
}
use bitcoin_client_rust.Message.{
  Message, Handle, Effect, new_transaction_hashes, new_dandelion_transactions, write,
}
use bitcoin_client_rust.Prelude.Map
use bitcoin_client_rust.Prelude.Map.{Map}
use bitcoin_client_rust.Prelude.{
  ℕ, suc, ◌+◌, ◌*◌, Bool, true, false, not, ◌&&◌, ◌||◌, Option, some, none, List, [], ◌∷◌, length,
  ltb, leb, if◌then◌else◌, ◌==◌, nat_eq, get_elem?, Run, ok, panic, ◌>>=◌, unwrap,
}
use bitcoin_client_rust.Spread.{
  Spreading, Guards, dandelion_reset_epoch, dandelion_plus_reset_epoch,
  dandelion_plus_fail_safe_check, admit_all, schedule, diffusion,
}

-- The loop of `helper::set_routing_table` over the peers that are not outbound; a set is iterated in some
-- order, which is that of the list here.
unfoldable pub route_peers : ℕ → ℕ → List ℕ → ℕ → ℕ → Map ℕ ℕ → Map ℕ ℕ
route_peers first second [] out_cnt1 out_cnt2 table = table
route_peers first second (peer ∷ peer_set) out_cnt1 out_cnt2 table =
    let to_first =
      route_peers first second peer_set (out_cnt1 + 1) out_cnt2 (Map.insert peer first table) in
    let to_second =
      route_peers first second peer_set out_cnt1 (out_cnt2 + 1) (Map.insert peer second table) in
    if ltb out_cnt1 out_cnt2 then to_first else to_second

unfoldable pub without : ℕ → ℕ → List ℕ → List ℕ
without first second [] = []
without first second (peer ∷ list) =
    let rest = without first second list in
    if peer == first || peer == second then rest else peer ∷ rest

-- `helper::set_routing_table`, by what `get_k_random_peers(peer_list, 2)` gave; its assertions panic.
unfoldable pub set_routing_table : List ℕ → List ℕ → Map ℕ ℕ → Run (Map ℕ ℕ)
unfolding route_peers without
set_routing_table (first ∷ second ∷ []) peer_list table =
    if first == second then panic else elim table [
      | [] ↦ ok (
          route_peers first second (without first second peer_list) 0 0
            (Map.insert second first (Map.insert first second [])))
      | entry ∷ entries ↦ panic
    ]
set_routing_table _ peer_list table = ok table

-- `helper::get_k_random_peers`, where `drawn` are the different peers that were drawn.
unfoldable pub get_k_random_peers : List ℕ → ℕ → List ℕ → List ℕ
get_k_random_peers peer_list k drawn = if leb (length peer_list) k then peer_list else drawn

module _ ⦃ring : Ring⦄ ⦃bincode : Bincode⦄ where
  -- What `spread` of a dandelion spreader gets from its surroundings: the readings of the clock, the
  -- shuffled list of peers, the random numbers in the order of their calls, and the delay of the
  -- fail-safe check.
  pub record Chance : Type 0 where
    pub clock : ℕ → ℕ
    pub takes : ℕ → Bool  -- whether the timer takes a delay of so many microseconds
    pub shuffled : List ℕ
    pub phase : ℕ  -- gen_random_num(0, 99)
    pub choice : ℕ  -- gen_random_num(0, peer_list.len() - 1)
    pub outbound : List ℕ  -- get_k_random_peers(peer_list, 2)
    pub fail_safe_delay : ℕ

  -- The diffusion phase: valid transactions enter the pool, and their hashes are relayed.
  unfoldable pub diffuse_trans :
      Chance → Map ℕ Handle → List SignedTransaction → Spreading → Run (Spreading × List Effect)
  unfolding admit_all diffusion
  diffuse_trans chance peers trans s =
      let (pool, new_hashes) = admit_all trans s.mempool in
      diffusion chance.takes chance.clock peers chance.shuffled (new_transaction_hashes new_hashes)
        s.guard_map
      >>= λ guards. ok (record s { mempool = pool; guard_map = guards }, [])

  abbrev pub phase_switch_prob : ℕ
  phase_switch_prob = 10

  abbrev pub epoch : ℕ
  epoch = 5000  -- microseconds: `EPOCH_MS` goes to `Duration::microseconds`

  -- `peers.get(target_index)`
  unfoldable pub current_target : Option ℕ → Map ℕ Handle → Option Handle
  current_target none peers = none
  current_target (some i) peers = Map.get i peers

  -- A new target, until the end of the epoch.
  unfoldable pub choose_stem :
      Chance → Map ℕ Handle → List ℕ → Message → Spreading → Run (Spreading × List Effect)
  unfolding schedule
  choose_stem chance peers peer_list msg s =
      if ltb 0 (length peer_list)
      then (unwrap (get_elem? peer_list chance.choice) >>= λ target.
          unwrap (Map.get target peers) >>= λ handle.
          schedule chance.takes (chance.clock 0) epoch dandelion_reset_epoch s.guard_map
          >>= λ guards.
              ok (
                record s { target_index = some target; guard_map = guards },
                write handle msg ∷ [],
              ))
      else ok (s, [])

  unfoldable pub relay_to :
      Option Handle
      → Chance
      → Map ℕ Handle
      → List ℕ
      → Message
      → Spreading
      → Run (Spreading × List Effect)
  unfolding choose_stem
  relay_to (some handle) chance peers peer_list msg s = ok (s, write handle msg ∷ [])
  relay_to none chance peers peer_list msg s = choose_stem chance peers peer_list msg s

  -- The stem phase of dandelion.
  unfoldable pub relay_stem :
      Chance → Map ℕ Handle → List ℕ → Message → Spreading → Run (Spreading × List Effect)
  unfolding current_target relay_to
  relay_stem chance peers peer_list msg s =
      relay_to (current_target s.target_index peers) chance peers peer_list msg s

  -- `DandelionSpreader::spread`; any other message is only logged.
  unfoldable pub spread_dandelion :
      Chance → Map ℕ Handle → List ℕ → Message → Spreading → Run (Spreading × List Effect)
  unfolding diffusion diffuse_trans relay_stem
  spread_dandelion chance peers peer_list (new_transaction_hashes hashes) s =
      diffusion chance.takes chance.clock peers chance.shuffled (new_transaction_hashes hashes)
        s.guard_map
      >>= λ guards. ok (record s { guard_map = guards }, [])
  spread_dandelion chance peers peer_list (new_dandelion_transactions trans) s =
      if ltb chance.phase phase_switch_prob
      then diffuse_trans chance peers trans s
      else relay_stem chance peers peer_list (new_dandelion_transactions trans) s
  spread_dandelion chance peers peer_list _ s = ok (s, [])

  abbrev pub is_diffuser_prob : ℕ
  is_diffuser_prob = 10

  -- `try_set_table`, with the task that clears the table after the epoch.
  unfoldable pub try_set_table : Chance → List ℕ → Spreading → Run Spreading
  unfolding set_routing_table get_k_random_peers schedule
  try_set_table chance peer_list s =
      let filled =
        set_routing_table (get_k_random_peers peer_list 2 chance.outbound) peer_list s.routing_table
        >>= λ table.
            schedule chance.takes (chance.clock 0) epoch dandelion_plus_reset_epoch s.guard_map
            >>= λ guards. ok (record s {
              routing_table = table;
              is_diffuser = ltb chance.phase is_diffuser_prob;
              guard_map = guards;
            }) in
      if length s.routing_table == 0 && leb 2 (length peer_list)
      then filled
      else if ltb (length peer_list) 2
      then ok (record s { is_diffuser = true })
      else ok s

  -- The transactions that are not buffered yet enter the buffer.
  unfoldable pub buffer_all : List SignedTransaction → MemPool → MemPool × List H256
  buffer_all [] pool = (pool, [])
  buffer_all (t ∷ trans) pool =
      let kept = buffer_all trans pool in
      let (done, hashes) = buffer_all trans (insert_buffer_tran t pool) in
      if not (contains_buffered_tran pool t.hash) then (done, t.hash ∷ hashes) else kept

  -- `schedule_fail_safe_task`, unless there is nothing to check.
  unfoldable pub schedule_fail_safe : Chance → List H256 → Guards → Run Guards
  unfolding schedule
  schedule_fail_safe chance [] guards = ok guards
  schedule_fail_safe chance (h ∷ hashes) guards =
      schedule chance.takes (chance.clock 1) (chance.fail_safe_delay * 1000)
        (dandelion_plus_fail_safe_check (h ∷ hashes)) guards

  -- The relay along the routing table, from the key of the source.
  unfoldable pub relay_routed : ℕ → Map ℕ Handle → Message → Map ℕ ℕ → Run (List Effect)
  relay_routed src_key peers msg table = elim (Map.get src_key table) [
    | none ↦ ok []
    | some outbound ↦ elim (Map.get outbound peers) [
      | none ↦ ok []
      | some handle ↦ if outbound == src_key then panic else ok (write handle msg ∷ [])
    ]
  ]

  -- The source key: a random peer where this node is the source.
  unfoldable pub source_key : Chance → List ℕ → Option ℕ → Run ℕ
  source_key chance peer_list (some key) = ok key
  source_key chance peer_list none = unwrap (get_elem? peer_list chance.choice)

  -- The stem phase of dandelion++.
  unfoldable pub relay_plus :
      Chance
      → Map ℕ Handle
      → List ℕ
      → List SignedTransaction
      → Option ℕ
      → Spreading
      → Run (Spreading × List Effect)
  unfolding buffer_all schedule_fail_safe relay_routed source_key
  relay_plus chance peers peer_list trans src_peer_key s =
      let (pool, hashes) = buffer_all trans s.mempool in
      schedule_fail_safe chance hashes s.guard_map >>= λ guards.
      source_key chance peer_list src_peer_key >>= λ src_key.
      relay_routed src_key peers (new_dandelion_transactions trans) s.routing_table >>= λ effects.
      ok (record s { mempool = pool; guard_map = guards }, effects)

  unfoldable pub unbuffer_all : List H256 → MemPool → MemPool
  unbuffer_all [] pool = pool
  unbuffer_all (h ∷ hashes) pool = unbuffer_all hashes (remove_buffered_tran h pool).0

  abbrev pub is_some : Option ℕ → Bool
  is_some none = false
  is_some (some key) = true

  -- `DandelionPlusSpreader::spread`, for a list of peers that is not empty.
  unfoldable pub spread_plus :
      Chance
      → Map ℕ Handle
      → List ℕ
      → Message
      → Option ℕ
      → Spreading
      → Run (Spreading × List Effect)
  unfolding unbuffer_all diffusion diffuse_trans relay_plus try_set_table
  spread_plus chance peers peer_list (new_transaction_hashes hashes) src_peer_key s =
      diffusion chance.takes chance.clock peers chance.shuffled (new_transaction_hashes hashes)
        s.guard_map
      >>= λ guards.
          ok (record s { guard_map = guards; mempool = unbuffer_all hashes s.mempool }, [])
  spread_plus chance peers peer_list (new_dandelion_transactions trans) src_peer_key s =
      try_set_table chance peer_list s >>= λ ready.
      if ltb (length peer_list) 2 || (ready.is_diffuser && is_some src_peer_key)
      then diffuse_trans (record chance { clock = λ i. chance.clock (suc i) }) peers trans ready
      else relay_plus chance peers peer_list trans src_peer_key ready
  spread_plus chance peers peer_list _ src_peer_key s = ok (s, [])

  unfoldable pub spread_dandelion_plus :
      Chance
      → Map ℕ Handle
      → List ℕ
      → Message
      → Option ℕ
      → Spreading
      → Run (Spreading × List Effect)
  unfolding spread_plus
  spread_dandelion_plus chance peers peer_list msg src_peer_key s =
      let spread = spread_plus chance peers peer_list msg src_peer_key s in
      elim peer_list [ [] ↦ ok (s, []) | p ∷ ps ↦ spread ]
