-- ===== src/Spread/Relays.antt =====
-- What a relay of the transactions of src/spread.rs leaves: one diffusion, or one write to a chosen peer.
use bitcoin_client_rust.Ring.{Ring}
use bitcoin_client_rust.Transaction.{SignedTransaction, Bincode}
use bitcoin_client_rust.Message.{
  Message, Handle, Effect, write, new_transaction_hashes, new_dandelion_transactions,
}
use bitcoin_client_rust.Hash.{H256}
use bitcoin_client_rust.Spread.{
  Spreading, Guards, dandelion_reset_epoch, dandelion_plus_fail_safe_check, admit_all,
}
use bitcoin_client_rust.Spread.Dandelion.{
  Chance, is_some, epoch, choose_stem, relay_to, buffer_all, schedule_fail_safe, diffuse_trans,
  relay_plus,
}
use bitcoin_client_rust.Spread.Delays.{Listed, TakesDates, schedule-Returns, diffusion-Returns}
use bitcoin_client_rust.Spread.Sound.{
  NoLoop, Drawn, get_elem?-some, relay_routed-Returns, source_key-Returns,
}
use bitcoin_client_rust.Prelude.Map
use bitcoin_client_rust.Prelude.Map.{Map, get-insert_cases}
use bitcoin_client_rust.Prelude.{
  ◌≤◌, ◌*◌, ℕ, suc, ◌<◌, refl, inl, inr, ◌||◌, ◌&&◌, Option, none, some, List, [], ◌∷◌, length, ltb,
  nat_eq, Bool-cases, if◌then◌else◌, Run, Returns, arith,
}

module _ ⦃ring : Ring⦄ ⦃bincode : Bincode⦄ where
  -- A call of a spreader ends, and no key is routed to itself afterwards.
  abbrev pub Spreads : Run (Spreading × List Effect) → Type 0
  Spreads call = Returns call λ r. NoLoop r.0.routing_table

  pub diffuse_trans-Spreads :
      (chance : Chance) (peers : Map ℕ Handle) (trans : List SignedTransaction) (s : Spreading)
      → TakesDates chance.takes
      → length chance.shuffled ≤ 77
      → Listed chance.shuffled peers
      → NoLoop s.routing_table
      → Spreads (diffuse_trans chance peers trans s)
  unfolding diffuse_trans
  diffuse_trans-Spreads chance peers trans s law few listed free =
      let (pool, new_hashes) = admit_all trans s.mempool in
      let (guards, run, _) =
        diffusion-Returns chance.takes chance.clock peers chance.shuffled
          (new_transaction_hashes new_hashes) s.guard_map law few listed in
      ((record s { mempool = pool; guard_map = guards }, []), rw run refl, free)

  fail_safe-Returns :
      (chance : Chance) (peer_list : List ℕ) (hashes : List H256) (guards : Guards)
      → Drawn chance peer_list
      → Returns (schedule_fail_safe chance hashes guards) λ g. Unit {0}
  unfolding schedule_fail_safe
  fail_safe-Returns chance peer_list [] guards drawn = (guards, refl, tt)
  fail_safe-Returns chance peer_list (h ∷ hashes) guards drawn = (
    _,
    schedule-Returns chance.takes (chance.clock 1) (chance.fail_safe_delay * 1000)
        (dandelion_plus_fail_safe_check (h ∷ hashes)) guards drawn.takes
        (omega (arith, drawn.fail_safe)),
    tt,
  )

  relay_plus-Spreads :
      (chance : Chance) (peers : Map ℕ Handle) (peer_list : List ℕ) (trans : List SignedTransaction)
      (src_peer_key : Option ℕ) (s : Spreading)
      → Drawn chance peer_list
      → 0 < length peer_list
      → NoLoop s.routing_table
      → Spreads (relay_plus chance peers peer_list trans src_peer_key s)
  unfolding relay_plus
  relay_plus-Spreads chance peers peer_list trans src_peer_key s drawn someone free =
      let (key, source, _) = source_key-Returns chance peer_list src_peer_key drawn someone in
      let (effects, run, _) =
        relay_routed-Returns key peers (new_dandelion_transactions trans) s.routing_table free in
      let (pool, hashes) = buffer_all trans s.mempool in
      let (guards, scheduled, _) = fail_safe-Returns chance peer_list hashes s.guard_map drawn in
      (
        (record s { mempool = pool; guard_map = guards }, effects),
        rw (scheduled, source, run) refl,
        free,
      )

  -- A target is chosen from the list where there is none.
  choose_target :
      (chance : Chance) (peers : Map ℕ Handle) (peer_list : List ℕ) (msg : Message) (s : Spreading)
      → Listed peer_list peers
      → Drawn chance peer_list
      → NoLoop s.routing_table
      → Spreads (choose_stem chance peers peer_list msg s)
  unfolding choose_stem
  choose_target chance peers peer_list msg s listed drawn free =
      elim (Bool-cases (ltb 0 (length peer_list))) [
        | inr nobody ↦ ((s, []), rw nobody refl, free)
        | inl somebody ↦
            let (target, found, m) =
              get_elem?-some peer_list chance.choice (drawn.choice (ground (arith, somebody))) in
            let (handle, there) = listed target m in
            let taken =
              schedule-Returns chance.takes (chance.clock 0) epoch dandelion_reset_epoch s.guard_map
                drawn.takes (omega arith) in
            (
              (
                record s {
                  target_index = some target;
                  guard_map =
                      Map.insert (chance.clock 0) (epoch, dandelion_reset_epoch) s.guard_map;
                },
                write handle msg ∷ [],
              ),
              rw (somebody, found, there, taken) refl,
              free,
            )
      ]

  pub relay_current :
      (current : Option Handle) (chance : Chance) (peers : Map ℕ Handle) (peer_list : List ℕ)
      (msg : Message) (s : Spreading)
      → Listed peer_list peers
      → Drawn chance peer_list
      → NoLoop s.routing_table
      → Spreads (relay_to current chance peers peer_list msg s)
  unfolding relay_to
  relay_current (some handle) chance peers peer_list msg s listed drawn free =
      ((s, write handle msg ∷ []), refl, free)
  relay_current none chance peers peer_list msg s listed drawn free =
      choose_target chance peers peer_list msg s listed drawn free

  -- The relay of dandelion++, once the table is set.
  pub relay_ready :
      (chance : Chance) (peers : Map ℕ Handle) (peer_list : List ℕ) (trans : List SignedTransaction)
      (src_peer_key : Option ℕ) (ready : Spreading)
      → 0 < length peer_list
      → length peer_list ≤ 77
      → Listed chance.shuffled peers
      → Drawn chance peer_list
      → NoLoop ready.routing_table
      → Spreads (
          if ltb (length peer_list) 2 || (ready.is_diffuser && is_some src_peer_key)
          then diffuse_trans (record chance { clock = λ i. chance.clock (suc i) }) peers trans ready
          else relay_plus chance peers peer_list trans src_peer_key ready)
  relay_ready chance peers peer_list trans src_peer_key ready someone few mixed drawn free =
      elim (Bool-cases (ltb (length peer_list) 2 || (ready.is_diffuser && is_some src_peer_key))) [
        | inl diffuser ↦ rw diffuser (
            diffuse_trans-Spreads (record chance { clock = λ i. chance.clock (suc i) }) peers trans
              ready drawn.takes (omega (arith, few, drawn.whole)) mixed free)
        | inr relayer ↦
            rw relayer (
              relay_plus-Spreads chance peers peer_list trans src_peer_key ready drawn someone free)
      ]
