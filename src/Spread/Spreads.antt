-- ===== src/Spread/Spreads.antt =====
-- What a call of a spreader of src/spread.rs leaves.
use bitcoin_client_rust.Spread.Relays.{Spreads, diffuse_trans-Spreads, relay_current, relay_ready}
use bitcoin_client_rust.Ring.{Ring}
use bitcoin_client_rust.Transaction.{Bincode}
use bitcoin_client_rust.Message.{
  Message, Handle, new_transaction_hashes, new_dandelion_transactions,
}
use bitcoin_client_rust.Server.{Server}
use bitcoin_client_rust.Server.Positions.{IsServer, Once}
use bitcoin_client_rust.Spread.{Spreading, Guards, spread_default, spread_trickle}
use bitcoin_client_rust.Spread.Dandelion.{
  Chance, unbuffer_all, phase_switch_prob, current_target, relay_stem, spread_dandelion,
  spread_plus, spread_dandelion_plus,
}
use bitcoin_client_rust.Spread.Spreaders.{
  Spreader, default, trickle, diffusing, dandelion, dandelion_plus, with_guards, get_spreader,
}
use bitcoin_client_rust.Spread.Delays.{Listed, schedule_writes-Returns, diffusion-Returns}
use bitcoin_client_rust.Spread.Sound.{NoLoop, Drawn, try_set_table-NoLoop}
use bitcoin_client_rust.Message.{
  ping, pong, new_block_hashes, get_blocks, blocks, get_transactions, transactions, new_peers,
  introduce,
}
use bitcoin_client_rust.Prelude.Map.{Map}
use bitcoin_client_rust.Prelude.{
  ℕ, suc, ◌*◌, ◌<◌, ◌≤◌, refl, inl, inr, Option, List, [], ◌∷◌, length, ltb, nat_eq, Bool-cases,
  Run, Returns, arith,
}

module _ ⦃ring : Ring⦄ ⦃bincode : Bincode⦄ where
  spread_dandelion-Spreads :
      (chance : Chance) (peers : Map ℕ Handle) (peer_list : List ℕ) (msg : Message) (s : Spreading)
      → Listed peer_list peers
      → length peer_list ≤ 77
      → Listed chance.shuffled peers
      → Drawn chance peer_list
      → NoLoop s.routing_table
      → Spreads (spread_dandelion chance peers peer_list msg s)
  unfolding spread_dandelion relay_stem
  spread_dandelion-Spreads chance peers peer_list (new_transaction_hashes hashes) s listed few mixed
        drawn free =
      let (guards, run, _) =
        diffusion-Returns chance.takes chance.clock peers chance.shuffled
          (new_transaction_hashes hashes) s.guard_map drawn.takes (omega (arith, few, drawn.whole))
          mixed in
      ((record s { guard_map = guards }, []), rw run refl, free)
  spread_dandelion-Spreads chance peers peer_list (new_dandelion_transactions trans) s listed few
        mixed drawn free =
      elim (Bool-cases (ltb chance.phase phase_switch_prob)) [
        | inl switch ↦ rw switch (
            diffuse_trans-Spreads chance peers trans s drawn.takes (omega (arith, few, drawn.whole))
              mixed free)
        | inr stays ↦ rw stays (
            relay_current (current_target s.target_index peers) chance peers peer_list
              (new_dandelion_transactions trans) s listed drawn free)
      ]
  spread_dandelion-Spreads chance peers peer_list (ping x) s listed few mixed drawn free =
      ((s, []), refl, free)
  spread_dandelion-Spreads chance peers peer_list (pong x) s listed few mixed drawn free =
      ((s, []), refl, free)
  spread_dandelion-Spreads chance peers peer_list (new_block_hashes x) s listed few mixed drawn
        free =
      ((s, []), refl, free)
  spread_dandelion-Spreads chance peers peer_list (get_blocks x) s listed few mixed drawn free =
      ((s, []), refl, free)
  spread_dandelion-Spreads chance peers peer_list (blocks x) s listed few mixed drawn free =
      ((s, []), refl, free)
  spread_dandelion-Spreads chance peers peer_list (get_transactions x) s listed few mixed drawn
        free =
      ((s, []), refl, free)
  spread_dandelion-Spreads chance peers peer_list (transactions x) s listed few mixed drawn free =
      ((s, []), refl, free)
  spread_dandelion-Spreads chance peers peer_list (new_peers x) s listed few mixed drawn free =
      ((s, []), refl, free)
  spread_dandelion-Spreads chance peers peer_list (introduce x) s listed few mixed drawn free =
      ((s, []), refl, free)

  spread_plus-Spreads :
      (chance : Chance) (peers : Map ℕ Handle) (peer_list : List ℕ) (msg : Message)
      (src_peer_key : Option ℕ) (s : Spreading)
      → 0 < length peer_list
      → length peer_list ≤ 77
      → Listed chance.shuffled peers
      → Once peer_list
      → Drawn chance peer_list
      → NoLoop s.routing_table
      → Spreads (spread_plus chance peers peer_list msg src_peer_key s)
  unfolding spread_plus
  spread_plus-Spreads chance peers peer_list (new_transaction_hashes hashes) src_peer_key s someone
        few mixed once drawn free =
      let (guards, run, _) =
        diffusion-Returns chance.takes chance.clock peers chance.shuffled
          (new_transaction_hashes hashes) s.guard_map drawn.takes (omega (arith, few, drawn.whole))
          mixed in
      (
        (record s { guard_map = guards; mempool = unbuffer_all hashes s.mempool }, []),
        rw run refl,
        free,
      )
  spread_plus-Spreads chance peers peer_list (new_dandelion_transactions trans) src_peer_key s
        someone few mixed once drawn free =
      let (ready, run, kept) = try_set_table-NoLoop chance peer_list s once drawn free in
      let (r, goes_on, holds) =
        relay_ready chance peers peer_list trans src_peer_key ready someone few mixed drawn kept in
      (r, rw run goes_on, holds)
  spread_plus-Spreads chance peers peer_list (ping x) src_peer_key s someone few mixed once drawn
        free =
      ((s, []), refl, free)
  spread_plus-Spreads chance peers peer_list (pong x) src_peer_key s someone few mixed once drawn
        free =
      ((s, []), refl, free)
  spread_plus-Spreads chance peers peer_list (new_block_hashes x) src_peer_key s someone few mixed
        once drawn free =
      ((s, []), refl, free)
  spread_plus-Spreads chance peers peer_list (get_blocks x) src_peer_key s someone few mixed once
        drawn free =
      ((s, []), refl, free)
  spread_plus-Spreads chance peers peer_list (blocks x) src_peer_key s someone few mixed once drawn
        free =
      ((s, []), refl, free)
  spread_plus-Spreads chance peers peer_list (get_transactions x) src_peer_key s someone few mixed
        once drawn free =
      ((s, []), refl, free)
  spread_plus-Spreads chance peers peer_list (transactions x) src_peer_key s someone few mixed once
        drawn free =
      ((s, []), refl, free)
  spread_plus-Spreads chance peers peer_list (new_peers x) src_peer_key s someone few mixed once
        drawn free =
      ((s, []), refl, free)
  spread_plus-Spreads chance peers peer_list (introduce x) src_peer_key s someone few mixed once
        drawn free =
      ((s, []), refl, free)

  spread_dandelion_plus-Spreads :
      (chance : Chance) (peers : Map ℕ Handle) (peer_list : List ℕ) (msg : Message)
      (src_peer_key : Option ℕ) (s : Spreading)
      → length peer_list ≤ 77
      → Listed chance.shuffled peers
      → Once peer_list
      → Drawn chance peer_list
      → NoLoop s.routing_table
      → Spreads (spread_dandelion_plus chance peers peer_list msg src_peer_key s)
  unfolding spread_dandelion_plus
  spread_dandelion_plus-Spreads chance peers [] msg src_peer_key s few mixed once drawn free =
      ((s, []), refl, free)
  spread_dandelion_plus-Spreads chance peers (p ∷ list) msg src_peer_key s few mixed once drawn
        free =
      spread_plus-Spreads chance peers (p ∷ list) msg src_peer_key s (omega arith) few mixed once
        drawn free

  with_guards-Spreads :
      (scheduled : Run Guards) (s : Spreading)
      → Returns scheduled (λ g. Unit {0})
      → NoLoop s.routing_table
      → Spreads (with_guards scheduled s)
  unfolding with_guards
  with_guards-Spreads scheduled s (guards, run, _) free =
      ((record s { guard_map = guards }, []), rw run refl, free)

  -- On a sound table of at most 77 peers, with numbers drawn from it, with a timer that takes each delay up to 253,000
  -- years, and where no key is routed to itself, a call of a spreader of any kind ends without a panic, whatever the message and its source: every peer that it writes to or schedules
  -- a write for is there, and the assertion that a transaction is not routed back to its source holds, as no key is
  -- routed to itself afterwards.
  pub get_spreader-Spreads :
      (kind : Spreader) (chance : Chance) (table : Server) (msg : Message) (src_peer_key : Option ℕ)
      (s : Spreading)
      → IsServer table
      → length table.peer_list ≤ 77
      → Drawn chance table.peer_list
      → NoLoop s.routing_table
      → Spreads (get_spreader kind chance table.peers table.peer_list msg src_peer_key s)
  unfolding get_spreader spread_default spread_trickle
  get_spreader-Spreads default chance table msg src_peer_key s sound few drawn free =
      with_guards-Spreads _ s
        (schedule_writes-Returns (λ i. 0) chance.takes chance.clock 0 table.peer_list table.peers
          msg s.guard_map drawn.takes (λ j less. omega arith) sound.listed)
        free
  get_spreader-Spreads trickle chance table msg src_peer_key s sound few drawn free =
      with_guards-Spreads _ s
        (schedule_writes-Returns (λ i. 200 * suc i * 1000) chance.takes chance.clock 0
          chance.shuffled table.peers msg s.guard_map drawn.takes
          (λ j less. omega (arith, less, few, drawn.whole))
          (λ k m. sound.listed k (drawn.shuffled k m)))
        free
  get_spreader-Spreads diffusing chance table msg src_peer_key s sound few drawn free =
      with_guards-Spreads _ s
        (diffusion-Returns chance.takes chance.clock table.peers chance.shuffled msg s.guard_map
          drawn.takes (omega (arith, few, drawn.whole))
          (λ k m. sound.listed k (drawn.shuffled k m)))
        free
  get_spreader-Spreads dandelion chance table msg src_peer_key s sound few drawn free =
      spread_dandelion-Spreads chance table.peers table.peer_list msg s sound.listed few
        (λ k m. sound.listed k (drawn.shuffled k m)) drawn free
  get_spreader-Spreads dandelion_plus chance table msg src_peer_key s sound few drawn free =
      spread_dandelion_plus-Spreads chance table.peers table.peer_list msg src_peer_key s few
        (λ k m. sound.listed k (drawn.shuffled k m)) sound.once drawn free
