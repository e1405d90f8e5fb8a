-- ===== src/Blockchain/Insert/Whole.antt =====
-- `insert` of src/blockchain.rs with enough fuel returns what an insertion guarantees.
use bitcoin_client_rust.Ring.{Ring}
use bitcoin_client_rust.Hash.{H256_eq}
use bitcoin_client_rust.Block.{Block, State}
use bitcoin_client_rust.Blockchain.{Blockchain, add_orphan, insert, attach, try_generate_new_state}
use bitcoin_client_rust.Blockchain.Tree.{IsTree, Derives, transition}
use bitcoin_client_rust.Blockchain.Buffer.{IsBuffer, add_orphan-IsBuffer}
use bitcoin_client_rust.Blockchain.Waiting.{waiting_count, waiting_count-with_child}
use bitcoin_client_rust.Blockchain.Insert.{
  Extends-refl, IsFresh, exist-orphan, Inserted, Insertion, Serves,
}
use bitcoin_client_rust.Blockchain.Insert.Attach.{grown-Inserted}
use bitcoin_client_rust.Prelude.Map
use bitcoin_client_rust.Prelude.Map.{
  get-insert_keeps, get-insert_self, get-insert_cases, get-remove_cases,
}
use bitcoin_client_rust.Prelude.{
  ℕ, zero, suc, ◌<◌, ◌≡◌, refl, inl, inr, true, false, none, some, List, Bool-cases, Option-cases,
  arith, ok, Returns,
}

module _ ⦃ring : Ring⦄ where
  add_orphan-Inserted :
      (b : Block) (pending : List Block) (chain : Blockchain)
      → IsTree chain
      → IsBuffer pending chain
      → IsFresh b chain
      → Map.get b.header.parent chain.blocks ≡ none
      → Inserted b pending chain (true, add_orphan b chain)
  unfolding add_orphan
  add_orphan-Inserted b pending chain tree buffer fresh unknown = record {
    tree = record {
      keyed = tree.keyed;
      stated = tree.stated;
      tip = tree.tip;
      tallest = tree.tallest;
      linked = tree.linked;
      rooted = tree.rooted;
    };
    buffer = add_orphan-IsBuffer chain b pending buffer fresh.0 fresh.1 unknown;
    extends = record {
      kept = λ h x e. e;
      grows = omega arith;
      settled = λ e. refl;
      same_checks = refl;
    };
    shrinks = λ p q. cc;
    older = λ p q. cc;
    newer = λ h x e. elim (get-insert_cases b.hash h b chain.orphans e) [
      | inl (p, q) ↦ inr (p, q)
      | inr (n, q) ↦ inl q
    ];
    grew = waiting_count-with_child b chain.orphans_map;
    attached = λ p q. cc;
    stored = λ r.
        exist-orphan (add_orphan b chain) b.hash {b = b} (get-insert_self b.hash b chain.orphans);
    refused = λ r. cc;
  }

  -- The state of the parent is there, so the transition is computed.
  generated_returns :
      (b prev : Block) (chain : Blockchain)
      → IsTree chain
      → Map.get b.header.parent chain.blocks ≡ some prev
      → (before : State) × (try_generate_new_state chain b
          ≡ ok (transition chain.check_trans b before))
        × Derives chain.check_trans chain.blocks b.header.parent before
  unfolding try_generate_new_state
  generated_returns b prev chain tree known =
      let (s, found, derived) = tree.stated b.header.parent prev known in
      elim (Bool-cases chain.check_trans) [
        | inl checked ↦ (s, rw (checked, found), derived)
        | inr unchecked ↦ (s, rw unchecked, derived)
      ]

  attach-Inserted :
      (fuel : ℕ) (ins : Insertion) (b prev : Block) (pending : List Block) (chain : Blockchain)
      → Serves fuel ins
      → IsTree chain
      → IsBuffer pending chain
      → IsFresh b chain
      → Map.get b.header.parent chain.blocks ≡ some prev
      → waiting_count chain.orphans_map < suc fuel
      → Returns (attach ins prev b chain) (Inserted b pending chain)
  unfolding attach
  attach-Inserted fuel ins b prev pending chain serves tree buffer fresh known enough =
      let (before, generated, derived) = generated_returns b prev chain tree known in
      let (longest, at_tip, _) = tree.tip in
      elim (Option-cases (transition chain.check_trans b before)) [
        | inl e ↦ (
          (false, chain),
          rw (generated, e),
          record {
            tree = tree;
            buffer = buffer;
            extends = Extends-refl chain;
            shrinks = λ p q. omega arith;
            older = λ p q h x e. e;
            newer = λ h x e. inl e;
            grew = omega arith;
            attached = λ p q r. cc;
            stored = λ r. cc;
            refused = λ r. refl;
          },
        )
        | inr (s, e) ↦
            let (later, run, inserted) =
              grown-Inserted fuel ins serves b prev longest s pending chain tree buffer fresh known
                at_tip enough before derived e in
            ((true, later), rw (generated, e, at_tip, run), inserted)
      ]

  pub insert-Inserted :
      (fuel : ℕ) (b : Block) (pending : List Block) (chain : Blockchain)
      → IsTree chain
      → IsBuffer pending chain
      → IsFresh b chain
      → waiting_count chain.orphans_map < fuel
      → Returns (insert fuel b chain) (Inserted b pending chain)
  unfolding insert
  insert-Inserted zero b pending chain tree buffer fresh enough = absurd (omega arith)
  insert-Inserted (suc fuel) b pending chain tree buffer fresh enough =
      elim (Option-cases (Map.get b.header.parent chain.blocks)) [
        | inl unknown ↦ (
          (true, add_orphan b chain),
          rw (unknown, insert),
          add_orphan-Inserted b pending chain tree buffer fresh unknown,
        )
        | inr (prev, known) ↦
            let (r, run, inserted) =
              attach-Inserted fuel (insert fuel) b prev pending chain (insert-Inserted fuel) tree
                buffer fresh known enough in
            (r, rw (known, insert) run, inserted)
      ]
