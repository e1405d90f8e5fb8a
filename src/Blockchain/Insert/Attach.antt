-- ===== src/Blockchain/Insert/Attach.antt =====
-- The `Some` branch of `insert` in src/blockchain.rs: the block enters the tree, and then its children.
use bitcoin_client_rust.Ring.{Ring}
use bitcoin_client_rust.Hash.{H256_eq}
use bitcoin_client_rust.Block.{Block, State}
use bitcoin_client_rust.Blockchain.{Blockchain, add_block, insert_children, handle_orphan}
use bitcoin_client_rust.Blockchain.Tree.{IsTree, Derives, transition, add_block-IsTree, highest}
use bitcoin_client_rust.Blockchain.Buffer.{IsBuffer}
use bitcoin_client_rust.Blockchain.Waiting.{waiting_count, waiting_count-remove}
use bitcoin_client_rust.Blockchain.Steps.{attach-IsBuffer-none, attach-IsBuffer_some}
use bitcoin_client_rust.Blockchain.Insert.{
  Extends, Extends-refl, Extends-trans, IsFresh, exist-block, Inserted, Insertion, Serves,
}
use bitcoin_client_rust.Blockchain.Insert.Children.{Handled, insert_children-Handled}
use bitcoin_client_rust.Prelude.Map
use bitcoin_client_rust.Prelude.Map.{
  get-insert_keeps, get-insert_self, get-insert_cases, get-remove_cases,
}
use bitcoin_client_rust.Prelude.{
  ℕ, suc, ◌+◌, ◌<◌, ◌≡◌, refl, sym, ap, inl, inr, true, some, List, [], ◌∷◌, Option-cases, arith,
  Returns,
}

module _ ⦃ring : Ring⦄ where
  module _ (fuel : ℕ) (ins : Insertion) (serves : Serves fuel ins) (b prev longest : Block)
      (s : State) (pending : List Block) (chain : Blockchain) (tree : IsTree chain)
      (buffer : IsBuffer pending chain) (fresh : IsFresh b chain)
      (known : Map.get b.header.parent chain.blocks ≡ some prev)
      (at_tip : Map.get chain.longest_hash chain.blocks ≡ some longest)
      (enough : waiting_count chain.orphans_map < suc fuel) (before : State)
      (parent_state : Derives chain.check_trans chain.blocks b.header.parent before)
      (next_state : transition chain.check_trans b before ≡ some s) where
    abbrev grown : Blockchain
    grown = add_block b (prev.index + 1) s longest chain

    grown-IsTree : IsTree grown
    grown-IsTree =
        add_block-IsTree chain tree b prev longest s fresh.0 known at_tip before parent_state
          next_state

    grown-Extends : Extends chain grown
    unfolding add_block
    grown-Extends = record {
      kept = λ h x e. get-insert_keeps b.hash h _ chain.blocks fresh.0 e;
      grows = ground (
        arith,
        highest chain tree b prev longest s fresh.0 known at_tip before parent_state next_state,
      );
      settled = λ e. ground (
        arith,
        highest chain tree b prev longest s fresh.0 known at_tip before parent_state next_state,
      );
      same_checks = refl;
    }

    -- The tree does not depend on the buffer.
    same-IsTree : IsTree (record grown { orphans_map = Map.remove b.hash chain.orphans_map })
    unfolding add_block
    same-IsTree =
        let t = grown-IsTree in
        record {
          keyed = t.keyed;
          stated = t.stated;
          tip = t.tip;
          tallest = t.tallest;
          linked = t.linked;
          rooted = t.rooted;
        }

    some_children :
        (cs : List Block)
        → Map.get b.hash chain.orphans_map ≡ some cs
        → let start : Blockchain = record grown {
          orphans_map = Map.remove b.hash chain.orphans_map;
        } in
          Returns (insert_children ins cs start) (Handled pending start)
    unfolding insert_children
    some_children [] e = (
      _,
      refl,
      record {
        tree = same-IsTree;
        buffer = attach-IsBuffer_some chain b pending buffer fresh.0 fresh.1 _ s longest [] e;
        extends = Extends-refl _;
        shrinks = omega arith;
        older = λ h x e. e;
      },
    )
    some_children (c ∷ cs) e =
        insert_children-Handled fuel ins (c ∷ cs) pending _ serves same-IsTree
          (attach-IsBuffer_some chain b pending buffer fresh.0 fresh.1 _ s longest (c ∷ cs) e)
          (omega (arith, waiting_count-remove b.hash chain.orphans_map e))

    handle_orphan-Handled : Returns (handle_orphan ins b.hash grown) (Handled pending grown)
    unfolding handle_orphan add_block
    handle_orphan-Handled = elim (Option-cases (Map.get b.hash chain.orphans_map)) [
      | inl e ↦ (
        grown,
        rw (e, handle_orphan),
        record {
          tree = grown-IsTree;
          buffer =
              attach-IsBuffer-none chain b pending buffer fresh.0 fresh.1 (prev.index + 1) s longest
                e;
          extends = Extends-refl grown;
          shrinks = omega arith;
          older = λ h x e. e;
        },
      )
      | inr (cs, e) ↦
          let (later, run, handled) = some_children cs e in
          (
            later,
            rw (e, handle_orphan) run,
            record {
              tree = handled.tree;
              buffer = handled.buffer;
              extends = record {
                kept = handled.extends.kept;
                grows = handled.extends.grows;
                settled = handled.extends.settled;
                same_checks = handled.extends.same_checks;
              };
              shrinks =
                  omega (arith, handled.shrinks, waiting_count-remove b.hash chain.orphans_map e);
              older = handled.older;
            },
          )
    ]

    -- With its children handled, `b` is inserted.
    pub grown-Inserted :
        Returns (handle_orphan ins b.hash grown) (λ later. Inserted b pending chain (true, later))
    unfolding add_block
    grown-Inserted =
        let (later, run, handled) = handle_orphan-Handled in
        (
          later,
          run,
          record {
            tree = handled.tree;
            buffer = handled.buffer;
            extends = Extends-trans chain grown later grown-Extends handled.extends;
            shrinks = λ p q. handled.shrinks;
            older = λ p q. handled.older;
            newer = λ h x e. inl (handled.older h x e);
            grew = omega (arith, handled.shrinks);
            attached = λ p q r.
                let same : prev ≡ p = cc (q, known) in
                handled.extends.kept b.hash (record b { index = p.index + 1 })
                  (rw (ap (λ (x : Block). x.index) (sym same))
                    (get-insert_self b.hash _ chain.blocks));
            stored = λ r.
                exist-block later b.hash
                  (handled.extends.kept b.hash _ (get-insert_self b.hash _ chain.blocks));
            refused = λ r. cc;
          },
        )
