-- ===== src/Blockchain/Insert/Children.antt =====
-- `handle_orphan` of src/blockchain.rs, over the children that wait for a block.
use bitcoin_client_rust.Ring.{Ring}
use bitcoin_client_rust.Hash.{H256, H256_eq}
use bitcoin_client_rust.Block.{Block}
use bitcoin_client_rust.Blockchain.{Blockchain, insert_children}
use bitcoin_client_rust.Blockchain.Tree.{IsTree}
use bitcoin_client_rust.Blockchain.Buffer.{IsBuffer}
use bitcoin_client_rust.Blockchain.Waiting.{waiting_count}
use bitcoin_client_rust.Blockchain.Steps.{release-fresh, release-IsBuffer}
use bitcoin_client_rust.Blockchain.Insert.{Extends, Extends-refl, Extends-trans, Insertion, Serves}
use bitcoin_client_rust.Prelude.Map
use bitcoin_client_rust.Prelude.Map.{
  get-insert_keeps, get-insert_self, get-insert_cases, get-remove_cases,
}
use bitcoin_client_rust.Prelude.{
  ℕ, ◌≤◌, ◌<◌, ◌≡◌, refl, inl, some, List, [], ◌∷◌, ◌++◌, arith, Returns,
}

module _ ⦃ring : Ring⦄ where
  -- What the children, and then the whole of `handle_orphan`, make of a chain.
  pub record Handled (pending : List Block) (chain later : Blockchain) : Type 0 where
    pub tree : IsTree later
    pub buffer : IsBuffer pending later
    pub extends : Extends chain later
    pub shrinks : waiting_count later.orphans_map ≤ waiting_count chain.orphans_map
    pub older :
        (h : H256) (x : Block) → Map.get h later.orphans ≡ some x → Map.get h chain.orphans ≡ some x

  pub insert_children-Handled :
      (fuel : ℕ) (ins : Insertion) (cs pending : List Block) (chain : Blockchain)
      → Serves fuel ins
      → IsTree chain
      → IsBuffer (cs ++ pending) chain
      → waiting_count chain.orphans_map < fuel
      → Returns (insert_children ins cs chain) (Handled pending chain)
  unfolding insert_children
  insert_children-Handled fuel ins [] pending chain serves tree buffer enough = (
    chain,
    refl,
    record {
      tree = tree;
      buffer = buffer;
      extends = Extends-refl chain;
      shrinks = omega arith;
      older = λ h x e. e;
    },
  )
  insert_children-Handled fuel ins (c ∷ cs) pending chain serves tree buffer enough =
      let released : Blockchain = record chain { orphans = Map.remove c.hash chain.orphans } in
      let same-IsTree : IsTree released = record {
        keyed = tree.keyed;
        stated = tree.stated;
        tip = tree.tip;
        tallest = tree.tallest;
        linked = tree.linked;
        rooted = tree.rooted;
      } in
      let (p, known) = (buffer.waiting c (inl refl)).1 in
      let (r, run, one) =
        serves c (cs ++ pending) released same-IsTree
          (release-IsBuffer chain c (cs ++ pending) buffer)
          (release-fresh chain c (cs ++ pending) buffer) enough in
      let fewer = one.shrinks p known in
      let (later, run_rest, rest) =
        insert_children-Handled fuel ins cs pending r.1 serves one.tree one.buffer
          (omega (arith, fewer)) in
      (
        later,
        rw run run_rest,
        record {
          tree = rest.tree;
          buffer = rest.buffer;
          extends =
              Extends-trans chain r.1 later
                (record {
                  kept = one.extends.kept;
                  grows = one.extends.grows;
                  settled = one.extends.settled;
                  same_checks = one.extends.same_checks;
                })
                rest.extends;
          shrinks = omega (arith, fewer, rest.shrinks);
          older = λ h x e.
              (get-remove_cases c.hash h chain.orphans
                (one.older p known h x (rest.older h x e))).1;
        },
      )
