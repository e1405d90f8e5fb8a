-- ===== src/Blockchain/Steps.antt =====
-- The orphan buffer while `handle_orphan` runs: the children of a new block leave `orphans_map`, and
-- each child leaves `orphans` when its turn comes.
use bitcoin_client_rust.Hash.{H256, H256_eq}
use bitcoin_client_rust.Block.{Block, State}
use bitcoin_client_rust.Blockchain.{Blockchain, add_block}
use bitcoin_client_rust.Blockchain.Buffer.{IsBuffer, Distinct-append, Waits}
use bitcoin_client_rust.Prelude.Map
use bitcoin_client_rust.Prelude.Map.{
  get-insert_keeps, get-insert_self, get-insert_ne, get-remove_cases, get-remove_ne,
  get-remove_self,
}
use bitcoin_client_rust.Prelude.{
  ℕ, ◌≡◌, ◌≢◌, refl, sym, ap, subst, ◌∙◌, ◌⊎◌, inl, inr, none, some, List, ◌∷◌, ◌++◌, ◌==◌, In,
  In-append_left, In-append_right, In-append_cases, Bool-cases, ==_iff,
}

module _ (chain : Blockchain) (b : Block) (pending : List Block) (buffer : IsBuffer pending chain)
    (new_block : Map.get b.hash chain.blocks ≡ none)
    (new_orphan : Map.get b.hash chain.orphans ≡ none) (index : ℕ) (s : State)
    (longest : Block) where
  -- The chain with `b` attached, before its children are handled.
  abbrev attached : Blockchain
  unfolding add_block
  attached = add_block b index s longest chain

  keeps :
      (h : H256) (x : Block) → Map.get h chain.blocks ≡ some x → Map.get h attached.blocks ≡ some x
  unfolding add_block
  keeps h x e = get-insert_keeps b.hash h _ chain.blocks new_block e

  -- A block that is not `b` and was unknown is unknown.
  still_none :
      (h : H256) → h ≢ b.hash → Map.get h chain.blocks ≡ none → Map.get h attached.blocks ≡ none
  unfolding add_block
  still_none h n e = get-insert_ne b.hash h _ chain.blocks n ∙ e

  -- An orphan is not `b`.
  orphan_ne : (h : H256) (x : Block) → Map.get h chain.orphans ≡ some x → h ≢ b.hash
  orphan_ne h x e p = cc (e, new_orphan, ap (λ k. Map.get k chain.orphans) p)

  -- No orphan waits for `b`: the buffer is as before.
  pub attach-IsBuffer-none :
      Map.get b.hash chain.orphans_map ≡ none → IsBuffer pending (add_block b index s longest chain)
  unfolding add_block
  attach-IsBuffer-none alone = record {
    children = buffer.children;
    apart = buffer.apart;
    detached = λ p cs e.
        still_none p (λ q. cc (e, alone, ap (λ k. Map.get k chain.orphans_map) q))
          (buffer.detached p cs e);
    waiting = λ c m. let (q, (p, r)) = buffer.waiting c m in (q, (p, keeps _ p r));
    pending_apart = buffer.pending_apart;
    orphaned =
        λ h x e. let (p, q, r) = buffer.orphaned h x e in (p, still_none h (orphan_ne h x e) q, r);
  }

  module _ (cs : List Block) (found : Map.get b.hash chain.orphans_map ≡ some cs) where
    -- The chain with `b` attached, whose children have left `orphans_map`.
    abbrev detached_chain : Blockchain
    detached_chain = record attached { orphans_map = Map.remove b.hash chain.orphans_map }

    same_block :
        (x y : Block)
        → Map.get x.hash chain.orphans ≡ some x
        → Map.get y.hash chain.orphans ≡ some y
        → x.hash ≡ y.hash
        → x ≡ y
    same_block x y e f p = cc (e, f, ap (λ k. Map.get k chain.orphans) p)

    apart_from_pending : (x y : Block) → In x cs → In y pending → x.hash ≢ y.hash
    apart_from_pending x y mx my p =
        let (parent, recorded) = buffer.children b.hash cs x found mx in
        let (recorded', (q, known)) = buffer.waiting y my in
        let same = same_block x y recorded recorded' p in
        cc (
          known,
          new_block,
          ap (λ k. Map.get k chain.blocks)
              (sym (ap (λ (z : Block). z.header.parent) same) ∙ parent),
        )

    -- The children of `b` become pending.
    pub attach-IsBuffer_some :
        IsBuffer (cs ++ pending) (record (add_block b index s longest chain) {
          orphans_map = Map.remove b.hash chain.orphans_map;
        })
    unfolding add_block
    attach-IsBuffer_some = record {
      children = λ p ds c e m. buffer.children p ds c (get-remove_cases b.hash p _ e).1 m;
      apart = λ p ds e. buffer.apart p ds (get-remove_cases b.hash p _ e).1;
      detached = λ p ds e.
          let (n, f) = get-remove_cases b.hash p _ e in still_none p n (buffer.detached p ds f);
      waiting = λ c m. elim (In-append_cases c cs pending m) [
        | inl l ↦
            let (p, r) = buffer.children b.hash cs c found l in
            (
              r,
              (
                _,
                subst (λ k. Map.get k attached.blocks ≡ some (record b { index = index })) (sym p)
                    (get-insert_self b.hash _ chain.blocks),
              ),
            )
        | inr r ↦ let (q, (p, f)) = buffer.waiting c r in (q, (p, keeps _ p f))
      ];
      pending_apart =
          Distinct-append cs pending (buffer.apart b.hash cs found) buffer.pending_apart
            apart_from_pending;
      orphaned = λ h x e.
          let (p, q, place) = buffer.orphaned h x e in
          (p, still_none h (orphan_ne h x e) q, moved x place);
    }
      where
        moved :
            (x : Block)
            → Waits chain x ⊎ In x pending
            → Waits detached_chain x ⊎ In x (cs ++ pending)
        moved x (inr m) = inr (In-append_right x cs pending m)
        moved x (inl (ds, e, m)) = elim (Bool-cases (x.header.parent == b.hash)) [
          | inl same ↦
              let p = (==_iff x.header.parent b.hash).0 same in
              let same_list : ds ≡ cs = cc (e, found, ap (λ k. Map.get k chain.orphans_map) p) in
              inr (In-append_left x cs pending (subst (In x) same_list m))
          | inr differ ↦
              let n : x.header.parent ≢ b.hash = λ p. cc ((==_iff x.header.parent b.hash).1 p) in
              inl (ds, get-remove_ne b.hash x.header.parent chain.orphans_map n ∙ e, m)
        ]

module _ (chain : Blockchain) (c : Block) (rest : List Block)
    (buffer : IsBuffer (c ∷ rest) chain) where
  -- The chain in which `c` is no orphan any more.
  abbrev released : Blockchain
  released = record chain { orphans = Map.remove c.hash chain.orphans }

  c_waits :
      (Map.get c.hash chain.orphans ≡ some c)
      × ((p : Block) × (Map.get c.header.parent chain.blocks ≡ some p))
  c_waits = buffer.waiting c (inl refl)

  pub release-fresh :
      (Map.get c.hash released.blocks ≡ none) × (Map.get c.hash released.orphans ≡ none)
  release-fresh = ((buffer.orphaned c.hash c c_waits.0).1, get-remove_self c.hash chain.orphans)

  -- A child that is still recorded under its parent is not `c`, whose parent is known.
  recorded_ne :
      (p : H256) (cs : List Block) (x : Block)
      → Map.get p chain.orphans_map ≡ some cs
      → In x cs
      → x.hash ≢ c.hash
  recorded_ne p cs x e m q =
      let (parent, recorded) = buffer.children p cs x e m in
      let same : x ≡ c = cc (recorded, c_waits.0, ap (λ k. Map.get k chain.orphans) q) in
      cc (
        c_waits.1.1,
        buffer.detached p cs e,
        ap (λ k. Map.get k chain.blocks) (sym (ap (λ (z : Block). z.header.parent) same) ∙ parent),
      )

  pub release-IsBuffer : IsBuffer rest released
  release-IsBuffer = record {
    children = λ p cs x e m.
        let (parent, recorded) = buffer.children p cs x e m in
        (parent, get-remove_ne c.hash x.hash chain.orphans (recorded_ne p cs x e m) ∙ recorded);
    apart = buffer.apart;
    detached = buffer.detached;
    waiting = λ x m.
        let (q, r) = buffer.waiting x (inr m) in
        (get-remove_ne c.hash x.hash chain.orphans (buffer.pending_apart.0 x m) ∙ q, r);
    pending_apart = buffer.pending_apart.1;
    orphaned = λ h x e.
        let (n, f) = get-remove_cases c.hash h chain.orphans e in
        let (p, q, place) = buffer.orphaned h x f in
        (
          p,
          q,
          elim place [
            | inl w ↦ inl w
            | inr (inr m) ↦ inr m
            | inr (inl same) ↦ absurd (n (sym p ∙ ap (λ (z : Block). z.hash) same))
          ],
        );
  }
