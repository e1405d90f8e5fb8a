-- ===== src/Blockchain/Valid.antt =====
-- What the public operations of the block chain guarantee, for every chain that they can build.
use bitcoin_client_rust.Ring.{Ring}
use bitcoin_client_rust.Hash.{H256, H256_eq}
use bitcoin_client_rust.Transaction.{Bincode}
use bitcoin_client_rust.Block.{Block}
use bitcoin_client_rust.Blockchain.{
  Blockchain, new, insert, insert_with_check, exist, validate_block_meta, change_difficulty,
  tip_block_state,
}
use bitcoin_client_rust.Blockchain.Tree.{IsTree, Derives, new-IsTree}
use bitcoin_client_rust.Blockchain.Buffer.{IsBuffer}
use bitcoin_client_rust.Blockchain.Waiting.{waiting_count}
use bitcoin_client_rust.Blockchain.Insert.{Extends, Extends-refl, IsFresh}
use bitcoin_client_rust.Blockchain.Insert.Whole.{insert-Inserted}
use bitcoin_client_rust.Prelude.Map
use bitcoin_client_rust.Prelude.{
  ℕ, ◌+◌, ◌<◌, ◌≡◌, refl, subst, ◌⊎◌, inl, inr, Bool, true, false, not, ◌||◌, none, some, [],
  Bool-cases, arith, Run, ok, Returns,
}

same_result :
    {run : Run (Bool × Blockchain)} {done : Bool × Blockchain} {accepted : Bool} {c : Blockchain}
    → run ≡ ok done
    → run ≡ ok (accepted, c)
    → done.1 ≡ c
same_result p q = ground arith

pub exist-IsFresh : (b : Block) (chain : Blockchain) → exist chain b.hash ≡ false → IsFresh b chain
unfolding exist
exist-IsFresh b chain e = ground arith

module _ ⦃ring : Ring⦄ where
  -- The two invariants, between calls.
  pub record IsValid (chain : Blockchain) : Type 0 where
    pub tree : IsTree chain
    pub buffer : IsBuffer [] chain

  pub new-IsValid : IsValid new
  unfolding new Map.get
  new-IsValid = record {
    tree = new-IsTree;
    buffer = record {
      children = λ p cs c e m. cc;
      apart = λ p cs e. cc;
      detached = λ p cs e. cc;
      waiting = λ c m. absurd m;
      pending_apart = tt;
      orphaned = λ h b e. cc;
    };
  }

  -- On a valid chain the insertion of an unknown block whose parent is in the tree ends, with fuel
  -- for the blocks that wait in the orphan buffer, and does not panic. The chain stays valid and keeps
  -- every block, and the new block enters one above its parent, or is refused and changes nothing.
  pub insert-attaches :
      (fuel : ℕ) (b p : Block) (chain : Blockchain)
      → IsValid chain
      → IsFresh b chain
      → Map.get b.header.parent chain.blocks ≡ some p
      → waiting_count chain.orphans_map < fuel
      → Returns (insert fuel b chain) λ r.
        IsValid r.1
        × Extends chain r.1
        × (((r.0 ≡ true) × (Map.get b.hash r.1.blocks ≡ some (record b { index = p.index + 1 })))
            ⊎ ((r.0 ≡ false) × (r.1 ≡ chain)))
  insert-attaches fuel b p chain valid fresh known enough =
      let (r, run, i) = insert-Inserted fuel b [] chain valid.tree valid.buffer fresh enough in
      (
        r,
        run,
        (
          record { tree = i.tree; buffer = i.buffer },
          i.extends,
          elim (Bool-cases r.0) [
            | inl done ↦ inl (done, i.attached p known done)
            | inr refused ↦ inr (refused, i.refused refused)
          ],
        ),
      )

  -- The invariants do not speak of the difficulty.
  change_difficulty-IsValid :
      (chain : Blockchain) (d : H256) → IsValid chain → IsValid (change_difficulty d chain)
  unfolding change_difficulty
  change_difficulty-IsValid chain d valid =
      let t = valid.tree in
      let u = valid.buffer in
      record {
        tree = record {
          keyed = t.keyed;
          stated = t.stated;
          tip = t.tip;
          tallest = t.tallest;
          linked = t.linked;
          rooted = t.rooted;
        };
        buffer = record {
          children = u.children;
          apart = u.apart;
          detached = u.detached;
          waiting = u.waiting;
          pending_apart = u.pending_apart;
          orphaned = u.orphaned;
        };
      }

  -- On a valid chain no block whose parent is in the tree is left in the orphan buffer.
  pub IsValid-orphans :
      (chain : Blockchain) (h : H256) (b : Block)
      → IsValid chain
      → Map.get h chain.orphans ≡ some b
      → (b.hash ≡ h)
        × (Map.get h chain.blocks ≡ none)
        × (Map.get b.header.parent chain.blocks ≡ none)
  IsValid-orphans chain h b valid e =
      let (p, q, place) = valid.buffer.orphaned h b e in
      (p, q, elim place [ inl (cs, f, m) ↦ valid.buffer.detached _ cs f | inr m ↦ absurd m ])

  -- The state of the tip exists, and follows from the genesis block along the parents of the tip.
  pub tip_block_state-Derives :
      (chain : Blockchain)
      → IsValid chain
      → Returns (tip_block_state chain) (Derives chain.check_trans chain.blocks chain.longest_hash)
  unfolding tip_block_state
  tip_block_state-Derives chain valid =
      let (b, at_tip, _) = valid.tree.tip in
      let (s, found, derived) = valid.tree.stated _ b at_tip in (s, rw found, derived)

module _ ⦃ring : Ring⦄ ⦃bincode : Bincode⦄ where
  -- `insert_with_check` ends for any block, with fuel for the blocks that wait in the orphan buffer,
  -- and does not panic; the chain stays valid and keeps its blocks. It answers true only for an
  -- unknown block that passes the checks, which the chain then has; else the chain is unchanged.
  pub insert_with_check-IsValid :
      (fuel : ℕ) (b : Block) (chain : Blockchain)
      → IsValid chain
      → waiting_count chain.orphans_map < fuel
      → Returns (insert_with_check fuel b chain) λ r.
        IsValid r.1
        × Extends chain r.1
        × (((r.0 ≡ true)
              × (exist chain b.hash ≡ false)
              × (validate_block_meta chain b ≡ true)
              × (exist r.1 b.hash ≡ true))
            ⊎ ((r.0 ≡ false) × (r.1 ≡ chain)))
  unfolding insert_with_check
  insert_with_check-IsValid fuel b chain valid enough =
      elim (Bool-cases (exist chain b.hash || not (validate_block_meta chain b))) [
        | inl bad ↦ (
          (false, chain),
          rw (bad, insert_with_check),
          (valid, Extends-refl chain, inr (refl, refl)),
        )
        | inr good ↦
            let (r, run, i) =
              insert-Inserted fuel b [] chain valid.tree valid.buffer
                (exist-IsFresh b chain (ground arith)) enough in
            (
              r,
              rw (good, insert_with_check) run,
              (
                record { tree = i.tree; buffer = i.buffer },
                i.extends,
                elim (Bool-cases r.0) [
                  | inl done ↦ inl (done, ground arith, ground arith, i.stored done)
                  | inr refused ↦ inr (refused, i.refused refused)
                ],
              ),
            )
      ]

  -- The chains that a client can build: from the genesis block, by blocks of peers in any order, by
  -- its own new blocks, and by changes of the difficulty.
  pub data Reach : Blockchain → Type 0 where
    start : Reach new
    receive :
        {c d : Blockchain} {accepted : Bool} (fuel : ℕ) (b : Block)
        → Reach c
        → waiting_count c.orphans_map < fuel
        → insert_with_check fuel b c ≡ ok (accepted, d)
        → Reach d
    mine :
        {c d : Blockchain} {accepted : Bool} (fuel : ℕ) (b : Block)
        → Reach c
        → IsFresh b c
        → waiting_count c.orphans_map < fuel
        → insert fuel b c ≡ ok (accepted, d)
        → Reach d
    retarget : {c : Blockchain} (d : H256) → Reach c → Reach (change_difficulty d c)

  -- Every chain that a client can build is valid.
  pub Reach-IsValid : {c : Blockchain} → Reach c → IsValid c
  Reach-IsValid start = new-IsValid
  Reach-IsValid (receive {c = c} fuel b r enough e) =
      let (done, run, valid) = insert_with_check-IsValid fuel b c (Reach-IsValid r) enough in
      subst IsValid (same_result run e) valid.0
  Reach-IsValid (mine {c = c} fuel b r fresh enough e) =
      let valid = Reach-IsValid r in
      let (done, run, i) = insert-Inserted fuel b [] c valid.tree valid.buffer fresh enough in
      subst IsValid (same_result run e) (record { tree = i.tree; buffer = i.buffer })
  Reach-IsValid (retarget {c = c} d r) = change_difficulty-IsValid c d (Reach-IsValid r)
