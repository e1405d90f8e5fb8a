-- ===== src/Blockchain/Chain.antt =====
-- The readers of the chain: `hash_chain` walks from the tip to the genesis block, and `missing_parent`
-- from an orphan to the first block that is not there.
use bitcoin_client_rust.Ring.{Ring}
use bitcoin_client_rust.Hash.{H256, H256_eq}
use bitcoin_client_rust.Block.{Block, zero_hash}
use bitcoin_client_rust.Blockchain.{
  Blockchain, walk, rounds, hash_chain, chain_length, missing_parent, trace_missing, is_orphan,
  exist,
}
use bitcoin_client_rust.Blockchain.Tree.{IsTree}
use bitcoin_client_rust.Blockchain.Valid.{IsValid, IsValid-orphans}
use bitcoin_client_rust.Prelude.Map
use bitcoin_client_rust.Prelude.Map.{Map}
use bitcoin_client_rust.Prelude.{
  ℕ, zero, suc, ◌^◌, ◌<◌, ◌≡◌, refl, ap, subst, ◌∙◌, inl, inr, true, false, none, some, List, [],
  ◌∷◌, length, Option-cases, arith, ok, ◌>>=◌, Returns,
}

-- The hashes run from `h`, at the given height, through the parents to the genesis block.
pub data Descends (blocks : Map H256 Block) : H256 → ℕ → List H256 → Type 0 where
  bottom : {h : H256} → h ≡ zero_hash → Descends blocks h 0 (h ∷ [])
  down :
      {h : H256} {n : ℕ} {hs : List H256} (b : Block)
      → Map.get h blocks ≡ some b
      → b.index ≡ suc n
      → Descends blocks b.header.parent n hs
      → Descends blocks h (suc n) (h ∷ hs)

rounds_small : (i n : ℕ) → i ≡ n → n < 2 ^ 31 → rounds i ≡ suc n
unfolding rounds
rounds_small i n e small = ground arith

walk_step :
    (n : ℕ) (blocks : Map H256 Block) (h : H256) (b p : Block)
    → Map.get b.header.parent blocks ≡ some p
    → walk (suc n) blocks h b ≡ (walk n blocks b.header.parent p >>= λ rest. ok (h ∷ rest))
unfolding walk
walk_step n blocks h b p e = rw e

module _ ⦃ring : Ring⦄ where
  walk-Descends :
      (chain : Blockchain) (n : ℕ) (h : H256) (b : Block)
      → IsTree chain
      → Map.get h chain.blocks ≡ some b
      → b.index ≡ n
      → Returns
          (walk (suc n) chain.blocks h b)
          λ hs. Descends chain.blocks h n hs × (length hs ≡ suc n)
  unfolding walk
  walk-Descends chain zero h b tree found level =
      let (p, parent, hangs) = tree.linked h b found in
      (
        h ∷ [],
        rw parent,
        elim hangs [
          | inl (at_zero, _, _) ↦ (bottom at_zero, refl)
          | inr higher ↦ absurd (omega arith)
        ],
      )
  walk-Descends chain (suc n) h b tree found level =
      let (p, parent, hangs) = tree.linked h b found in
      let lower : p.index ≡ n = elim hangs [
        | inl (_, zero_index, _) ↦ absurd (omega arith)
        | inr higher ↦ omega arith
      ] in
      let (hs, run, (descends, len)) = walk-Descends chain n b.header.parent p tree parent lower in
      (
        h ∷ hs,
        rw (walk_step (suc n) chain.blocks h b p parent, run),
        (down b found level descends, ap suc len),
      )

  -- On a valid chain of fewer than 2 ^ 31 levels `hash_chain` does not panic. It lists the hashes from
  -- the tip through the parents to the genesis block, `length()` of them.
  pub hash_chain-Descends :
      (chain : Blockchain)
      → IsValid chain
      → chain.max_index < 2 ^ 31
      → Returns (hash_chain chain) λ hs.
        Descends chain.blocks chain.longest_hash chain.max_index hs
        × (length hs ≡ chain_length chain)
  unfolding hash_chain chain_length
  hash_chain-Descends chain valid small =
      let (b, at_tip, level) = valid.tree.tip in
      let (hs, run, (descends, len)) =
        walk-Descends chain chain.max_index chain.longest_hash b valid.tree at_tip level in
      let turns : rounds b.index ≡ suc chain.max_index =
        rounds_small b.index chain.max_index level small in
      (hs, rw (at_tip, turns) run, (descends, omega arith))

-- `p` is reached from the orphan `h` through the parents of orphans.
pub data Ancestor (orphans : Map H256 Block) (p : H256) : H256 → Type 0 where
  parent :
      {h : H256} (b : Block)
      → Map.get h orphans ≡ some b
      → b.header.parent ≡ p
      → Ancestor orphans p h
  further :
      {h : H256} (b : Block)
      → Map.get h orphans ≡ some b
      → Ancestor orphans p b.header.parent
      → Ancestor orphans p h

trace_missing_step :
    (fuel : ℕ) (orphans : Map H256 Block) (h : H256) (b : Block)
    → Map.get h orphans ≡ some b
    → trace_missing (suc fuel) orphans h ≡ trace_missing fuel orphans b.header.parent
unfolding trace_missing
trace_missing_step fuel orphans h b e = rw (e, trace_missing)

trace_missing_end :
    (fuel : ℕ) (orphans : Map H256 Block) (h : H256)
    → Map.get h orphans ≡ none
    → trace_missing (suc fuel) orphans h ≡ ok h
unfolding trace_missing
trace_missing_end fuel orphans h e = rw (e, trace_missing)

trace_missing-Ancestor :
    (rank : H256 → ℕ) (orphans : Map H256 Block) (fuel : ℕ) (h : H256) (b : Block)
    → ((k : H256) (x : Block) → Map.get k orphans ≡ some x → rank x.header.parent < rank k)
    → Map.get h orphans ≡ some b
    → rank h < fuel
    → Returns (trace_missing (suc fuel) orphans h) λ p.
      Ancestor orphans p h
      × (Map.get p orphans ≡ none)
      × ((last : H256) × (x : Block) × (Map.get last orphans ≡ some x) × (x.header.parent ≡ p))
trace_missing-Ancestor rank orphans zero h b falls found enough = absurd (omega arith)
trace_missing-Ancestor rank orphans (suc fuel) h b falls found enough =
    elim (Option-cases (Map.get b.header.parent orphans)) [
      | inl missing ↦ (
        b.header.parent,
        trace_missing_step (suc fuel) orphans h b found
            ∙ trace_missing_end fuel orphans b.header.parent missing,
        (parent b found refl, missing, (h, b, found, refl)),
      )
      | inr (c, more) ↦
          let (p, run, (above, absent, last)) =
            trace_missing-Ancestor rank orphans fuel b.header.parent c falls more
              (omega (arith, falls h b found)) in
          (
            p,
            trace_missing_step (suc fuel) orphans h b found ∙ run,
            (further b found above, absent, last),
          )
    ]

not_exist :
    (chain : Blockchain) (h : H256)
    → Map.get h chain.blocks ≡ none
    → Map.get h chain.orphans ≡ none
    → exist chain h ≡ false
unfolding exist
not_exist chain h p q = rw (p, q)

orphan_block :
    (chain : Blockchain) (h : H256)
    → is_orphan chain h ≡ true
    → (b : Block) × (Map.get h chain.orphans ≡ some b)
unfolding is_orphan
orphan_block chain h e = elim (Option-cases (Map.get h chain.orphans)) [
  | inl absent ↦ absurd (cc (rw absent at e))
  | inr found ↦ found
]

module _ ⦃ring : Ring⦄ where
  -- For an orphan of a valid chain whose orphans hang in no cycle (`rank` falls from each to its
  -- parent), `missing_parent` ends with fuel above the rank. It answers a hash that is reached from
  -- the orphan through the parents of orphans, and that the chain does not have.
  pub missing_parent-Ancestor :
      (rank : H256 → ℕ) (chain : Blockchain) (fuel : ℕ) (h : H256)
      → IsValid chain
      → ((k : H256) (x : Block) → Map.get k chain.orphans ≡ some x → rank x.header.parent < rank k)
      → is_orphan chain h ≡ true
      → rank h < fuel
      → Returns
          (missing_parent (suc fuel) chain h)
          λ o. (p : H256) × (o ≡ some p) × Ancestor chain.orphans p h × (exist chain p ≡ false)
  unfolding missing_parent
  missing_parent-Ancestor rank chain fuel h valid falls orphan enough =
      let (b, found) = orphan_block chain h orphan in
      let (p, run, (above, absent, (last, x, at_last, to_p))) =
        trace_missing-Ancestor rank chain.orphans fuel h b falls found enough in
      let (_, _, unknown) = IsValid-orphans chain last x valid at_last in
      (
        some p,
        rw (orphan, run),
        (
          p,
          refl,
          above,
          not_exist chain p (subst (λ k. Map.get k chain.blocks ≡ none) to_p unknown) absent,
        ),
      )
