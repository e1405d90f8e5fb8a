-- ===== src/Blockchain/Orphans.antt =====
-- What an insertion of src/blockchain.rs does to the orphans: at most one more, the inserted block.
use bitcoin_client_rust.Ring.{Ring}
use bitcoin_client_rust.Hash.{H256, H256_eq}
use bitcoin_client_rust.Transaction.{Bincode}
use bitcoin_client_rust.Block.{Block}
use bitcoin_client_rust.Blockchain.{
  Blockchain, insert_with_check, exist, validate_block_meta, is_orphan, missing_parent,
}
use bitcoin_client_rust.Blockchain.Waiting.{waiting_count}
use bitcoin_client_rust.Blockchain.Insert.{Extends, Extends-refl}
use bitcoin_client_rust.Blockchain.Insert.Whole.{insert-Inserted}
use bitcoin_client_rust.Blockchain.Valid.{IsValid, exist-IsFresh}
use bitcoin_client_rust.Blockchain.Chain.{missing_parent-Ancestor}
use bitcoin_client_rust.Prelude.Map
use bitcoin_client_rust.Prelude.{
  ℕ, suc, ◌≤◌, ◌<◌, ◌≡◌, refl, ◌⊎◌, inl, inr, false, not, ◌||◌, none, some, [], Bool-cases, arith,
  Returns,
}

-- The orphans of the later chain are those of the first, and maybe the block.
pub record Buffers (b : Block) (chain later : Blockchain) : Type 0 where
  pub newer :
      (h : H256) (x : Block)
      → Map.get h later.orphans ≡ some x
      → (Map.get h chain.orphans ≡ some x) ⊎ ((h ≡ b.hash) × (x ≡ b))
  pub grew : waiting_count later.orphans_map ≤ suc (waiting_count chain.orphans_map)

module _ ⦃ring : Ring⦄ ⦃bincode : Bincode⦄ where
  pub insert_with_check-Buffers :
      (fuel : ℕ) (b : Block) (chain : Blockchain)
      → IsValid chain
      → waiting_count chain.orphans_map < fuel
      → Returns
          (insert_with_check fuel b chain)
          λ r. IsValid r.1 × Extends chain r.1 × Buffers b chain r.1
  unfolding insert_with_check
  insert_with_check-Buffers fuel b chain valid enough =
      elim (Bool-cases (exist chain b.hash || not (validate_block_meta chain b))) [
        | inl bad ↦ (
          (false, chain),
          rw (bad, insert_with_check),
          (valid, Extends-refl chain, record { newer = λ h x e. inl e; grew = omega arith }),
        )
        | inr good ↦
            let (r, run, i) =
              insert-Inserted fuel b [] chain valid.tree valid.buffer
                (exist-IsFresh b chain (ground arith)) enough in
            (
              r,
              rw (good, insert_with_check) run,
              (
                record { tree = i.tree; buffer = i.buffer },
                i.extends,
                record { newer = i.newer; grew = i.grew },
              ),
            )
      ]

  -- `missing_parent` ends for any hash, where the orphans hang in no cycle.
  pub missing_parent-Returns :
      (rank : H256 → ℕ) (chain : Blockchain) (fuel : ℕ) (h : H256)
      → IsValid chain
      → ((k : H256) (x : Block) → Map.get k chain.orphans ≡ some x → rank x.header.parent < rank k)
      → rank h < fuel
      → Returns (missing_parent (suc fuel) chain h) λ o. Unit {0}
  unfolding missing_parent
  missing_parent-Returns rank chain fuel h valid falls enough =
      elim (Bool-cases (is_orphan chain h)) [
        | inl orphan ↦
            let (o, run, _) = missing_parent-Ancestor rank chain fuel h valid falls orphan enough in
            (o, run, tt)
        | inr no_orphan ↦ (none, rw (no_orphan, missing_parent) refl, tt)
      ]
