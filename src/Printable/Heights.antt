-- ===== src/Printable/Heights.antt =====
-- The pages of the chain in src/api/mod.rs number its blocks and its contents alike.
use Prim.Native.String.{String}
use bitcoin_client_rust.Ring.{Ring}
use bitcoin_client_rust.Hash.{H256, H256_eq}
use bitcoin_client_rust.Block.{Block, Content}
use bitcoin_client_rust.Blockchain.{Blockchain, unwrap_blocks, block_chain, chain_length}
use bitcoin_client_rust.Blockchain.Tree.{IsTree}
use bitcoin_client_rust.Blockchain.Valid.{IsValid}
use bitcoin_client_rust.Blockchain.Chain.{Descends, bottom, down, hash_chain-Descends}
use bitcoin_client_rust.Blockchain.Views.{content_chain, get_block-some, block_chain-Returns}
use bitcoin_client_rust.Printable.{
  Format, from_block, from_block_vec, from_content_vec, number_contents,
}
use bitcoin_client_rust.Prelude.Map
use bitcoin_client_rust.Prelude.{
  ℕ, zero, suc, ◌+◌, ◌-◌, ◌<◌, ◌^◌, ◌≡◌, refl, sym, ap, ◌∙◌, subst, some, List, [], ◌∷◌, map,
  length, ok, ok_cancel, arith, Returns, In, inl, inr, ◌⊎◌, none, panic, Option-cases,
}

-- The numbers below `n`, from the highest down.
abbrev pub below : ℕ → List ℕ
below zero = []
below (suc n) = n ∷ below n

module _ ⦃format : Format⦄ where
  -- The timestamp of the block is in the range of dates.
  abbrev pub Dated : Block → Type 0
  Dated b = (ts_str : String) × (format.date b.header.timestamp ≡ some ts_str)

  -- The header page of dated blocks has one entry for each, with its index.
  pub index-from_block_vec :
      (bs : List Block)
      → ((b : Block) → In b bs → Dated b)
      → Returns (from_block_vec bs) λ ps. map (λ p. p.index) ps ≡ map (λ b. b.index) bs
  unfolding from_block_vec from_block
  index-from_block_vec [] dated = ([], refl, refl)
  index-from_block_vec (b ∷ bs) dated =
      let (ts_str, date) = dated b (inl refl) in
      let (ps, run, same) = index-from_block_vec bs (λ c m. dated c (inr m)) in
      (from_block ts_str b ∷ ps, rw (date, run) refl, ap (λ is. b.index ∷ is) same)

  -- A single block without a date is enough for no page.
  pub from_block_vec-undated :
      (bs : List Block)
      → (((b : Block) → In b bs → Dated b)
          ⊎ ((b : Block) × In b bs
              × (format.date b.header.timestamp ≡ none)
              × (from_block_vec bs ≡ panic)))
  unfolding from_block_vec
  from_block_vec-undated [] = inl (λ b m. absurd m)
  from_block_vec-undated (b ∷ bs) = elim (Option-cases (format.date b.header.timestamp)) [
    | inl undated ↦ inr (b, inl refl, undated, rw undated refl)
    | inr (ts_str, date) ↦ elim (from_block_vec-undated bs) [
      | inl dated ↦ inl λ c m. elim m [
        | inl p ↦ (ts_str, ap (λ (x : Block). format.date x.header.timestamp) p ∙ date)
        | inr k ↦ dated c k
      ]
      | inr (c, m, undated, run) ↦ inr (c, inr m, undated, rw (date, run) refl)
    ]
  ]

  -- The contents from the place `index` on carry the numbers that are left.
  index-number_contents :
      (len index : ℕ) (cs : List Content)
      → index + length cs ≡ len
      → map (λ p. p.index) (number_contents len index cs) ≡ below (length cs)
  unfolding number_contents
  index-number_contents len index [] e = refl
  index-number_contents len index (c ∷ cs) e =
      let here : len - 1 - index ≡ length cs = omega (arith, e) in
      let rest = index-number_contents len (suc index) cs (omega (arith, e)) in λ k. here k ∷ rest k

  index-from_content_vec :
      (cs : List Content) → map (λ p. p.index) (from_content_vec cs) ≡ below (length cs)
  unfolding from_content_vec
  index-from_content_vec cs = index-number_contents (length cs) 0 cs (omega arith)

length-map_content : (bs : List Block) → length (map (λ b. b.content) bs) ≡ length bs
length-map_content [] = refl
length-map_content (b ∷ bs) = ap suc (length-map_content bs)

chain_length-suc : (chain : Blockchain) → chain_length chain ≡ suc chain.max_index
unfolding chain_length
chain_length-suc chain = omega arith

module _ ⦃ring : Ring⦄ where
  -- The blocks are blocks of the chain.
  abbrev Held : Blockchain → List Block → Type 0
  Held chain bs = (b : Block) → In b bs → (h : H256) × (Map.get h chain.blocks ≡ some b)

  Descends-index :
      (chain : Blockchain) (h : H256) (n : ℕ) (hs : List H256)
      → IsTree chain
      → Descends chain.blocks h n hs
      → Returns
          (unwrap_blocks chain hs)
          λ bs. (map (λ b. b.index) bs ≡ below (suc n)) × Held chain bs
  unfolding unwrap_blocks
  Descends-index chain h n hs tree (bottom at_zero) =
      let (g, found, level) = tree.rooted in
      let there = subst (λ k. Map.get k chain.blocks ≡ some g) (sym at_zero) found in
      (
        g ∷ [],
        rw (get_block-some chain h g there) refl,
        (
          ap (λ i. i ∷ []) level,
          λ b m. elim m [ inl p ↦ (h, there ∙ ap some (sym p)) | inr k ↦ absurd k ],
        ),
      )
  Descends-index chain h n hs tree (down b found level rest) =
      let (bs, run, (falls, held)) = Descends-index chain b.header.parent _ _ tree rest in
      (
        b ∷ bs,
        rw (get_block-some chain h b found, run) refl,
        (
          λ k. level k ∷ falls k,
          λ c m. elim m [ inl p ↦ (h, found ∙ ap some (sym p)) | inr k ↦ held c k ],
        ),
      )

  block_chain-index :
      (chain : Blockchain)
      → IsValid chain
      → chain.max_index < 2 ^ 31
      → Returns
          (block_chain chain)
          λ bs. (map (λ b. b.index) bs ≡ below (suc chain.max_index)) × Held chain bs
  unfolding block_chain
  block_chain-index chain valid small =
      let (hs, run, (descends, len)) = hash_chain-Descends chain valid small in
      let (bs, blocks, holds) = Descends-index chain _ _ hs valid.tree descends in
      (bs, rw run blocks, holds)

module _ ⦃ring : Ring⦄ ⦃format : Format⦄ where
  -- On a valid chain of fewer than 2 ^ 31 levels, whose blocks have timestamps in the range of dates, the pages of
  -- the headers and of the contents have one entry for each level, and number them alike, from the index of the tip
  -- down to 0.
  pub block_chain-numbers :
      (chain : Blockchain)
      → IsValid chain
      → chain.max_index < 2 ^ 31
      → ((h : H256) (b : Block) → Map.get h chain.blocks ≡ some b → Dated b)
      → (bs : List Block) × (cs : List Content) × (block_chain chain ≡ ok bs)
        × (content_chain chain ≡ ok cs)
        × Returns (from_block_vec bs) (λ ps. map (λ p. p.index) ps ≡ below (suc chain.max_index))
        × (map (λ p. p.index) (from_content_vec cs) ≡ below (suc chain.max_index))
  block_chain-numbers chain valid small dated =
      let (whole, ran, (len, _, _, contained)) = block_chain-Returns chain valid small in
      let (bs, run, (falls, held)) = block_chain-index chain valid small in
      let same : whole ≡ bs = ok_cancel (sym ran ∙ run) in
      let contents : content_chain chain ≡ ok (map (λ b. b.content) bs) =
        contained ∙ ap (λ (x : List Block). ok (map (λ b. b.content) x)) same in
      let (ps, printed, indices) =
        index-from_block_vec bs (λ b m. let (h, there) = held b m in dated h b there) in
      let cs = map (λ (b : Block). b.content) bs in
      let levels = length-map_content bs ∙ ap length (sym same) ∙ len ∙ chain_length-suc chain in
      (
        bs,
        cs,
        run,
        contents,
        (ps, printed, indices ∙ falls),
        index-from_content_vec cs ∙ ap below levels,
      )
