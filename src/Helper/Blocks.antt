-- ===== src/Helper/Blocks.antt =====
-- The blocks that the builders of src/helper.rs make.
use bitcoin_client_rust.Ring.{Ring}
use bitcoin_client_rust.Hash.{H256, lt}
use bitcoin_client_rust.Transaction.{SignedTransaction, Bincode}
use bitcoin_client_rust.Block
use bitcoin_client_rust.Block.{Header, Content, Block, header_hash, new_header}
use bitcoin_client_rust.Block.Contents.{
  new_content, add_tran, merkle_root, IsRootOf, merkle_root-IsRootOf,
}
use bitcoin_client_rust.Miner.{mining_base, mining_step}
use bitcoin_client_rust.Miner.Search.{after, mining_base-Searched}
use bitcoin_client_rust.Miner.Mined.{mining_base-SameBut}
use bitcoin_client_rust.Helper.{
  Random, generate_random_signed_transaction, add_random, generate_random_content, generate_header,
  assert_mined, generate_mined_block,
}
use bitcoin_client_rust.Prelude.{
  ℕ, ◌^◌, ◌≤◌, length, ◌<◌, ◌≡◌, refl, sym, ap, ◌∙◌, subst, ◌⊎◌, inl, inr, true, false, List, [],
  ◌∷◌, ◌++◌, ok, panic, ◌>>=◌, Returns,
}

module _ ⦃ring : Ring⦄ ⦃bincode : Bincode⦄ where
  -- A content that has a transaction keeps it in front.
  add_random-first :
      (rs : List Random) (t : SignedTransaction) (ts : List SignedTransaction)
      → (more : List SignedTransaction) × (add_random rs (record { trans = t ∷ ts })
          ≡ record { trans = t ∷ more })
  unfolding add_random add_tran
  add_random-first [] t ts = (ts, refl)
  add_random-first (r ∷ rs) t ts =
      add_random-first rs t (ts ++ generate_random_signed_transaction r ∷ [])

  content-root :
      (r : Random) (rs : List Random)
      → length (generate_random_content (r ∷ rs)).trans ≤ 2 ^ 21
      → Returns
          (merkle_root (generate_random_content (r ∷ rs)))
          λ root. IsRootOf root (generate_random_content (r ∷ rs))
  unfolding generate_random_content add_random new_content add_tran
  content-root r rs room =
      let (more, same) = add_random-first rs (generate_random_signed_transaction r) [] in
      subst
        (λ (c : Content). length c.trans ≤ 2 ^ 21 → Returns (merkle_root c) λ root. IsRootOf root c)
        (sym same) (merkle_root-IsRootOf (generate_random_signed_transaction r) more) room

  -- A block that was mined, and stands for its content.
  pub record Proven (parent difficulty : H256) (content : Content) (block : Block) : Type 0 where
    pub hash : block.hash ≡ header_hash block.header
    pub low : lt block.hash difficulty ≡ true
    pub on : block.header.parent ≡ parent
    pub asks : block.header.difficulty ≡ difficulty
    pub holds : block.content ≡ content
    pub root : IsRootOf block.header.merkle_root content

  -- No nonce of the search is good enough for the header.
  abbrev pub Hopeless : H256 → Header → Type 0
  Hopeless difficulty header =
      (j : ℕ) → j < mining_step → lt (header_hash (after j header)) difficulty ≡ false

  mined_or_panic :
      (parent difficulty root : H256) (content : Content)
      → IsRootOf root content
      → (let header = new_header parent 0 100 difficulty root in
          ((block : Block) × (assert_mined content (mining_base header difficulty) ≡ ok block)
            × Proven parent difficulty content block)
          ⊎ ((assert_mined content (mining_base header difficulty) ≡ panic)
              × Hopeless difficulty header))
  unfolding assert_mined Block.new new_header
  mined_or_panic parent difficulty root content proofs =
      let header = new_header parent 0 100 difficulty root in
      let (on, asks, _, same_root) = mining_base-SameBut header difficulty in
      elim (mining_base-Searched header difficulty) [
        | inl (hit, k, small, same, good, before) ↦ inl (
          Block.new (mining_base header difficulty).0 content,
          rw hit refl,
          record {
            hash = refl;
            low = good;
            on = on;
            asks = asks;
            holds = refl;
            root = subst (λ h. IsRootOf h content) (sym same_root) proofs;
          },
        )
        | inr (miss, same, before) ↦ inr (rw miss refl, before)
      ]

  made_header :
      (parent difficulty root : H256) (content : Content)
      → merkle_root content ≡ ok root
      → generate_header parent content 0 difficulty ≡ ok (new_header parent 0 100 difficulty root)
  unfolding generate_header
  made_header parent difficulty root content run =
      ap (λ made. made >>= λ found. ok (new_header parent 0 100 difficulty found)) run

  -- From at least one and at most 2 ^ 21 random transactions, `generate_mined_block` makes a block on the parent whose hash is that of its
  -- header and below the difficulty, and whose root leads to each of its transactions; or its assertion fails, and
  -- then none of the nonces that the search tries is good enough.
  pub generate_mined_block-Proven :
      (r : Random) (rs : List Random) (parent difficulty : H256)
      → length (generate_random_content (r ∷ rs)).trans ≤ 2 ^ 21
      → (let content = generate_random_content (r ∷ rs) in
          let call = generate_mined_block (r ∷ rs) parent difficulty in
          (root : H256) × (merkle_root content ≡ ok root)
          × (((block : Block) × (call ≡ ok block) × Proven parent difficulty content block)
              ⊎ ((call ≡ panic) × Hopeless difficulty (new_header parent 0 100 difficulty root))))
  unfolding generate_mined_block
  generate_mined_block-Proven r rs parent difficulty room =
      let content = generate_random_content (r ∷ rs) in
      let (root, run, proofs) = content-root r rs room in
      let steps =
        ap (λ made. made >>= λ header. assert_mined content (mining_base header difficulty))
          (made_header parent difficulty root content run) in
      (
        root,
        run,
        elim (mined_or_panic parent difficulty root content proofs) [
          | inl (block, made, proven) ↦ inl (block, steps ∙ made, proven)
          | inr (fails, hopeless) ↦ inr (steps ∙ fails, hopeless)
        ],
      )
