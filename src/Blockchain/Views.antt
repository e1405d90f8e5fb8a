-- ===== src/Blockchain/Views.antt =====
-- The views of the longest chain in src/blockchain.rs: its hashes, blocks, headers and contents.
use bitcoin_client_rust.Ring.{Ring}
use bitcoin_client_rust.Hash.{H256, H256_eq}
use bitcoin_client_rust.Block.{Header, Content, Block}
use bitcoin_client_rust.Blockchain.{
  Blockchain, get_block, hash_chain, unwrap_blocks, block_chain, chain_length,
}
use bitcoin_client_rust.Blockchain.Tree.{IsTree}
use bitcoin_client_rust.Blockchain.Valid.{IsValid}
use bitcoin_client_rust.Blockchain.Chain.{Descends, bottom, down, hash_chain-Descends}
use bitcoin_client_rust.Prelude.Map
use bitcoin_client_rust.Prelude.{
  ℕ, suc, ◌<◌, ◌^◌, ◌≡◌, refl, sym, ap, ◌∙◌, subst, some, List, [], ◌∷◌, map, length, Run, ok,
  ◌>>=◌, unwrap, Returns,
}

unfoldable pub tip : Blockchain → H256
tip chain = chain.longest_hash

unfoldable pub tip_difficulty : Blockchain → Run H256
tip_difficulty chain =
    unwrap (Map.get chain.longest_hash chain.blocks) >>= λ b. ok b.header.difficulty

-- `hash_chain.iter().map(|h| self.get_block(h).unwrap().header.clone()).collect()`
unfoldable pub unwrap_headers : Blockchain → List H256 → Run (List Header)
unfolding get_block
unwrap_headers chain [] = ok []
unwrap_headers chain (h ∷ hashes) = unwrap (get_block chain h) >>= λ b.
    unwrap_headers chain hashes >>= λ headers. ok (b.header ∷ headers)

unfoldable pub header_chain : Blockchain → Run (List Header)
unfolding hash_chain unwrap_headers
header_chain chain = hash_chain chain >>= unwrap_headers chain

unfoldable pub unwrap_contents : Blockchain → List H256 → Run (List Content)
unfolding get_block
unwrap_contents chain [] = ok []
unwrap_contents chain (h ∷ hashes) = unwrap (get_block chain h) >>= λ b.
    unwrap_contents chain hashes >>= λ contents. ok (b.content ∷ contents)

unfoldable pub content_chain : Blockchain → Run (List Content)
unfolding hash_chain unwrap_contents
content_chain chain = hash_chain chain >>= unwrap_contents chain

length-map_hash : (bs : List Block) → length bs ≡ length (map (λ b. b.hash) bs)
length-map_hash [] = refl
length-map_hash (b ∷ bs) = ap suc (length-map_hash bs)

module _ ⦃ring : Ring⦄ where
  -- The three views of a list of hashes are those of one list of blocks.
  record Views (chain : Blockchain) (hs : List H256) (bs : List Block) : Type 0 where
    hashes : map (λ b. b.hash) bs ≡ hs
    headers : unwrap_headers chain hs ≡ ok (map (λ b. b.header) bs)
    contents : unwrap_contents chain hs ≡ ok (map (λ b. b.content) bs)

  pub get_block-some :
      (chain : Blockchain) (h : H256) (b : Block)
      → Map.get h chain.blocks ≡ some b
      → get_block chain h ≡ some b
  unfolding get_block
  get_block-some chain h b e = rw (e, get_block) refl

  one_more :
      (chain : Blockchain) (h : H256) (b : Block) (hs : List H256)
      → IsTree chain
      → Map.get h chain.blocks ≡ some b
      → Returns (unwrap_blocks chain hs) (Views chain hs)
      → Returns (unwrap_blocks chain (h ∷ hs)) (Views chain (h ∷ hs))
  unfolding unwrap_blocks unwrap_headers unwrap_contents
  one_more chain h b hs tree found (bs, run, views) =
      let there = get_block-some chain h b found in
      (
        b ∷ bs,
        rw (there, run) refl,
        record {
          hashes =
              ap (λ k. k ∷ map (λ x. x.hash) bs) (tree.keyed h b found)
              ∙ ap (λ ks. h ∷ ks) views.hashes;
          headers = rw (there, views.headers) refl;
          contents = rw (there, views.contents) refl;
        },
      )

  Descends-Views :
      (chain : Blockchain) (h : H256) (n : ℕ) (hs : List H256)
      → IsTree chain
      → Descends chain.blocks h n hs
      → Returns (unwrap_blocks chain hs) (Views chain hs)
  unfolding unwrap_blocks unwrap_headers unwrap_contents
  Descends-Views chain h n hs tree (bottom at_zero) =
      let (g, found, _) = tree.rooted in
      one_more chain h g [] tree (subst (λ k. Map.get k chain.blocks ≡ some g) (sym at_zero) found)
        ([], refl, record { hashes = refl; headers = refl; contents = refl })
  Descends-Views chain h n hs tree (down b found level below) =
      one_more chain h b _ tree found (Descends-Views chain b.header.parent _ _ tree below)

  -- On a valid chain of fewer than 2 ^ 31 levels `block_chain` ends without a panic, in as many blocks as the
  -- chain is long. `hash_chain`, `header_chain` and `content_chain` are the hashes, the headers and the
  -- contents of these blocks, in their order.
  pub block_chain-Returns :
      (chain : Blockchain)
      → IsValid chain
      → chain.max_index < 2 ^ 31
      → Returns (block_chain chain) λ bs.
        (length bs ≡ chain_length chain)
        × (hash_chain chain ≡ ok (map (λ b. b.hash) bs))
        × (header_chain chain ≡ ok (map (λ b. b.header) bs))
        × (content_chain chain ≡ ok (map (λ b. b.content) bs))
  unfolding block_chain header_chain content_chain
  block_chain-Returns chain valid small =
      let (hs, run, (descends, len)) = hash_chain-Descends chain valid small in
      let (bs, blocks, views) = Descends-Views chain _ _ hs valid.tree descends in
      (
        bs,
        rw run blocks,
        (
          length-map_hash bs ∙ ap length views.hashes ∙ len,
          run ∙ ap (λ ks. ok ks) (sym views.hashes),
          rw run views.headers,
          rw run views.contents,
        ),
      )
