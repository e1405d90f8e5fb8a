-- ===== src/Blockchain/Meta.antt =====
-- What `validate_block_meta` asks of a block, and what it does not.
use bitcoin_client_rust.Ring.{Ring}
use bitcoin_client_rust.Hash.{H256_eq, lt}
use bitcoin_client_rust.Transaction.{Bincode}
use bitcoin_client_rust.Block.{Block, Content, header_hash, validate_signature}
use bitcoin_client_rust.Blockchain.{Blockchain, validate_block_meta}
use bitcoin_client_rust.Prelude.{
  ◌≡◌, ◌↔◌, Bool, true, false, ◌&&◌, ◌==◌, ==_iff, if◌then◌else◌, arith, subst, sym,
}

-- A test of four conditions.
four :
    (a b c d : Bool)
    → ((if a && (b && (c && d)) then true else false) ≡ true)
      ↔ ((a ≡ true) × (b ≡ true) × (c ≡ true) × (d ≡ true))
four a b c d = (λ h. (ground arith, ground arith, ground arith, ground arith), λ h. ground arith)

module _ ⦃ring : Ring⦄ ⦃bincode : Bincode⦄ where
  -- A block passes exactly where its hash is that of its header, its difficulty is that of the chain, the
  -- hash is below the difficulty, and the signatures of the content are valid.
  pub validate_block_meta_iff :
      (chain : Blockchain) (b : Block)
      → (validate_block_meta chain b ≡ true) ↔ (
          (header_hash b.header ≡ b.hash)
          × (b.header.difficulty ≡ chain.difficulty)
          × (lt b.hash chain.difficulty ≡ true)
          × (validate_signature b ≡ true))
  unfolding validate_block_meta
  validate_block_meta_iff chain b =
      let digest = header_hash b.header in
      let tests =
        four (digest == b.hash) (b.header.difficulty == chain.difficulty)
          (lt digest chain.difficulty) (validate_signature b) in
      let of_hash = ==_iff digest b.hash in
      let of_level = ==_iff b.header.difficulty chain.difficulty in
      (
        λ passed.
            let (same, level, low, signed) = tests.0 passed in
            let p = of_hash.0 same in
            (p, of_level.0 level, subst (λ h. lt h chain.difficulty ≡ true) p low, signed),
        λ (same, level, low, signed). tests.1 (
          of_hash.1 same,
          of_level.1 level,
          subst (λ h. lt h chain.difficulty ≡ true) (sym same) low,
          signed,
        ),
      )

  -- The root in the header is not compared with the content: a block that passes still passes with any other
  -- content whose signatures are valid.
  pub validate_block_meta-content :
      (chain : Blockchain) (b : Block) (content : Content)
      → validate_block_meta chain b ≡ true
      → validate_signature (record b { content = content }) ≡ true
      → validate_block_meta chain (record b { content = content }) ≡ true
  validate_block_meta-content chain b content passed signed =
      let (same, level, low, _) = (validate_block_meta_iff chain b).0 passed in
      (validate_block_meta_iff chain (record b { content = content })).1 (same, level, low, signed)
