-- ===== src/Tests/Chains.antt =====
-- The chain theorems at a chain of one or two blocks.
use bitcoin_client_rust.Tests.Toy.{toy_ring, toy_bincode, hash_at, first_block, orphan_block}
use bitcoin_client_rust.Blockchain.Meta.{validate_block_meta_iff, validate_block_meta-content}
use bitcoin_client_rust.Blockchain.{change_difficulty}
use bitcoin_client_rust.Block
use bitcoin_client_rust.Block.{validate_signature, all_signed, header_hash, header_bytes}
use bitcoin_client_rust.Transaction
use bitcoin_client_rust.Transaction.{
  sign_check, verify, sign, generate_signed_coinbase_transaction, generate_signed_transaction,
}
use bitcoin_client_rust.Hash.{lt, cmp, from_be_bytes, to_be_bytes}
use bitcoin_client_rust.Blockchain.{block_chain}
use bitcoin_client_rust.Blockchain.Views.{header_chain, content_chain, block_chain-Returns}
use bitcoin_client_rust.Prelude.{map, ok}
use bitcoin_client_rust.Hash.{H256, H256_eq}
use bitcoin_client_rust.Block.{Block, genesis}
use bitcoin_client_rust.Blockchain.{
  Blockchain, new, insert, insert_with_check, exist, validate_block_meta, tip_block_state,
  hash_chain, add_orphan, chain_length, missing_parent, is_orphan,
}
use bitcoin_client_rust.Blockchain.Tree.{Derives}
use bitcoin_client_rust.Blockchain.Waiting.{waiting_count}
use bitcoin_client_rust.Blockchain.Insert.{Extends}
use bitcoin_client_rust.Blockchain.Valid.{
  IsValid, Reach, start, mine, new-IsValid, insert-attaches, tip_block_state-Derives,
  insert_with_check-IsValid, Reach-IsValid,
}
use bitcoin_client_rust.Blockchain.Chain.{
  Descends, Ancestor, hash_chain-Descends, missing_parent-Ancestor,
}
use bitcoin_client_rust.Prelude.Map
use bitcoin_client_rust.Prelude.{
  ℕ, ◌+◌, ◌<◌, ◌≡◌, refl, ◌⊎◌, true, false, some, length, arith, Returns, if◌then◌else◌, ◌==◌, inl,
  inr, [],
}

insert-attaches_example : Returns (insert 1 first_block new) λ r.
    IsValid r.1
    × Extends new r.1
    × (((r.0 ≡ true)
          × (Map.get (hash_at 1) r.1.blocks
              ≡ some (record first_block { index = genesis.index + 1 })))
        ⊎ ((r.0 ≡ false) × (r.1 ≡ new)))
unfolding new genesis Map.get Map.insert waiting_count
insert-attaches_example =
    insert-attaches 1 first_block genesis new new-IsValid (refl, refl) refl (omega arith)

insert_with_check-IsValid_example : Returns (insert_with_check 1 first_block new) λ r.
    IsValid r.1
    × Extends new r.1
    × (((r.0 ≡ true)
          × (exist new (hash_at 1) ≡ false)
          × (validate_block_meta new first_block ≡ true)
          × (exist r.1 (hash_at 1) ≡ true))
        ⊎ ((r.0 ≡ false) × (r.1 ≡ new)))
unfolding new waiting_count
insert_with_check-IsValid_example =
    insert_with_check-IsValid 1 first_block new new-IsValid (omega arith)

-- The chain that has an orphan.
abbrev with_orphan : Blockchain
unfolding add_orphan
with_orphan = add_orphan orphan_block new

with_orphan-Reach : Reach with_orphan
unfolding with_orphan insert Map.get new genesis Map.insert waiting_count
with_orphan-Reach = mine 1 orphan_block start (refl, refl) (omega arith) refl

Reach-IsValid_example : IsValid with_orphan
Reach-IsValid_example = Reach-IsValid with_orphan-Reach

tip_block_state-Derives_example :
    Returns (tip_block_state new) (Derives new.check_trans new.blocks new.longest_hash)
tip_block_state-Derives_example = tip_block_state-Derives new new-IsValid

hash_chain-Descends_example :
    Returns
      (hash_chain new)
      λ hs. Descends new.blocks new.longest_hash new.max_index hs × (length hs ≡ chain_length new)
unfolding new
hash_chain-Descends_example = hash_chain-Descends new new-IsValid (omega arith)

block_chain-Returns_example : Returns (block_chain new) λ bs.
    (length bs ≡ chain_length new)
    × (hash_chain new ≡ ok (map (λ b. b.hash) bs))
    × (header_chain new ≡ ok (map (λ b. b.header) bs))
    × (content_chain new ≡ ok (map (λ b. b.content) bs))
unfolding new
block_chain-Returns_example = block_chain-Returns new new-IsValid (omega arith)

-- The orphan has rank 1, any other hash rank 0.
abbrev rank : H256 → ℕ
rank h = if h == hash_at 10 then 1 else 0

falls :
    (k : H256) (x : Block) → Map.get k with_orphan.orphans ≡ some x → rank x.header.parent < rank k
unfolding with_orphan Map.get new Map.insert
falls k x e = elim (Map.get-insert_cases (hash_at 10) k orphan_block [] e) [
  | inl (p, q) ↦ rw (p, q) (omega arith)
  | inr (n, absent) ↦ cc absent
]

missing_parent-Ancestor_example : Returns (missing_parent 3 with_orphan (hash_at 10)) λ o.
    (p : H256) × (o ≡ some p)
    × Ancestor with_orphan.orphans p (hash_at 10)
    × (exist with_orphan p ≡ false)
unfolding with_orphan is_orphan Map.get new Map.insert
missing_parent-Ancestor_example =
    missing_parent-Ancestor rank with_orphan 2 (hash_at 10) (Reach-IsValid with_orphan-Reach) falls
      refl (omega arith)

-- A chain of low difficulty, and a block that passes its checks.
abbrev pub easy : Blockchain
easy = change_difficulty (hash_at 255) new

abbrev pub mined : Block
mined = Block.new first_block.header first_block.content

mined-passes : validate_block_meta easy mined ≡ true
unfolding change_difficulty Block.new validate_signature all_signed sign_check verify lt cmp
    from_be_bytes header_hash header_bytes to_be_bytes generate_signed_coinbase_transaction
    generate_signed_transaction Transaction.new sign
mined-passes = (validate_block_meta_iff easy mined).1 (refl, refl, refl, refl)

-- The content is taken out of the block.
emptied-signed : validate_signature (record mined { content = record { trans = [] } }) ≡ true
unfolding validate_signature all_signed
emptied-signed = refl

validate_block_meta-content_example :
    validate_block_meta easy (record mined { content = record { trans = [] } }) ≡ true
validate_block_meta-content_example =
    validate_block_meta-content easy mined (record { trans = [] }) mined-passes emptied-signed
