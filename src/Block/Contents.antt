-- ===== src/Block/Contents.antt =====
-- src/block.rs: the methods of `Content`, by which blocks are put together.
use bitcoin_client_rust.Ring.{Ring}
use bitcoin_client_rust.Hash.{H256}
use bitcoin_client_rust.Transaction.{SignedTransaction}
use bitcoin_client_rust.Block.{Content, get_trans_hashes}
use bitcoin_client_rust.Merkle
use bitcoin_client_rust.Merkle.{hash_of}
use bitcoin_client_rust.Merkle.Proof.{new-verify}
use bitcoin_client_rust.Prelude.{
  ℕ, ◌≡◌, ◌≤◌, true, some, List, [], ◌∷◌, ◌++◌, length, get_elem?, Run, ok, ◌>>=◌, Returns, refl,
  ◌^◌, arith, subst, sym, ◌∙◌, ok_cancel, length-map,
}

unfoldable pub new_content : Content
new_content = record { trans = [] }

unfoldable pub new_with_trans : List SignedTransaction → Content
new_with_trans trans = record { trans = trans }

unfoldable pub add_tran : SignedTransaction → Content → Content
add_tran tran content = record { trans = content.trans ++ tran ∷ [] }

module _ ⦃ring : Ring⦄ where
  -- `MerkleTree::new` over the transactions, by their hashes; the levels are no more than the leaves.
  unfoldable pub merkle_root : Content → Run H256
  unfolding Merkle.new hash_of get_trans_hashes
  merkle_root content =
      Merkle.new (length content.trans) (get_trans_hashes content) >>= λ tree. ok (hash_of tree)

  -- Every place of the content has a proof that leads to the root.
  abbrev pub IsRootOf : H256 → Content → Type 0
  IsRootOf root content =
      (i : ℕ) (d : H256)
      → get_elem? (get_trans_hashes content) i ≡ some d
      → (proof : List H256) × (Merkle.verify root d proof i ≡ true)

length-get_trans_hashes : (c : Content) → length (get_trans_hashes c) ≡ length c.trans
unfolding get_trans_hashes
length-get_trans_hashes c = length-map (λ t. t.hash) c.trans

module _ ⦃ring : Ring⦄ where
  -- The root of a content of at least one and at most 2 ^ 21 transactions exists, and every transaction has a proof
  -- that leads to it.
  pub merkle_root-IsRootOf :
      (t : SignedTransaction) (ts : List SignedTransaction)
      → length (t ∷ ts) ≤ 2 ^ 21
      → (let content : Content = record { trans = t ∷ ts } in
          Returns (merkle_root content) λ root. IsRootOf root content)
  unfolding merkle_root
  merkle_root-IsRootOf t ts room =
      let content : Content = record { trans = t ∷ ts } in
      let hashes = get_trans_hashes content in
      let fuel = length content.trans in
      let enough : length hashes ≤ fuel = omega (arith, length-get_trans_hashes content) in
      let few : length hashes ≤ 2 ^ 21 = omega (arith, length-get_trans_hashes content, room) in
      let (tree, run, _) = new-verify hashes 0 t.hash fuel refl enough few in
      (
        hash_of tree,
        rw run refl,
        λ i d e.
            let (other, again, checks) = new-verify hashes i d fuel e enough few in
            (
              Merkle.proof other i,
              subst (λ r. Merkle.verify (hash_of r) d (Merkle.proof other i) i ≡ true)
                  (ok_cancel (sym again ∙ run)) checks,
            ),
      )
