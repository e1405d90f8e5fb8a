-- ===== src/Blockchain/Waiting.antt =====
-- The number of blocks that wait for a parent in the orphan buffer of src/blockchain.rs.
use bitcoin_client_rust.Hash.{H256, H256_eq}
use bitcoin_client_rust.Block.{Block}
use bitcoin_client_rust.Blockchain.{with_child}
use bitcoin_client_rust.Prelude.Map
use bitcoin_client_rust.Prelude.Map.{
  Map, get-insert_cases, get-insert_keeps, get-insert_self, get-insert_ne, get-remove_cases,
  get-remove_ne, get-remove_self,
}
use bitcoin_client_rust.Prelude.{
  ℕ, suc, length-append, some_cancel, Option-cases, ◌+◌, ◌≤◌, ◌≡◌, refl, ap, inl, inr, none, some,
  List, [], ◌∷◌, ◌++◌, ◌==◌, length, Bool-cases, arith,
}

-- The number of blocks in `orphans_map`, which bounds the depth of the recursion.
unfoldable pub waiting_count : Map H256 (List Block) → ℕ
waiting_count [] = 0
waiting_count ((p, cs) ∷ m) = length cs + waiting_count m

waiting_count-remove_le :
    (p : H256) (m : Map H256 (List Block)) → waiting_count (Map.remove p m) ≤ waiting_count m
unfolding waiting_count Map.remove
waiting_count-remove_le p [] = omega arith
waiting_count-remove_le p ((q, ds) ∷ m) = ground (arith, waiting_count-remove_le p m)

pub waiting_count-remove :
    (p : H256) (m : Map H256 (List Block)) {cs : List Block}
    → Map.get p m ≡ some cs
    → waiting_count (Map.remove p m) + length cs ≤ waiting_count m
unfolding waiting_count Map.remove Map.get
waiting_count-remove p [] e = cc
waiting_count-remove p ((q, ds) ∷ m) {cs} e = elim (Bool-cases (q == p)) [
  | inr other ↦ rw other (omega (arith, waiting_count-remove p m (rw other at e)))
  | inl same ↦ rw same (ground (arith, waiting_count-remove_le p m))
]

waiting_count-insert_new :
    (p : H256) (cs : List Block) (m : Map H256 (List Block))
    → Map.get p m ≡ none
    → waiting_count (Map.insert p cs m) ≡ length cs + waiting_count m
unfolding waiting_count Map.insert Map.get
waiting_count-insert_new p cs [] e = refl
waiting_count-insert_new p cs ((q, ds) ∷ m) e = elim (Bool-cases (q == p)) [
  | inl same ↦ absurd (cc (rw same at e))
  | inr other ↦ rw other (omega (arith, waiting_count-insert_new p cs m (rw other at e)))
]

waiting_count-insert-some :
    (p : H256) (cs : List Block) (m : Map H256 (List Block)) {es : List Block}
    → Map.get p m ≡ some es
    → waiting_count (Map.insert p cs m) + length es ≡ length cs + waiting_count m
unfolding waiting_count Map.insert Map.get
waiting_count-insert-some p cs [] e = cc e
waiting_count-insert-some p cs ((q, ds) ∷ m) {es} e = elim (Bool-cases (q == p)) [
  | inl same ↦
      let held : length ds ≡ length es = ap length (some_cancel (rw same at e)) in
      rw same (omega (arith, held))
  | inr other ↦ rw other (omega (arith, waiting_count-insert-some p cs m (rw other at e)))
]

-- One more child waits.
pub waiting_count-with_child :
    (b : Block) (m : Map H256 (List Block))
    → waiting_count (Map.insert b.header.parent (with_child (Map.get b.header.parent m) b) m)
      ≤ suc (waiting_count m)
unfolding with_child
waiting_count-with_child b m = elim (Option-cases (Map.get b.header.parent m)) [
  | inl e ↦ rw e (omega (arith, waiting_count-insert_new b.header.parent (b ∷ []) m e))
  | inr (es, e) ↦ rw e (
      omega (
        arith,
        waiting_count-insert-some b.header.parent (es ++ b ∷ []) m e,
        length-append es (b ∷ []),
      ))
]
