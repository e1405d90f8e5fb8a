-- ===== src/Merkle/Proof.antt =====
-- The proofs that `proof` gives are those that `verify` accepts.
use bitcoin_client_rust.Ring.{Ring}
use bitcoin_client_rust.Hash.{H256, H256_eq, concat_hash}
use bitcoin_client_rust.Merkle.{
  Node, hash_of, index_of, middle, new_non_leaf, copy, gen_nodes, next_level, build, new,
  trace_proof, reverse, proof, fold_proof, verify,
}
use bitcoin_client_rust.Merkle.Centre.{
  goes_left, goes_right, Centred, middle-Centred, span, span-covers, span-next_level,
}
use bitcoin_client_rust.Prelude.{
  ℕ, zero, suc, ◌+◌, ◌*◌, ◌/◌, ◌%◌, ◌≤◌, ◌<◌, ◌≡◌, refl, ap, ◌∙◌, ◌⊎◌, inl, inr, true, false, some,
  List, [], ◌∷◌, ◌++◌, length, get_elem?, ltb, ◌==◌, ==_refl, nat_eq, Returns, arith, some_cancel,
  subst, ◌^◌,
}

module _ ⦃ring : Ring⦄ where
  -- The running hash and the bits that are left.
  abbrev run_step : H256 × ℕ → H256 → H256 × ℕ
  run_step (acc_hash, bits) h = (concat_hash acc_hash h (bits % 2 == 0), bits / 2)

  abbrev run_proof : H256 × ℕ → List H256 → H256 × ℕ
  run_proof state [] = state
  run_proof state (h ∷ hs) = run_proof (run_step state h) hs

  run_proof-append :
      (state : H256 × ℕ) (hs : List H256) (h : H256)
      → run_proof state (hs ++ h ∷ []) ≡ run_step (run_proof state hs) h
  run_proof-append state [] h = refl
  run_proof-append state (x ∷ hs) h = run_proof-append (run_step state x) hs h

  fold_proof-run_proof :
      (hs : List H256) (acc_hash : H256) (bits : ℕ)
      → fold_proof acc_hash hs bits ≡ (run_proof (acc_hash, bits) hs).0
  unfolding fold_proof
  fold_proof-run_proof [] acc_hash bits = refl
  fold_proof-run_proof (h ∷ hs) acc_hash bits = fold_proof-run_proof hs _ (bits / 2)

  -- The proof that the node gives for `i` leads from `d` to the hash of the node, the `j`-th of its level.
  abbrev Leads : H256 → ℕ → ℕ → Node → Type 0
  Leads d i j node = run_proof (d, i) (reverse (trace_proof i node)) ≡ (hash_of node, j)

  -- The node of a level that covers the place `i`: the head is the `j`-th and covers `w` places from `s`.
  abbrev Has : H256 → ℕ → ℕ → ℕ → ℕ → List Node → Type 0
  Has d i w j s [] = ⊥
  Has d i w j s (node ∷ nodes) =
      ((s ≤ i) × (i < s + w) × Leads d i j node) ⊎ Has d i w (suc j) (s + w) nodes

  -- The indices of a level run from `a` in steps of `w`.
  abbrev Indexed : ℕ → ℕ → List Node → Type 0
  Indexed w a [] = Unit
  Indexed w a (node ∷ nodes) = (index_of node ≡ a) × Indexed w (a + w) nodes

  even_bit : (q : ℕ) → ((q + q) % 2 == 0) ≡ true
  even_bit q = ground arith

  odd_bit : (q : ℕ) → (suc (q + q) % 2 == 0) ≡ false
  odd_bit q = ground arith

  even_half : (q : ℕ) → (q + q) / 2 ≡ q
  even_half q = omega arith

  odd_half : (q : ℕ) → suc (q + q) / 2 ≡ q
  odd_half q = omega arith

  join_left :
      (d : H256) (i q : ℕ) (l r : Node)
      → i < middle (index_of l) (index_of r)
      → Leads d i (q + q) l
      → Leads d i q (new_non_leaf l r)
  unfolding new_non_leaf trace_proof reverse hash_of
  join_left d i q l r before e =
      let turn : ltb i (middle (index_of l) (index_of r)) ≡ true =
        goes_left i (middle (index_of l) (index_of r)) before in
      rw turn (
        run_proof-append (d, i) (reverse (trace_proof i l)) (hash_of r)
        ∙ ap (λ st. run_step st (hash_of r)) e
        ∙ rw (even_bit q, even_half q) refl)

  join_right :
      (d : H256) (i q : ℕ) (l r : Node)
      → middle (index_of l) (index_of r) ≤ i
      → Leads d i (suc (q + q)) r
      → Leads d i q (new_non_leaf l r)
  unfolding new_non_leaf trace_proof reverse hash_of concat_hash
  join_right d i q l r after e =
      let turn : ltb i (middle (index_of l) (index_of r)) ≡ false =
        goes_right i (middle (index_of l) (index_of r)) after in
      rw turn (
        run_proof-append (d, i) (reverse (trace_proof i r)) (hash_of l)
        ∙ ap (λ st. run_step st (hash_of l)) e
        ∙ rw (odd_bit q, odd_half q) refl)

  -- Two neighbours meet where the right one starts.
  meet :
      (w c s : ℕ) (l r : Node)
      → Centred w c
      → s + w + w < 2 ^ 23
      → index_of l ≡ s + c
      → index_of r ≡ s + c + w
      → middle (index_of l) (index_of r) ≡ s + w
  meet w c s l r centred room e f = rw (e, f) (middle-Centred w c s centred room)

  Indexed-shift :
      (w : ℕ) (nodes : List Node) {a b : ℕ} → a ≡ b → Indexed w a nodes → Indexed w b nodes
  Indexed-shift w nodes e i = subst (λ a. Indexed w a nodes) e i

  Has-shift :
      (d : H256) (i w : ℕ) (nodes : List Node) {j k s t : ℕ}
      → j ≡ k
      → s ≡ t
      → Has d i w j s nodes
      → Has d i w k t nodes
  Has-shift d i w nodes {j = j} {t = t} e f h =
      subst (λ k. Has d i w k t nodes) e (subst (λ u. Has d i w j u nodes) f h)

  Has-place :
      (d : H256) (w j s : ℕ) (nodes : List Node) {i k : ℕ}
      → i ≡ k
      → Has d i w j s nodes
      → Has d k w j s nodes
  Has-place d w j s nodes e h = subst (λ i. Has d i w j s nodes) e h

  next_level-Indexed :
      (w c s : ℕ) (nodes : List Node)
      → Centred w c
      → s + span w nodes < 2 ^ 23
      → Indexed w (s + c) nodes
      → Indexed (w * 2) (s + w) (next_level w nodes)
  unfolding next_level new_non_leaf copy index_of
  next_level-Indexed w c s [] centred room i = tt
  next_level-Indexed w c s (node ∷ []) centred room (e, i) =
      (rw e (middle-Centred w c s centred (omega (arith, room))), tt)
  next_level-Indexed w c s (l ∷ r ∷ nodes) centred room (e, (f, i)) = (
    rw (e, f) (middle-Centred w c s centred (omega (arith, room, span-covers w nodes))),
    Indexed-shift (w * 2) (next_level w nodes) (omega arith) (
        next_level-Indexed w c (s + (w * 2)) nodes centred (omega (arith, room))
          (Indexed-shift w nodes (omega arith) i)),
  )

  next_level-Has :
      (d : H256) (i w c q s : ℕ) (nodes : List Node)
      → Centred w c
      → s + span w nodes < 2 ^ 23
      → Indexed w (s + c) nodes
      → Has d i w (q + q) s nodes
      → Has d i (w * 2) q s (next_level w nodes)
  unfolding next_level copy index_of
  next_level-Has d i w c q s [] centred room x h = absurd h
  next_level-Has d i w c q s (node ∷ []) centred room x (inr h) = absurd h
  next_level-Has d i w c q s (node ∷ []) centred room (e, x) (inl (from, to, leads)) = inl (
    from,
    omega arith,
    join_left d i q node (copy node w)
        (omega (
          arith,
          meet w c s node (copy node w) centred (omega (arith, room)) e (ap (λ k. k + w) e),
        ))
        leads,
  )
  next_level-Has d i w c q s (l ∷ r ∷ nodes) centred room (e, (f, x)) (inl (from, to, leads)) =
      inl (
        from,
        omega arith,
        join_left d i q l r
            (omega (arith, meet w c s l r centred (omega (arith, room, span-covers w nodes)) e f))
            leads,
      )
  next_level-Has d i w c q s (l ∷ r ∷ nodes) centred room (e, (f, x))
        (inr (inl (from, to, leads))) =
      inl (
        omega arith,
        omega arith,
        join_right d i q l r
            (omega (arith, meet w c s l r centred (omega (arith, room, span-covers w nodes)) e f))
            leads,
      )
  next_level-Has d i w c q s (l ∷ r ∷ nodes) centred room (e, (f, x)) (inr (inr h)) = inr (
      next_level-Has d i w c (suc q) (s + w * 2) nodes centred (omega (arith, room))
        (Indexed-shift w nodes (omega arith) x)
        (Has-shift d i w nodes (omega arith) (omega arith) h))

  next_level-shorter :
      (w : ℕ) (nodes : List Node)
      → length (next_level w nodes) + length (next_level w nodes) ≤ length nodes + 1
  unfolding next_level
  next_level-shorter w [] = omega arith
  next_level-shorter w (node ∷ []) = omega arith
  next_level-shorter w (l ∷ r ∷ nodes) = omega (arith, next_level-shorter w nodes)

  -- The loop ends in a root whose proof leads from `d` to its hash.
  build-Leads :
      (fuel n : ℕ) (d : H256) (i w c : ℕ) (nodes : List Node)
      → length nodes ≤ fuel
      → n ≤ 2 ^ 21
      → span w nodes ≤ n + 1 + 2 * w
      → Centred w c
      → Indexed w c nodes
      → Has d i w 0 0 nodes
      → Returns (build fuel w nodes) (Leads d i 0)
  unfolding build
  build-Leads zero n d i w c [] enough few within centred x h = absurd h
  build-Leads zero n d i w c (node ∷ nodes) enough few within centred x h =
      absurd (omega (arith, enough))
  build-Leads (suc fuel) n d i w c [] enough few within centred x h = absurd h
  build-Leads (suc fuel) n d i w c (node ∷ []) enough few within centred x (inl (from, to, leads)) =
      (node, refl, leads)
  build-Leads (suc fuel) n d i w c (node ∷ []) enough few within centred x (inr h) = absurd h
  build-Leads (suc fuel) n d i w c (l ∷ r ∷ nodes) enough few within centred x h =
      let room : 0 + span w (l ∷ r ∷ nodes) < 2 ^ 23 =
        omega (arith, few, within, span-covers w nodes) in
      build-Leads fuel n d i (w * 2) w (next_level w (l ∷ r ∷ nodes))
        (omega (arith, next_level-shorter w (l ∷ r ∷ nodes))) few
        (omega (arith, within, span-next_level w (l ∷ r ∷ nodes))) (inr (omega arith))
        (Indexed-shift (w * 2) (next_level w (l ∷ r ∷ nodes)) (omega arith) (
          next_level-Indexed w c 0 (l ∷ r ∷ nodes) centred room
            (Indexed-shift w (l ∷ r ∷ nodes) (omega arith) x)))
        (next_level-Has d i w c 0 0 (l ∷ r ∷ nodes) centred room
          (Indexed-shift w (l ∷ r ∷ nodes) (omega arith) x) h)

  gen_nodes-Indexed : (i : ℕ) (data_hashes : List H256) → Indexed 1 i (gen_nodes i data_hashes)
  unfolding gen_nodes index_of
  gen_nodes-Indexed i [] = tt
  gen_nodes-Indexed i (h ∷ hs) =
      (refl, Indexed-shift 1 (gen_nodes (suc i) hs) (omega arith) (gen_nodes-Indexed (suc i) hs))

  gen_nodes-length :
      (i : ℕ) (data_hashes : List H256) → length (gen_nodes i data_hashes) ≡ length data_hashes
  unfolding gen_nodes
  gen_nodes-length i [] = refl
  gen_nodes-length i (h ∷ hs) = ap suc (gen_nodes-length (suc i) hs)

  span-gen_nodes :
      (i : ℕ) (data_hashes : List H256) → span 1 (gen_nodes i data_hashes) ≡ length data_hashes + 1
  unfolding gen_nodes
  span-gen_nodes i [] = refl
  span-gen_nodes i (h ∷ hs) = omega (arith, span-gen_nodes (suc i) hs)

  at_leaf : {h d : H256} {m n : ℕ} → h ≡ d → m ≡ n → ◌≡◌ {A = H256 × ℕ} (d, m) (h, n)
  at_leaf p q = rw (p, q) refl

  gen_nodes-Has :
      (d : H256) (k i : ℕ) (data_hashes : List H256)
      → get_elem? data_hashes k ≡ some d
      → Has d (i + k) 1 i i (gen_nodes i data_hashes)
  unfolding gen_nodes trace_proof reverse hash_of
  gen_nodes-Has d k i [] e = cc e
  gen_nodes-Has d zero i (h ∷ hs) e =
      inl (omega arith, omega arith, at_leaf (some_cancel e) (omega arith))
  gen_nodes-Has d (suc k) i (h ∷ hs) e = inr (
      Has-place d 1 (suc i) (i + 1) (gen_nodes (suc i) hs) (omega arith) (
        Has-shift d (suc i + k) 1 (gen_nodes (suc i) hs) refl (omega arith)
          (gen_nodes-Has d k (suc i) hs e)))

  -- For a list of at least one and at most 2 ^ 21 data, where the floats that place the nodes are exact,
  -- `MerkleTree::new` ends in a tree (with fuel for the number of data), and for every place in the list `verify`
  -- accepts the root, the hash of the datum there and the proof of that place.
  pub new-verify :
      (data_hashes : List H256) (i : ℕ) (d : H256) (fuel : ℕ)
      → get_elem? data_hashes i ≡ some d
      → length data_hashes ≤ fuel
      → length data_hashes ≤ 2 ^ 21
      → Returns (new fuel data_hashes) λ root. verify (hash_of root) d (proof root i) i ≡ true
  unfolding new verify proof
  new-verify data_hashes i d fuel e enough few =
      let (root, run, leads) =
        build-Leads fuel (length data_hashes) d i 1 0 (gen_nodes 0 data_hashes)
          (omega (arith, gen_nodes-length 0 data_hashes)) few
          (omega (arith, span-gen_nodes 0 data_hashes)) (inl refl) (gen_nodes-Indexed 0 data_hashes)
          (Has-place d 1 0 0 (gen_nodes 0 data_hashes) (omega arith)
            (gen_nodes-Has d i 0 data_hashes e)) in
      (
        root,
        run,
        rw (fold_proof-run_proof (reverse (trace_proof i root)) d i, leads)
            (==_refl (hash_of root)),
      )
