-- ===== src/Blockchain/Buffer.antt =====
-- The invariant of the orphan buffer. While `handle_orphan` runs, some children have left
-- `orphans_map` and wait for their turn: they are `pending`.
use bitcoin_client_rust.Hash.{H256, H256_eq}
use bitcoin_client_rust.Block.{Block}
use bitcoin_client_rust.Blockchain.{Blockchain, add_orphan, with_child}
use bitcoin_client_rust.Prelude.Map
use bitcoin_client_rust.Prelude.Map.{
  Map, get-insert_cases, get-insert_keeps, get-insert_self, get-insert_ne, get-remove_cases,
  get-remove_ne, get-remove_self,
}
use bitcoin_client_rust.Prelude.{
  ◌≡◌, ◌≢◌, refl, sym, ap, subst, ◌∙◌, ◌⊎◌, inl, inr, Option, none, some, List, [], ◌∷◌, ◌++◌, ◌==◌,
  In, In-append_left, In-append_right, In-append_cases, Bool-cases, ==_iff,
}

-- No two blocks of the list have one hash.
abbrev pub Distinct : List Block → Type 0
Distinct [] = Unit {0}
Distinct (b ∷ bs) = ((c : Block) → In c bs → c.hash ≢ b.hash) × Distinct bs

-- The block is recorded under its parent in `orphans_map`.
abbrev pub Waits : Blockchain → Block → Type 0
Waits chain b = (cs : List Block) × (Map.get b.header.parent chain.orphans_map ≡ some cs) × In b cs

pub record IsBuffer (pending : List Block) (chain : Blockchain) : Type 0 where
  pub children :
      (p : H256) (cs : List Block) (c : Block)
      → Map.get p chain.orphans_map ≡ some cs
      → In c cs
      → (c.header.parent ≡ p) × (Map.get c.hash chain.orphans ≡ some c)
  pub apart : (p : H256) (cs : List Block) → Map.get p chain.orphans_map ≡ some cs → Distinct cs
  pub detached :
      (p : H256) (cs : List Block)
      → Map.get p chain.orphans_map ≡ some cs
      → Map.get p chain.blocks ≡ none
  pub waiting :
      (c : Block)
      → In c pending
      → (Map.get c.hash chain.orphans ≡ some c)
        × ((p : Block) × (Map.get c.header.parent chain.blocks ≡ some p))
  pub pending_apart : Distinct pending
  pub orphaned :
      (h : H256) (b : Block)
      → Map.get h chain.orphans ≡ some b
      → (b.hash ≡ h) × (Map.get h chain.blocks ≡ none) × (Waits chain b ⊎ In b pending)

pub Distinct-append :
    (xs ys : List Block)
    → Distinct xs
    → Distinct ys
    → ((x y : Block) → In x xs → In y ys → x.hash ≢ y.hash)
    → Distinct (xs ++ ys)
Distinct-append [] ys dx dy f = dy
Distinct-append (x ∷ xs) ys dx dy f = (
  λ c m p. elim (In-append_cases c xs ys m) [
    | inl left ↦ dx.0 c left p
    | inr right ↦ f x c (inl refl) right (sym p)
  ],
  Distinct-append xs ys dx.1 dy (λ a b l r. f a b (inr l) r),
)

abbrev old_of : Option (List Block) → List Block
old_of none = []
old_of (some cs) = cs

with_child-old_of : (o : Option (List Block)) (b : Block) → with_child o b ≡ old_of o ++ b ∷ []
unfolding with_child
with_child-old_of none b = refl
with_child-old_of (some cs) b = refl

In-old_of-some :
    (o : Option (List Block)) (c : Block)
    → In c (old_of o)
    → (cs : List Block) × (o ≡ some cs) × In c cs
In-old_of-some none c m = absurd m
In-old_of-some (some cs) c m = (cs, refl, m)

module _ (chain : Blockchain) (b : Block) (pending : List Block) (buffer : IsBuffer pending chain)
    (new_block : Map.get b.hash chain.blocks ≡ none)
    (new_orphan : Map.get b.hash chain.orphans ≡ none)
    (no_parent : Map.get b.header.parent chain.blocks ≡ none) where
  -- The children that were recorded under the parent of `b` before.
  abbrev old : List Block
  old = old_of (Map.get b.header.parent chain.orphans_map)

  after : Blockchain
  after = record chain {
    orphans = Map.insert b.hash b chain.orphans;
    orphans_map = Map.insert b.header.parent (old ++ b ∷ []) chain.orphans_map;
  }

  add_orphan-after : add_orphan b chain ≡ after
  unfolding add_orphan after
  add_orphan-after = rw with_child-old_of

  In-old :
      (c : Block)
      → In c old
      → (cs : List Block) × (Map.get b.header.parent chain.orphans_map ≡ some cs) × In c cs
  In-old = In-old_of-some (Map.get b.header.parent chain.orphans_map)

  Distinct-old : Distinct old
  Distinct-old = go (Map.get b.header.parent chain.orphans_map) refl
    where
      go :
          (o : Option (List Block))
          → Map.get b.header.parent chain.orphans_map ≡ o
          → Distinct (old_of o)
      go none e = tt
      go (some cs) e = buffer.apart _ cs e

  In-old_of :
      (cs : List Block) (c : Block)
      → Map.get b.header.parent chain.orphans_map ≡ some cs
      → In c cs
      → In c old
  In-old_of cs c e m = subst (λ o. In c (old_of o)) (sym e) m

  -- A recorded orphan differs from the new one.
  other : (c : Block) → Map.get c.hash chain.orphans ≡ some c → c.hash ≢ b.hash
  other c e p = cc (e, new_orphan, ap (λ h. Map.get h chain.orphans) p)

  keeps :
      (c : Block) → Map.get c.hash chain.orphans ≡ some c → Map.get c.hash after.orphans ≡ some c
  unfolding after
  keeps c e = get-insert_keeps b.hash c.hash b chain.orphans new_orphan e

  after-children :
      (p : H256) (cs : List Block) (c : Block)
      → Map.get p after.orphans_map ≡ some cs
      → In c cs
      → (c.header.parent ≡ p) × (Map.get c.hash after.orphans ≡ some c)
  unfolding after
  after-children p cs c e m = elim (get-insert_cases b.header.parent p _ chain.orphans_map e) [
    | inr (n, f) ↦ let (q, r) = buffer.children p cs c f m in (q, keeps c r)
    | inl (same, f) ↦ elim (In-append_cases c old (b ∷ []) (subst (In c) f m)) [
      | inl l ↦
          let (ds, g, k) = In-old c l in
          let (q, r) = buffer.children _ ds c g k in (q ∙ sym same, keeps c r)
      | inr (inl q) ↦ (
        ap (λ (y : Block). y.header.parent) q ∙ sym same,
        rw q (get-insert_self b.hash b chain.orphans),
      )
      | inr (inr q) ↦ absurd q
    ]
  ]

  after-apart : (p : H256) (cs : List Block) → Map.get p after.orphans_map ≡ some cs → Distinct cs
  unfolding after
  after-apart p cs e = elim (get-insert_cases b.header.parent p _ chain.orphans_map e) [
    | inr (n, f) ↦ buffer.apart p cs f
    | inl (same, f) ↦ rw f (
        Distinct-append old (b ∷ []) Distinct-old ((λ c m. absurd m), tt)
          (λ x y l r.
            let (ds, g, k) = In-old x l in
            elim r [ inl q ↦ rw q (other x (buffer.children _ ds x g k).1) | inr q ↦ absurd q ]))
  ]

  after-orphaned :
      (h : H256) (x : Block)
      → Map.get h after.orphans ≡ some x
      → (x.hash ≡ h) × (Map.get h chain.blocks ≡ none) × (Waits after x ⊎ In x pending)
  unfolding after
  after-orphaned h x e = elim (get-insert_cases b.hash h b chain.orphans e) [
    | inl (p, q) ↦ (
      ap (λ (y : Block). y.hash) q ∙ sym p,
      rw p new_block,
      inl (
        old ++ b ∷ [],
        rw (ap (λ (y : Block). y.header.parent) q)
            (get-insert_self b.header.parent _ chain.orphans_map),
        In-append_right x old (b ∷ []) (inl q),
      ),
    )
    | inr (n, f) ↦
        let (p, q, where_) = buffer.orphaned h x f in
        (p, q, elim where_ [ inr m ↦ inr m | inl (cs, g, m) ↦ inl (still_waits x cs g m) ])
  ]
    where
      still_waits :
          (x : Block) (cs : List Block)
          → Map.get x.header.parent chain.orphans_map ≡ some cs
          → In x cs
          → Waits after x
      still_waits x cs g m = elim (Bool-cases (b.header.parent == x.header.parent)) [
        | inl same ↦
            let e = (==_iff b.header.parent x.header.parent).0 same in
            (
              old ++ b ∷ [],
              rw (← e) (get-insert_self b.header.parent _ chain.orphans_map),
              In-append_left x old (b ∷ []) (In-old_of cs x (rw (← e) at g) m),
            )
        | inr differ ↦ (
          cs,
          get-insert_ne b.header.parent x.header.parent _ chain.orphans_map
                (λ q. cc ((==_iff b.header.parent x.header.parent).1 (sym q)))
              ∙ g,
          m,
        )
      ]

  -- A block whose parent is unknown joins the buffer.
  pub add_orphan-IsBuffer : IsBuffer pending (add_orphan b chain)
  unfolding after
  add_orphan-IsBuffer = rw add_orphan-after (record {
    children = after-children;
    apart = after-apart;
    detached = λ p cs e. elim (get-insert_cases b.header.parent p _ chain.orphans_map e) [
      | inr (n, f) ↦ buffer.detached p cs f
      | inl (same, f) ↦ rw same no_parent
    ];
    waiting = λ c m. let (q, r) = buffer.waiting c m in (keeps c q, r);
    pending_apart = buffer.pending_apart;
    orphaned = after-orphaned;
  })
