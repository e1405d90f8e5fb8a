-- ===== src/Server/Positions.antt =====
-- The list of keys and the slab of src/network/server.rs, and what `swap_remove` leaves of the list.
use bitcoin_client_rust.Message.{Handle}
use bitcoin_client_rust.Server.{Server, position, swap_remove, split_last, set_at}
use bitcoin_client_rust.Prelude.Map
use bitcoin_client_rust.Prelude.Map.{
  get-remove_cases, get-remove_ne, get-insert_self, get-insert_cases,
}
use bitcoin_client_rust.Prelude.{
  ℕ, suc, ◌≡◌, ◌≢◌, refl, sym, ◌∙◌, inl, inr, ◌↔◌, true, false, some, List, [], ◌∷◌, In, Bool-cases,
  ◌==◌, ==_iff, nat_eq, subst,
}

-- No key stands twice in the list.
abbrev pub Once : List ℕ → Type 0
Once [] = Unit
Once (x ∷ xs) = ¬ In x xs × Once xs

-- The list and the slab hold the same keys, each once.
pub record IsServer (server : Server) : Type 0 where
  pub once : Once server.peer_list
  pub listed : (k : ℕ) → In k server.peer_list → (h : Handle) × (Map.get k server.peers ≡ some h)
  pub stored : (k : ℕ) (h : Handle) → Map.get k server.peers ≡ some h → In k server.peer_list

-- The items of two lists are the same.
abbrev Same : List ℕ → List ℕ → Type 0
Same xs ys = (k : ℕ) → In k xs ↔ In k ys

split_last-Same : (x : ℕ) (xs : List ℕ) → Same ((split_last x xs).1 ∷ (split_last x xs).0) (x ∷ xs)
unfolding split_last
split_last-Same x [] k = (λ m. m, λ m. m)
split_last-Same x (y ∷ ys) k =
    let (to, from) = split_last-Same y ys k in
    (
      λ m. elim m [
        | inl p ↦ inr (to (inl p))
        | inr n ↦ elim n [ inl p ↦ inl p | inr l ↦ inr (to (inr l)) ]
      ],
      λ m. elim m [
        | inl p ↦ inr (inl p)
        | inr n ↦ elim (from n) [ inl p ↦ inl p | inr l ↦ inr (inr l) ]
      ],
    )

split_last-Once :
    (x : ℕ) (xs : List ℕ) → Once (x ∷ xs) → Once ((split_last x xs).1 ∷ (split_last x xs).0)
unfolding split_last
split_last-Once x [] once = once
split_last-Once x (y ∷ ys) (new, once) =
    let (last_new, front_once) = split_last-Once y ys once in
    let same = split_last-Same y ys in
    (
      λ m. elim m [
        | inl p ↦ new (subst (λ z. In z (y ∷ ys)) p ((same (split_last y ys).1).0 (inl refl)))
        | inr l ↦ last_new l
      ],
      (λ m. new ((same x).0 (inr m)), front_once),
    )

-- The list without the given key.
abbrev pub Without : ℕ → List ℕ → List ℕ → Type 0
Without p xs left = Once left × ((k : ℕ) → In k left ↔ (In k xs × (k ≢ p)))

pub swap_remove-first :
    (x : ℕ) (xs : List ℕ) → Once (x ∷ xs) → Without x (x ∷ xs) (swap_remove 0 (x ∷ xs))
unfolding swap_remove set_at split_last
swap_remove-first x [] once =
    (tt, λ k. (λ m. absurd m, λ m. elim m.0 [ inl p ↦ m.1 p | inr l ↦ l ]))
swap_remove-first x (y ∷ ys) (new, once) =
    let same = split_last-Same y ys in
    (
      split_last-Once y ys once,
      λ k. (
        λ m. let old = (same k).0 m in (inr old, λ p. new (subst (λ z. In z (y ∷ ys)) p old)),
        λ m. elim m.0 [ inl p ↦ absurd (m.1 p) | inr l ↦ (same k).1 l ],
      ),
    )

Without-later :
    (p x : ℕ) (xs left : List ℕ)
    → x ≢ p
    → ¬ In x xs
    → Without p xs left
    → Without p (x ∷ xs) (x ∷ left)
Without-later p x xs left ne new (once, same) = (
  (λ m. new ((same x).0 m).0, once),
  λ k. (
    λ m. elim m [
      | inl e ↦ (inl e, λ q. ne (sym e ∙ q))
      | inr l ↦ let (old, other) = (same k).0 l in (inr old, other)
    ],
    λ m. elim m.0 [ inl e ↦ inl e | inr l ↦ inr ((same k).1 (l, m.1)) ],
  ),
)

pub position-here : (p x : ℕ) (xs : List ℕ) → (x == p) ≡ true → position p (x ∷ xs) ≡ some 0
unfolding position
position-here p x xs e = rw (e, position) refl

position-later :
    (p x : ℕ) (xs : List ℕ) {j : ℕ}
    → (x == p) ≡ false
    → position p xs ≡ some j
    → position p (x ∷ xs) ≡ some (suc j)
unfolding position
position-later p x xs e f = rw (e, f, position) refl

position-In : (p : ℕ) (xs : List ℕ) → In p xs → (i : ℕ) × (position p xs ≡ some i)
position-In p [] m = absurd m
position-In p (x ∷ xs) m = elim (Bool-cases (x == p)) [
  | inl here ↦ (0, position-here p x xs here)
  | inr there ↦ elim m [
    | inl e ↦ cc ((==_iff x p).1 (sym e), there)
    | inr l ↦ let (j, f) = position-In p xs l in (suc j, position-later p x xs there f)
  ]
]

swap_remove-later :
    (j x y : ℕ) (ys : List ℕ) → swap_remove (suc j) (x ∷ y ∷ ys) ≡ x ∷ swap_remove j (y ∷ ys)
unfolding swap_remove set_at split_last
swap_remove-later j x y ys = refl

pub later :
    (p x : ℕ) (xs : List ℕ)
    → (x == p) ≡ false
    → Once (x ∷ xs)
    → In p xs
    → (i : ℕ) × ((position p xs ≡ some i) × Without p xs (swap_remove i xs))
    → (i : ℕ) × ((position p (x ∷ xs) ≡ some i) × Without p (x ∷ xs) (swap_remove i (x ∷ xs)))
later p x [] there once m found = absurd m
later p x (y ∷ ys) there once m (j, (f, left)) = (
  suc j,
  (
    position-later p x (y ∷ ys) there f,
    rw (swap_remove-later j x y ys) (
        Without-later p x (y ∷ ys) (swap_remove j (y ∷ ys)) (λ e. cc ((==_iff x p).1 e, there))
          once.0 left),
  ),
)
