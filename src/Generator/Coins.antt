-- ===== src/Generator/Coins.antt =====
-- `coins_of` lists the outputs of a state that belong to an address, and their sum.
use bitcoin_client_rust.Hash.{H160, H160_eq}
use bitcoin_client_rust.Transaction.{TxInput, TxInput_eq}
use bitcoin_client_rust.Block.{OutPoint, OutPoint_eq, State}
use bitcoin_client_rust.Generator.{coins_from, coins_of}
use bitcoin_client_rust.Prelude.Map
use bitcoin_client_rust.Prelude.Map.{
  Map, IsMap, insert-IsMap, get-insert_cases, get-insert_ne, get-first, get-behind_some,
}
use bitcoin_client_rust.Prelude.{
  ℕ, ◌+◌, ◌%◌, ◌^◌, ◌<◌, ◌≡◌, refl, ap, ◌∙◌, ◌⊎◌, inl, inr, true, false, none, some, [], ◌∷◌,
  Bool-cases, ◌==◌, ==_iff, if◌then◌else◌, arith,
}

abbrev pub point_of : TxInput → OutPoint
point_of input = record { tran_hash = input.pre_hash; index = input.index }

abbrev pub input_of : OutPoint → TxInput
input_of point = record { pre_hash = point.tran_hash; index = point.index }

-- The sum of the coins, and of the values in a state that an address owns.
unfoldable pub sum_coins : Map TxInput ℕ → ℕ
sum_coins [] = 0
sum_coins ((input, val) ∷ coins) = val + sum_coins coins

unfoldable pub owned : H160 → State → ℕ
owned addr [] = 0
owned addr ((point, (val, owner)) ∷ state) =
    if owner == addr then val + owned addr state else owned addr state

sum_coins-insert_new :
    (input : TxInput) (val : ℕ) (coins : Map TxInput ℕ)
    → Map.get input coins ≡ none
    → sum_coins (Map.insert input val coins) ≡ sum_coins coins + val
unfolding sum_coins Map.insert Map.get
sum_coins-insert_new input val [] new = omega arith
sum_coins-insert_new input val ((i, w) ∷ coins) new =
    ground (arith, sum_coins-insert_new input val coins)

-- What the loop makes of the entries that are left.
record Gathered (addr : H160) (state : State) (coins : Map TxInput ℕ) (balance : ℕ)
    (r : Map TxInput ℕ × ℕ) : Type 0 where
  unique : IsMap r.0
  sum : r.1 ≡ (balance + owned addr state) % 2 ^ 64
  total : sum_coins r.0 ≡ sum_coins coins + owned addr state
  backed :
      (input : TxInput) (val : ℕ)
      → Map.get input r.0 ≡ some val
      → (Map.get input coins ≡ some val) ⊎ (Map.get (point_of input) state ≡ some (val, addr))

-- No entry that is left is among the coins.
abbrev Apart : State → Map TxInput ℕ → Type 0
Apart state coins =
    (input : TxInput) (v : ℕ × H160)
    → Map.get (point_of input) state ≡ some v
    → Map.get input coins ≡ none

-- One round of the two loops.
coins_from_mine :
    (addr owner : H160) (point : OutPoint) (val : ℕ) (state : State) (coins : Map TxInput ℕ)
    (balance : ℕ)
    → (owner == addr) ≡ true
    → coins_from addr ((point, (val, owner)) ∷ state) coins balance
      ≡ coins_from addr state (Map.insert (input_of point) val coins) ((balance + val) % 2 ^ 64)
unfolding coins_from
coins_from_mine addr owner point val state coins balance e = rw (e, coins_from) refl

coins_from_foreign :
    (addr owner : H160) (point : OutPoint) (val : ℕ) (state : State) (coins : Map TxInput ℕ)
    (balance : ℕ)
    → (owner == addr) ≡ false
    → coins_from addr ((point, (val, owner)) ∷ state) coins balance
      ≡ coins_from addr state coins balance
unfolding coins_from
coins_from_foreign addr owner point val state coins balance e = rw (e, coins_from) refl

owned_mine :
    (addr owner : H160) (point : OutPoint) (val : ℕ) (state : State)
    → (owner == addr) ≡ true
    → owned addr ((point, (val, owner)) ∷ state) ≡ val + owned addr state
unfolding owned
owned_mine addr owner point val state e = rw (e, owned) refl

owned_foreign :
    (addr owner : H160) (point : OutPoint) (val : ℕ) (state : State)
    → (owner == addr) ≡ false
    → owned addr ((point, (val, owner)) ∷ state) ≡ owned addr state
unfolding owned
owned_foreign addr owner point val state e = rw (e, owned) refl

Apart-insert :
    (point : OutPoint) (val : ℕ) (state : State) (coins : Map TxInput ℕ)
    → Map.get point state ≡ none
    → Apart state coins
    → Apart state (Map.insert (input_of point) val coins)
Apart-insert point val state coins new apart input v e =
    get-insert_ne (input_of point) input val coins
      (λ p. cc (ap (λ (i : TxInput). Map.get (point_of i) state) p, new, e))
    ∙ apart input v e

-- The coin of the first entry.
first_coin :
    (addr owner : H160) (point : OutPoint) (input : TxInput) (val w : ℕ) (state : State)
    → input ≡ input_of point
    → w ≡ val
    → (owner == addr) ≡ true
    → Map.get (point_of input) ((point, (val, owner)) ∷ state) ≡ some (w, addr)
first_coin addr owner point input val w state p q mine =
    ap (λ (i : TxInput). Map.get (point_of i) ((point, (val, owner)) ∷ state)) p
    ∙ get-first point (val, owner) state
    ∙ rw (q, (==_iff owner addr).0 mine) refl

coins_from-Gathered :
    (addr : H160) (state : State) (coins : Map TxInput ℕ) (balance : ℕ)
    → balance < 2 ^ 64
    → IsMap state
    → IsMap coins
    → Apart state coins
    → Gathered addr state coins balance (coins_from addr state coins balance)
coins_from-Gathered addr [] coins balance small fresh unique apart =
    unfold coins_from owned in
    record {
      unique = unique;
      sum = omega arith;
      total = omega arith;
      backed = λ input val e. inl e;
    }
coins_from-Gathered addr ((point, (val, owner)) ∷ state) coins balance small (new, fresh) unique
      apart =
    let behind =
      λ (k : OutPoint) (w : ℕ × H160). get-behind_some point k (val, owner) state {w = w} new in
    let later : Apart state coins = λ input v e. apart input v (behind (point_of input) v e) in
    elim (Bool-cases (owner == addr)) [
      | inr foreign ↦
          let rest = coins_from-Gathered addr state coins balance small fresh unique later in
          let less = owned_foreign addr owner point val state foreign in
          rw (coins_from_foreign addr owner point val state coins balance foreign) (record {
            unique = rest.unique;
            sum = omega (arith, rest.sum, less);
            total = omega (arith, rest.total, less);
            backed = λ input w e. elim (rest.backed input w e) [
              | inl old ↦ inl old
              | inr found ↦ inr (behind (point_of input) (w, addr) found)
            ];
          })
      | inl mine ↦
          let rest =
            coins_from-Gathered addr state (Map.insert (input_of point) val coins)
              ((balance + val) % 2 ^ 64) (omega arith) fresh
              (insert-IsMap (input_of point) val coins unique)
              (Apart-insert point val state coins new later) in
          let more = owned_mine addr owner point val state mine in
          let unseen = apart (input_of point) (val, owner) (get-first point (val, owner) state) in
          rw (coins_from_mine addr owner point val state coins balance mine) (record {
            unique = rest.unique;
            sum = omega (arith, rest.sum, more);
            total =
                omega
                  (arith, rest.total, more, sum_coins-insert_new (input_of point) val coins unseen);
            backed = λ input w e. elim (rest.backed input w e) [
              | inr found ↦ inr (behind (point_of input) (w, addr) found)
              | inl old ↦ elim (get-insert_cases (input_of point) input val coins old) [
                | inr (n, kept) ↦ inl kept
                | inl (p, q) ↦ inr (first_coin addr owner point input val w state p q mine)
              ]
            ];
          })
    ]

-- The coins of an address are different outputs of the state that belong to it, and the balance is
-- their sum, where it is below 2 ^ 64.
pub record IsCoins (addr : H160) (state : State) (r : Map TxInput ℕ × ℕ) : Type 0 where
  pub unique : IsMap r.0
  pub balance : r.1 ≡ owned addr state
  pub total : sum_coins r.0 ≡ owned addr state
  pub backed :
      (input : TxInput) (val : ℕ)
      → Map.get input r.0 ≡ some val
      → Map.get (point_of input) state ≡ some (val, addr)

pub coins_of-IsCoins :
    (addr : H160) (state : State)
    → IsMap state
    → owned addr state < 2 ^ 64
    → IsCoins addr state (coins_of state addr)
unfolding coins_of sum_coins Map.get
coins_of-IsCoins addr state fresh small =
    let all = coins_from-Gathered addr state [] 0 (omega arith) fresh tt (λ input v e. refl) in
    record {
      unique = all.unique;
      balance = omega (arith, all.sum, small);
      total = omega (arith, all.total);
      backed = λ input val e. elim (all.backed input val e) [
        | inl none_yet ↦ cc none_yet
        | inr found ↦ found
      ];
    }
