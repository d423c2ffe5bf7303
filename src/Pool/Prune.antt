-- ===== src/Pool/Prune.antt =====
-- The outputs that the pool spends, pruned from coins: CTxMemPool::pruneSpent (src/txmempool.cpp).
use dsvalue.Prelude.{
  ℕ, ◌<◌, ◌≤◌, ◌≡◌, refl, ap, ◌∙◌, Bool, true, false, not, ◌&&◌, ◌||◌, List, [], ◌∷◌, Option, none,
  some, if◌then◌else◌, ◌==◌, All, get_elem?, arith, Bool-cases, Option-cases, inl, inr, ==_iff,
}
use dsvalue.Core.{OutPoint, same_out_point, TxOut}
use dsvalue.Coins.{Coins, spend, is_available}
use dsvalue.Coins.Spend.{spend-is_available, spend-refused}
use dsvalue.Pool.{InPoint, NextTx, find_next, out_point_lt, TxMemPool}

-- mapNextTx.lower_bound(out): the entries from the first key on that is not below.
unfoldable pub lower_bound : OutPoint → NextTx → NextTx
lower_bound out [] = []
lower_bound out ((o, q) ∷ m) =
    let rest = lower_bound out m in if out_point_lt o out then rest else (o, q) ∷ m

-- CCoins::Spend(int), whose result is not looked at.
unfoldable pub spend_quietly : Coins → ℕ → Coins
spend_quietly coins n = elim (spend coins n) [ none ↦ coins | some r ↦ r.0 ]

-- The loop of pruneSpent.
unfoldable pub prune_from : ℕ → NextTx → Coins → Coins
unfolding spend_quietly
prune_from hash_tx [] coins = coins
prune_from hash_tx ((o, q) ∷ m) coins =
    let rest = prune_from hash_tx m (spend_quietly coins o.n) in
    if o.hash == hash_tx then rest else coins

-- CTxMemPool::pruneSpent
unfoldable pub prune_spent : ℕ → TxMemPool → Coins → Coins
unfolding lower_bound prune_from
prune_spent hash_tx pool coins =
    prune_from hash_tx (lower_bound (record { hash = hash_tx; n = 0 }) pool.map_next_tx) coins

-- The keys rise, as those of a std::map do.
abbrev pub IsSorted : NextTx → Type 0
IsSorted [] = Unit
IsSorted ((o, q) ∷ m) = All (λ (e : OutPoint × InPoint). out_point_lt o e.0 ≡ true) m × IsSorted m

abbrev pub found : Option InPoint → Bool
found none = false
found (some q) = true

abbrev pub is_marked : OutPoint → NextTx → Bool
is_marked out m = found (find_next out m)

found_if :
    (b : Bool) (q : InPoint) (r : Option InPoint) → found (if b then some q else r) ≡ (b || found r)
found_if true q r = refl
found_if false q r = refl

missing_output : (vout : List TxOut) (n : ℕ) → get_elem? vout n ≡ none → is_available vout n ≡ false
unfolding is_available
missing_output vout n h = ground arith

spend_quietly-is_available :
    (coins : Coins) (n j : ℕ)
    → is_available (spend_quietly coins n).vout j
      ≡ (if j == n then false else is_available coins.vout j)
unfolding spend_quietly
spend_quietly-is_available coins n j = elim (Bool-cases (is_available coins.vout n)) [
  | inr e ↦
      rw (spend_quietly, spend-refused coins n e)
        (elim (Bool-cases (j == n)) [
          | inl h ↦ rw h (ap (is_available coins.vout) ((==_iff j n).0 h) ∙ e)
          | inr h ↦ rw h refl
        ])
  | inl e ↦
      let (txout, at) = output_at coins n e in
      let (rest, undo, spent, others, _, _) = spend-is_available coins n txout at e in
      rw (spend_quietly, spent) (others j)
]
  where
    output_at :
        (coins : Coins) (n : ℕ)
        → is_available coins.vout n ≡ true
        → (txout : TxOut) × (get_elem? coins.vout n ≡ some txout)
    output_at coins n e = elim (Option-cases (get_elem? coins.vout n)) [
      | inr present ↦ present
      | inl missing ↦ let no = missing_output coins.vout n missing in absurd (cc)
    ]

is_marked_cons :
    (out o : OutPoint) (q : InPoint) (m : NextTx)
    → is_marked out ((o, q) ∷ m) ≡ (same_out_point o out || is_marked out m)
is_marked_cons out o q m = found_if (same_out_point o out) q (find_next out m)

-- Keys of greater hashes are not found.
above_unmarked :
    (hash j : ℕ) (m : NextTx)
    → All (λ (e : OutPoint × InPoint). hash < e.0.hash) m
    → is_marked (record { hash = hash; n = j }) m ≡ false
above_unmarked hash j [] a = refl
above_unmarked hash j ((o, q) ∷ m) a = ground (arith, above_unmarked hash j m)

-- Behind a key with a greater hash all keys have greater hashes.
hashes_above :
    (hash : ℕ) (o : OutPoint) (m : NextTx)
    → hash < o.hash
    → All (λ (e : OutPoint × InPoint). out_point_lt o e.0 ≡ true) m
    → All (λ (e : OutPoint × InPoint). hash < e.0.hash) m
hashes_above hash o [] k a = tt
hashes_above hash o ((p, q) ∷ m) k a = (ground arith, hashes_above hash o m k a.1)

prune_from-is_available :
    (hash j : ℕ) (m : NextTx) (coins : Coins)
    → IsSorted m
    → All (λ (e : OutPoint × InPoint). hash ≤ e.0.hash) m
    → is_available (prune_from hash m coins).vout j
      ≡ (is_available coins.vout j && not (is_marked (record { hash = hash; n = j }) m))
unfolding prune_from
prune_from-is_available hash j [] coins s a = and_true (is_available coins.vout j)
  where
    and_true : (b : Bool) → b ≡ (b && true)
    and_true true = refl
    and_true false = refl
prune_from-is_available hash j ((o, q) ∷ m) coins s a =
    let available = is_available coins.vout j in
    let out : OutPoint = record { hash = hash; n = j } in
    rw (is_marked_cons out o q m) (elim (Bool-cases (o.hash == hash)) [
      | inl e ↦ rw e (
          prune_from-is_available hash j m (spend_quietly coins o.n) s.1 a.1
          ∙ rw (spend_quietly-is_available coins o.n j) (hit o.n j available (is_marked out m)))
      | inr e ↦
          let above = above_unmarked hash j m (hashes_above hash o m (ground arith) s.0) in
          rw (e, above) (miss available)
    ])
  where
    hit :
        (n j : ℕ) (b marked : Bool)
        → ((if j == n then false else b) && not marked) ≡ (b && not (n == j || marked))
    hit n j b marked = elim (Bool-cases (j == n)) [
      | inl h ↦ let h' : (n == j) ≡ true = ground arith in rw (h, h') (and_false b)
      | inr h ↦ let h' : (n == j) ≡ false = ground arith in rw (h, h') refl
    ]
      where
        and_false : (b : Bool) → false ≡ (b && false)
        and_false true = refl
        and_false false = refl

    miss : (b : Bool) → b ≡ (b && true)
    miss true = refl
    miss false = refl

-- Behind the lower bound the keys are as before, and not below it.
lower_bound-is_marked :
    (hash j : ℕ) (m : NextTx)
    → IsSorted m
    → (is_marked (record { hash = hash; n = j }) (lower_bound (record { hash = hash; n = 0 }) m)
        ≡ is_marked (record { hash = hash; n = j }) m)
      × IsSorted (lower_bound (record { hash = hash; n = 0 }) m)
      × All
          (λ (e : OutPoint × InPoint). hash ≤ e.0.hash)
          (lower_bound (record { hash = hash; n = 0 }) m)
unfolding lower_bound
lower_bound-is_marked hash j [] s = (refl, tt, tt)
lower_bound-is_marked hash j ((o, q) ∷ m) s =
    let first : OutPoint = record { hash = hash; n = 0 } in
    let (same, sorted, above) = lower_bound-is_marked hash j m s.1 in
    elim (Bool-cases (out_point_lt o first)) [
      | inl e ↦
          let other : same_out_point o (record { hash = hash; n = j }) ≡ false = ground arith in
          rw e (same ∙ rw other refl, sorted, above)
      | inr e ↦ rw e (refl, s, (ground arith, at_least hash o m (ground arith) s.0))
    ]
  where
    at_least :
        (hash : ℕ) (o : OutPoint) (m : NextTx)
        → hash ≤ o.hash
        → All (λ (e : OutPoint × InPoint). out_point_lt o e.0 ≡ true) m
        → All (λ (e : OutPoint × InPoint). hash ≤ e.0.hash) m
    at_least hash o [] k a = tt
    at_least hash o ((p, q) ∷ m) k a = (ground arith, at_least hash o m k a.1)

-- pruneSpent takes from the coins of a transaction exactly the outputs that the pool spends.
pub prune_spent-is_available :
    (hash_tx j : ℕ) (pool : TxMemPool) (coins : Coins)
    → IsSorted pool.map_next_tx
    → is_available (prune_spent hash_tx pool coins).vout j ≡ (
        is_available coins.vout j
        && not (is_marked (record { hash = hash_tx; n = j }) pool.map_next_tx))
unfolding prune_spent
prune_spent-is_available hash_tx j pool coins s =
    let (same, sorted, above) = lower_bound-is_marked hash_tx j pool.map_next_tx s in
    prune_from-is_available hash_tx j _ coins sorted above
    ∙ ap (λ (b : Bool). is_available coins.vout j && not b) same
