-- ===== src/Coins/View/Refinement.antt =====
-- A cache is a view again, and flushing it moves what it stands for to the view below.
use dsvalue.Prelude.{
  ℕ, ◌≤◌, ◌≡◌, refl, sym, ap, ◌∙◌, Bool, true, false, [], ◌∷◌, Option, none, some, if◌then◌else◌,
  ◌==◌, arith, Bool-cases, Option-cases, inl, inr,
}
use dsvalue.Prelude.Map.{Map, lookup, insert, keys, lookup-insert}
use dsvalue.Prelude.Sorted.{Ascending, Rises}
use dsvalue.Coins.{Coins}
use dsvalue.Coins.View.{
  live, overlay, CoinsView, Cache, write_all, cache_view, fetch_missing, fetch_coins, set_coins,
  have_coins, batch_write, flush,
}

abbrev pub is_some : Option Coins → Bool
is_some none = false
is_some (some coins) = true

pub missing_below : (k j : ℕ) (m : Map Coins) → Rises k (keys m) → j ≤ k → lookup j m ≡ none
missing_below k j [] r h = refl
missing_below k j ((i, coins) ∷ m) r h = ground (arith, missing_below i j m)

pub Rises-Ascending : (k : ℕ) (m : Map Coins) → Rises k (keys m) → Ascending (keys m)
Rises-Ascending k [] r = tt
Rises-Ascending k ((i, coins) ∷ m) r = r.1

-- BatchWrite writes every entry over the cache.
pub lookup-write_all :
    (m cache : Map Coins) (j : ℕ)
    → Ascending (keys m)
    → lookup j (write_all m cache) ≡ overlay m (lookup j cache) j
unfolding write_all
lookup-write_all [] cache j a = refl
lookup-write_all ((txid, coins) ∷ m) cache j a =
    lookup-write_all m (insert txid coins cache) j (Rises-Ascending txid m a)
    ∙ elim (Bool-cases (txid == j)) [
      | inl e ↦ ground (arith, lookup-insert j txid coins cache, missing_below txid j m a)
      | inr e ↦ ground (arith, lookup-insert j txid coins cache)
    ]

module _ {S : Type 0} (v : CoinsView S) where
  missing-result :
      (c : Cache S) (txid : ℕ) (r : Option Coins × S) → (fetch_missing v c txid r).0 ≡ r.0
  unfolding fetch_missing
  missing-result c txid (none, base) = refl
  missing-result c txid (some coins, base) = refl

  missing-view :
      (c : Cache S) (txid j : ℕ) (r : Option Coins × S)
      → lookup txid c.cache_coins ≡ none
      → r.0 ≡ v.view c.base txid
      → v.view r.1 j ≡ v.view c.base j
      → cache_view v (fetch_missing v c txid r).1 j ≡ cache_view v c j
  unfolding fetch_missing
  missing-view c txid j (none, base) miss result same =
      ap (λ below. overlay c.cache_coins below j) same
  missing-view c txid j (some coins, base) miss result same = elim (Bool-cases (txid == j)) [
    | inl e ↦
        let equal : txid ≡ j = ground arith in
        let found = lookup-insert j txid coins c.cache_coins in
        ground (arith, found, rw equal at miss, rw equal at result)
    | inr e ↦ let found = lookup-insert j txid coins c.cache_coins in ground (arith, found)
  ]

  -- FetchCoins finds what the cache stands for, and does not change that.
  pub fetch-result : (c : Cache S) (txid : ℕ) → (fetch_coins v c txid).0 ≡ cache_view v c txid
  unfolding fetch_coins
  fetch-result c txid = elim (Option-cases (lookup txid c.cache_coins)) [
    | inl e ↦
        let result =
          missing-result c txid (v.get_coins c.base txid) ∙ v.get_coins-result c.base txid in
        let below : cache_view v c txid ≡ v.view c.base txid = ground (arith, e) in
        rw (e, fetch_coins) (result ∙ sym below)
    | inr (coins, e) ↦
        let found : cache_view v c txid ≡ some coins = ground (arith, e) in
        rw (e, fetch_coins) (sym found)
  ]

  pub fetch-view :
      (c : Cache S) (txid j : ℕ) → cache_view v (fetch_coins v c txid).1 j ≡ cache_view v c j
  unfolding fetch_coins
  fetch-view c txid j = elim (Option-cases (lookup txid c.cache_coins)) [
    | inl e ↦
        rw (e, fetch_coins)
          (missing-view c txid j (v.get_coins c.base txid) e (v.get_coins-result c.base txid)
            (v.get_coins-view c.base txid j))
    | inr (coins, e) ↦ rw (e, fetch_coins) refl
  ]

  pub have-result :
      (c : Cache S) (txid : ℕ) → (have_coins v c txid).0 ≡ is_some (cache_view v c txid)
  unfolding have_coins
  have-result c txid = ap is_some (fetch-result c txid)

  pub have-view :
      (c : Cache S) (txid j : ℕ) → cache_view v (have_coins v c txid).1 j ≡ cache_view v c j
  unfolding have_coins
  have-view c txid j = fetch-view c txid j

  write-view :
      (c : Cache S) (m : Map Coins) (hash j : ℕ)
      → Ascending (keys m)
      → cache_view v (batch_write v c m hash).1 j ≡ overlay m (cache_view v c j) j
  unfolding batch_write
  write-view c m hash j a =
      let written = lookup-write_all m c.cache_coins j a in
      elim (Option-cases (lookup j m)) [
        | inl e ↦ ground (arith, written)
        | inr (coins, e) ↦ ground (arith, written)
      ]

  -- A CCoinsViewCache over a view that keeps the contract of CCoinsView keeps that contract itself.
  cache_is_view : CoinsView (Cache S)
  cache_is_view = record {
    view = cache_view v;
    get_coins = fetch_coins v;
    batch_write = batch_write v;
    get_coins-result = fetch-result;
    get_coins-view = fetch-view;
    batch_write-view = λ c m hash j a done. ap live (write-view c m hash j a);
  }

  -- The operations of a cache on what it stands for, over a view that keeps the contract of
  -- CCoinsView: GetCoins returns the coins of a transaction and HaveCoins whether there are any, and
  -- neither changes what the cache stands for; SetCoins changes it at one transaction; BatchWrite
  -- lays the entries of a map, whose keys ascend, over it.
  pub cache-refines :
      (c : Cache S) (m : Map Coins) (coins : Coins) (hash txid j : ℕ)
      → Ascending (keys m)
      → ((fetch_coins v c txid).0 ≡ cache_view v c txid)
        × ((have_coins v c txid).0 ≡ is_some (cache_view v c txid))
        × (cache_view v (fetch_coins v c txid).1 j ≡ cache_view v c j)
        × (cache_view v (have_coins v c txid).1 j ≡ cache_view v c j)
        × (cache_view v (set_coins v c txid coins) j
            ≡ (if txid == j then some coins else cache_view v c j))
        × (cache_view v (batch_write v c m hash).1 j ≡ overlay m (cache_view v c j) j)
  cache-refines c m coins hash txid j a = (
    fetch-result c txid,
    have-result c txid,
    fetch-view c txid j,
    have-view c txid j,
    unfold set_coins in ground (arith, lookup-insert j txid coins c.cache_coins),
    write-view c m hash j a,
  )

  -- Where Flush succeeds, on a cache whose keys ascend, what is alive below is what was alive in the
  -- cache, the cache is empty, and what is alive in it is the same as before.
  pub flush-view :
      (c : Cache S) (j : ℕ)
      → Ascending (keys c.cache_coins)
      → (flush v c).0 ≡ true
      → (live (v.view (flush v c).1.base j) ≡ live (cache_view v c j))
        × ((flush v c).1.cache_coins ≡ [])
        × (live (cache_view v (flush v c).1 j) ≡ live (cache_view v c j))
  unfolding flush
  flush-view c j a done = (
    below,
    empty,
    ap (λ m. live (overlay m (v.view (v.batch_write c.base c.cache_coins c.hash_block).1 j) j))
          empty
        ∙ below,
  )
    where
      below :
          live (v.view (v.batch_write c.base c.cache_coins c.hash_block).1 j)
          ≡ live (cache_view v c j)
      below = v.batch_write-view c.base c.cache_coins c.hash_block j a done

      empty :
          (if (v.batch_write c.base c.cache_coins c.hash_block).0 then [] else c.cache_coins) ≡ []
      empty = rw done refl
