-- ===== src/Coins/View.antt =====
-- The views on the coins: CCoinsView and CCoinsViewCache (src/coins.h, coins.cpp). A view that
-- another one rests on is known by its operations and their laws, `CoinsView`; the cache is a view.
pub mod Refinement
pub mod Inputs
pub mod Value
use dsvalue.Prelude.{
  ℕ, ◌≡◌, Bool, true, false, not, List, [], ◌∷◌, Option, none, some, Result, ok, err, Error, ◌>>=◌,
  ◌>>◌, guard, if◌then◌else◌, ltb, ◌==◌, length, get_elem?,
}
use dsvalue.Prelude.Int.{ℤ, pos, add64}
use dsvalue.Prelude.Map.{Map, lookup, insert, keys}
use dsvalue.Prelude.Sorted.{Ascending}
use dsvalue.Core.{TxOut, TxIn, Transaction}
use dsvalue.Coins.{is_pruned, Coins, is_available, is_coin_base}

-- The entries of a map over those of a view.
abbrev pub overlay : Map Coins → Option Coins → ℕ → Option Coins
overlay m below txid = elim (lookup txid m) [ none ↦ below | some coins ↦ some coins ]

-- What counts in a view: coins that have an output left.
abbrev pub live : Option Coins → Option Coins
live none = none
live (some coins) = if is_pruned coins.vout then none else some coins

-- The contract of CCoinsView, on the state `S` of an implementation: `view` is what it stands for. A view
-- may forget coins that are pruned when they are written, as the database does.
pub record CoinsView (S : Type 0) : Type 0 where
  pub view : S → ℕ → Option Coins
  pub get_coins : S → ℕ → Option Coins × S
  pub batch_write : S → Map Coins → ℕ → Bool × S
  pub get_coins-result : (s : S) (txid : ℕ) → (get_coins s txid).0 ≡ view s txid
  pub get_coins-view : (s : S) (txid j : ℕ) → view (get_coins s txid).1 j ≡ view s j
  pub batch_write-view :
      (s : S) (m : Map Coins) (hash j : ℕ)
      → Ascending (keys m)
      → (batch_write s m hash).0 ≡ true
      → live (view (batch_write s m hash).1 j) ≡ live (overlay m (view s j) j)

-- CCoinsViewCache
pub record Cache (S : Type 0) : Type 0 where
  pub base : S
  pub cache_coins : Map Coins
  pub hash_block : ℕ

-- The loop of CCoinsViewCache::BatchWrite.
unfoldable pub write_all : Map Coins → Map Coins → Map Coins
write_all [] cache = cache
write_all ((txid, coins) ∷ m) cache = write_all m (insert txid coins cache)

-- The assertion of GetCoins, and the one of GetOutputFor.
abbrev pub output_of : TxIn → Option Coins → Result TxOut
output_of input none = err Error.assertion
output_of input (some coins) =
    guard (is_available coins.vout input.prevout.n) Error.assertion
    >> (elim (get_elem? coins.vout input.prevout.n) [
      | none ↦ err Error.undefined
      | some txout ↦ ok txout
    ])

-- The assertion of GetCoins, before IsAvailable.
abbrev pub available_in : Option Coins → ℕ → Result Bool
available_in none n = err Error.assertion
available_in (some coins) n = ok (is_available coins.vout n)

module _ {S : Type 0} (v : CoinsView S) where
  -- What a cache stands for: its entries over the view that it rests on.
  abbrev pub cache_view : Cache S → ℕ → Option Coins
  cache_view c txid = overlay c.cache_coins (v.view c.base txid) txid

  -- A miss: the base answers, and what it has is kept.
  unfoldable pub fetch_missing : Cache S → ℕ → Option Coins × S → Option Coins × Cache S
  fetch_missing c txid (none, base) = (none, record c { base = base })
  fetch_missing c txid (some coins, base) =
      (some coins, record c { base = base; cache_coins = insert txid coins c.cache_coins })

  -- CCoinsViewCache::GetCoins and FetchCoins.
  unfoldable pub fetch_coins : Cache S → ℕ → Option Coins × Cache S
  unfolding fetch_missing
  fetch_coins c txid = elim (lookup txid c.cache_coins) [
    | some coins ↦ (some coins, c)
    | none ↦ fetch_missing c txid (v.get_coins c.base txid)
  ]

  -- CCoinsViewCache::SetCoins
  unfoldable pub set_coins : Cache S → ℕ → Coins → Cache S
  set_coins c txid coins = record c { cache_coins = insert txid coins c.cache_coins }

  -- CCoinsViewCache::HaveCoins
  unfoldable pub have_coins : Cache S → ℕ → Bool × Cache S
  unfolding fetch_coins
  have_coins c txid =
      let r = fetch_coins c txid in (elim r.0 [ none ↦ false | some coins ↦ true ], r.1)

  -- CCoinsViewCache::BatchWrite
  unfoldable pub batch_write : Cache S → Map Coins → ℕ → Bool × Cache S
  unfolding write_all
  batch_write c m hash =
      (true, record c { cache_coins = write_all m c.cache_coins; hash_block = hash })

  -- CCoinsViewCache::Flush
  unfoldable pub flush : Cache S → Bool × Cache S
  flush c =
      let r = v.batch_write c.base c.cache_coins c.hash_block in
      (r.0, record c { base = r.1; cache_coins = if r.0 then [] else c.cache_coins })

  -- CCoinsViewCache::GetOutputFor
  unfoldable pub get_output_for : Cache S → TxIn → Result (TxOut × Cache S)
  unfolding fetch_coins
  get_output_for c input =
      let r = fetch_coins c input.prevout.hash in do txout ← output_of input r.0; ok (txout, r.1)

  unfoldable pub value_in_from : Cache S → List TxIn → ℤ → Result (ℤ × Cache S)
  unfolding get_output_for
  value_in_from c [] n_result = ok (n_result, c)
  value_in_from c (input ∷ vin) n_result = do
    r ← get_output_for c input
    value_in_from r.1 vin (add64 n_result r.0.n_value)

  -- CCoinsViewCache::GetValueIn
  unfoldable pub get_value_in : Cache S → Transaction → Result (ℤ × Cache S)
  unfolding value_in_from
  get_value_in c tx = if is_coin_base tx then ok (pos 0, c) else value_in_from c tx.vin (pos 0)

  -- The two loops of HaveInputs; a loop that stops leaves the rest of the inputs alone.
  unfoldable pub have_all_coins : Cache S → List TxIn → Bool × Cache S
  unfolding have_coins
  have_all_coins c [] = (true, c)
  have_all_coins c (input ∷ vin) =
      let r = have_coins c input.prevout.hash in
      let rest = have_all_coins r.1 vin in if r.0 then rest else (false, r.1)

  unfoldable pub all_available : Cache S → List TxIn → Result (Bool × Cache S)
  unfolding fetch_coins
  all_available c [] = ok (true, c)
  all_available c (input ∷ vin) =
      let r = fetch_coins c input.prevout.hash in
      let rest = all_available r.1 vin in
      available_in r.0 input.prevout.n >>= λ available. if available then rest else ok (false, r.1)

  -- CCoinsViewCache::HaveInputs
  unfoldable pub have_inputs : Cache S → Transaction → Result (Bool × Cache S)
  unfolding have_all_coins all_available
  have_inputs c tx =
      if is_coin_base tx
      then ok (true, c)
      else (let r = have_all_coins c tx.vin in
          let rest = all_available r.1 tx.vin in if r.0 then rest else ok (false, r.1))
