-- ===== src/Coins/Database.antt =====
-- The database of coins below a cache: CCoinsViewDB (src/txdb.h, txdb.cpp). LevelDB, behind CLevelDBWrapper,
-- is a parameter: KeyStore. A batch is the list of what it writes and erases, and the best block if it
-- writes one.
use dsvalue.Prelude.{
  ℕ, ◌≡◌, refl, sym, ap, ◌∙◌, Bool, true, false, List, [], ◌∷◌, Option, none, some, if◌then◌else◌,
  ◌==◌, arith, Bool-cases, inl, inr,
}
use dsvalue.Prelude.Map.{Map, lookup, keys}
use dsvalue.Prelude.Sorted.{Ascending}
use dsvalue.Coins.{Coins, is_pruned}
use dsvalue.Coins.View.{overlay, live, CoinsView}
use dsvalue.Coins.View.Refinement.{missing_below, Rises-Ascending}

-- CLevelDBBatch, as CCoinsViewDB fills it: a key with its coins, or with none where it is erased.
pub record CoinsBatch : Type 0 where
  pub writes : List (ℕ × Option Coins)
  pub best : Option ℕ

-- What stands under a key when the writes of a batch have been applied in their order.
abbrev pub replay : List (ℕ × Option Coins) → Option Coins → ℕ → Option Coins
replay [] old txid = old
replay ((k, coins) ∷ writes) old txid = replay writes (if k == txid then coins else old) txid

abbrev pub later_best : Option ℕ → Option ℕ → Option ℕ
later_best none old = old
later_best (some hash) old = some hash

-- LevelDB, on the state `S` of the store: a batch that is written is applied.
pub record KeyStore (S : Type 0) : Type 0 where
  pub read : S → ℕ → Option Coins
  pub read_best : S → Option ℕ
  pub write_batch : S → CoinsBatch → Bool × S
  pub write_batch-read :
      (s : S) (b : CoinsBatch) (txid : ℕ)
      → (write_batch s b).0 ≡ true
      → read (write_batch s b).1 txid ≡ replay b.writes (read s txid) txid
  pub write_batch-best :
      (s : S) (b : CoinsBatch)
      → (write_batch s b).0 ≡ true
      → read_best (write_batch s b).1 ≡ later_best b.best (read_best s)

-- BatchWriteCoins: coins that are pruned are erased.
unfoldable pub batch_write_coins : ℕ → Coins → ℕ × Option Coins
batch_write_coins txid coins = (txid, if is_pruned coins.vout then none else some coins)

-- The loop of BatchWrite.
unfoldable pub batch_all : Map Coins → List (ℕ × Option Coins)
unfolding batch_write_coins
batch_all [] = []
batch_all ((txid, coins) ∷ m) = batch_write_coins txid coins ∷ batch_all m

module _ {S : Type 0} (d : KeyStore S) where
  -- CCoinsViewDB::GetCoins
  abbrev pub db_get_coins : S → ℕ → Option Coins × S
  db_get_coins s txid = (d.read s txid, s)

  -- CCoinsViewDB::BatchWrite
  unfoldable pub db_batch_write : S → Map Coins → ℕ → Bool × S
  unfolding batch_all
  db_batch_write s m hash_block =
      d.write_batch s
        (record { writes = batch_all m; best = if hash_block == 0 then none else some hash_block })

-- Coins that are written stand for the same as coins that are written or erased.
live_written :
    (coins : Coins) → live (if is_pruned coins.vout then none else some coins) ≡ live (some coins)
live_written coins = ground arith

overlay_missing :
    (m : Map Coins) (x : Option Coins) (txid : ℕ) → lookup txid m ≡ none → overlay m x txid ≡ x
overlay_missing m x txid h = rw (overlay, h) refl

overlay_head :
    (k : ℕ) (coins : Coins) (m : Map Coins) (x : Option Coins) (txid : ℕ)
    → (k == txid) ≡ true
    → overlay ((k, coins) ∷ m) x txid ≡ some coins
overlay_head k coins m x txid h = ground (arith, h)

overlay_tail :
    (k : ℕ) (coins : Coins) (m : Map Coins) (x : Option Coins) (txid : ℕ)
    → (k == txid) ≡ false
    → overlay ((k, coins) ∷ m) x txid ≡ overlay m x txid
overlay_tail k coins m x txid h = ground (arith, h)

replay-batch_all :
    (m : Map Coins) (old : Option Coins) (txid : ℕ)
    → Ascending (keys m)
    → live (replay (batch_all m) old txid) ≡ live (overlay m old txid)
unfolding batch_all batch_write_coins
replay-batch_all [] old txid a = refl
replay-batch_all ((k, coins) ∷ m) old txid a =
    replay-batch_all m
      (if k == txid then (if is_pruned coins.vout then none else some coins) else old) txid
      (Rises-Ascending k m a)
    ∙ elim (Bool-cases (k == txid)) [
      | inl e ↦
          let rest = missing_below k txid m a (ground arith) in
          rw e (
            ap live (overlay_missing m _ txid rest)
            ∙ live_written coins
            ∙ sym (ap live (overlay_head k coins m old txid e)))
      | inr e ↦ rw e (sym (ap live (overlay_tail k coins m old txid e)))
    ]

module _ {S : Type 0} (d : KeyStore S) where
  pub db_batch_write-view :
      (s : S) (m : Map Coins) (hash_block txid : ℕ)
      → Ascending (keys m)
      → (db_batch_write d s m hash_block).0 ≡ true
      → live (d.read (db_batch_write d s m hash_block).1 txid)
        ≡ live (overlay m (d.read s txid) txid)
  unfolding db_batch_write
  db_batch_write-view s m hash_block txid a written =
      ap live (d.write_batch-read s _ txid written) ∙ replay-batch_all m (d.read s txid) txid a

  -- CCoinsViewDB keeps the contract of CCoinsView.
  abbrev pub database_view : CoinsView S
  database_view = record {
    view = d.read;
    get_coins = db_get_coins d;
    batch_write = db_batch_write d;
    get_coins-result = λ s txid. refl;
    get_coins-view = λ s txid j. refl;
    batch_write-view = db_batch_write-view;
  }
