-- ===== src/BitcoinNet/Order.antt =====
-- The order of the candidates of CChainManager (src/bitcoinnet/CChainManager.h:
-- CBlockIndexWorkComparator).
use dsvalue.Prelude.{ℕ, ◌≡◌, true, false, arith}
use dsvalue.Index.{IndexEntry}
use dsvalue.BitcoinNet.{header_less}

module _ (entry : ℕ → IndexEntry) where
  pub header_less_trans :
      (p q r : ℕ)
      → header_less entry p q ≡ true
      → header_less entry q r ≡ true
      → header_less entry p r ≡ true
  unfolding header_less
  header_less_trans p q r h k = ground arith

  pub header_less_irrefl : (p : ℕ) → header_less entry p p ≡ false
  unfolding header_less
  header_less_irrefl p = ground arith
