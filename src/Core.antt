-- ===== src/Core.antt =====
-- Transactions and amounts (src/core.h, core.cpp). A script is a list of bytes, a `uint256` a number.
pub mod Amount
pub mod Sequence
pub mod Value
pub mod Merkle
mod Tests
use dsvalue.Prelude.{
  ℕ, zero, suc, ◌+◌, ◌^◌, ◌-◌, ◌*◌, ◌/◌, ◌%◌, Bool, true, false, ◌&&◌, List, [], ◌∷◌, Result, ok,
  err, Error, ◌>>=◌, ◌>>◌, guard, if◌then◌else◌, ltb, leb, ◌==◌,
}
use dsvalue.Prelude.Int.{ℤ, pos, add64, leb_ℤ}

-- COutPoint
pub record OutPoint : Type 0 where
  pub hash : ℕ
  pub n : ℕ

-- CTxIn
pub record TxIn : Type 0 where
  pub prevout : OutPoint
  pub script_sig : List ℕ
  pub n_sequence : ℕ

-- CTxOut
pub record TxOut : Type 0 where
  pub n_value : ℤ
  pub script_pub_key : List ℕ

-- CTransaction
pub record Transaction : Type 0 where
  pub n_version : ℕ
  pub vin : List TxIn
  pub vout : List TxOut
  pub n_lock_time : ℕ

abbrev pub coin : ℕ
coin = 100000000

abbrev pub max_money : ℕ
max_money = 52000000 * coin

abbrev pub money_range : ℤ → Bool
money_range n_value = leb_ℤ (pos 0) n_value && leb_ℤ n_value (pos max_money)

-- operator== of two COutPoint
abbrev pub same_out_point : OutPoint → OutPoint → Bool
same_out_point a b = a.hash == b.hash && a.n == b.n

-- The first part of IsNewerThan: as many inputs, of the same outputs.
unfoldable pub same_prevouts : List TxIn → List TxIn → Bool
same_prevouts [] [] = true
same_prevouts (a ∷ vin) (b ∷ old) = same_out_point a.prevout b.prevout && same_prevouts vin old
same_prevouts _ _ = false

-- The body of the loop of IsNewerThan, on fNewer and nLowest.
abbrev pub newer_step : (new old : ℕ) → Bool × ℕ → Bool × ℕ
newer_step new old (f_newer, n_lowest) =
    if new == old
    then (f_newer, n_lowest)
    else (let s = if leb new n_lowest then (false, new) else (f_newer, n_lowest) in
        if ltb old s.1 then (true, old) else s)

unfoldable pub newer_loop : List TxIn → List TxIn → Bool × ℕ → Bool × ℕ
newer_loop (a ∷ vin) (b ∷ old) s = newer_loop vin old (newer_step a.n_sequence b.n_sequence s)
newer_loop _ _ s = s

-- CTransaction::IsNewerThan
unfoldable pub is_newer_than : Transaction → Transaction → Bool
unfolding same_prevouts newer_loop
is_newer_than t old =
    if same_prevouts t.vin old.vin then (newer_loop t.vin old.vin (false, 2 ^ 32 - 1)).0 else false

-- The loop of GetValueOut, from the sum so far.
unfoldable pub value_out_from : ℤ → List TxOut → Result ℤ
value_out_from n_value_out [] = ok n_value_out
value_out_from n_value_out (txout ∷ vout) =
    let sum = add64 n_value_out txout.n_value in
    guard (money_range txout.n_value && money_range sum) Error.thrown >> value_out_from sum vout

-- CTransaction::GetValueOut
unfoldable pub get_value_out : Transaction → Result ℤ
unfolding value_out_from
get_value_out t = value_out_from (pos 0) t.vout

-- The loop of CompressAmount: the number without its trailing zeros, of which it drops at most
-- `left`, and how many these are.
unfoldable pub strip_zeros : ℕ → ℕ → ℕ × ℕ
strip_zeros zero n = (n, 0)
strip_zeros (suc left) n =
    let rest = strip_zeros left (n / 10) in if n % 10 == 0 then (rest.0, suc rest.1) else (n, 0)

-- What CompressAmount returns for a number without its trailing zeros, and how many these are.
unfoldable pub encode_stripped : ℕ → ℕ → Result ℕ
encode_stripped n e =
    if ltb e 9
    then guard (leb 1 (n % 10) && leb (n % 10) 9) Error.assertion
      >> ok ((1 + (n / 10 * 9 + n % 10 - 1) * 10 + e) % 2 ^ 64)
    else ok ((1 + (n - 1) * 10 + 9) % 2 ^ 64)

-- CTxOutCompressor::CompressAmount
unfoldable pub compress_amount : ℕ → Result ℕ
unfolding strip_zeros encode_stripped
compress_amount n = if n == 0 then ok 0 else encode_stripped (strip_zeros 9 n).0 (strip_zeros 9 n).1

-- The loop of DecompressAmount.
unfoldable pub times_ten : ℕ → ℕ → ℕ
times_ten zero n = n
times_ten (suc e) n = times_ten e (n * 10 % 2 ^ 64)

-- DecompressAmount from the exponent `e` and what is left behind it.
unfoldable pub decode_parts : ℕ → ℕ → ℕ
unfolding times_ten
decode_parts e x = times_ten e (if ltb e 9 then (x / 9 * 10 + (x % 9 + 1)) % 2 ^ 64 else x + 1)

-- CTxOutCompressor::DecompressAmount
unfoldable pub decompress_amount : ℕ → ℕ
unfolding decode_parts
decompress_amount zero = 0
decompress_amount (suc x) = decode_parts (x % 10) (x / 10)
