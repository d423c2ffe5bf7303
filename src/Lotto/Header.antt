-- ===== src/Lotto/Header.antt =====
-- The lottery part of a block header: CLottoHeader (src/lotto/CLottoHeader.h, CLottoHeader.cpp). A
-- height is not negative, and a `uint256` is a number.
pub mod Heights
pub mod Assign
use dsvalue.Prelude.{ℕ, List, [], ◌∷◌, Option, none, some}
use dsvalue.Prelude.Int.{ℤ, pos}
use dsvalue.Prelude.Map.{Map, insert_new}

pub record LottoHeader : Type 0 where
  pub n_version : ℕ
  pub m_bitcoin_hash : Map ℕ
  pub ll_pool : ℤ
  pub n_lotto_id : ℕ
  pub u_lotto_key : ℕ

-- CLottoHeader::CLottoHeader()
abbrev pub new_lotto_header : LottoHeader
new_lotto_header = record {
  n_version = 1;
  m_bitcoin_hash = [];
  ll_pool = pos 0;
  n_lotto_id = 1;
  u_lotto_key = 0;
}

-- mBitcoinHash.insert(first, last): a key that is there keeps its value.
unfoldable pub insert_range : Map ℕ → Map ℕ → Map ℕ
insert_range [] m = m
insert_range ((height, hash) ∷ range) m = insert_range range (insert_new height hash m)

-- CLottoHeader::operator=, from another object.
unfoldable pub assign : LottoHeader → LottoHeader → LottoHeader
unfolding insert_range
assign this obj = record {
  n_version = obj.n_version;
  m_bitcoin_hash = insert_range obj.m_bitcoin_hash this.m_bitcoin_hash;
  ll_pool = obj.ll_pool;
  n_lotto_id = obj.n_lotto_id;
  u_lotto_key = obj.u_lotto_key;
}

-- CLottoHeader::CLottoHeader(const CLottoHeader&): the same, on an object with no hashes yet.
unfoldable pub copy : LottoHeader → LottoHeader
unfolding assign
copy obj = assign new_lotto_header obj

-- The entry at begin() and the one at rbegin().
abbrev pub first_entry : Map ℕ → Option (ℕ × ℕ)
first_entry [] = none
first_entry (e ∷ m) = some e

abbrev pub last_entry : Map ℕ → Option (ℕ × ℕ)
last_entry [] = none
last_entry (e ∷ m) = let rest = last_entry m in elim rest [ none ↦ some e | some l ↦ some l ]

abbrev height_of : Option (ℕ × ℕ) → ℕ
height_of none = 0
height_of (some e) = e.0

abbrev hash_of : Option (ℕ × ℕ) → ℕ
hash_of none = 0
hash_of (some e) = e.1

unfoldable pub get_last_bitcoin_hash : LottoHeader → ℕ
get_last_bitcoin_hash h = hash_of (last_entry h.m_bitcoin_hash)

unfoldable pub get_last_bitcoin_height : LottoHeader → ℕ
get_last_bitcoin_height h = height_of (last_entry h.m_bitcoin_hash)

unfoldable pub get_first_bitcoin_hash : LottoHeader → ℕ
get_first_bitcoin_hash h = hash_of (first_entry h.m_bitcoin_hash)

unfoldable pub get_first_bitcoin_height : LottoHeader → ℕ
get_first_bitcoin_height h = height_of (first_entry h.m_bitcoin_hash)
