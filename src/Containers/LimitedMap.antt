-- ===== src/Containers/LimitedMap.antt =====
-- A map that keeps the entries of the highest values: limitedmap (src/limitedmap.h), from numbers to
-- numbers. An iterator of the map is the key that it stands at, and `rmap` is a list of pairs of a
-- value and a key, in the order of the values.
pub mod Keys
pub mod Entries
pub mod Size
use dsvalue.Prelude.{
  ℕ, zero, suc, Bool, true, false, not, ◌&&◌, List, [], ◌∷◌, Option, none, some, Result, ok, err,
  Error, ◌>>=◌, if◌then◌else◌, ltb, ◌==◌, length,
}
use dsvalue.Prelude.Map.{Map, lookup, has_key}
use dsvalue.Prelude.Map as StdMap

pub record LimitedMap : Type 0 where
  pub map : Map ℕ
  pub rmap : List (ℕ × ℕ)
  pub n_max_size : ℕ

-- map.erase(k)
unfoldable pub erase_key : ℕ → Map ℕ → Map ℕ
erase_key k [] = []
erase_key k ((j, v) ∷ m) = let rest = erase_key k m in if j == k then rest else (j, v) ∷ rest

-- rmap.insert(make_pair(v, k)): behind the pairs of equal values.
unfoldable pub add_pair : ℕ → ℕ → List (ℕ × ℕ) → List (ℕ × ℕ)
add_pair v k [] = (v, k) ∷ []
add_pair v k ((w, j) ∷ r) =
    let rest = add_pair v k r in if ltb v w then (v, k) ∷ (w, j) ∷ r else (w, j) ∷ rest

-- map.erase(rmap.begin()->second); rmap.erase(rmap.begin());
unfoldable pub drop_lowest : LimitedMap → Result LimitedMap
unfolding erase_key
drop_lowest s = elim s.rmap [
  | [] ↦ err Error.undefined
  | (v, k) ∷ rest ↦ ok (record s { map = erase_key k s.map; rmap = rest })
]

-- limitedmap::insert: the map has the new entry already when its size is compared.
unfoldable pub insert : LimitedMap → ℕ → ℕ → Result LimitedMap
unfolding add_pair drop_lowest
insert s k v =
    if has_key k s.map
    then ok s
    else (let added = record s { map = StdMap.insert k v s.map } in
        (if not (s.n_max_size == 0) && length added.map == s.n_max_size
          then drop_lowest added
          else ok added)
        >>= λ kept. ok (record kept { rmap = add_pair v k kept.rmap }))

-- The search through rmap.equal_range(itTarget->second) for the pair of the key, which is taken out.
unfoldable pub take_pair : ℕ → ℕ → List (ℕ × ℕ) → Option (List (ℕ × ℕ))
take_pair v k [] = none
take_pair v k ((w, j) ∷ r) =
    let rest = take_pair v k r in
    if w == v && j == k then some r else elim rest [ none ↦ none | some r' ↦ some ((w, j) ∷ r') ]

-- limitedmap::erase
unfoldable pub erase : LimitedMap → ℕ → Result LimitedMap
unfolding erase_key take_pair
erase s k = elim (lookup k s.map) [
  | none ↦ ok s
  | some v ↦ (elim (take_pair v k s.rmap) [
    | none ↦ err Error.assertion
    | some rest ↦ ok (record s { map = erase_key k s.map; rmap = rest })
  ])
]

-- limitedmap::update
unfoldable pub update : LimitedMap → ℕ → ℕ → Result LimitedMap
unfolding take_pair add_pair
update s k v = elim (lookup k s.map) [
  | none ↦ ok s
  | some old ↦ (elim (take_pair old k s.rmap) [
    | none ↦ err Error.assertion
    | some rest ↦ ok (record s { map = StdMap.insert k v s.map; rmap = add_pair v k rest })
  ])
]

-- The loop of max_size, with fuel for its rounds.
unfoldable pub shrink : ℕ → ℕ → LimitedMap → Result LimitedMap
unfolding drop_lowest
shrink zero n s = ok s
shrink (suc fuel) n s =
    if ltb n (length s.map) then (drop_lowest s >>= λ dropped. shrink fuel n dropped) else ok s

-- limitedmap::max_size(size_type)
unfoldable pub max_size : LimitedMap → ℕ → Result LimitedMap
unfolding shrink
max_size s n = (if n == 0 then ok s else shrink (length s.map) n s) >>= λ shrunk.
    ok (record shrunk { n_max_size = n })
