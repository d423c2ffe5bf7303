-- ===== src/Lotto/Header/Heights.antt =====
-- The first and the last height of a CLottoHeader.
use dsvalue.Prelude.{
  ℕ, ◌≤◌, ◌<◌, ◌≡◌, ◌⊎◌, refl, [], ◌∷◌, none, some, ◌==◌, arith, Bool-cases, inl, inr,
}
use dsvalue.Prelude.Map.{Map, lookup, keys}
use dsvalue.Prelude.Sorted.{Ascending, Rises}
use dsvalue.Lotto.Header.{
  LottoHeader, last_entry, first_entry, height_of, hash_of, get_last_bitcoin_hash,
  get_last_bitcoin_height, get_first_bitcoin_hash, get_first_bitcoin_height,
}

-- A map that rises from `b` is empty, or its last entry is found and has the greatest key.
last_entry-greatest :
    (b : ℕ) (m : Map ℕ)
    → Rises b (keys m)
    → ((last_entry m ≡ none) × ((k : ℕ) → lookup k m ≡ none))
      ⊎ ((e : ℕ × ℕ) × (last_entry m ≡ some e)
          × (b < e.0)
          × (lookup e.0 m ≡ some e.1)
          × ((k v : ℕ) → lookup k m ≡ some v → k ≤ e.0))
last_entry-greatest b [] r = inl (refl, λ k. refl)
last_entry-greatest b ((i, w) ∷ m) r = elim (last_entry-greatest i m r.1) [
  | inl (empty, missing) ↦ inr (
    (i, w),
    ground (arith, empty),
    r.0,
    ground arith,
    λ k v found. elim (Bool-cases (i == k)) [
      | inl l ↦ ground arith
      | inr l ↦ absurd (ground (arith, missing k))
    ],
  )
  | inr (e, last, above, here, greatest) ↦ inr (
    e,
    ground (arith, last),
    omega (arith, r.0, above),
    ground (arith, here, above),
    λ k v found. elim (Bool-cases (i == k)) [
      | inl l ↦ ground (arith, above)
      | inr l ↦ greatest k v (ground arith)
    ],
  )
]

Rises-lookup : (b k v : ℕ) (m : Map ℕ) → Rises b (keys m) → lookup k m ≡ some v → b < k
Rises-lookup b k v [] r found = cc
Rises-lookup b k v ((i, w) ∷ m) r found = elim (Bool-cases (i == k)) [
  | inl l ↦ ground arith
  | inr l ↦ let later = Rises-lookup i k v m r.1 (ground arith) in omega (arith, r.0, later)
]

-- In a header whose hashes stand in the order of their heights, every height with a hash is from
-- GetFirstBitcoinHeight to GetLastBitcoinHeight, and GetFirstBitcoinHash and GetLastBitcoinHash are
-- the hashes at these two heights.
pub heights-ends :
    (h : LottoHeader) (k v : ℕ)
    → Ascending (keys h.m_bitcoin_hash)
    → lookup k h.m_bitcoin_hash ≡ some v
    → (get_first_bitcoin_height h ≤ k)
      × (k ≤ get_last_bitcoin_height h)
      × (lookup (get_first_bitcoin_height h) h.m_bitcoin_hash ≡ some (get_first_bitcoin_hash h))
      × (lookup (get_last_bitcoin_height h) h.m_bitcoin_hash ≡ some (get_last_bitcoin_hash h))
unfolding get_first_bitcoin_height get_last_bitcoin_height get_first_bitcoin_hash
    get_last_bitcoin_hash
heights-ends h k v a found = by_map h.m_bitcoin_hash a found
  where
    by_map :
        (m : Map ℕ)
        → Ascending (keys m)
        → lookup k m ≡ some v
        → (height_of (first_entry m) ≤ k)
          × (k ≤ height_of (last_entry m))
          × (lookup (height_of (first_entry m)) m ≡ some (hash_of (first_entry m)))
          × (lookup (height_of (last_entry m)) m ≡ some (hash_of (last_entry m)))
    by_map [] a found = cc
    by_map ((i, w) ∷ m) a found = elim (last_entry-greatest i m a) [
      | inl (empty, missing) ↦
          let only : i ≡ k = elim (Bool-cases (i == k)) [
            | inl l ↦ ground arith
            | inr l ↦ absurd (ground (arith, missing k))
          ] in
          (omega (arith, only), ground (arith, empty, only), ground arith, ground (arith, empty))
      | inr (e, last, above, here, greatest) ↦ elim (Bool-cases (i == k)) [
        | inl l ↦ (
          ground arith,
          ground (arith, last, above),
          ground arith,
          ground (arith, last, above, here),
        )
        | inr l ↦
            let below = greatest k v (ground arith) in
            let after = Rises-lookup i k v m a (ground arith) in
            (
              ground (arith, after),
              ground (arith, last, below),
              ground arith,
              ground (arith, last, above, here),
            )
      ]
    ]
