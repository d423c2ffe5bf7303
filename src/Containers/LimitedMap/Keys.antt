-- ===== src/Containers/LimitedMap/Keys.antt =====
-- The keys of the two maps of a limitedmap.
use dsvalue.Prelude.{
  ℕ, suc, ◌≤◌, ◌≡◌, inl, inr, refl, Bool, true, false, not, ◌&&◌, ◌||◌, List, [], ◌∷◌, ◌==◌, length,
  some, arith, Bool-cases,
}
use dsvalue.Prelude.Map.{Map, lookup, has_key, keys, lookup-insert, insert-Ascending}
use dsvalue.Prelude.Map as StdMap
use dsvalue.Prelude.Sorted.{Ascending, Rises, IsSorted}
use dsvalue.Containers.LimitedMap.{LimitedMap, erase_key, add_pair}

-- Whether a key has a pair.
abbrev pub paired : List (ℕ × ℕ) → ℕ → Bool
paired [] k = false
paired ((w, j) ∷ r) k = j == k || paired r k

abbrev pub Unrepeated : List (ℕ × ℕ) → Type 0
Unrepeated [] = Unit
Unrepeated ((w, j) ∷ r) = (paired r j ≡ false) × Unrepeated r

-- Each pair has the value that its key has in the map.
abbrev pub Carries : Map ℕ → List (ℕ × ℕ) → Type 0
Carries m [] = Unit
Carries m ((w, j) ∷ r) = (lookup j m ≡ some w) × Carries m r

abbrev pub values : List (ℕ × ℕ) → List ℕ
values [] = []
values ((w, j) ∷ r) = w ∷ values r

-- The keys of the map are in order, and the pairs have the same keys, each of them once and with its
-- value in the map, in the order of the values.
pub record Agrees (s : LimitedMap) : Type 0 where
  pub ordered : Ascending (keys s.map)
  pub same : (k : ℕ) → has_key k s.map ≡ paired s.rmap k
  pub unrepeated : Unrepeated s.rmap
  pub carried : Carries s.map s.rmap
  pub sorted : IsSorted (values s.rmap)

pub has_key-insert :
    (j k v : ℕ) (m : Map ℕ) → has_key j (StdMap.insert k v m) ≡ (k == j || has_key j m)
has_key-insert j k v m = elim (Bool-cases (k == j)) [
  | inl e ↦ ground (arith, lookup-insert j k v m)
  | inr e ↦ ground (arith, lookup-insert j k v m)
]

has_key-cons : (j i w : ℕ) (m : Map ℕ) → has_key j ((i, w) ∷ m) ≡ (i == j || has_key j m)
has_key-cons j i w m = ground arith

pub has_key-erase_key :
    (j k : ℕ) (m : Map ℕ) → has_key j (erase_key k m) ≡ (not (k == j) && has_key j m)
unfolding erase_key
has_key-erase_key j k [] = ground arith
has_key-erase_key j k ((i, w) ∷ m) = elim (Bool-cases (i == k)) [
  | inl e ↦ elim (Bool-cases (k == j)) [
    | inl f ↦ ground (arith, has_key-erase_key j k m)
    | inr f ↦ ground (arith, has_key-erase_key j k m)
  ]
  | inr e ↦ elim (Bool-cases (i == j)) [
    | inl f ↦ ground (arith, has_key-erase_key j k m)
    | inr f ↦ ground (arith, has_key-erase_key j k m)
  ]
]

pub paired-add_pair :
    (v k j : ℕ) (r : List (ℕ × ℕ)) → paired (add_pair v k r) j ≡ (k == j || paired r j)
unfolding add_pair
paired-add_pair v k j [] = refl
paired-add_pair v k j ((w, i) ∷ r) = ground (arith, paired-add_pair v k j r)

pub Unrepeated-add_pair :
    (v k : ℕ) (r : List (ℕ × ℕ)) → Unrepeated r → paired r k ≡ false → Unrepeated (add_pair v k r)
unfolding add_pair
Unrepeated-add_pair v k [] u h = (refl, tt)
Unrepeated-add_pair v k ((w, i) ∷ r) u h =
    ground (arith, paired-add_pair v k i r, Unrepeated-add_pair v k r)

pub length-insert :
    (k v : ℕ) (m : Map ℕ) → has_key k m ≡ false → length (StdMap.insert k v m) ≡ suc (length m)
length-insert k v [] h = refl
length-insert k v ((i, w) ∷ m) h = ground (arith, length-insert k v m)

missing-erase_key : (b k : ℕ) (m : Map ℕ) → Rises b (keys m) → k ≤ b → erase_key k m ≡ m
unfolding erase_key
missing-erase_key b k [] r h = refl
missing-erase_key b k ((i, w) ∷ m) r h = ground (arith, missing-erase_key i k m)

length-erase_key :
    (b k : ℕ) (m : Map ℕ)
    → Rises b (keys m)
    → has_key k m ≡ true
    → suc (length (erase_key k m)) ≡ length m
unfolding erase_key
length-erase_key b k [] r h = cc
length-erase_key b k ((i, w) ∷ m) r h =
    ground (arith, missing-erase_key i k m, length-erase_key i k m)

Rises-weaken : (b i : ℕ) (xs : List ℕ) → b ≤ i → Rises i xs → Rises b xs
Rises-weaken b i [] h r = tt
Rises-weaken b i (x ∷ xs) h r = (omega (arith, r.0), r.1)

Rises-erase_key : (b k : ℕ) (m : Map ℕ) → Rises b (keys m) → Rises b (keys (erase_key k m))
unfolding erase_key
Rises-erase_key b k [] r = tt
Rises-erase_key b k ((i, w) ∷ m) r = elim (Bool-cases (i == k)) [
  | inl e ↦ rw e (Rises-weaken b i _ (omega (arith, r.0)) (Rises-erase_key i k m r.1))
  | inr e ↦ rw e (r.0, Rises-erase_key i k m r.1)
]

Rises-Ascending : (b : ℕ) (xs : List ℕ) → Rises b xs → Ascending xs
Rises-Ascending b [] r = tt
Rises-Ascending b (x ∷ xs) r = r.1

pub Ascending-erase_key :
    (k : ℕ) (m : Map ℕ) → Ascending (keys m) → Ascending (keys (erase_key k m))
unfolding erase_key
Ascending-erase_key k [] a = tt
Ascending-erase_key k ((i, w) ∷ m) a = elim (Bool-cases (i == k)) [
  | inl e ↦ rw e (Rises-Ascending i _ (Rises-erase_key i k m a))
  | inr e ↦ rw e (Rises-erase_key i k m a)
]

pub length-erase :
    (k : ℕ) (m : Map ℕ)
    → Ascending (keys m)
    → has_key k m ≡ true
    → suc (length (erase_key k m)) ≡ length m
unfolding erase_key
length-erase k [] a h = cc
length-erase k ((i, w) ∷ m) a h = ground (arith, missing-erase_key i k m, length-erase_key i k m)
