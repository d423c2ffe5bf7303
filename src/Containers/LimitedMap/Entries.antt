-- ===== src/Containers/LimitedMap/Entries.antt =====
-- The values of the two maps of a limitedmap.
use dsvalue.Prelude.{
  ℕ, ◌≤◌, ◌≡◌, inl, inr, true, false, List, [], ◌∷◌, none, some, ◌==◌, if◌then◌else◌, ltb, arith,
  Bool-cases, ==_iff,
}
use dsvalue.Prelude.Map.{Map, lookup, has_key, get_or, lookup-insert}
use dsvalue.Prelude.Map as StdMap
use dsvalue.Prelude.Sorted.{Climbs, IsSorted}
use dsvalue.Containers.LimitedMap.{erase_key, add_pair}
use dsvalue.Containers.LimitedMap.Keys.{paired, Carries, values}

pub lookup-erase_key :
    (j k : ℕ) (m : Map ℕ) → lookup j (erase_key k m) ≡ (if k == j then none else lookup j m)
unfolding erase_key
lookup-erase_key j k [] = ground arith
lookup-erase_key j k ((i, w) ∷ m) = ground (arith, lookup-erase_key j k m)

pub Carries-insert :
    (k v : ℕ) (m : Map ℕ) (r : List (ℕ × ℕ))
    → paired r k ≡ false
    → Carries m r
    → Carries (StdMap.insert k v m) r
Carries-insert k v m [] h c = tt
Carries-insert k v m ((w, j) ∷ r) h c =
    (ground (arith, lookup-insert j k v m, c.0), Carries-insert k v m r (ground arith) c.1)

pub Carries-erase_key :
    (k : ℕ) (m : Map ℕ) (r : List (ℕ × ℕ))
    → paired r k ≡ false
    → Carries m r
    → Carries (erase_key k m) r
Carries-erase_key k m [] h c = tt
Carries-erase_key k m ((w, j) ∷ r) h c =
    (ground (arith, lookup-erase_key j k m, c.0), Carries-erase_key k m r (ground arith) c.1)

pub Carries-add_pair :
    (k v : ℕ) (m : Map ℕ) (r : List (ℕ × ℕ))
    → lookup k m ≡ some v
    → Carries m r
    → Carries m (add_pair v k r)
unfolding add_pair
Carries-add_pair k v m [] h c = (h, tt)
Carries-add_pair k v m ((w, j) ∷ r) h c = elim (Bool-cases (ltb v w)) [
  | inl e ↦ rw e (h, c)
  | inr e ↦ rw e (c.0, Carries-add_pair k v m r h c.1)
]

Climbs-add_pair :
    (a k v : ℕ) (r : List (ℕ × ℕ))
    → a ≤ v
    → Climbs a (values r)
    → Climbs a (values (add_pair v k r))
unfolding add_pair
Climbs-add_pair a k v [] h c = (h, tt)
Climbs-add_pair a k v ((w, j) ∷ r) h c = elim (Bool-cases (ltb v w)) [
  | inl e ↦ rw e (h, (ground arith, c.1))
  | inr e ↦ rw e (c.0, Climbs-add_pair w k v r (ground arith) c.1)
]

pub IsSorted-add_pair :
    (k v : ℕ) (r : List (ℕ × ℕ)) → IsSorted (values r) → IsSorted (values (add_pair v k r))
unfolding add_pair
IsSorted-add_pair k v [] c = tt
IsSorted-add_pair k v ((w, j) ∷ r) c = elim (Bool-cases (ltb v w)) [
  | inl e ↦ rw e (ground arith, c)
  | inr e ↦ rw e (Climbs-add_pair w k v r (ground arith) c)
]

-- The value of a key that has a pair is at least what the pairs climb from.
pub lowest-paired :
    (a j : ℕ) (m : Map ℕ) (r : List (ℕ × ℕ))
    → Carries m r
    → Climbs a (values r)
    → paired r j ≡ true
    → a ≤ get_or j m a
lowest-paired a j m [] c l h = cc
lowest-paired a j m ((w, i) ∷ r) c l h = elim (Bool-cases (i == j)) [
  | inl e ↦ let found : lookup j m ≡ some w = rw (← (==_iff i j).0 e) c.0 in ground (arith, found)
  | inr e ↦ let later = lowest-paired w j m r c.1 l.1 (ground arith) in ground (arith, later)
]
