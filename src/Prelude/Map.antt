-- ===== src/Prelude/Map.antt =====
-- std::map over number keys: an association list whose keys rise, in the order of iteration.
use Prim.Native.Nat.{ℕ, ◌<◌}
use mathlib.Core.Path.{◌≡◌, refl}
use mathlib.Core.Bool.{Bool, true, false}
use mathlib.Core.Option.{Option, none, some}
use mathlib.Core.List.{List, [], ◌∷◌}
use native.Mathlib.Omega.{arith}
use mathlib.Core.Logic.{inl, inr, ◌⊎◌, ◌≢◌}
use dsvalue.Prelude.Tests.{◌==◌, ltb, if◌then◌else◌, Bool-cases, Option-cases, ==_iff}
use dsvalue.Prelude.Lists.{All}
use dsvalue.Prelude.Sorted.{Ascending, Rises}

abbrev pub Map {ℓ} : Type ℓ → Type ℓ
Map V = List (ℕ × V)

module _ {ℓ} {V : Type ℓ} where
  -- m.find(k)
  abbrev pub lookup : ℕ → Map V → Option V
  lookup k [] = none
  lookup k ((j, v) ∷ m) = if j == k then some v else lookup k m

  -- m[k] = v
  abbrev pub insert : ℕ → V → Map V → Map V
  insert k v [] = (k, v) ∷ []
  insert k v ((j, w) ∷ m) =
      let rest = insert k v m in
      if j == k then (k, v) ∷ m else if ltb k j then (k, v) ∷ (j, w) ∷ m else (j, w) ∷ rest

  -- m.insert(make_pair(k, v)) keeps the value of a key that is there.
  abbrev pub insert_new : ℕ → V → Map V → Map V
  insert_new k v m = elim (lookup k m) [ none ↦ insert k v m | some _ ↦ m ]

  -- m.count(k) > 0
  abbrev pub has_key : ℕ → Map V → Bool
  has_key k m = elim (lookup k m) [ none ↦ false | some _ ↦ true ]

  -- The value that m[k] reads, where a missing key gets the default value `d`.
  abbrev pub get_or : ℕ → Map V → V → V
  get_or k m d = elim (lookup k m) [ none ↦ d | some v ↦ v ]

  -- m.erase(k)
  abbrev pub erase : ℕ → Map V → Map V
  erase k [] = []
  erase k ((j, v) ∷ m) = let rest = erase k m in if j == k then rest else (j, v) ∷ rest

  abbrev pub keys : Map V → List ℕ
  keys [] = []
  keys ((k, v) ∷ m) = k ∷ keys m

  pub lookup-insert :
      (j k : ℕ) (v : V) (m : Map V)
      → lookup j (insert k v m) ≡ (if k == j then some v else lookup j m)
  lookup-insert j k v [] = refl
  lookup-insert j k v ((i, w) ∷ m) = ground (arith, lookup-insert j k v m)

  pub lookup-erase :
      (j k : ℕ) (m : Map V) → lookup j (erase k m) ≡ (if k == j then none else lookup j m)
  lookup-erase j k [] = ground arith
  lookup-erase j k ((i, w) ∷ m) = ground (arith, lookup-erase j k m)

  -- Where a value is found behind a write or an erasure.
  pub lookup-insert_cases :
      (j k : ℕ) (v : V) (m : Map V) {w : V}
      → lookup j (insert k v m) ≡ some w
      → ((k ≡ j) × (v ≡ w)) ⊎ ((k ≢ j) × (lookup j m ≡ some w))
  lookup-insert_cases j k v m {w} h = elim (Bool-cases (k == j)) [
    | inl e ↦ inl ((==_iff k j).0 e, ground (arith, lookup-insert j k v m))
    | inr e ↦ inr (λ p. absurd (ground arith), ground (arith, lookup-insert j k v m))
  ]

  -- A write to a new key keeps what is found, and so does an erasure of another key.
  pub lookup-insert_kept :
      (j k : ℕ) (v : V) (m : Map V) {w : V}
      → lookup k m ≡ none
      → lookup j m ≡ some w
      → lookup j (insert k v m) ≡ some w
  lookup-insert_kept j k v m {w} new h = elim (Bool-cases (k == j)) [
    | inl e ↦
        let same = (==_iff k j).0 e in
        let clash : lookup j m ≡ none = rw (← same) new in absurd (cc)
    | inr e ↦ ground (arith, lookup-insert j k v m)
  ]

  pub lookup-erase_kept :
      (j k : ℕ) (m : Map V) {w : V} → k ≢ j → lookup j m ≡ some w → lookup j (erase k m) ≡ some w
  lookup-erase_kept j k m {w} other h = ground (arith, lookup-erase j k m)

  pub lookup-erase_self : (k : ℕ) (m : Map V) → lookup k (erase k m) ≡ none
  lookup-erase_self k m = ground (arith, lookup-erase k k m)

  pub lookup-erase_cases :
      (j k : ℕ) (m : Map V) {w : V}
      → lookup j (erase k m) ≡ some w
      → (k ≢ j) × (lookup j m ≡ some w)
  lookup-erase_cases j k m {w} h = elim (Bool-cases (k == j)) [
    | inl e ↦ absurd (ground (arith, lookup-erase j k m))
    | inr e ↦ (λ p. absurd (ground arith), ground (arith, lookup-erase j k m))
  ]

  Rises-insert :
      (b k : ℕ) (v : V) (m : Map V) → b < k → Rises b (keys m) → Rises b (keys (insert k v m))
  Rises-insert b k v [] h r = (h, tt)
  Rises-insert b k v ((i, w) ∷ m) h r = ground (arith, Rises-insert i k v m)

  pub insert-Ascending :
      (k : ℕ) (v : V) (m : Map V) → Ascending (keys m) → Ascending (keys (insert k v m))
  insert-Ascending k v [] r = tt
  insert-Ascending k v ((i, w) ∷ m) r = ground (arith, Rises-insert i k v m)

  -- A condition on every value of a map.
  abbrev pub AllValues {κ} : (V → Type κ) → Map V → Type κ
  AllValues P m = All (λ entry. P entry.1) m

  pub AllValues-insert {κ} :
      (P : V → Type κ) (k : ℕ) (v : V) (m : Map V)
      → P v
      → AllValues P m
      → AllValues P (insert k v m)
  AllValues-insert P k v [] p h = (p, tt)
  AllValues-insert P k v ((j, w) ∷ m) p h = elim (Bool-cases (j == k)) [
    | inl e ↦ rw e (p, h.1)
    | inr e ↦ rw e (elim (Bool-cases (ltb k j)) [
      | inl l ↦ rw l (p, h)
      | inr l ↦ rw l (h.0, AllValues-insert P k v m p h.1)
    ])
  ]

  pub AllValues-lookup {κ} :
      (P : V → Type κ) (k : ℕ) (m : Map V) {v : V} → AllValues P m → lookup k m ≡ some v → P v
  AllValues-lookup P k [] h e = cc
  AllValues-lookup P k ((j, w) ∷ m) {v} h e = elim (Bool-cases (j == k)) [
    | inl l ↦ let same : w ≡ v = ground arith in rw (← same) h.0
    | inr l ↦ AllValues-lookup P k m h.1 (ground arith)
  ]

  pub AllValues-get_or {κ} :
      (P : V → Type κ) (k : ℕ) (m : Map V) (d : V) → P d → AllValues P m → P (get_or k m d)
  AllValues-get_or P k m d p h = elim (Option-cases (lookup k m)) [
    | inl e ↦ rw (e, get_or) p
    | inr (v, e) ↦ rw (e, get_or) (AllValues-lookup P k m h e)
  ]

  pub AllValues-insert_new {κ} :
      (P : V → Type κ) (k : ℕ) (v : V) (m : Map V)
      → P v
      → AllValues P m
      → AllValues P (insert_new k v m)
  AllValues-insert_new P k v m p h = elim (Option-cases (lookup k m)) [
    | inl e ↦ rw (e, insert_new) (AllValues-insert P k v m p h)
    | inr (w, e) ↦ rw (e, insert_new) h
  ]
