-- ===== src/Prelude/Sorted.antt =====
-- std::sort and std::unique on byte vectors, and what `sorted` and `distinct` come to.
use dsvalue.Prelude.Tests.{◌==◌, leb, if◌then◌else◌}
use dsvalue.Prelude.Lists.{count_if, length, contains, All, list_eq, list_eq→≡, list_eq_refl}
use Prim.Native.Nat.{◌+◌, ℕ, suc, ◌≤◌, ◌<◌}
use mathlib.Core.Path.{◌≡◌, refl}
use mathlib.Core.Logic.{◌↔◌}
use mathlib.Core.Bool.{Bool, true, false}
use mathlib.Core.List.{List, [], ◌∷◌}
use native.Mathlib.Omega.{arith}

abbrev pub insert_sorted : ℕ → List ℕ → List ℕ
insert_sorted a [] = a ∷ []
insert_sorted a (x ∷ xs) = if leb a x then a ∷ x ∷ xs else x ∷ insert_sorted a xs

-- std::sort
unfoldable pub sort : List ℕ → List ℕ
sort [] = []
sort (x ∷ xs) = insert_sorted x (sort xs)

-- std::unique: of each run of equal neighbours the first is kept.
abbrev pub unique_from : ℕ → List ℕ → List ℕ
unique_from x [] = []
unique_from x (y ∷ ys) = let rest = unique_from y ys in if x == y then rest else y ∷ rest

unfoldable pub unique : List ℕ → List ℕ
unique [] = []
unique (x ∷ xs) = x ∷ unique_from x xs

-- unique(v.begin(), v.end()) == v.end()
unfoldable pub is_unique : List ℕ → Bool
unfolding unique
is_unique v = length (unique v) == length v

-- Each entry is at least `a`, and at least the one before it.
abbrev pub Climbs : ℕ → List ℕ → Type 0
Climbs a [] = Unit
Climbs a (x ∷ xs) = (a ≤ x) × Climbs x xs

abbrev pub IsSorted : List ℕ → Type 0
IsSorted [] = Unit
IsSorted (x ∷ xs) = Climbs x xs

-- Each entry is above `a`, and above the one before it.
abbrev pub Rises : ℕ → List ℕ → Type 0
Rises a [] = Unit
Rises a (x ∷ xs) = (a < x) × Rises x xs

abbrev pub Ascending : List ℕ → Type 0
Ascending [] = Unit
Ascending (x ∷ xs) = Rises x xs

insert-Climbs : (l a : ℕ) (xs : List ℕ) → l ≤ a → Climbs l xs → Climbs l (insert_sorted a xs)
insert-Climbs l a [] h c = (h, tt)
insert-Climbs l a (x ∷ xs) h c = ground (arith, insert-Climbs x a xs)

pub Climbs-head : (a : ℕ) (xs : List ℕ) → Climbs a xs → IsSorted xs
Climbs-head a [] c = tt
Climbs-head a (x ∷ xs) c = c.1

insert-IsSorted : (a : ℕ) (xs : List ℕ) → IsSorted xs → IsSorted (insert_sorted a xs)
insert-IsSorted a [] c = tt
insert-IsSorted a (x ∷ xs) c = ground (arith, insert-Climbs x a xs)

pub sort-IsSorted : (xs : List ℕ) → IsSorted (sort xs)
unfolding sort
sort-IsSorted [] = tt
sort-IsSorted (x ∷ xs) = insert-IsSorted x (sort xs) (sort-IsSorted xs)

insert_least : (a : ℕ) (xs : List ℕ) → Climbs a xs → insert_sorted a xs ≡ a ∷ xs
insert_least a [] c = refl
insert_least a (x ∷ xs) c = ground arith

pub sort_sorted : (xs : List ℕ) → IsSorted xs → sort xs ≡ xs
unfolding sort
sort_sorted [] c = refl
sort_sorted (x ∷ xs) c = ground (arith, sort_sorted xs, Climbs-head x xs c, insert_least x xs c)

-- A vector equals its sorted copy exactly if it is sorted.
pub sort_test : (xs : List ℕ) → (list_eq xs (sort xs) ≡ true) ↔ IsSorted xs
sort_test xs = (
  λ h. rw (list_eq→≡ xs (sort xs) h) (sort-IsSorted xs),
  λ c. rw (sort_sorted xs c) (list_eq_refl xs),
)

length-unique_from-le : (x : ℕ) (xs : List ℕ) → length (unique_from x xs) ≤ length xs
length-unique_from-le x [] = omega arith
length-unique_from-le x (y ∷ ys) = ground (arith, length-unique_from-le y ys)

unique_from-Rises :
    (x : ℕ) (xs : List ℕ) → Climbs x xs → length (unique_from x xs) ≡ length xs → Rises x xs
unique_from-Rises x [] c h = tt
unique_from-Rises x (y ∷ ys) c h =
    ground (arith, length-unique_from-le y ys, unique_from-Rises y ys)

Rises-unique_from : (x : ℕ) (xs : List ℕ) → Rises x xs → unique_from x xs ≡ xs
Rises-unique_from x [] c = refl
Rises-unique_from x (y ∷ ys) c = ground (arith, Rises-unique_from y ys)

Rises-Climbs : (x : ℕ) (xs : List ℕ) → Rises x xs → Climbs x xs
Rises-Climbs x [] r = tt
Rises-Climbs x (y ∷ ys) r = (omega arith, Rises-Climbs y ys r.1)

pub Ascending-IsSorted : (xs : List ℕ) → Ascending xs → IsSorted xs
Ascending-IsSorted [] r = tt
Ascending-IsSorted (x ∷ xs) r = Rises-Climbs x xs r

-- Of a sorted vector std::unique keeps all exactly if it rises strictly.
pub unique_test : (xs : List ℕ) → IsSorted xs → (is_unique xs ≡ true) ↔ Ascending xs
unfolding is_unique
unique_test [] c = (λ h. tt, λ r. refl)
unique_test (x ∷ xs) c = (
  λ h. unique_from-Rises x xs c (ground arith),
  λ r. rw (Rises-unique_from x xs r) (ground arith),
)

pub Rises-not_contains : (x a : ℕ) (xs : List ℕ) → Rises x xs → a ≤ x → contains xs a ≡ false
Rises-not_contains x a [] r h = refl
Rises-not_contains x a (y ∷ ys) r h = ground (arith, Rises-not_contains y a ys)

-- No value occurs twice.
abbrev pub Distinct : List ℕ → Type 0
Distinct [] = Unit
Distinct (x ∷ xs) = (contains xs x ≡ false) × Distinct xs

Rises-Distinct : (x : ℕ) (xs : List ℕ) → Rises x xs → Distinct xs
Rises-Distinct x [] r = tt
Rises-Distinct x (y ∷ ys) r = (Rises-not_contains y y ys r.1 (omega arith), Rises-Distinct y ys r.1)

pub Ascending-Distinct : (xs : List ℕ) → Ascending xs → Distinct xs
Ascending-Distinct [] r = tt
Ascending-Distinct (x ∷ xs) r = (Rises-not_contains x x xs r (omega arith), Rises-Distinct x xs r)

contains-insert_sorted :
    (a b : ℕ) (xs : List ℕ) → contains (insert_sorted a xs) b ≡ contains (a ∷ xs) b
contains-insert_sorted a b [] = refl
contains-insert_sorted a b (x ∷ xs) = ground (arith, contains-insert_sorted a b xs)

pub contains-sort : (xs : List ℕ) (b : ℕ) → contains (sort xs) b ≡ contains xs b
unfolding sort
contains-sort [] b = refl
contains-sort (x ∷ xs) b = ground (arith, contains-insert_sorted x b (sort xs), contains-sort xs b)

insert-Rises :
    (l a : ℕ) (xs : List ℕ)
    → l < a
    → Rises l xs
    → contains xs a ≡ false
    → Rises l (insert_sorted a xs)
insert-Rises l a [] h r n = (h, tt)
insert-Rises l a (x ∷ xs) h r n = ground (arith, insert-Rises x a xs)

insert-Ascending :
    (a : ℕ) (xs : List ℕ) → Ascending xs → contains xs a ≡ false → Ascending (insert_sorted a xs)
insert-Ascending a [] r n = tt
insert-Ascending a (x ∷ xs) r n = ground (arith, insert-Rises x a xs)

-- Sorting distinct values gives a strictly rising vector.
pub sort-Ascending : (xs : List ℕ) → Distinct xs → Ascending (sort xs)
unfolding sort
sort-Ascending [] d = tt
sort-Ascending (x ∷ xs) d =
    insert-Ascending x (sort xs) (sort-Ascending xs d.1) (rw (contains-sort xs x) d.0)

length-insert_sorted : (a : ℕ) (xs : List ℕ) → length (insert_sorted a xs) ≡ suc (length xs)
length-insert_sorted a [] = refl
length-insert_sorted a (x ∷ xs) = ground (arith, length-insert_sorted a xs)

pub length-sort : (xs : List ℕ) → length (sort xs) ≡ length xs
unfolding sort
length-sort [] = refl
length-sort (x ∷ xs) = omega (arith, length-insert_sorted x (sort xs), length-sort xs)

insert-All {ℓ} :
    (P : ℕ → Type ℓ) (a : ℕ) (xs : List ℕ) → P a → All P xs → All P (insert_sorted a xs)
insert-All P a [] h k = (h, tt)
insert-All P a (x ∷ xs) h k =
    elim (leb a x) as (λ b. All P (if b then a ∷ x ∷ xs else x ∷ insert_sorted a xs)) [
      | true ↦ (h, k)
      | false ↦ (k.0, insert-All P a xs h k.1)
    ]

pub sort-All {ℓ} : (P : ℕ → Type ℓ) (xs : List ℕ) → All P xs → All P (sort xs)
unfolding sort
sort-All P [] k = tt
sort-All P (x ∷ xs) k = insert-All P x (sort xs) k.0 (sort-All P xs k.1)

equals_once : (l : ℕ) (v : List ℕ) → Distinct v → count_if (λ x. l == x) v ≤ 1
equals_once l [] d = omega arith
equals_once l (x ∷ xs) d = ground (arith, equals_once l xs d.1, absent l xs)
  where
    absent : (l : ℕ) (v : List ℕ) → contains v l ≡ false → count_if (λ x. l == x) v ≡ 0
    absent l [] h = refl
    absent l (y ∷ ys) h = ground (arith, absent l ys)

count_if-cons :
    (l : ℕ) (ls v : List ℕ)
    → count_if (contains (l ∷ ls)) v ≤ count_if (λ x. l == x) v + count_if (contains ls) v
count_if-cons l ls [] = omega arith
count_if-cons l ls (x ∷ xs) = ground (arith, count_if-cons l ls xs)

-- Of distinct numbers at most as many are lucky as there are lucky numbers.
pub hits-le : (lucky v : List ℕ) → Distinct v → count_if (contains lucky) v ≤ length lucky
hits-le [] [] d = omega arith
hits-le [] (x ∷ xs) d = omega (arith, hits-le [] xs d.1)
hits-le (l ∷ ls) v d = omega (arith, count_if-cons l ls v, equals_once l v d, hits-le ls v d)
