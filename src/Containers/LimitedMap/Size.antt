-- ===== src/Containers/LimitedMap/Size.antt =====
-- How many entries a limitedmap keeps.
use dsvalue.Prelude.{
  ℕ, suc, ◌<◌, ◌≤◌, ◌≡◌, ◌⊎◌, some, none, if◌then◌else◌, inl, inr, refl, sym, ap, ◌∙◌, true, false,
  not, ◌&&◌, ◌||◌, List, [], ◌∷◌, ok, ◌==◌, length, arith, Bool-cases,
}
use dsvalue.Prelude.Map.{Map, lookup, has_key, keys, lookup-insert, insert-Ascending, get_or}
use dsvalue.Prelude.Map as StdMap
use dsvalue.Containers.LimitedMap.{LimitedMap, erase_key, add_pair, drop_lowest, insert}
use dsvalue.Containers.LimitedMap.Keys.{
  paired, Agrees, has_key-insert, has_key-erase_key, paired-add_pair, Unrepeated-add_pair,
  length-insert, Ascending-erase_key, length-erase, Carries, values,
}
use dsvalue.Prelude.Sorted.{Climbs-head}
use dsvalue.Containers.LimitedMap.Entries.{
  lookup-erase_key, Carries-insert, Carries-erase_key, Carries-add_pair, IsSorted-add_pair,
  lowest-paired,
}

abbrev at : Map ℕ → List (ℕ × ℕ) → ℕ → LimitedMap
at m r n = record { map = m; rmap = r; n_max_size = n }

-- A new entry, with no other entry dropped.
added :
    (m : Map ℕ) (r : List (ℕ × ℕ)) (n k v : ℕ)
    → Agrees (at m r n)
    → has_key k m ≡ false
    → Agrees (at (StdMap.insert k v m) (add_pair v k r) n)
added m r n k v c e = record {
  ordered = insert-Ascending k v m c.ordered;
  same = λ j.
      has_key-insert j k v m ∙ ap (λ b. k == j || b) (c.same j) ∙ sym (paired-add_pair v k j r);
  unrepeated = Unrepeated-add_pair v k r c.unrepeated (sym (c.same k) ∙ e);
  carried =
      Carries-add_pair k v (StdMap.insert k v m) r (ground (arith, lookup-insert k k v m))
        (Carries-insert k v m r (sym (c.same k) ∙ e) c.carried);
  sorted = IsSorted-add_pair k v r c.sorted;
}

-- A new entry, with the pair of the lowest value dropped.
exchanged :
    (m : Map ℕ) (rest : List (ℕ × ℕ)) (n k v w j : ℕ)
    → Agrees (at m ((w, j) ∷ rest) n)
    → has_key k m ≡ false
    → Agrees (at (erase_key j (StdMap.insert k v m)) (add_pair v k rest) n)
exchanged m rest n k v w j c e = record {
  ordered = Ascending-erase_key j (StdMap.insert k v m) (insert-Ascending k v m c.ordered);
  same = same_keys;
  unrepeated = Unrepeated-add_pair v k rest c.unrepeated.1 (ground (arith, c.same k));
  carried = carried_on;
  sorted = IsSorted-add_pair k v rest (Climbs-head w (values rest) c.sorted);
}
  where
    other : (j == k) ≡ false
    other = ground (arith, c.same k)

    -- What the map with the new entry and without the lowest one has.
    carried_on : Carries (erase_key j (StdMap.insert k v m)) (add_pair v k rest)
    carried_on =
        Carries-add_pair k v (erase_key j (StdMap.insert k v m)) rest
          (ground (arith, lookup-erase_key k j (StdMap.insert k v m), lookup-insert k k v m, other))
          (Carries-erase_key j (StdMap.insert k v m) rest c.unrepeated.0
            (Carries-insert k v m rest (ground (arith, c.same k)) c.carried.1))

    same_keys :
        (i : ℕ) → has_key i (erase_key j (StdMap.insert k v m)) ≡ paired (add_pair v k rest) i
    same_keys i = elim (Bool-cases (j == i)) [
      | inl l ↦
          let equal : j ≡ i = ground arith in
          let gone = has_key-erase_key i j (StdMap.insert k v m) in
          let absent = rw equal at c.unrepeated.0 in
          ground (arith, gone, absent, paired-add_pair v k i rest, other)
      | inr l ↦
          let kept = has_key-erase_key i j (StdMap.insert k v m) in
          ground (arith, kept, has_key-insert i k v m, c.same i, paired-add_pair v k i rest)
    ]

-- What is found behind the exchange.
exchanged-lookup :
    (m : Map ℕ) (rest : List (ℕ × ℕ)) (n k v w j i : ℕ)
    → Agrees (at m ((w, j) ∷ rest) n)
    → has_key k m ≡ false
    → lookup i (erase_key j (StdMap.insert k v m))
      ≡ (if k == i then some v else if j == i then none else lookup i m)
exchanged-lookup m rest n k v w j i c e =
    ground (arith, lookup-erase_key i j (StdMap.insert k v m), lookup-insert i k v m, c.same k)

insert_full :
    (m : Map ℕ) (rest : List (ℕ × ℕ)) (n k v w j : ℕ)
    → has_key k m ≡ false
    → (not (n == 0) && length (StdMap.insert k v m) == n) ≡ true
    → insert (at m ((w, j) ∷ rest) n) k v
      ≡ ok (at (erase_key j (StdMap.insert k v m)) (add_pair v k rest) n)
unfolding insert drop_lowest
insert_full m rest n k v w j e full = rw (e, full) refl

insert_room :
    (m : Map ℕ) (r : List (ℕ × ℕ)) (n k v : ℕ)
    → has_key k m ≡ false
    → (not (n == 0) && length (StdMap.insert k v m) == n) ≡ false
    → insert (at m r n) k v ≡ ok (at (StdMap.insert k v m) (add_pair v k r) n)
unfolding insert
insert_room m r n k v e room = rw (e, room) refl

no_pairs : (m : Map ℕ) → ((k : ℕ) → has_key k m ≡ false) → length m ≡ 0
no_pairs [] h = refl
no_pairs ((i, w) ∷ m) h = absurd (ground (arith, h i))

-- What an insertion of the value `v` for the key `k` does to the entries: an old key changes nothing; a new
-- key gets its value, and every other key keeps its own, where there is room; and otherwise
-- the entry of a key whose value is the lowest goes.
abbrev pub Took : LimitedMap → ℕ → ℕ → LimitedMap → Type 0
Took s k v s' =
    ((has_key k s.map ≡ true) × (s' ≡ s))
    ⊎ ((has_key k s.map ≡ false)
        × (suc (length s.map) < s.n_max_size)
        × ((i : ℕ) → lookup i s'.map ≡ (if k == i then some v else lookup i s.map)))
    ⊎ ((has_key k s.map ≡ false)
        × (suc (length s.map) ≡ s.n_max_size)
        × (low : ℕ) × (w : ℕ) × (lookup low s.map ≡ some w)
        × ((i : ℕ) → w ≤ get_or i s.map w)
        × ((i : ℕ)
            → lookup i s'.map
              ≡ (if k == i then some v else if low == i then none else lookup i s.map)))

-- The result of an insertion.
abbrev Inserted : LimitedMap → ℕ → ℕ → Type 0
Inserted s k v =
    (s' : LimitedMap) × (insert s k v ≡ ok s')
    × Agrees s'
    × Took s k v s'
    × (length s'.map < s.n_max_size)

missing-get_or : (i w : ℕ) (m : Map ℕ) → has_key i m ≡ false → get_or i m w ≡ w
missing-get_or i w m h = ground arith

-- No key has a value below that of the first pair.
lowest_first :
    (m : Map ℕ) (rest : List (ℕ × ℕ)) (n w j i : ℕ)
    → Agrees (at m ((w, j) ∷ rest) n)
    → w ≤ get_or i m w
lowest_first m rest n w j i c = elim (Bool-cases (has_key i m)) [
  | inl here ↦
      lowest-paired w i m ((w, j) ∷ rest) c.carried (omega arith, c.sorted) (sym (c.same i) ∙ here)
  | inr gone ↦ omega (arith, missing-get_or i w m gone)
]

-- A new entry in a limitedmap with fewer entries than its greatest size, which is above 1.
new_entry :
    (m : Map ℕ) (r : List (ℕ × ℕ)) (n k v : ℕ)
    → Agrees (at m r n)
    → has_key k m ≡ false
    → 1 < n
    → length m < n
    → Inserted (at m r n) k v
new_entry m r n k v c e big few =
    elim (Bool-cases (not (n == 0) && length (StdMap.insert k v m) == n)) [
      | inr room ↦ (
        at (StdMap.insert k v m) (add_pair v k r) n,
        insert_room m r n k v e room,
        added m r n k v c e,
        inr (inl (e, ground (arith, length-insert k v m e), λ i. lookup-insert i k v m)),
        ground (arith, length-insert k v m e),
      )
      | inl full ↦ by_pairs r c full
    ]
  where
    by_pairs :
        (r : List (ℕ × ℕ))
        → Agrees (at m r n)
        → (not (n == 0) && length (StdMap.insert k v m) == n) ≡ true
        → Inserted (at m r n) k v
    by_pairs [] c full = absurd (ground (arith, no_pairs m c.same, length-insert k v m e))
    by_pairs ((w, j) ∷ rest) c full =
        let there : has_key j (StdMap.insert k v m) ≡ true =
          ground (arith, has_key-insert j k v m, c.same j) in
        let one_less =
          length-erase j (StdMap.insert k v m) (insert-Ascending k v m c.ordered) there in
        (
          at (erase_key j (StdMap.insert k v m)) (add_pair v k rest) n,
          insert_full m rest n k v w j e full,
          exchanged m rest n k v w j c e,
          inr (
              inr (
                e,
                ground (arith, length-insert k v m e, full),
                j,
                w,
                c.carried.0,
                λ i. lowest_first m rest n w j i c,
                λ i. exchanged-lookup m rest n k v w j i c e,
              )),
          ground (arith, one_less, full),
        )

-- Where the greatest size of a limitedmap is above 1, it has fewer entries than that, and the pairs of
-- rmap are those of the map in the order of their values: insert leaves it as it is when the key is
-- there; a new key gets the value, and all other keys keep theirs, as long as this leaves fewer entries
-- than the greatest size; and if it does not, a key whose value is the lowest there was loses its entry. In
-- each case rmap has the pairs of the map again, and there are fewer entries than the greatest
-- size: the limitedmap never has as many.
pub insert-Agrees :
    (s : LimitedMap) (k v : ℕ)
    → Agrees s
    → 1 < s.n_max_size
    → length s.map < s.n_max_size
    → (s' : LimitedMap) × (insert s k v ≡ ok s')
      × Agrees s'
      × Took s k v s'
      × (length s'.map < s.n_max_size)
insert-Agrees s k v c big few = elim (Bool-cases (has_key k s.map)) [
  | inl old ↦ (s, unfold insert in rw old refl, c, inl (old, refl), few)
  | inr new ↦ new_entry s.map s.rmap s.n_max_size k v c new big few
]
