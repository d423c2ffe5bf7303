-- ===== src/Containers/Tests.antt =====
-- A mruset of three elements and a limitedmap of two.
use dsvalue.Prelude.{ℕ, ◌≡◌, inr, [], ◌∷◌, contains, arith, ok, length, ◌<◌}
use dsvalue.Prelude.Map.{has_key}
use dsvalue.Containers.MruSet.{MruSet}
use dsvalue.Containers.MruSet.Invariant.{IsConsistent}
use dsvalue.Containers.LimitedMap.{LimitedMap}
use dsvalue.Containers.LimitedMap as Limited
use dsvalue.Containers.LimitedMap.Keys.{Agrees, paired}
use dsvalue.Containers.LimitedMap.Size.{Took, insert-Agrees}

abbrev three : MruSet
three = record { set = 2 ∷ 5 ∷ 9 ∷ []; queue = 5 ∷ 9 ∷ 2 ∷ []; n_max_size = 3 }

three-same : (y : ℕ) → contains three.set y ≡ contains three.queue y
three-same y = ground arith

three-IsConsistent : IsConsistent three
three-IsConsistent = record {
  same = three-same;
  distinct = ground arith;
  bounded = inr (omega arith);
}

abbrev two_entries : LimitedMap
two_entries = record { map = (4, 60) ∷ (8, 50) ∷ []; rmap = (50, 8) ∷ (60, 4) ∷ []; n_max_size = 3 }

two_entries-same : (k : ℕ) → has_key k two_entries.map ≡ paired two_entries.rmap k
two_entries-same k = ground arith

two_entries-Agrees : Agrees two_entries
two_entries-Agrees = record {
  ordered = (omega arith, tt);
  same = two_entries-same;
  unrepeated = ground arith;
  carried = ground arith;
  sorted = ground arith;
}

insert-Agrees_example :
    (s' : LimitedMap) × (Limited.insert two_entries 6 55 ≡ ok s')
    × Agrees s'
    × Took two_entries 6 55 s'
    × (length s'.map < 3)
insert-Agrees_example =
    insert-Agrees two_entries 6 55 two_entries-Agrees (omega arith) (omega arith)
