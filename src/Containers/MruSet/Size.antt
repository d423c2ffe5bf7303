-- ===== src/Containers/MruSet/Size.antt =====
-- The greatest size of a mruset set anew.
use dsvalue.Prelude.{
  ℕ, zero, suc, ◌+◌, ◌≤◌, ◌≡◌, ◌⊎◌, inl, inr, refl, List, [], ◌∷◌, ltb, ◌==◌, length, arith,
  Bool-cases,
}
use dsvalue.Containers.MruSet.{MruSet, drop_front, shrink, max_size}
use dsvalue.Containers.MruSet.Invariant.{IsConsistent, at, front_gone}

drop_at :
    (set queue : List ℕ) (n : ℕ)
    → IsConsistent (at set queue n)
    → IsConsistent (drop_front (at set queue n))
      × (length (drop_front (at set queue n)).queue ≤ length queue)
unfolding drop_front
drop_at set [] n c = (c, omega arith)
drop_at set (front ∷ rest) n c = (
  record {
    same = front_gone front rest set c.same c.distinct.0;
    distinct = c.distinct.1;
    bounded = elim c.bounded [ inl z ↦ inl z | inr l ↦ inr (omega (arith, l)) ];
  },
  omega arith,
)

shorter : (s : MruSet) (k : ℕ) → length s.queue ≤ suc k → length (drop_front s).queue ≤ k
unfolding drop_front
shorter s k h = by_queue s.set s.queue s.n_max_size h
  where
    by_queue :
        (set queue : List ℕ) (n : ℕ)
        → length queue ≤ suc k
        → length (drop_front (at set queue n)).queue ≤ k
    by_queue set [] n h = omega arith
    by_queue set (front ∷ rest) n h = omega arith

shrink-IsConsistent :
    (fuel n : ℕ) (s : MruSet)
    → IsConsistent s
    → length s.queue ≤ n + fuel
    → IsConsistent (shrink fuel n s) × (length (shrink fuel n s).queue ≤ n)
unfolding shrink
shrink-IsConsistent zero n s c h = (c, omega arith)
shrink-IsConsistent (suc fuel) n s c h = elim (Bool-cases (ltb n (length s.queue))) [
  | inl more ↦ rw more (
      shrink-IsConsistent fuel n (drop_front s) (drop_at s.set s.queue s.n_max_size c).0
        (shorter s (n + fuel) (omega arith)))
  | inr done ↦ rw done (c, ground arith)
]

resized :
    (s : MruSet) (n : ℕ)
    → IsConsistent s
    → (n ≡ 0) ⊎ (length s.queue ≤ n)
    → IsConsistent (record s { n_max_size = n })
resized s n c b = record { same = c.same; distinct = c.distinct; bounded = b }

-- max_size(n) keeps a mruset consistent, now with the greatest size n: the front of the queue goes
-- until no more than n elements are left, where n is not 0.
pub max_size-IsConsistent :
    (s : MruSet) (n : ℕ)
    → IsConsistent s
    → IsConsistent (max_size s n) × ((max_size s n).n_max_size ≡ n)
unfolding max_size
max_size-IsConsistent s n c = elim (Bool-cases (n == 0)) [
  | inl z ↦ (rw z (resized s n c (inl (ground arith))), refl)
  | inr nz ↦
      let (kept, few) = shrink-IsConsistent (length s.queue) n s c (omega arith) in
      (rw nz (resized (shrink (length s.queue) n s) n kept (inr few)), refl)
]
