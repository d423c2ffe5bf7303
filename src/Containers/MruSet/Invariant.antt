-- ===== src/Containers/MruSet/Invariant.antt =====
-- The set of a mruset is what its queue holds, and its size is bounded.
use dsvalue.Prelude.{
  ℕ, suc, ◌≤◌, ◌≡◌, ◌⊎◌, inl, inr, refl, sym, ap, ◌∙◌, Bool, true, false, not, ◌&&◌, ◌||◌, List, [],
  ◌∷◌, ◌++◌, ◌==◌, length, contains, arith, Bool-cases, length-append,
}
use dsvalue.Prelude.Sorted.{Distinct}
use dsvalue.Containers.MruSet.{add, remove, MruSet, new_mruset, drop_front, insert}

-- The set has the elements of the queue, each of them once, and no more than the greatest size, where
-- that is not 0.
pub record IsConsistent (s : MruSet) : Type 0 where
  pub same : (y : ℕ) → contains s.set y ≡ contains s.queue y
  pub distinct : Distinct s.queue
  pub bounded : (s.n_max_size ≡ 0) ⊎ (length s.queue ≤ s.n_max_size)

contains-add : (x y : ℕ) (xs : List ℕ) → contains (add x xs) y ≡ (x == y || contains xs y)
unfolding add
contains-add x y [] = refl
contains-add x y (z ∷ zs) = ground (arith, contains-add x y zs)

contains-remove :
    (x y : ℕ) (xs : List ℕ) → contains (remove x xs) y ≡ (not (x == y) && contains xs y)
unfolding remove
contains-remove x y [] = ground arith
contains-remove x y (z ∷ zs) = ground (arith, contains-remove x y zs)

contains-append : (xs : List ℕ) (x y : ℕ) → contains (xs ++ x ∷ []) y ≡ (x == y || contains xs y)
contains-append [] x y = refl
contains-append (z ∷ zs) x y = ground (arith, contains-append zs x y)

Distinct-append :
    (xs : List ℕ) (x : ℕ) → Distinct xs → contains xs x ≡ false → Distinct (xs ++ x ∷ [])
Distinct-append [] x d h = (refl, tt)
Distinct-append (z ∷ zs) x d h =
    (ground (arith, contains-append zs x z), Distinct-append zs x d.1 (ground arith))

-- Without its front the queue still has what the set has.
pub front_gone :
    (front : ℕ) (rest set : List ℕ)
    → ((y : ℕ) → contains set y ≡ contains (front ∷ rest) y)
    → contains rest front ≡ false
    → (y : ℕ) → contains (remove front set) y ≡ contains rest y
front_gone front rest set same d y = elim (Bool-cases (front == y)) [
  | inl e ↦
      let equal : front ≡ y = ground arith in
      ground (arith, contains-remove front y set, rw equal at d)
  | inr e ↦ ground (arith, contains-remove front y set, same y)
]

abbrev pub at : List ℕ → List ℕ → ℕ → MruSet
at set queue n = record { set = set; queue = queue; n_max_size = n }

pushed :
    (set queue : List ℕ) (n x : ℕ)
    → IsConsistent (at set queue n)
    → contains set x ≡ false
    → (n ≡ 0) ⊎ (suc (length queue) ≤ n)
    → IsConsistent (at (add x set) (queue ++ x ∷ []) n)
pushed set queue n x c e b = record {
  same = λ y.
      contains-add x y set ∙ ap (λ k. x == y || k) (c.same y) ∙ sym (contains-append queue x y);
  distinct = Distinct-append queue x c.distinct (sym (c.same x) ∙ e);
  bounded = elim b [ inl z ↦ inl z | inr l ↦ inr (omega (arith, length-append queue (x ∷ []), l)) ];
}

exchanged_same :
    (set rest : List ℕ) (front x y : ℕ)
    → ((j : ℕ) → contains set j ≡ contains (front ∷ rest) j)
    → contains rest front ≡ false
    → contains set x ≡ false
    → contains (remove front (add x set)) y ≡ contains (rest ++ x ∷ []) y
exchanged_same set rest front x y same d e = elim (Bool-cases (front == y)) [
  | inl l ↦
      let equal : front ≡ y = ground arith in
      let gone = contains-remove front y (add x set) in
      let kept = contains-append rest x y in
      let absent = rw equal at d in ground (arith, gone, kept, absent, same x)
  | inr l ↦
      let gone = contains-remove front y (add x set) in
      let kept = contains-append rest x y in
      ground (arith, gone, kept, contains-add x y set, same y)
]

exchanged :
    (set rest : List ℕ) (n front x : ℕ)
    → IsConsistent (at set (front ∷ rest) n)
    → contains set x ≡ false
    → length (front ∷ rest) ≡ n
    → IsConsistent (at (remove front (add x set)) (rest ++ x ∷ []) n)
exchanged set rest n front x c e full = record {
  same = λ y. exchanged_same set rest front x y c.same c.distinct.0 e;
  distinct = Distinct-append rest x c.distinct.1 (ground (arith, c.same x));
  bounded = inr (omega (arith, length-append rest (x ∷ []), full));
}

abbrev is_full : List ℕ → ℕ → Bool
is_full queue n = not (n == 0) && length queue == n

insert_full :
    (set rest : List ℕ) (n front x : ℕ)
    → contains set x ≡ false
    → is_full (front ∷ rest) n ≡ true
    → insert (at set (front ∷ rest) n) x ≡ (at (remove front (add x set)) (rest ++ x ∷ []) n, true)
unfolding insert drop_front
insert_full set rest n front x e full = rw (e, full) refl

insert_room :
    (set queue : List ℕ) (n x : ℕ)
    → contains set x ≡ false
    → is_full queue n ≡ false
    → insert (at set queue n) x ≡ (at (add x set) (queue ++ x ∷ []) n, true)
unfolding insert
insert_room set queue n x e room = rw (e, room) refl

insert_new :
    (set queue : List ℕ) (n x : ℕ)
    → IsConsistent (at set queue n)
    → contains set x ≡ false
    → (s : MruSet) × (insert (at set queue n) x ≡ (s, true))
      × IsConsistent s
      × (contains s.queue x ≡ true)
insert_new set queue n x c e = elim (Bool-cases (is_full queue n)) [
  | inr room ↦ (
    at (add x set) (queue ++ x ∷ []) n,
    insert_room set queue n x e room,
    pushed set queue n x c e (space queue n room c.bounded),
    ground (arith, contains-append queue x x),
  )
  | inl full ↦ full_queue queue c full
]
  where
    space :
        (queue : List ℕ) (n : ℕ)
        → is_full queue n ≡ false
        → (n ≡ 0) ⊎ (length queue ≤ n)
        → (n ≡ 0) ⊎ (suc (length queue) ≤ n)
    space queue n room (inl z) = inl z
    space queue n room (inr l) = ground arith

    full_queue :
        (queue : List ℕ)
        → IsConsistent (at set queue n)
        → is_full queue n ≡ true
        → (s : MruSet) × (insert (at set queue n) x ≡ (s, true))
          × IsConsistent s
          × (contains s.queue x ≡ true)
    full_queue [] c full = absurd (ground arith)
    full_queue (front ∷ rest) c full = (
      at (remove front (add x set)) (rest ++ x ∷ []) n,
      insert_full set rest n front x e full,
      exchanged set rest n front x c e (ground arith),
      ground (arith, contains-append rest x x),
    )

-- insert keeps a mruset consistent: its set has the elements of its queue, each of them once, and at
-- most as many as the greatest size, where that is not 0. The element is in the set afterwards, and
-- the result says whether it is new.
pub insert-IsConsistent :
    (s : MruSet) (x : ℕ)
    → IsConsistent s
    → IsConsistent (insert s x).0
      × (contains (insert s x).0.set x ≡ true)
      × ((insert s x).1 ≡ not (contains s.set x))
insert-IsConsistent s x c = elim (Bool-cases (contains s.set x)) [
  | inl e ↦ unfold insert in rw e (c, e, refl)
  | inr e ↦
      let (next, same, consistent, here) = insert_new s.set s.queue s.n_max_size x c e in
      rw (same, e) (consistent, consistent.same x ∙ here, refl)
]

new_mruset-IsConsistent : (n : ℕ) → IsConsistent (new_mruset n)
new_mruset-IsConsistent n = record { same = λ y. refl; distinct = tt; bounded = inr (omega arith) }
