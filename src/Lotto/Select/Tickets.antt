-- ===== src/Lotto/Select/Tickets.antt =====
-- What a compound bet stands for: the combinations that it plays, listed one by one, and how many
-- of them hit. This is the specification of the reward maps, with no binomial coefficient in it.
use dsvalue.Prelude.{
  ◌≤◌, count_if-le, ℕ, zero, suc, ◌+◌, ◌*◌, ◌<◌, ◌≡◌, refl, Bool, true, false, not, List, [], ◌∷◌,
  ◌++◌, map, ◌==◌, length, count_if, arith, Bool-cases, inl, inr, length-append,
}
use dsvalue.Lotto.Select.Binomial.{binom}

-- The sublists of `k` entries.
unfoldable pub choose : ℕ → List ℕ → List (List ℕ)
choose zero xs = [] ∷ []
choose (suc k) [] = []
choose (suc k) (x ∷ xs) = map (◌∷◌ x) (choose k xs) ++ choose (suc k) xs

-- Of the tickets of `k` numbers of `xs`, those with exactly `j` numbers that are hits.
unfoldable pub wins : (ℕ → Bool) → List ℕ → ℕ → ℕ → ℕ
unfolding choose
wins hit xs k j = count_if (λ ticket. count_if hit ticket == j) (choose k xs)

abbrev pub misses : (ℕ → Bool) → List ℕ → ℕ
misses hit xs = count_if (λ x. not (hit x)) xs

pub hits-add-misses : (hit : ℕ → Bool) (xs : List ℕ) → count_if hit xs + misses hit xs ≡ length xs
hits-add-misses hit [] = refl
hits-add-misses hit (x ∷ xs) = ground (arith, hits-add-misses hit xs)

module _ {ℓ} {A : Type ℓ} where
  count_if-append :
      (p : A → Bool) (xs ys : List A) → count_if p (xs ++ ys) ≡ count_if p xs + count_if p ys
  count_if-append p [] ys = omega arith
  count_if-append p (x ∷ xs) ys = omega (arith, count_if-append p xs ys)

length-prepend : (x : ℕ) (ts : List (List ℕ)) → length (map (◌∷◌ x) ts) ≡ length ts
length-prepend x [] = refl
length-prepend x (t ∷ ts) = omega (arith, length-prepend x ts)

-- A ticket set of `k` numbers has C(n, k) tickets.
pub length-choose : (k : ℕ) (xs : List ℕ) → length (choose k xs) ≡ binom (length xs) k
unfolding choose binom
length-choose zero xs = refl
length-choose (suc k) [] = refl
length-choose (suc k) (x ∷ xs) = omega (
  arith,
  length-append (map (◌∷◌ x) (choose k xs)) (choose (suc k) xs),
  length-prepend x (choose k xs),
  length-choose k xs,
  length-choose (suc k) xs,
)

module _ (hit : ℕ → Bool) (x : ℕ) where
  abbrev hits_are : ℕ → List ℕ → Bool
  hits_are j ticket = count_if hit ticket == j

  prepend_hit :
      (j : ℕ) (ts : List (List ℕ))
      → hit x ≡ true
      → count_if (hits_are (suc j)) (map (◌∷◌ x) ts) ≡ count_if (hits_are j) ts
  prepend_hit j [] h = refl
  prepend_hit j (t ∷ ts) h = ground (arith, prepend_hit j ts h)

  prepend_hit_zero :
      (ts : List (List ℕ)) → hit x ≡ true → count_if (hits_are 0) (map (◌∷◌ x) ts) ≡ 0
  prepend_hit_zero [] h = refl
  prepend_hit_zero (t ∷ ts) h = ground (arith, prepend_hit_zero ts h)

  prepend_miss :
      (j : ℕ) (ts : List (List ℕ))
      → hit x ≡ false
      → count_if (hits_are j) (map (◌∷◌ x) ts) ≡ count_if (hits_are j) ts
  prepend_miss j [] h = refl
  prepend_miss j (t ∷ ts) h = ground (arith, prepend_miss j ts h)

  wins_cons :
      (xs : List ℕ) (k j : ℕ)
      → wins hit (x ∷ xs) (suc k) j
        ≡ count_if (hits_are j) (map (◌∷◌ x) (choose k xs)) + wins hit xs (suc k) j
  unfolding wins choose
  wins_cons xs k j = count_if-append (hits_are j) (map (◌∷◌ x) (choose k xs)) (choose (suc k) xs)

  -- A first number that hits: the tickets with it want one hit less.
  wins_hit :
      (xs : List ℕ) (k j : ℕ)
      → hit x ≡ true
      → wins hit (x ∷ xs) (suc k) (suc j) ≡ wins hit xs k j + wins hit xs (suc k) (suc j)
  unfolding wins
  wins_hit xs k j h = omega (arith, wins_cons xs k (suc j), prepend_hit j (choose k xs) h)

  wins_hit_zero :
      (xs : List ℕ) (k : ℕ) → hit x ≡ true → wins hit (x ∷ xs) (suc k) 0 ≡ wins hit xs (suc k) 0
  unfolding wins
  wins_hit_zero xs k h = omega (arith, wins_cons xs k 0, prepend_hit_zero (choose k xs) h)

  -- A first number that misses changes no count of hits.
  wins_miss :
      (xs : List ℕ) (k j : ℕ)
      → hit x ≡ false
      → wins hit (x ∷ xs) (suc k) j ≡ wins hit xs k j + wins hit xs (suc k) j
  unfolding wins
  wins_miss xs k j h = omega (arith, wins_cons xs k j, prepend_miss j (choose k xs) h)

-- Tickets with more hits than numbers: there are none.
hits_bound : (hit : ℕ → Bool) (xs : List ℕ) (k j : ℕ) → k < j → wins hit xs k j ≡ 0
unfolding wins choose
hits_bound hit xs zero j h = ground arith
hits_bound hit [] (suc k) j h = refl
hits_bound hit (x ∷ xs) (suc k) zero h = absurd (omega arith)
hits_bound hit (x ∷ xs) (suc k) (suc j) h = elim (Bool-cases (hit x)) [
  | inl e ↦ omega (
    arith,
    wins_hit hit x xs k j e,
    hits_bound hit xs k j (omega arith),
    hits_bound hit xs (suc k) (suc j) h,
  )
  | inr e ↦ omega (
    arith,
    wins_miss hit x xs k (suc j) e,
    hits_bound hit xs k (suc j) (omega arith),
    hits_bound hit xs (suc k) (suc j) h,
  )
]

binom_step : (n m k : ℕ) → m ≡ suc n → binom m (suc k) ≡ binom n k + binom n (suc k)
unfolding binom
binom_step n m k e = rw e refl

binom_pad : (n k : ℕ) → binom (0 + n) k ≡ binom n k
binom_pad n k = let e : 0 + n ≡ n = omega arith in rw e refl

-- The hypergeometric count: the tickets with exactly `j` of the hits and `i` of the misses.
pub wins-eq-binom :
    (hit : ℕ → Bool) (xs : List ℕ) (k j i : ℕ)
    → k ≡ j + i
    → wins hit xs k j ≡ binom (count_if hit xs) j * binom (misses hit xs) i
unfolding binom
wins-eq-binom hit xs zero zero zero e = unfold wins choose in omega arith
wins-eq-binom hit xs zero (suc j) i e = absurd (omega arith)
wins-eq-binom hit xs zero zero (suc i) e = absurd (omega arith)
wins-eq-binom hit [] (suc k) zero zero e = absurd (omega arith)
wins-eq-binom hit [] (suc k) (suc j) i e = unfold wins choose in omega arith
wins-eq-binom hit [] (suc k) zero (suc i) e = unfold wins choose in omega arith
wins-eq-binom hit (x ∷ xs) (suc k) zero zero e = absurd (omega arith)
wins-eq-binom hit (x ∷ xs) (suc k) zero (suc i) e = elim (Bool-cases (hit x)) [
  | inl h ↦
      rw (h, binom_pad (misses hit xs) (suc i))
        (omega (arith, wins_hit_zero hit x xs k h, wins-eq-binom hit xs (suc k) 0 (suc i) e))
  | inr h ↦
      rw (h, binom_step (misses hit xs) (1 + misses hit xs) i (omega arith))
        (omega (
          arith,
          wins_miss hit x xs k 0 h,
          wins-eq-binom hit xs k 0 i (omega arith),
          wins-eq-binom hit xs (suc k) 0 (suc i) e,
        ))
]
wins-eq-binom hit (x ∷ xs) (suc k) (suc j) zero e = elim (Bool-cases (hit x)) [
  | inl h ↦
      rw (h, binom_step (count_if hit xs) (1 + count_if hit xs) j (omega arith))
        (omega (
          arith,
          wins_hit hit x xs k j h,
          wins-eq-binom hit xs k j 0 (omega arith),
          wins-eq-binom hit xs (suc k) (suc j) 0 e,
        ))
  | inr h ↦
      rw (h, binom_pad (count_if hit xs) (suc j))
        (omega (
          arith,
          wins_miss hit x xs k (suc j) h,
          hits_bound hit xs k (suc j) (omega arith),
          wins-eq-binom hit xs (suc k) (suc j) 0 e,
        ))
]
wins-eq-binom hit (x ∷ xs) (suc k) (suc j) (suc i) e = elim (Bool-cases (hit x)) [
  | inl h ↦
      rw
        (
          h,
          binom_step (count_if hit xs) (1 + count_if hit xs) j (omega arith),
          binom_pad (misses hit xs) (suc i),
        )
        (omega (
          arith,
          wins_hit hit x xs k j h,
          wins-eq-binom hit xs k j (suc i) (omega arith),
          wins-eq-binom hit xs (suc k) (suc j) (suc i) e,
        ))
  | inr h ↦
      rw
        (
          h,
          binom_pad (count_if hit xs) (suc j),
          binom_step (misses hit xs) (1 + misses hit xs) i (omega arith),
        )
        (omega (
          arith,
          wins_miss hit x xs k (suc j) h,
          wins-eq-binom hit xs k (suc j) i (omega arith),
          wins-eq-binom hit xs (suc k) (suc j) (suc i) e,
        ))
]

-- Winning tickets are some of the tickets.
pub wins-le : (hit : ℕ → Bool) (xs : List ℕ) (k j : ℕ) → wins hit xs k j ≤ binom (length xs) k
unfolding wins
wins-le hit xs k j =
    rw (← length-choose k xs) (count_if-le (λ ticket. count_if hit ticket == j) (choose k xs))
