-- ===== src/Lotto/Bet/Mulity/Valid.antt =====
-- What CBetMulity::IsValid accepts.
use native.Mathlib.Nat.{mul-le-mul}
use dsvalue.Prelude.{
  ℕ, suc, ◌+◌, ◌*◌, ◌^◌, ◌≤◌, ◌<◌, ◌≡◌, ◌↔◌, refl, ap, ◌∙◌, true, false, List, [], ◌∷◌, none, some,
  ok, arith, length, All, list_eq, any, ltb, split_at_flag, split_at_flag_eq, length-append,
  list_eq→≡, list_eq_refl,
}
use dsvalue.Prelude.Int.{ℤ, pos, mul32-pos}
use dsvalue.Prelude.Sorted.{
  sort, is_unique, IsSorted, Ascending, sort_test, unique_test, Ascending-IsSorted,
}
use dsvalue.Prelude.Bytes.{none_above, none_below}
use dsvalue.Lotto.Data.{type_mulilt}
use dsvalue.Lotto.Select.Binomial.{binom, m_select_n-binom, binom_million, binom_pairs}
use dsvalue.Lotto.Bet.{Bet, is_underpaid}
use dsvalue.Lotto.Bet.Mulity.{is_valid, is_valid_split, get_total_ber, g_split_flag}

-- The two parts of a selection: red numbers before the flag, blue ones behind it.
abbrev pub Splits : List ℕ → List ℕ → List ℕ → Type 0
Splits v red blue = split_at_flag g_split_flag v ≡ some (red, blue)

-- The conditions on the two parts, with the limits that the code tests, 21 and 11.
pub record IsProper (red blue : List ℕ) : Type 0 where
  pub enough_red : 5 ≤ length red
  pub enough_blue : 2 ≤ length blue
  pub rising_red : Ascending red
  pub rising_blue : Ascending blue
  pub positive_red : All (λ no. 1 ≤ no) red
  pub positive_blue : All (λ no. 1 ≤ no) blue
  pub bounded_red : All (λ no. no ≤ 21) red
  pub bounded_blue : All (λ no. no ≤ 11) blue
  pub short : length red + length blue ≤ 30

pub length-Splits :
    (v red blue : List ℕ) → Splits v red blue → length v ≡ length red + suc (length blue)
length-Splits v red blue s =
    ap length (split_at_flag_eq g_split_flag v red blue s).0
    ∙ length-append red (g_split_flag ∷ blue)

sort_test_swapped : (xs : List ℕ) → (list_eq (sort xs) xs ≡ true) ↔ IsSorted xs
sort_test_swapped xs = (
  λ h. (sort_test xs).0 (rw (list_eq→≡ (sort xs) xs h) (list_eq_refl xs)),
  λ c. let e = list_eq→≡ xs (sort xs) ((sort_test xs).1 c) in rw (← e) (list_eq_refl xs),
)

-- The flag before the blue numbers does not count as one of a run of equal numbers.
flag_unique :
    (blue : List ℕ) → All (λ no. no ≤ 11) blue → is_unique (g_split_flag ∷ blue) ≡ is_unique blue
unfolding is_unique
flag_unique [] h = refl
flag_unique (x ∷ xs) h = ground arith

pub total_limit : (r b : ℕ) → r ≤ 20 → b ≤ 11 → binom r 5 * binom b 2 ≤ 126877696
total_limit r b hr hb = mul-le-mul (binom_million r 5 hr) (binom_pairs b hb)

pub get_total_ber-binom :
    (v red blue : List ℕ)
    → Splits v red blue
    → length red ≤ 20
    → length blue ≤ 11
    → get_total_ber v ≡ ok (pos (binom (length red) 5 * binom (length blue) 2))
unfolding get_total_ber
get_total_ber-binom v red blue s hr hb =
    rw (s, get_total_ber, m_select_n-binom (length red) 5 hr)
      (rw (m_select_n-binom (length blue) 2 (omega arith))
        (ap ok (mul32-pos (binom (length red) 5) (binom (length blue) 2) fits)))
  where
    fits : binom (length red) 5 * binom (length blue) 2 < 2 ^ 31
    fits = omega (arith, total_limit (length red) (length blue) hr hb)

-- The tests before the stake, as one.
split_tests :
    (b : Bet) (red blue : List ℕ) (total : ℤ)
    → Splits b.vch red blue
    → length b.vch ≤ 31
    → get_total_ber b.vch ≡ ok total
    → (is_valid_split b red blue ≡ ok true) ↔ (
        (5 ≤ length red)
        × (2 ≤ length blue)
        × (any (λ no. ltb 21 no) red ≡ false)
        × (any (λ no. ltb no 1) red ≡ false)
        × (any (λ no. ltb 11 no) blue ≡ false)
        × (any (λ no. ltb no 1) blue ≡ false)
        × (is_unique red ≡ true)
        × (is_unique (g_split_flag ∷ blue) ≡ true)
        × (list_eq (sort red) red ≡ true)
        × (list_eq (sort blue) blue ≡ true)
        × (is_underpaid total b.n_value ≡ false))
unfolding is_valid_split
split_tests b red blue total s h t =
    let e = length-Splits b.vch red blue s in (λ k. ground (arith, e, t), λ k. ground (arith, e, t))

-- What remains of the tests when they are read as conditions.
pub split_iff :
    (b : Bet) (red blue : List ℕ) (total : ℤ)
    → Splits b.vch red blue
    → length b.vch ≤ 31
    → get_total_ber b.vch ≡ ok total
    → (is_valid_split b red blue ≡ ok true)
      ↔ (IsProper red blue × (is_underpaid total b.n_value ≡ false))
split_iff b red blue total s h t = (accepted, λ p. proper p.0 p.1)
  where
    accepted :
        is_valid_split b red blue ≡ ok true
        → IsProper red blue × (is_underpaid total b.n_value ≡ false)
    accepted v =
        let c = (split_tests b red blue total s h t).0 v in
        let sorted_red = (sort_test_swapped red).0 c.8 in
        let sorted_blue = (sort_test_swapped blue).0 c.9 in
        let bounded = (none_above 11 blue).0 c.4 in
        let unique_blue : is_unique blue ≡ true = rw (← flag_unique blue bounded) c.7 in
        (
          record {
            enough_red = c.0;
            enough_blue = c.1;
            rising_red = (unique_test red sorted_red).0 c.6;
            rising_blue = (unique_test blue sorted_blue).0 unique_blue;
            positive_red = (none_below 1 red).0 c.3;
            positive_blue = (none_below 1 blue).0 c.5;
            bounded_red = (none_above 21 red).0 c.2;
            bounded_blue = bounded;
            short = omega (arith, length-Splits b.vch red blue s);
          },
          c.10,
        )

    proper :
        IsProper red blue
        → is_underpaid total b.n_value ≡ false
        → is_valid_split b red blue ≡ ok true
    proper p u =
        let sorted_red = Ascending-IsSorted red p.rising_red in
        let sorted_blue = Ascending-IsSorted blue p.rising_blue in
        (split_tests b red blue total s h t).1 (
          p.enough_red,
          p.enough_blue,
          (none_above 21 red).1 p.bounded_red,
          (none_below 1 red).1 p.positive_red,
          (none_above 11 blue).1 p.bounded_blue,
          (none_below 1 blue).1 p.positive_blue,
          (unique_test red sorted_red).1 p.rising_red,
          rw (flag_unique blue p.bounded_blue) ((unique_test blue sorted_blue).1 p.rising_blue),
          (sort_test_swapped red).1 sorted_red,
          (sort_test_swapped blue).1 sorted_blue,
          u,
        )

-- A selection that the flag does not split is not valid.
unsplit :
    (b : Bet)
    → b.bet_type ≡ type_mulilt
    → split_at_flag g_split_flag b.vch ≡ none
    → is_valid b ≡ ok false
unfolding is_valid
unsplit b t s = rw (t, s) (ground arith)

-- The tests of the length; a proper selection has at least 8 bytes.
pub valid_split :
    (b : Bet) (red blue : List ℕ)
    → b.bet_type ≡ type_mulilt
    → Splits b.vch red blue
    → length b.vch ≤ 31
    → 7 ≤ length b.vch
    → is_valid b ≡ is_valid_split b red blue
unfolding is_valid
valid_split b red blue t s hi lo = ground (arith, s)
