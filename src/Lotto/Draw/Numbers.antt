-- ===== src/Lotto/Draw/Numbers.antt =====
-- What the drawn numbers are, whatever the hash function brings.
use mathlib.Core.List.{append_assoc, append-nil}
use dsvalue.Prelude.Bytes.{below_excludes}
use dsvalue.Prelude.{
  ℕ, ◌≤◌, ◌≡◌, sym, ap, ◌∙◌, false, List, [], ◌∷◌, ◌++◌, ok, >>=-eq-ok, length, length-append,
  contains, split_at_flag-append, arith, All,
}
use dsvalue.Prelude.Sorted.{sort, Ascending, sort-Ascending, length-sort, sort-All}
use dsvalue.Lotto.Bet.Mulity.{g_split_flag}
use dsvalue.Lotto.Draw.{draw, lucky_15_6, lucky_mulilt, sort_behind_flag}
use dsvalue.Lotto.Draw.Loop.{IsNew, contains-append, draw-Fresh}

sym_ok : {A : Type 0} {a b : A} → ok a ≡ ok b → b ≡ a
sym_ok e = cc

in_range :
    (base : List ℕ) (limit : ℕ) (new : List ℕ)
    → All (IsNew base limit) new
    → All (λ no. (1 ≤ no) × (no ≤ limit)) new
in_range base limit [] h = tt
in_range base limit (x ∷ xs) h = ((h.0.0, h.0.1), in_range base limit xs h.1)

not_in :
    (base : List ℕ) (limit : ℕ) (new : List ℕ)
    → All (IsNew base limit) new
    → All (λ no. contains base no ≡ false) new
not_in base limit [] h = tt
not_in base limit (x ∷ xs) h = (h.0.2, not_in base limit xs h.1)

-- The lucky numbers of the 15-select-6 game are six different numbers from 1 to 15, in order.
pub lucky_15_6-numbers :
    (hash : ℕ → ℕ) (fuel h : ℕ) (star : List ℕ)
    → lucky_15_6 hash fuel h ≡ ok star
    → (length star ≡ 6) × Ascending star × All (λ no. (1 ≤ no) × (no ≤ 15)) star
unfolding lucky_15_6
lucky_15_6-numbers hash fuel h star e =
    let (r, d, q) = >>=-eq-ok (draw hash fuel 15 6 (hash h) []) (λ r. ok (sort r.0)) e in
    let (new, same, f, size) =
      draw-Fresh hash [] 15 6 fuel (hash h) [] r (tt, tt) (omega arith) d in
    let result : star ≡ sort new = rw (← same) (sym_ok q) in
    rw result (
      length-sort new ∙ ap length (sym same) ∙ size,
      sort-Ascending new f.0,
      sort-All (λ no. (1 ≤ no) × (no ≤ 15)) new (in_range [] 15 new f.1),
    )

-- The last step of the second game, on numbers that were drawn behind the flag.
sort_behind_flag-append :
    (red new : List ℕ)
    → All (λ no. no ≤ 20) red
    → sort_behind_flag ((red ++ g_split_flag ∷ []) ++ new) ≡ red ++ g_split_flag ∷ sort new
unfolding sort_behind_flag
sort_behind_flag-append red new h = rw (
  append_assoc red (g_split_flag ∷ []) new,
  split_at_flag-append g_split_flag red new (below_excludes 20 g_split_flag red h (omega arith)),
  sort_behind_flag,
)

All-snd : (P Q : ℕ → Type 0) (v : List ℕ) → All (λ no. P no × Q no) v → All Q v
All-snd P Q [] h = tt
All-snd P Q (x ∷ xs) h = (h.0.1, All-snd P Q xs h.1)

not_red :
    (red new : List ℕ)
    → All (λ no. contains (red ++ g_split_flag ∷ []) no ≡ false) new
    → All (λ no. contains red no ≡ false) new
not_red red [] h = tt
not_red red (x ∷ xs) h =
    (ground (arith, h.0, contains-append red (g_split_flag ∷ []) x), not_red red xs h.1)

-- The lucky numbers of the other game are five red numbers from 1 to 20 and, behind the flag, two
-- blue numbers from 1 to 10, each part in order; no number is drawn twice, not even once as a red
-- and once as a blue number.
pub lucky_mulilt-numbers :
    (hash : ℕ → ℕ) (fuel h : ℕ) (star : List ℕ)
    → lucky_mulilt hash fuel h ≡ ok star
    → (red : List ℕ) × (blue : List ℕ) × (star ≡ red ++ g_split_flag ∷ blue)
      × (length red ≡ 5)
      × Ascending red
      × All (λ no. (1 ≤ no) × (no ≤ 20)) red
      × (length blue ≡ 2)
      × Ascending blue
      × All (λ no. (1 ≤ no) × (no ≤ 10)) blue
      × All (λ no. contains red no ≡ false) blue
unfolding lucky_mulilt
lucky_mulilt-numbers hash fuel h star e =
    let (r, d, q) = >>=-eq-ok (draw hash fuel 20 5 (hash h) []) _ e in
    let (new, same, f, size) =
      draw-Fresh hash [] 20 5 fuel (hash h) [] r (tt, tt) (omega arith) d in
    let red = sort r.0 in
    let base = red ++ g_split_flag ∷ [] in
    let range = in_range [] 20 new f.1 in
    let five : length red ≡ 5 = length-sort r.0 ∙ size in
    let six : length base ≡ 6 = omega (arith, length-append red (g_split_flag ∷ []), five) in
    let (s, d', q') = >>=-eq-ok (draw hash fuel 10 8 r.1 base) _ q in
    let pad : draw hash fuel 10 8 r.1 (base ++ []) ≡ ok s = rw (append-nil base) d' in
    let (blue, same', f', size') =
      draw-Fresh hash base 10 8 fuel r.1 [] s (tt, tt) (omega (arith, length-append base [], six))
        pad in
    let red_range : All (λ no. (1 ≤ no) × (no ≤ 20)) red =
      sort-All (λ no. (1 ≤ no) × (no ≤ 20)) r.0 (rw same range) in
    let red_low = All-snd (λ no. 1 ≤ no) (λ no. no ≤ 20) red red_range in
    let stars = sym (sort_behind_flag-append red blue red_low) in
    let new_blue = not_red red blue (not_in base 10 blue f'.1) in
    (
      red,
      sort blue,
      sym_ok q' ∙ ap sort_behind_flag same' ∙ sym stars,
      five,
      sort-Ascending r.0 (rw same f.0),
      red_range,
      length-sort blue ∙ omega (arith, ap length same', length-append base blue, six, size'),
      sort-Ascending blue f'.0,
      sort-All (λ no. (1 ≤ no) × (no ≤ 10)) blue (in_range base 10 blue f'.1),
      sort-All (λ no. contains red no ≡ false) blue new_blue,
    )
