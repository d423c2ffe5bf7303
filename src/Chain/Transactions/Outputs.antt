-- ===== src/Chain/Transactions/Outputs.antt =====
-- The outputs that CheckTransaction accepts (src/main.cpp).
use dsvalue.Prelude.{ℕ, ◌+◌, ◌≤◌, ◌≡◌, ◌↔◌, sym, subst, not, List, [], ◌∷◌, Result, ok, arith, All}
use dsvalue.Prelude.Int.{ℤ, pos, negsuc, pos_part, add64, add64-pos, ltb_ℤ, ◌≤ℤ◌}
use dsvalue.Core.{TxOut, max_money, money_range}
use dsvalue.Core.Value.{value_sum, InRange}
use dsvalue.Chain.Verdict.{Verdict, accepted, refuse_if, refuse_if_iff}
use dsvalue.Chain.Transactions.{check_outs}

add64-within :
    (a : ℕ) (v : ℤ)
    → pos 0 ≤ℤ v
    → a + pos_part v ≤ max_money
    → add64 (pos a) v ≡ pos (a + pos_part v)
add64-within a (pos n) h k = add64-pos a n (omega arith)
add64-within a (negsuc n) h k = absurd (omega arith)

-- The tests on one output.
out_tests : ℤ → ℕ → Result Verdict → Result Verdict
out_tests v a rest = refuse_if (ltb_ℤ v (pos 0)) 100 (
    refuse_if (ltb_ℤ (pos max_money) v) 100
      (refuse_if (not (money_range (add64 (pos a) v))) 100 rest))

abbrev Fits : ℤ → ℕ → Type 0
Fits v a = (pos 0 ≤ℤ v) × (v ≤ℤ pos max_money) × (a + pos_part v ≤ max_money)

out_tests_iff :
    (v : ℤ) (a : ℕ) (rest : Result Verdict)
    → a ≤ max_money
    → (out_tests v a rest ≡ ok accepted) ↔ (Fits v a × (rest ≡ ok accepted))
unfolding out_tests
out_tests_iff (pos n) a rest h = (
  λ e.
      let (up, e1) = (refuse_if_iff (ltb_ℤ (pos n) (pos 0)) 100 _).0 e in
      let (low, e2) = (refuse_if_iff (ltb_ℤ (pos max_money) (pos n)) 100 _).0 e1 in
      let (within, e3) =
        (refuse_if_iff (not (money_range (add64 (pos a) (pos n)))) 100 rest).0 e2 in
      let small : n ≤ max_money = ground arith in
      let sum = add64-pos a n (omega arith) in
      let total_small : a + n ≤ max_money = ground (arith, sum) in
      ((omega arith, omega arith, total_small), e3),
  λ p.
      let sum = add64-pos a n (omega arith) in
      let small : a + n ≤ max_money = p.0.2 in
      let one : n ≤ max_money = omega arith in rw sum (ground (arith, p.1)),
)
out_tests_iff (negsuc n) a rest h = (λ e. absurd (ground arith), λ p. absurd (omega (arith, p.0.0)))

pub check_outs_iff :
    (vout : List TxOut) (a : ℕ) (rest : Result Verdict)
    → a ≤ max_money
    → (check_outs vout (pos a) rest ≡ ok accepted)
      ↔ (All InRange vout × (a + value_sum vout ≤ max_money) × (rest ≡ ok accepted))
unfolding check_outs out_tests
check_outs_iff [] a rest h = (λ e. (tt, omega arith, e), λ p. p.2)
check_outs_iff (txout ∷ vout) a rest h =
    let later = check_outs vout (add64 (pos a) txout.n_value) rest in
    let (there, back) = out_tests_iff txout.n_value a later h in
    (
      λ e.
          let (fits, e1) = there e in
          let sum = add64-within a txout.n_value (fits.0) (fits.2) in
          let (all, small, done) =
            (check_outs_iff vout (a + pos_part txout.n_value) rest (fits.2)).0
              (subst (λ z. check_outs vout z rest ≡ ok accepted) sum e1) in
          (((fits.0, fits.1), all), omega (arith, small), done),
      λ p.
          let fits : Fits txout.n_value a = (p.0.0.0, p.0.0.1, omega (arith, p.1)) in
          let sum = add64-within a txout.n_value (fits.0) (fits.2) in
          back (
            fits,
            subst (λ z. check_outs vout z rest ≡ ok accepted) (sym sum)
                ((check_outs_iff vout (a + pos_part txout.n_value) rest (fits.2)).1
                  (p.0.1, omega (arith, p.1), p.2)),
          ),
    )
