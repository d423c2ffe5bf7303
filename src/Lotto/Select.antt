-- ===== src/Lotto/Select.antt =====
-- The combinatorial helpers of class CBet (src/lotto/CBet.h): `factorial` and `MselectN`.
pub mod Binomial
pub mod Tickets
use dsvalue.Prelude.{
  ℕ, zero, suc, ◌-◌, Bool, ◌&&◌, ◌||◌, Result, ok, err, Error, ◌>>=◌, ◌>>◌, guard, if◌then◌else◌,
  leb, ltb, ◌==◌,
}
use dsvalue.Prelude.Int.{ℤ, pos, negsuc, mul64, div64, wrap32, leb_ℤ}

-- factorial(n) at n >= 0; the product wraps as `int64_t` does.
factorial_ℕ : ℕ → ℤ
unfolding mul64
factorial_ℕ zero = pos 1
factorial_ℕ (suc n) =
    let rest = factorial_ℕ n in if leb (suc n) 1 then pos 1 else mul64 (pos (suc n)) rest

unfoldable pub factorial : ℤ → ℤ
unfolding factorial_ℕ
factorial (pos n) = factorial_ℕ n
factorial (negsuc n) = pos 1

-- MselectN past its `Assert`, at two numbers.
select_ℕ : ℕ → ℕ → Result ℤ
unfolding factorial mul64 div64 wrap32
select_ℕ m n =
    if n == 0
    then ok (pos 1)
    else if ltb m n
    then ok (pos 0)
    else if ltb m 1 || m == n
    then ok (pos 1)
    else div64 (factorial (pos m)) (mul64 (factorial (pos (m - n))) (factorial (pos n))) >>= λ q.
        ok (wrap32 q)

unfoldable pub m_select_n : ℤ → ℤ → Result ℤ
unfolding select_ℕ
m_select_n (pos m) (pos n) = select_ℕ m n
m_select_n (pos m) (negsuc n) = err Error.assertion
m_select_n (negsuc m) _ = err Error.assertion
