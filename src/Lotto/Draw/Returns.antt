-- ===== src/Lotto/Draw/Returns.antt =====
-- When the loop of the draw ends, and that its fuel does not change what it returns.
use dsvalue.Prelude.{
  ℕ, zero, suc, ◌%◌, ◌≤◌, ◌<◌, ◌≡◌, refl, sym, ◌∙◌, false, List, ok, ltb, ◌==◌, length, arith,
  Bool-cases, inl, inr,
}
use dsvalue.Lotto.Draw.{keep, draw}
use dsvalue.Lotto.Draw.Loop.{draw_step, draw_zero}

module _ (hash : ℕ → ℕ) (limit : ℕ) where
  -- The numbers that `n` rounds bring, with no test to stop at.
  abbrev pub collect : ℕ → ℕ → List ℕ → List ℕ
  collect zero h nums = nums
  collect (suc n) h nums = collect n (hash h) (keep limit (h % 256) nums)

  -- None of the first `n` hashes is 0.
  abbrev pub NonZero : ℕ → ℕ → Type 0
  NonZero zero h = Unit
  NonZero (suc n) h = ((h == 0) ≡ false) × NonZero n (hash h)

  -- The loop returns within `n` rounds if these bring the numbers that it wants.
  pub draw-returns :
      (n want h : ℕ) (nums : List ℕ)
      → NonZero n h
      → 0 < n
      → want ≤ length (collect n h nums)
      → (r : List ℕ × ℕ) × (draw hash n limit want h nums ≡ ok r)
  draw-returns zero want h nums z p enough = absurd (omega arith)
  draw-returns (suc zero) want h nums z p enough = (
    (keep limit (h % 256) nums, hash h),
    draw_step hash limit want zero h nums z.0 ∙ ground arith,
  )
  draw-returns (suc (suc n)) want h nums z p enough =
      elim (Bool-cases (ltb (length (keep limit (h % 256) nums)) want)) [
        | inr done ↦ (
          (keep limit (h % 256) nums, hash h),
          draw_step hash limit want (suc n) h nums z.0 ∙ rw done refl,
        )
        | inl more ↦
            let (r, e) =
              draw-returns (suc n) want (hash h) (keep limit (h % 256) nums) z.1 (omega arith)
                enough in
            (r, draw_step hash limit want (suc n) h nums z.0 ∙ rw more e)
      ]

  -- More fuel gives the same result.
  pub draw_more_fuel :
      (fuel more want h : ℕ) (nums : List ℕ) (r : List ℕ × ℕ)
      → fuel ≤ more
      → draw hash fuel limit want h nums ≡ ok r
      → draw hash more limit want h nums ≡ ok r
  draw_more_fuel zero more want h nums r le e = unfold draw in cc
  draw_more_fuel (suc fuel) zero want h nums r le e = absurd (omega arith)
  draw_more_fuel (suc fuel) (suc more) want h nums r le e = elim (Bool-cases (h == 0)) [
    | inl z ↦ cc (draw_zero hash limit want fuel h nums z)
    | inr nz ↦
        let e' = sym (draw_step hash limit want fuel h nums nz) ∙ e in
        draw_step hash limit want more h nums nz
        ∙ elim (Bool-cases (ltb (length (keep limit (h % 256) nums)) want)) [
          | inl again ↦
              rw again (draw_more_fuel fuel more want (hash h) _ r (omega arith) (rw again at e'))
          | inr done ↦ rw done (rw done at e')
        ]
  ]
