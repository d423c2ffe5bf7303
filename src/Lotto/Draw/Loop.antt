-- ===== src/Lotto/Draw/Loop.antt =====
-- The loop of a draw keeps numbers in range and different ones (src/lotto/CLotto.cpp).
use mathlib.Core.List.{append_assoc}
use dsvalue.Prelude.{
  ℕ, zero, suc, ◌+◌, ◌%◌, ◌≤◌, ◌<◌, ◌≡◌, refl, sym, ap, ◌∙◌, true, false, ◌||◌, List, [], ◌∷◌, ◌++◌,
  ok, err, Error, if◌then◌else◌, ltb, ◌==◌, length, length-append, contains, arith, All, Bool-cases,
  inl, inr,
}
use dsvalue.Prelude.Sorted.{Distinct}
use dsvalue.Lotto.Draw.{keep, draw}

-- A number from 1 to the limit that is not among `base`.
abbrev pub IsNew : List ℕ → ℕ → ℕ → Type 0
IsNew base limit x = (1 ≤ x) × (x ≤ limit) × (contains base x ≡ false)

abbrev Fresh : List ℕ → ℕ → List ℕ → Type 0
Fresh base limit got = Distinct got × All (IsNew base limit) got

pub contains-append :
    (xs ys : List ℕ) (a : ℕ) → contains (xs ++ ys) a ≡ (contains xs a || contains ys a)
contains-append [] ys a = refl
contains-append (x ∷ xs) ys a = ground (arith, contains-append xs ys a)

Distinct-snoc :
    (xs : List ℕ) (a : ℕ) → Distinct xs → contains xs a ≡ false → Distinct (xs ++ a ∷ [])
Distinct-snoc [] a d n = (refl, tt)
Distinct-snoc (x ∷ xs) a d n = ground (arith, Distinct-snoc xs a d.1, contains-append xs (a ∷ []) x)

All-snoc {ℓ κ} :
    {A : Type ℓ} (P : A → Type κ) (xs : List A) (a : A) → All P xs → P a → All P (xs ++ a ∷ [])
All-snoc P [] a h p = (p, tt)
All-snoc P (x ∷ xs) a h p = (h.0, All-snoc P xs a h.1 p)

module _ (base : List ℕ) (limit : ℕ) where
  -- What one round makes of the numbers drawn so far.
  keep-Fresh :
      (byte : ℕ) (got : List ℕ)
      → Fresh base limit got
      → (new : List ℕ) × (keep limit byte (base ++ got) ≡ base ++ new)
        × Fresh base limit new
        × (length new ≤ length got + 1)
  keep-Fresh byte got f = elim (Bool-cases (ltb byte limit)) [
    | inr out ↦ (got, rw (out, keep), f, omega arith)
    | inl inside ↦ elim (Bool-cases (contains (base ++ got) (byte + 1))) [
      | inl old ↦ (got, rw (inside, keep) (rw old), f, omega arith)
      | inr new ↦
          let absent = contains-append base got (byte + 1) in
          let not_base : contains base (byte + 1) ≡ false = ground (arith, absent) in
          let not_got : contains got (byte + 1) ≡ false = ground (arith, absent) in
          (
            got ++ (byte + 1) ∷ [],
            rw (inside, keep) (rw new (append_assoc base got ((byte + 1) ∷ []))),
            (
              Distinct-snoc got (byte + 1) f.0 not_got,
              All-snoc (IsNew base limit) got (byte + 1) f.1 (omega arith, ground arith, not_base),
            ),
            omega (arith, length-append got ((byte + 1) ∷ [])),
          )
    ]
  ]

not_below : (a b : ℕ) → ltb a b ≡ false → b ≤ a
not_below a b h = ground arith

module _ (hash : ℕ → ℕ) (limit want : ℕ) where
  -- The hash 0 has no byte.
  pub draw_zero :
      (fuel h : ℕ) (nums : List ℕ)
      → (h == 0) ≡ true
      → draw hash (suc fuel) limit want h nums ≡ err Error.undefined
  unfolding draw
  draw_zero fuel h nums z = rw z

  pub draw_step :
      (fuel h : ℕ) (nums : List ℕ)
      → (h == 0) ≡ false
      → draw hash (suc fuel) limit want h nums ≡ (
          if ltb (length (keep limit (h % 256) nums)) want
          then draw hash fuel limit want (hash h) (keep limit (h % 256) nums)
          else ok (keep limit (h % 256) nums, hash h))
  unfolding draw
  draw_step fuel h nums z = rw z

module _ (hash : ℕ → ℕ) (base : List ℕ) (limit want : ℕ) where
  -- The result is `want` numbers, of which those behind `base` are fresh.
  abbrev pub Drawn : List ℕ → Type 0
  Drawn r = (new : List ℕ) × (r ≡ base ++ new) × Fresh base limit new × (length r ≡ want)

  -- One round, from what the rounds after it do.
  draw_round :
      (fuel h : ℕ) (got new : List ℕ) (r : List ℕ × ℕ)
      → length (base ++ got) < want
      → keep limit (h % 256) (base ++ got) ≡ base ++ new
      → Fresh base limit new
      → length new ≤ length got + 1
      → (length (base ++ new) < want
          → draw hash fuel limit want (hash h) (base ++ new) ≡ ok r
          → Drawn r.0)
      → (if ltb (length (base ++ new)) want
          then draw hash fuel limit want (hash h) (base ++ new)
          else ok (base ++ new, hash h))
        ≡ ok r
      → Drawn r.0
  draw_round fuel h got new r lt k f short more e =
      elim (Bool-cases (ltb (length (base ++ new)) want)) [
        | inl again ↦ more (ground arith) (rw again at e)
        | inr done ↦
            let result = rw done at e in
            let same : r.0 ≡ base ++ new = cc in
            (
              new,
              same,
              f,
              omega (
                arith,
                ap length same,
                length-append base new,
                length-append base got,
                not_below (length (base ++ new)) want done,
              ),
            )
      ]

  -- The loop adds fresh numbers until there are `want`.
  pub draw-Fresh :
      (fuel h : ℕ) (got : List ℕ) (r : List ℕ × ℕ)
      → Fresh base limit got
      → length (base ++ got) < want
      → draw hash fuel limit want h (base ++ got) ≡ ok r
      → Drawn r.0
  draw-Fresh zero h got r f lt e = unfold draw in cc
  draw-Fresh (suc fuel) h got r f lt e = elim (Bool-cases (h == 0)) [
    | inl z ↦ cc (draw_zero hash limit want fuel h (base ++ got) z)
    | inr nz ↦
        let (new, k, f', short) = keep-Fresh base limit (h % 256) got f in
        let step = sym (draw_step hash limit want fuel h (base ++ got) nz) ∙ e in
        draw_round fuel h got new r lt k f' short (draw-Fresh fuel (hash h) new r f') (rw k at step)
  ]
