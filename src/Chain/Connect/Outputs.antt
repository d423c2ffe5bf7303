-- ===== src/Chain/Connect/Outputs.antt =====
-- An output that is spent and written back (src/coins.cpp: CCoins::Spend; src/main.cpp: DisconnectBlock).
use dsvalue.Prelude.{
  ℕ, zero, suc, ◌≤◌, ◌≡◌, refl, sym, ap, ◌∙◌, true, List, [], ◌∷◌, some, length, get_elem?, set,
  All, arith, Bool-cases, inl, inr,
}
use dsvalue.Core.{TxOut}
use dsvalue.Coins.{is_null, null_out, cleaned, cleanup}
use dsvalue.Chain.Connect.{grow}

-- The spent outputs are the null output.
abbrev pub IsExact : TxOut → Type 0
IsExact txout = is_null txout ≡ true → txout ≡ null_out

cleaned_rest :
    (txout : TxOut) (vout rest : List TxOut) → cleaned txout rest ≡ txout ∷ vout → rest ≡ vout
cleaned_rest txout vout [] h = ground arith
cleaned_rest txout vout (y ∷ ys) h = ground arith

-- The output behind cleaned ones, written back.
grow_step :
    (x : TxOut) (xs rest : List TxOut) (n : ℕ) (txout : TxOut)
    → IsExact x
    → set (grow rest (suc n)) n txout ≡ xs
    → set (grow (cleaned x rest) (suc (suc n))) (suc n) txout ≡ x ∷ xs
unfolding grow
grow_step x xs [] n txout exact h = elim (Bool-cases (is_null x)) [
  | inl e ↦ let same = exact e in rw e (ap (λ l. null_out ∷ l) h ∙ ap (λ y. y ∷ xs) (sym same))
  | inr e ↦ rw e (ap (λ l. x ∷ l) h)
]
grow_step x xs (y ∷ ys) n txout exact h = ap (λ l. x ∷ l) h

pub grow-cleanup :
    (vout : List TxOut) (n : ℕ) (txout : TxOut)
    → cleanup vout ≡ vout
    → All IsExact vout
    → get_elem? vout n ≡ some txout
    → set (grow (cleanup (set vout n null_out)) (suc n)) n txout ≡ vout
unfolding cleanup grow
grow-cleanup [] n txout clean exact e = absurd (ground arith)
grow-cleanup (x ∷ []) zero txout clean exact e = ground arith
grow-cleanup (x ∷ y ∷ ys) zero txout clean exact e =
    let rest = cleaned_rest x (y ∷ ys) (cleanup (y ∷ ys)) clean in rw rest (ground (arith, e))
grow-cleanup (x ∷ xs) (suc n) txout clean exact e =
    grow_step x xs (cleanup (set xs n null_out)) n txout (exact.0)
      (grow-cleanup xs n txout (cleaned_rest x xs (cleanup xs) clean) (exact.1) e)

-- What holds of the outputs holds of the cleaned ones.
All-cleaned {κ} :
    (P : TxOut → Type κ) (txout : TxOut) (rest : List TxOut)
    → P txout
    → All P rest
    → All P (cleaned txout rest)
All-cleaned P txout [] h a = elim (Bool-cases (is_null txout)) [
  | inl e ↦ rw e tt
  | inr e ↦ rw e (h, tt)
]
All-cleaned P txout (y ∷ ys) h a = (h, a)

pub All-cleanup {κ} : (P : TxOut → Type κ) (vout : List TxOut) → All P vout → All P (cleanup vout)
unfolding cleanup
All-cleanup P [] a = tt
All-cleanup P (txout ∷ vout) a = All-cleaned P txout (cleanup vout) (a.0) (All-cleanup P vout (a.1))

pub All-set {κ} :
    (P : TxOut → Type κ) (vout : List TxOut) (n : ℕ) (txout : TxOut)
    → All P vout
    → P txout
    → All P (set vout n txout)
All-set P [] n txout a h = tt
All-set P (x ∷ xs) zero txout a h = (h, a.1)
All-set P (x ∷ xs) (suc n) txout a h = (a.0, All-set P xs n txout (a.1) h)

length-cleaned :
    (txout : TxOut) (rest : List TxOut) → length (cleaned txout rest) ≤ suc (length rest)
length-cleaned txout [] = ground arith
length-cleaned txout (y ∷ ys) = omega arith

pub length-cleanup : (vout : List TxOut) → length (cleanup vout) ≤ length vout
unfolding cleanup
length-cleanup [] = omega arith
length-cleanup (txout ∷ vout) =
    omega (arith, length-cleaned txout (cleanup vout), length-cleanup vout)

pub length-set :
    (vout : List TxOut) (n : ℕ) (txout : TxOut) → length (set vout n txout) ≡ length vout
length-set [] n txout = refl
length-set (x ∷ xs) zero txout = refl
length-set (x ∷ xs) (suc n) txout = ap suc (length-set xs n txout)

pub length-grow : (vout : List TxOut) (n : ℕ) → n ≤ length (grow vout n)
unfolding grow
length-grow vout zero = omega arith
length-grow [] (suc n) = omega (arith, length-grow [] n)
length-grow (txout ∷ vout) (suc n) = omega (arith, length-grow vout n)
