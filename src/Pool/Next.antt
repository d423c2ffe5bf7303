-- ===== src/Pool/Next.antt =====
-- The map mapNextTx of the pool: what is found after a write, an erasure and the loops over the inputs
-- (src/txmempool.cpp).
use dsvalue.Prelude.{
  ℕ, zero, suc, ◌+◌, ◌≡◌, sym, refl, ap, ◌∙◌, Bool, true, false, ◌||◌, List, [], ◌∷◌, Option, none,
  some, if◌then◌else◌, any, get_elem?, arith, Bool-cases, inl, inr,
}
use dsvalue.Core.{OutPoint, TxIn, same_out_point}
use dsvalue.Pool.{
  InPoint, NextTx, find_next, put_next, erase_next, link_inputs, unlink_inputs, out_point_lt,
}

pub same_out_point→≡ : (a b : OutPoint) → same_out_point a b ≡ true → a ≡ b
same_out_point→≡ a b h = ground arith

pub same_out_point_refl : (a : OutPoint) → same_out_point a a ≡ true
same_out_point_refl a = ground arith

-- Two keys that are equal are found alike, and two that differ are not found together.
same_found :
    (o out j : OutPoint) → same_out_point o out ≡ true → same_out_point o j ≡ same_out_point out j
same_found o out j e = ap (λ (t : OutPoint). same_out_point t j) (same_out_point→≡ o out e)

not_both :
    (o out j : OutPoint)
    → same_out_point o out ≡ false
    → same_out_point out j ≡ true
    → same_out_point o j ≡ false
not_both o out j e h = rw (← same_out_point→≡ out j h) e

pub find_next-put_next :
    (out j : OutPoint) (q : InPoint) (m : NextTx)
    → find_next j (put_next out q m) ≡ (if same_out_point out j then some q else find_next j m)
find_next-put_next out j q [] = refl
find_next-put_next out j q ((o, r) ∷ m) = elim (Bool-cases (same_out_point o out)) [
  | inl e ↦
      rw (e, same_found o out j e)
        (elim (Bool-cases (same_out_point out j)) [ inl h ↦ rw h refl | inr h ↦ rw h refl ])
  | inr e ↦ elim (Bool-cases (out_point_lt out o)) [
    | inl l ↦ rw (e, l) refl
    | inr l ↦
        rw (e, l, find_next-put_next out j q m)
          (elim (Bool-cases (same_out_point out j)) [
            | inl h ↦ rw (h, not_both o out j e h) refl
            | inr h ↦ rw h refl
          ])
  ]
]

pub find_next-erase_next :
    (out j : OutPoint) (m : NextTx)
    → find_next j (erase_next out m) ≡ (if same_out_point out j then none else find_next j m)
find_next-erase_next out j [] = elim (Bool-cases (same_out_point out j)) [
  | inl h ↦ rw h refl
  | inr h ↦ rw h refl
]
find_next-erase_next out j ((o, r) ∷ m) = elim (Bool-cases (same_out_point o out)) [
  | inl e ↦
      rw (e, find_next-erase_next out j m, same_found o out j e)
        (elim (Bool-cases (same_out_point out j)) [ inl h ↦ rw h refl | inr h ↦ rw h refl ])
  | inr e ↦
      rw (e, find_next-erase_next out j m)
        (elim (Bool-cases (same_out_point out j)) [
          | inl h ↦ rw (h, not_both o out j e h) refl
          | inr h ↦ rw h refl
        ])
]

-- Whether an output is among those that the inputs spend.
abbrev pub spends : List TxIn → OutPoint → Bool
spends vin out = any (λ txin. same_out_point txin.prevout out) vin

pub find_next-unlink_inputs :
    (vin : List TxIn) (j : OutPoint) (m : NextTx)
    → find_next j (unlink_inputs vin m) ≡ (if spends vin j then none else find_next j m)
unfolding unlink_inputs
find_next-unlink_inputs [] j m = refl
find_next-unlink_inputs (txin ∷ vin) j m =
    rw
      (
        find_next-unlink_inputs vin j (erase_next txin.prevout m),
        find_next-erase_next txin.prevout j m,
      )
      (elim (Bool-cases (same_out_point txin.prevout j)) [
        | inl h ↦ rw h (both (spends vin j))
        | inr h ↦ rw h refl
      ])
  where
    both : (b : Bool) → ◌≡◌ {A = Option InPoint} (if b then none else none) none
    both true = refl
    both false = refl

-- What is found behind the loop was found before, and the inputs do not spend it.
pub find_next-unlink_cases :
    (vin : List TxIn) (j : OutPoint) (m : NextTx) {q : InPoint}
    → find_next j (unlink_inputs vin m) ≡ some q
    → (spends vin j ≡ false) × (find_next j m ≡ some q)
find_next-unlink_cases vin j m {q} h = elim (Bool-cases (spends vin j)) [
  | inl e ↦
      let gone : find_next j (unlink_inputs vin m) ≡ none =
        find_next-unlink_inputs vin j m ∙ rw e refl in
      absurd (cc)
  | inr e ↦
      let kept : find_next j (unlink_inputs vin m) ≡ find_next j m =
        find_next-unlink_inputs vin j m ∙ rw e refl in
      (e, sym kept ∙ h)
]

-- An output that the inputs spend is that of one of them.
pub spends-input :
    (vin : List TxIn) (out : OutPoint)
    → spends vin out ≡ true
    → (i : ℕ) × (txin : TxIn) × (get_elem? vin i ≡ some txin) × (txin.prevout ≡ out)
spends-input [] out h = cc
spends-input (txin ∷ vin) out h = elim (Bool-cases (same_out_point txin.prevout out)) [
  | inl e ↦ (0, txin, refl, same_out_point→≡ txin.prevout out e)
  | inr e ↦
      let (i, found, at, same) = spends-input vin out (rw (← h, e) refl) in (suc i, found, at, same)
]

pub input-spends :
    (vin : List TxIn) (i : ℕ) {txin : TxIn}
    → get_elem? vin i ≡ some txin
    → spends vin txin.prevout ≡ true
input-spends [] i e = cc
input-spends (x ∷ vin) zero {txin} e =
    let same : x ≡ txin = cc in rw (← same, same_out_point_refl x.prevout) refl
input-spends (x ∷ vin) (suc i) {txin} e = rw (input-spends vin i e) (or_true _)
  where
    or_true : (b : Bool) → (b || true) ≡ true
    or_true true = refl
    or_true false = refl

-- No output is spent twice by the inputs.
abbrev pub Distinct : List TxIn → Type 0
Distinct [] = Unit
Distinct (txin ∷ vin) = (spends vin txin.prevout ≡ false) × Distinct vin

-- Outputs that the inputs do not spend are as before.
pub find_next-link_inputs :
    (hash i : ℕ) (vin : List TxIn) (j : OutPoint) (m : NextTx)
    → spends vin j ≡ false
    → find_next j (link_inputs hash i vin m) ≡ find_next j m
unfolding link_inputs
find_next-link_inputs hash i [] j m h = refl
find_next-link_inputs hash i (txin ∷ vin) j m h =
    elim (Bool-cases (same_out_point txin.prevout j)) [
      | inl e ↦ absurd (taken e)
      | inr e ↦
          find_next-link_inputs hash (suc i) vin j _ (rw (← h, e) refl)
          ∙ rw (find_next-put_next txin.prevout j (record { ptx = hash; n = i }) m, e) refl
    ]
  where
    taken : same_out_point txin.prevout j ≡ true → ⊥
    taken e = let t = rw e at h in cc

at_index :
    (hash i k : ℕ)
    → i ≡ k
    → ◌≡◌ {A = Option InPoint}
        (some (record { ptx = hash; n = i }))
        (some (record { ptx = hash; n = k }))
at_index hash i k e = rw e refl

-- Each of the inputs is linked.
pub link_inputs-input :
    (hash i k : ℕ) (vin : List TxIn) (m : NextTx) {txin : TxIn}
    → Distinct vin
    → get_elem? vin k ≡ some txin
    → find_next txin.prevout (link_inputs hash i vin m) ≡ some (record { ptx = hash; n = i + k })
unfolding link_inputs
link_inputs-input hash i k [] m d e = cc
link_inputs-input hash i zero (x ∷ vin) m {txin} d e =
    let same : x ≡ txin = cc in
    rw
      (
        ← same,
        find_next-link_inputs hash (suc i) vin x.prevout
            (put_next x.prevout (record { ptx = hash; n = i }) m) d.0,
        find_next-put_next x.prevout x.prevout (record { ptx = hash; n = i }) m,
        same_out_point_refl x.prevout,
      )
      (at_index hash i (i + 0) (omega arith))
link_inputs-input hash i (suc k) (x ∷ vin) m d e =
    link_inputs-input hash (suc i) k vin _ d.1 e
    ∙ at_index hash (suc i + k) (i + suc k) (omega arith)
