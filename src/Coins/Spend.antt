-- ===== src/Coins/Spend.antt =====
-- What CCoins::Spend does to the outputs of a transaction (src/coins.cpp).
use dsvalue.Prelude.{
  ℕ, zero, suc, ◌≡◌, ◌≢◌, ◌⊎◌, refl, sym, ap, Bool-cases, inl, inr, ◌&&◌, ◌∙◌, true, false, List,
  [], ◌∷◌, none, some, if◌then◌else◌, ◌==◌, get_elem?, set, arith,
}
use dsvalue.Core.{TxOut}
use dsvalue.Coins.{
  is_null, null_out, Coins, cleaned, cleanup, is_available, is_pruned, TxInUndo, undo_of, spend,
}

available-cleaned :
    (txout : TxOut) (rest : List TxOut) (j : ℕ)
    → is_available (cleaned txout rest) j ≡ is_available (txout ∷ rest) j
unfolding is_available
available-cleaned txout [] zero = ground arith
available-cleaned txout [] (suc j) = ground arith
available-cleaned txout (y ∷ ys) j = refl

available_cons :
    (txout : TxOut) (xs ys : List TxOut)
    → ((j : ℕ) → is_available xs j ≡ is_available ys j)
    → (j : ℕ) → is_available (txout ∷ xs) j ≡ is_available (txout ∷ ys) j
unfolding is_available
available_cons txout xs ys h zero = refl
available_cons txout xs ys h (suc j) = h j

-- Dropping the spent outputs at the end changes no answer.
pub is_available-cleanup :
    (vout : List TxOut) (j : ℕ) → is_available (cleanup vout) j ≡ is_available vout j
unfolding cleanup
is_available-cleanup [] j = refl
is_available-cleanup (txout ∷ vout) j =
    available-cleaned txout (cleanup vout) j
    ∙ available_cons txout (cleanup vout) vout (is_available-cleanup vout) j

suc_test : (j n : ℕ) → (suc j == suc n) ≡ (j == n)
suc_test j n = ground arith

pub is_available-set :
    (vout : List TxOut) (n j : ℕ)
    → is_available (set vout n null_out) j ≡ (if j == n then false else is_available vout j)
unfolding is_available
is_available-set [] n j = ground arith
is_available-set (txout ∷ vout) zero zero = ground arith
is_available-set (txout ∷ vout) zero (suc j) = ground arith
is_available-set (txout ∷ vout) (suc n) zero = ground arith
is_available-set (txout ∷ vout) (suc n) (suc j) = rw (suc_test j n) (is_available-set vout n j)

cleanup-cleaned :
    (txout : TxOut) (rest : List TxOut)
    → cleanup rest ≡ rest
    → cleanup (cleaned txout rest) ≡ cleaned txout rest
unfolding cleanup
cleanup-cleaned txout [] h = ground arith
cleanup-cleaned txout (y ∷ ys) h = ap (cleaned txout) h

pub cleanup-cleanup : (vout : List TxOut) → cleanup (cleanup vout) ≡ cleanup vout
unfolding cleanup
cleanup-cleanup [] = refl
cleanup-cleanup (txout ∷ vout) = cleanup-cleaned txout (cleanup vout) (cleanup-cleanup vout)

-- Outputs that are cleaned and not empty have one that is not spent.
pub is_pruned-cleanup : (vout : List TxOut) → is_pruned (cleanup vout) ≡ is_pruned vout
unfolding cleanup is_pruned
is_pruned-cleanup [] = refl
is_pruned-cleanup (txout ∷ vout) =
    cleaned_pruned txout (cleanup vout) ∙ ap (λ b. is_null txout && b) (is_pruned-cleanup vout)
  where
    cleaned_pruned :
        (txout : TxOut) (rest : List TxOut)
        → is_pruned (cleaned txout rest) ≡ (is_null txout && is_pruned rest)
    cleaned_pruned txout [] = ground arith
    cleaned_pruned txout (y ∷ ys) = refl

pub pruned-clean : (vout : List TxOut) → is_pruned vout ≡ true → cleanup vout ≡ []
unfolding cleanup is_pruned
pruned-clean [] h = refl
pruned-clean (txout ∷ vout) h = elim (Bool-cases (is_null txout)) [
  | inl e ↦ rw (pruned-clean vout (ground (arith, e)), e) refl
  | inr e ↦ absurd (ground (arith, e))
]

-- Outputs that are not pruned have one that is available.
left_available :
    (vout : List TxOut) → is_pruned vout ≡ false → (j : ℕ) × (is_available vout j ≡ true)
unfolding is_pruned is_available
left_available [] h = absurd (cc)
left_available (txout ∷ vout) h = elim (Bool-cases (is_null txout)) [
  | inr e ↦ (0, ground (arith, e))
  | inl e ↦ let (j, there) = left_available vout (ground (arith, e)) in (suc j, there)
]

not_empty : (vout : List TxOut) (j : ℕ) → is_available vout j ≡ true → vout ≢ []
unfolding is_available
not_empty vout j h e = ground (arith, rw e at h)

last_undo :
    (c : Coins) (txout : TxOut) (rest : List TxOut)
    → rest ≡ []
    → undo_of c txout rest ≡ undo_of c txout []
last_undo c txout rest e = ap (undo_of c txout) e

undo-txout : (c : Coins) (txout : TxOut) (rest : List TxOut) → (undo_of c txout rest).txout ≡ txout
undo-txout c txout [] = refl
undo-txout c txout (x ∷ xs) = refl

bare_undo :
    (c : Coins) (txout : TxOut) (rest : List TxOut)
    → rest ≢ []
    → ((undo_of c txout rest).f_coin_base ≡ false)
      × ((undo_of c txout rest).n_height ≡ 0)
      × ((undo_of c txout rest).n_version ≡ 0)
bare_undo c txout [] h = absurd (h refl)
bare_undo c txout (x ∷ xs) h = (refl, refl, refl)

-- Spend on an available output takes it away: it is no longer available, the others are as before, and
-- the undo information has the output. Either no output is left and the list of the outputs is empty,
-- and then the undo information has the height, the version and whether the transaction was a
-- coinbase; or an output is left that is available, and then these are 0 and false in it.
pub spend-is_available :
    (c : Coins) (n : ℕ) (txout : TxOut)
    → get_elem? c.vout n ≡ some txout
    → is_available c.vout n ≡ true
    → (rest : List TxOut) × (undo : TxInUndo) × (spend c n ≡ some (record c { vout = rest }, undo))
      × ((j : ℕ) → is_available rest j ≡ (if j == n then false else is_available c.vout j))
      × (undo.txout ≡ txout)
      × (((rest ≡ [])
            × (undo.f_coin_base ≡ c.f_coin_base)
            × (undo.n_height ≡ c.n_height)
            × (undo.n_version ≡ c.n_version))
          ⊎ (((j : ℕ) × (is_available rest j ≡ true))
              × (undo.f_coin_base ≡ false)
              × (undo.n_height ≡ 0)
              × (undo.n_version ≡ 0)))
spend-is_available c n txout e a =
    let vout = set c.vout n null_out in
    let rest = cleanup vout in
    (
      rest,
      undo_of c txout rest,
      unfold spend is_available in ground (arith, e),
      λ j. is_available-cleanup vout j ∙ is_available-set c.vout n j,
      undo-txout c txout rest,
      elim (Bool-cases (is_pruned rest)) [
        | inl gone ↦
            let empty = sym (cleanup-cleanup vout) ∙ pruned-clean rest gone in
            let whole = last_undo c txout rest empty in
            inl (
              empty,
              ap (λ (u : TxInUndo). u.f_coin_base) whole,
              ap (λ (u : TxInUndo). u.n_height) whole,
              ap (λ (u : TxInUndo). u.n_version) whole,
            )
        | inr kept ↦
            let (j, there) = left_available rest kept in
            let (coinbase, height, version) = bare_undo c txout rest (not_empty rest j there) in
            inr ((j, there), coinbase, height, version)
      ],
    )

-- Spend refuses an output that is not available, spent or out of range.
pub spend-refused : (c : Coins) (n : ℕ) → is_available c.vout n ≡ false → spend c n ≡ none
spend-refused c n a = unfold spend is_available in ground arith
