-- ===== src/Chain/Connect/Restore.antt =====
-- Coins that are spent and restored (src/coins.cpp: CCoins::Spend; src/main.cpp: DisconnectBlock).
use dsvalue.Prelude.{
  ℕ, zero, suc, ◌+◌, ◌%◌, ◌^◌, ◌<◌, ◌≡◌, ◌⊎◌, refl, sym, ap, ◌∙◌, subst, true, false, List, [], ◌∷◌,
  Option, none, some, ok, ltb, ◌==◌, length, get_elem?, set, All, arith, Bool-cases, Option-cases,
  inl, inr,
}
use dsvalue.Core.{TxOut}
use dsvalue.Coins.{
  is_null, null_out, Coins, cleanup, is_pruned, is_available, TxInUndo, undo_of, spend,
}
use dsvalue.Coins.Spend.{is_available-cleanup, is_available-set, cleanup-cleanup, pruned-clean}
use dsvalue.Coins.View.{live}
use dsvalue.Chain.Connect.{grow, or_empty, write_back, restore_coins}
use dsvalue.Chain.Connect.Outputs.{
  IsExact, grow-cleanup, All-cleanup, All-set, length-cleanup, length-set, length-grow,
}

-- Coins as a node keeps them: with no spent output at the end, nothing left in a spent output, a height
-- above that of the genesis block, and a number of outputs that fits an unsigned int.
pub record IsSound (coins : Coins) : Type 0 where
  pub clean : cleanup coins.vout ≡ coins.vout
  pub exact : All IsExact coins.vout
  pub above : 0 < coins.n_height
  pub short : length coins.vout < 2 ^ 32

-- What Spend has found and left.
pub record IsSpent (c : Coins) (n : ℕ) (c' : Coins) (u : TxInUndo) : Type 0 where
  pub txout : TxOut
  pub found : get_elem? c.vout n ≡ some txout
  pub unspent : is_null txout ≡ false
  pub coins_left : c' ≡ record c { vout = cleanup (set c.vout n null_out) }
  pub undo_made : u ≡ undo_of c txout (cleanup (set c.vout n null_out))

some_pair : {A B : Type 0} (p q : A × B) → some p ≡ some q → (q.0 ≡ p.0) × (q.1 ≡ p.1)
some_pair p q h = (cc, cc)

pub spend-IsSpent :
    (c : Coins) (n : ℕ) (c' : Coins) (u : TxInUndo) → spend c n ≡ some (c', u) → IsSpent c n c' u
unfolding spend
spend-IsSpent c n c' u h = elim (Option-cases (get_elem? c.vout n)) [
  | inl e ↦ let t = rw (spend, e) at h in absurd (ground arith)
  | inr (txout, e) ↦
      let h1 = rw (spend, e) at h in
      elim (Bool-cases (is_null txout)) [
        | inl gone ↦ let t = rw gone at h1 in absurd (ground arith)
        | inr there ↦
            let (left, made) = some_pair _ (c', u) (rw there at h1) in
            record {
              txout = txout;
              found = e;
              unspent = there;
              coins_left = left;
              undo_made = made;
            }
      ]
]

pub spent-IsSound :
    (c : Coins) (n : ℕ) (c' : Coins) (u : TxInUndo) → IsSound c → IsSpent c n c' u → IsSound c'
spent-IsSound c n c' u s p =
    let vout = set c.vout n null_out in
    subst IsSound (sym p.coins_left) (record {
      clean = cleanup-cleanup vout;
      exact = All-cleanup IsExact vout (All-set IsExact c.vout n null_out s.exact (λ e. refl));
      above = s.above;
      short = omega (arith, length-cleanup vout, length-set c.vout n null_out, s.short);
    })

found-lt-length :
    (vout : List TxOut) (n : ℕ) (txout : TxOut) → get_elem? vout n ≡ some txout → n < length vout
found-lt-length [] n txout h = absurd (ground arith)
found-lt-length (x ∷ xs) zero txout h = omega arith
found-lt-length (x ∷ xs) (suc n) txout h = omega (arith, found-lt-length xs n txout h)

-- Written back into what Spend left, the output makes the outputs from before.
write_back-spent :
    (c : Coins) (n : ℕ) (txout : TxOut)
    → IsSound c
    → get_elem? c.vout n ≡ some txout
    → write_back (cleanup (set c.vout n null_out)) n txout ≡ ok c.vout
write_back-spent c n txout s e =
    let rest = cleanup (set c.vout n null_out) in
    let below = found-lt-length c.vout n txout e in
    let size : (n + 1) % 2 ^ 32 ≡ suc n = omega (arith, below, s.short) in
    let room : ltb n (length (grow rest (suc n))) ≡ true =
      ground (arith, length-grow rest (suc n)) in
    rw (size, room) (ap (λ (l : List TxOut). ok l) (grow-cleanup c.vout n txout s.clean s.exact e))

-- The coins left by Spend, in their two forms: an undo entry has the metadata exactly when they are
-- pruned.
restore_rest :
    (c d : Coins) (n : ℕ) (txout : TxOut) (rest : List TxOut)
    → 0 < c.n_height
    → is_available rest n ≡ false
    → write_back rest n txout ≡ ok c.vout
    → ((rest ≡ []) × (is_pruned d.vout ≡ true))
      ⊎ ((is_pruned rest ≡ false) × (d ≡ record c { vout = rest }))
    → restore_coins d n (undo_of c txout rest) ≡ ok (c, true)
unfolding restore_coins
restore_rest c d n txout [] above gone back (inl (e, pruned)) =
    let high : (c.n_height == 0) ≡ false = ground arith in rw (high, back, pruned, gone) refl
restore_rest c d n txout [] above gone back (inr (live_one, e)) =
    unfold is_pruned in absurd (ground arith)
restore_rest c d n txout (y ∷ ys) above gone back (inl (e, pruned)) = absurd (ground arith)
restore_rest c d n txout (y ∷ ys) above gone back (inr (live_one, e)) =
    rw (e, back, live_one, gone) refl

pub live-none : (d : Option Coins) → live d ≡ none → is_pruned (or_empty d).vout ≡ true
live-none none h = unfold is_pruned in refl
live-none (some coins) h = ground arith

pub live-some :
    (d : Option Coins) (coins : Coins)
    → live d ≡ live (some coins)
    → is_pruned coins.vout ≡ false
    → or_empty d ≡ coins
live-some none coins h unspent = absurd (ground (arith, unspent))
live-some (some coins') coins h unspent = ground (arith, unspent)

-- Coins that Spend has taken an output from come back, from any entry that is alive in the same way:
-- the undo entry fits, and restores them.
pub restore-spent :
    (c : Coins) (n : ℕ) (c' : Coins) (u : TxInUndo) (d : Option Coins)
    → IsSound c
    → IsSpent c n c' u
    → live d ≡ live (some c')
    → restore_coins (or_empty d) n u ≡ ok (c, true)
restore-spent c n c' u d s p same =
    let vout = set c.vout n null_out in
    let rest = cleanup vout in
    let left : Coins = record c { vout = rest } in
    let gone : is_available rest n ≡ false =
      is_available-cleanup vout n ∙ is_available-set c.vout n n ∙ ground arith in
    let back = write_back-spent c n p.txout s p.found in
    let same' : live d ≡ live (some left) = same ∙ ap (λ (x : Coins). live (some x)) p.coins_left in
    let cases : ((rest ≡ []) × (is_pruned (or_empty d).vout ≡ true))
        ⊎ ((is_pruned rest ≡ false) × (or_empty d ≡ left)) =
      elim (Bool-cases (is_pruned rest)) [
        | inl pruned ↦ inl (
          sym (cleanup-cleanup vout) ∙ pruned-clean rest pruned,
          live-none d (same' ∙ rw pruned refl),
        )
        | inr unspent ↦ inr (unspent, live-some d left same' unspent)
      ] in
    subst (λ (x : TxInUndo). restore_coins (or_empty d) n x ≡ ok (c, true)) (sym p.undo_made)
      (restore_rest c (or_empty d) n p.txout rest s.above gone back cases)

-- Coins with an output that is not spent are not pruned.
pub found-is_pruned :
    (vout : List TxOut) (n : ℕ) (txout : TxOut)
    → get_elem? vout n ≡ some txout
    → is_null txout ≡ false
    → is_pruned vout ≡ false
unfolding is_pruned
found-is_pruned [] n txout e h = absurd (ground arith)
found-is_pruned (x ∷ xs) zero txout e h = ground arith
found-is_pruned (x ∷ xs) (suc n) txout e h = ground (arith, found-is_pruned xs n txout e h)
