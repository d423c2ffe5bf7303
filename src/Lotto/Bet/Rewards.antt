-- ===== src/Lotto/Bet/Rewards.antt =====
-- The reward map that both kinds of bets fill: what it holds after counting and scaling.
use native.Mathlib.Nat.{le_trans, mul_assoc, mul-le-mul_right, mul-div-le}
use dsvalue.Prelude.{
  Bool-cases, ==_iff, ℕ, ◌*◌, ◌/◌, ◌^◌, ◌≤◌, ◌<◌, ◌≡◌, refl, ◌&&◌, Option, none, some, arith, ◌==◌,
  if◌then◌else◌, Option-cases, inl, inr,
}
use dsvalue.Prelude.Int.{ℤ, pos, mul64, mul64-pos, ltb_ℤ}
use dsvalue.Prelude.Map.{Map, lookup, lookup-insert}
use dsvalue.Lotto.Bet.{put_reward, scale_reward}

pub lookup-put_reward :
    (j t : ℕ) (k : ℤ) (m : Map ℤ)
    → lookup j (put_reward t k m) ≡ (if t == j && ltb_ℤ (pos 0) k then some k else lookup j m)
unfolding put_reward
lookup-put_reward j t k m = ground (arith, lookup-insert j t k m)

-- What `rewardmap[type] *= npeerBetValue` makes of an entry.
abbrev pub times : ℤ → Option ℤ → Option ℤ
times peer none = none
times peer (some k) = some (mul64 k peer)

pub lookup-scale_reward :
    (j t : ℕ) (peer : ℤ) (m : Map ℤ)
    → lookup j (scale_reward t peer m) ≡ (if t == j then times peer (lookup j m) else lookup j m)
unfolding scale_reward
lookup-scale_reward j t peer m = elim (Bool-cases (t == j)) [
  | inl q ↦ rw ((==_iff t j).0 q) (same (lookup j m) refl)
  | inr q ↦ elim (Option-cases (lookup t m)) [
    | inl e ↦ ground (arith, e)
    | inr (k, e) ↦ ground (arith, e, lookup-insert j t (mul64 k peer) m)
  ]
]
  where
    same :
        (o : Option ℤ)
        → lookup j m ≡ o
        → lookup j (scale_reward j peer m)
          ≡ (if j == j then times peer (lookup j m) else lookup j m)
    same none e = ground (arith, e)
    same (some k) e = ground (arith, e, lookup-insert j j (mul64 k peer) m)

-- The entry of a prize level: `count` winning combinations, each worth `peer`.
abbrev pub prize : ℕ → ℕ → Option ℤ
prize count peer = if count == 0 then none else some (pos (count * peer))

-- An entry that was counted and then scaled, where the product fits.
pub counted_prize :
    (count peer : ℕ)
    → count * peer < 2 ^ 63
    → times (pos peer) (if ltb_ℤ (pos 0) (pos count) then some (pos count) else none)
      ≡ prize count peer
counted_prize count peer h = ground (arith, mul64-pos count peer h)

-- The winning combinations are some of all combinations, so their prizes stay within the stake.
pub share-le : (count total v : ℕ) → count ≤ total → count * (v / total) ≤ v
share-le count total v h = le_trans (mul-le-mul_right (v / total) h) (mul-div-le v total)

pub triple_share-le : (count total v : ℕ) → count ≤ 3 * total → count * (v / total) ≤ 3 * v
triple_share-le count total v h = le_trans (mul-le-mul_right (v / total) h) regroup
  where
    regroup : 3 * total * (v / total) ≤ 3 * v
    regroup = rw (mul_assoc 3 total (v / total)) (omega (arith, mul-div-le v total))
