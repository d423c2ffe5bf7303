-- ===== src/Chain/Connect/Loops.antt =====
-- The loops over the inputs of UpdateCoins and of DisconnectBlock, one after the other (src/main.cpp).
use dsvalue.Prelude.{suc, ◌≡◌, refl, ap, subst, true, List, [], ◌∷◌, ok, >>=-eq-ok, ok_inj, length}
use dsvalue.Core.{TxIn}
use dsvalue.Coins.{Coins, TxInUndo}
use dsvalue.Coins.View.{CoinsView, Cache, cache_view}
use dsvalue.Chain.Connect.{spend_inputs, restore_inputs}
use dsvalue.Chain.Connect.Inputs.{
  IsSame, AllSound, Shrinks, IsTaken, found-IsTaken, next, next-AllSound, next-Shrinks,
  restore-next,
}

module _ {S : Type 0} (v : CoinsView S) where
  -- What the loop of UpdateCoins leaves, and that the loop of DisconnectBlock takes it back.
  pub record IsUndone (c : Cache S) (vin : List TxIn) (undos : List TxInUndo) (c1 : Cache S)
      : Type 0 where
    pub sound : AllSound (cache_view v c1)
    pub shrinks : Shrinks (cache_view v c) (cache_view v c1)
    pub size : length undos ≡ length vin
    pub back :
        (c2 : Cache S)
        → IsSame (cache_view v c2) (cache_view v c1)
        → (c3 : Cache S) × (restore_inputs v (true, c2) vin undos ≡ ok (true, c3))
          × IsSame (cache_view v c3) (cache_view v c)

  take_back :
      (c : Cache S) (txin : TxIn) (vin : List TxIn) (spent : Coins × TxInUndo)
      (undos : List TxInUndo) (c1 : Cache S)
      → AllSound (cache_view v c)
      → (t : IsTaken v c txin spent) → IsUndone (next v c txin spent t) vin undos c1
      → IsUndone c (txin ∷ vin) (spent.1 ∷ undos) c1
  unfolding restore_inputs
  take_back c txin vin spent undos c1 s t u = record {
    sound = u.sound;
    shrinks = λ j dead. u.shrinks j (next-Shrinks v c txin spent t j dead);
    size = ap suc u.size;
    back = λ c2 same.
        let (c3, e, alive) = u.back c2 same in
        let (c4, e', alive') = restore-next v c txin spent t c3 s alive in (c4, rw e e', alive');
  }

  pub spend_inputs-IsUndone :
      (c : Cache S) (vin : List TxIn) (undos : List TxInUndo) (c1 : Cache S)
      → AllSound (cache_view v c)
      → spend_inputs v c vin ≡ ok (undos, c1)
      → IsUndone c vin undos c1
  unfolding spend_inputs
  spend_inputs-IsUndone c [] undos c1 s h =
      subst (λ (x : List TxInUndo × Cache S). IsUndone c [] (x.0) (x.1)) (ok_inj h)
        (record {
          sound = s;
          shrinks = λ j dead. dead;
          size = refl;
          back = λ c2 same. (c2, unfold restore_inputs in refl, same);
        })
  spend_inputs-IsUndone c (txin ∷ vin) undos c1 s h =
      let (spent, found, h1) = >>=-eq-ok _ _ h in
      let (rest, later, h2) = >>=-eq-ok _ _ h1 in
      let t = found-IsTaken v c txin spent found in
      let u =
        spend_inputs-IsUndone (next v c txin spent t) vin (rest.0) (rest.1)
          (next-AllSound v c txin spent t s) later in
      subst (λ (x : List TxInUndo × Cache S). IsUndone c (txin ∷ vin) (x.0) (x.1)) (ok_inj h2)
        (take_back c txin vin spent (rest.0) (rest.1) s t u)
