-- ===== src/Chain/Transactions/WellFormed.antt =====
-- The transactions that CheckTransaction accepts (src/main.cpp).
use dsvalue.Prelude.{
  ◌≤◌, ◌≡◌, ◌≢◌, ◌↔◌, refl, Bool, true, false, ◌||◌, List, [], ◌∷◌, Result, ok, if◌then◌else◌, ltb,
  length, arith, All, Bool-cases, inl, inr,
}
use dsvalue.Prelude.Int.{pos}
use dsvalue.Core.{OutPoint, TxIn, Transaction, max_money, same_out_point}
use dsvalue.Core.Value.{value_sum, InRange}
use dsvalue.Coins.{is_coin_base}
use dsvalue.Pool.Next.{same_out_point→≡}
use dsvalue.Chain.Verdict.{Verdict, accepted, refuse_if, refuse_if_iff}
use dsvalue.Chain.Transactions.Outputs.{check_outs_iff}
use dsvalue.Chain.Transactions.{
  get_serialize_size, max_block_size, check_outs, count_point, check_duplicates, is_null_point,
  check_prevouts, check_coinbase, no_elements, check_transaction,
}

-- The prevouts are all different.
abbrev pub IsDistinct : List TxIn → Type 0
IsDistinct [] = Unit
IsDistinct (txin ∷ vin) = All (λ later. later.prevout ≢ txin.prevout) vin × IsDistinct vin

-- No input is one that was seen.
abbrev IsUnseen : List OutPoint → List TxIn → Type 0
IsUnseen seen vin = All (λ txin. count_point txin.prevout seen ≡ false) vin

different : (a b : OutPoint) → same_out_point a b ≡ false → a ≢ b
different a b h e = ground arith

same-false : (a b : OutPoint) → a ≢ b → same_out_point a b ≡ false
same-false a b h = elim (Bool-cases (same_out_point a b)) [
  | inl e ↦ absurd (h (same_out_point→≡ a b e))
  | inr e ↦ e
]

neither : (a b : Bool) → (a || b) ≡ false → (a ≡ false) × (b ≡ false)
neither true b h = cc
neither false b h = (refl, h)

-- A point more that was seen.
split_at_point :
    (point : OutPoint) (seen : List OutPoint) (vin : List TxIn)
    → IsUnseen (point ∷ seen) vin ↔ (IsUnseen seen vin × All (λ later. later.prevout ≢ point) vin)
split_at_point point seen [] = (λ u. (tt, tt), λ p. tt)
split_at_point point seen (txin ∷ vin) =
    let (there, back) = split_at_point point seen vin in
    (
      λ u.
          let (fresh, apart) = neither (same_out_point txin.prevout point) _ (u.0) in
          let (unseen, others) = there (u.1) in
          ((apart, unseen), (different txin.prevout point fresh, others)),
      λ p. (ground (arith, same-false txin.prevout point p.1.0, p.0.0), back (p.0.1, p.1.1)),
    )

check_duplicates_iff :
    (seen : List OutPoint) (vin : List TxIn) (rest : Result Verdict)
    → (check_duplicates seen vin rest ≡ ok accepted)
      ↔ (IsUnseen seen vin × IsDistinct vin × (rest ≡ ok accepted))
unfolding check_duplicates
check_duplicates_iff seen [] rest = (λ e. (tt, tt, e), λ p. p.2)
check_duplicates_iff seen (txin ∷ vin) rest =
    let test = count_point txin.prevout seen in
    let (tested, testing) =
      refuse_if_iff test 100 (check_duplicates (txin.prevout ∷ seen) vin rest) in
    let (there, back) = check_duplicates_iff (txin.prevout ∷ seen) vin rest in
    let (split, join) = split_at_point txin.prevout seen vin in
    (
      λ e.
          let (fresh, e1) = tested e in
          let (unseen, distinct, done) = there e1 in
          let (earlier, apart) = split unseen in ((fresh, earlier), (apart, distinct), done),
      λ p. testing (p.0.0, back (join (p.0.1, p.1.0), p.1.1, p.2)),
    )

check_prevouts_iff :
    (vin : List TxIn)
    → (check_prevouts vin ≡ ok accepted) ↔ All (λ txin. is_null_point txin.prevout ≡ false) vin
unfolding check_prevouts
check_prevouts_iff [] = (λ e. tt, λ p. refl)
check_prevouts_iff (txin ∷ vin) =
    let (tested, testing) = refuse_if_iff (is_null_point txin.prevout) 10 (check_prevouts vin) in
    let (there, back) = check_prevouts_iff vin in
    (λ e. let (test, e1) = tested e in (test, there e1), λ p. testing (p.0, back (p.1)))

-- The script of the only input of a coinbase has 2 to 100 bytes.
abbrev pub IsShortScript : List TxIn → Type 0
IsShortScript [] = ⊥
IsShortScript (txin ∷ vin) = (2 ≤ length txin.script_sig) × (length txin.script_sig ≤ 100)

check_coinbase_iff : (vin : List TxIn) → (check_coinbase vin ≡ ok accepted) ↔ IsShortScript vin
check_coinbase_iff [] = (λ e. absurd (ground arith), λ p. absurd p)
check_coinbase_iff (txin ∷ vin) = (λ e. (ground arith, ground arith), λ p. ground (arith, p.0, p.1))

-- What the last part asks of the inputs.
abbrev pub HasGoodInputs : Transaction → Type 0
HasGoodInputs tx =
    if is_coin_base tx
    then IsShortScript tx.vin
    else All (λ txin. is_null_point txin.prevout ≡ false) tx.vin

check_base_iff :
    (tx : Transaction)
    → ((if is_coin_base tx then check_coinbase tx.vin else check_prevouts tx.vin) ≡ ok accepted)
      ↔ HasGoodInputs tx
check_base_iff tx = elim (Bool-cases (is_coin_base tx)) [
  | inl b ↦ rw b (check_coinbase_iff tx.vin)
  | inr b ↦ rw b (check_prevouts_iff tx.vin)
]

-- A transaction that is fit to be looked at: it has inputs and outputs and fits into a block, the values
-- of its outputs and their sum are amounts of money, and no two inputs spend the same output.
pub record IsWellFormed (tx : Transaction) : Type 0 where
  pub has_inputs : no_elements tx.vin ≡ false
  pub has_outputs : no_elements tx.vout ≡ false
  pub fits : get_serialize_size tx ≤ max_block_size
  pub values : All InRange tx.vout
  pub sum : value_sum tx.vout ≤ max_money
  pub distinct : IsDistinct tx.vin
  pub good_inputs : HasGoodInputs tx

none_before : (vin : List TxIn) → IsUnseen [] vin
none_before [] = tt
none_before (txin ∷ vin) = (refl, none_before vin)

-- CheckTransaction accepts exactly the transactions that have inputs and outputs, fit into a block, pay
-- values that are amounts of money and have such a sum, spend no output twice, and spend no null output
-- or, for a coinbase, have a script of 2 to 100 bytes.
pub check_transaction-IsWellFormed :
    (tx : Transaction) → (check_transaction tx ≡ ok accepted) ↔ IsWellFormed tx
unfolding check_transaction
check_transaction-IsWellFormed tx =
    let base = if is_coin_base tx then check_coinbase tx.vin else check_prevouts tx.vin in
    let inputs = check_duplicates [] tx.vin base in
    let outputs = check_outs tx.vout (pos 0) inputs in
    let big = ltb max_block_size (get_serialize_size tx) in
    let sized = refuse_if big 100 outputs in
    let paying = refuse_if (no_elements tx.vout) 10 sized in
    let spending_iff = refuse_if_iff (no_elements tx.vin) 10 paying in
    let paying_iff = refuse_if_iff (no_elements tx.vout) 10 sized in
    let sized_iff = refuse_if_iff big 100 outputs in
    let outputs_iff = check_outs_iff tx.vout 0 inputs (omega arith) in
    let inputs_iff = check_duplicates_iff [] tx.vin base in
    (
      λ e.
          let (has_ins, e1) = spending_iff.0 e in
          let (has_outs, e2) = paying_iff.0 e1 in
          let (small, e3) = sized_iff.0 e2 in
          let (all, total, e4) = outputs_iff.0 e3 in
          let (unseen, apart, e5) = inputs_iff.0 e4 in
          record {
            has_inputs = has_ins;
            has_outputs = has_outs;
            fits = ground arith;
            values = all;
            sum = omega (arith, total);
            distinct = apart;
            good_inputs = (check_base_iff tx).0 e5;
          },
      λ w. spending_iff.1 (
        w.has_inputs,
        paying_iff.1 (
          w.has_outputs,
          sized_iff.1 (
            ground (arith, w.fits),
            outputs_iff.1 (
              w.values,
              omega (arith, w.sum),
              inputs_iff.1 (none_before tx.vin, w.distinct, (check_base_iff tx).1 w.good_inputs),
            ),
          ),
        ),
      ),
    )
