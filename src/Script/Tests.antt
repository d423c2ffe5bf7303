-- ===== src/Script/Tests.antt =====
-- Scripts at concrete values.
use dsvalue.Prelude.{List, ◌≡◌, refl, ◌++◌, [], ◌∷◌, some, ok, arith, replicate}
use dsvalue.Script.{push_data, get_bet_data, op_lotto}
use dsvalue.Script.BetData.{ScriptItem, op, push, script_of, get_bet_data-push_data}

-- OP_LOTTOUNSPEND, and a payment to a key behind it.
abbrev to_pool : List ScriptItem
to_pool = op 0xc2 ∷ op 0x76 ∷ op 0xa9 ∷ push (replicate 20 5) ∷ op 0x88 ∷ op 0xac ∷ []

get_bet_data-push_data_example :
    get_bet_data (script_of to_pool (op_lotto ∷ push_data (replicate 27 3) ++ (0x51 ∷ [])))
    ≡ ok (some (replicate 27 3))
get_bet_data-push_data_example =
    get_bet_data-push_data to_pool (replicate 27 3) (0x51 ∷ [])
      (
        omega arith,
        refl,
        (
          omega arith,
          refl,
          (omega arith, refl, (omega arith, (omega arith, refl, (omega arith, refl, tt)))),
        ),
      )
      (omega arith) (omega arith)
