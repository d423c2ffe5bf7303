-- ===== src/Script/BetData.antt =====
-- The search for the bet of a script.
use dsvalue.Prelude.{
  ℕ, zero, suc, ◌^◌, ◌≤◌, ◌<◌, ◌≡◌, refl, ◌++◌, List, [], ◌∷◌, Option, none, some, ok, Option-cases,
  arith, Bool-cases, inl, inr, if◌then◌else◌, ◌&&◌, ltb, ◌==◌, length, drop, ◌+◌, Bool, true, false,
  ◌∙◌,
}
use dsvalue.Script.{get_op, push_data, read_size, op_lotto, bet_data_from, get_bet_data}
use dsvalue.Script.Push.{push_opcode, get_op-push_data}

length-drop-le : (n : ℕ) (xs : List ℕ) → length (drop n xs) ≤ length xs
length-drop-le zero xs = omega arith
length-drop-le (suc n) [] = omega arith
length-drop-le (suc n) (x ∷ xs) = omega (arith, length-drop-le n xs)

read_size-le :
    (opcode size : ℕ) (pc rest : List ℕ)
    → read_size opcode pc ≡ some (size, rest)
    → length rest ≤ length pc
unfolding read_size
read_size-le opcode size [] rest h = ground arith
read_size-le opcode size (a ∷ []) rest h = ground arith
read_size-le opcode size (a ∷ b ∷ []) rest h = ground arith
read_size-le opcode size (a ∷ b ∷ c ∷ []) rest h = ground arith
read_size-le opcode size (a ∷ b ∷ c ∷ d ∷ xs) rest h = ground arith

-- GetOp leaves a shorter script.
pub get_op-shorter :
    (opcode : ℕ) (script operand rest : List ℕ)
    → get_op script ≡ some (opcode, operand, rest)
    → length rest < length script
unfolding get_op
get_op-shorter opcode [] operand rest h = cc
get_op-shorter opcode (op ∷ pc) operand rest h = elim (Option-cases (read_size op pc)) [
  | inl e ↦ ground arith
  | inr ((size, left), e) ↦ ground (arith, read_size-le op size pc left e, length-drop-le size left)
]

enough_fuel :
    (fuel count : ℕ) (script : List ℕ)
    → length script ≤ fuel
    → (r : Option (List ℕ)) × (bet_data_from fuel count script ≡ ok r)
unfolding bet_data_from
enough_fuel fuel count [] h = (none, refl)
enough_fuel zero count (x ∷ xs) h = absurd (omega arith)
enough_fuel (suc fuel) count (x ∷ xs) h = elim (Option-cases (get_op (x ∷ xs))) [
  | inl e ↦ (none, ground arith)
  | inr ((opcode, operand, rest), e) ↦
      let shorter = get_op-shorter opcode (x ∷ xs) operand rest e in
      let counted = if ltb 0x60 opcode then suc count else count in
      let (r, later) = enough_fuel fuel counted rest (omega arith) in
      elim (Bool-cases (ltb 0x60 opcode && ltb 201 counted)) [
        | inl stop ↦ (none, ground arith)
        | inr more ↦ elim (Bool-cases (opcode == op_lotto)) [
          | inl lotto ↦
              (elim (get_op rest) [ none ↦ none | some (_, bet, _) ↦ some bet ], ground arith)
          | inr other ↦ (r, ground arith)
        ]
      ]
]

-- GetBetData returns on every script.
pub get_bet_data-total : (script : List ℕ) → (r : Option (List ℕ)) × (get_bet_data script ≡ ok r)
unfolding get_bet_data
get_bet_data-total script = enough_fuel (length script) 0 script (omega arith)

-- The count of operations behind an opcode, and whether it is above the limit.
abbrev count_behind : ℕ → ℕ → ℕ
count_behind opcode count = if ltb 0x60 opcode then suc count else count

abbrev above_limit : ℕ → ℕ → Bool
above_limit opcode count = ltb 0x60 opcode && ltb 201 (count_behind opcode count)

-- An operation other than OP_LOTTO is passed.
pub bet_data_from-pass :
    (fuel count opcode : ℕ) (script operand rest : List ℕ)
    → length script ≤ suc fuel
    → get_op script ≡ some (opcode, operand, rest)
    → above_limit opcode count ≡ false
    → (opcode == op_lotto) ≡ false
    → bet_data_from (suc fuel) count script ≡ bet_data_from fuel (count_behind opcode count) rest
unfolding bet_data_from
bet_data_from-pass fuel count opcode [] operand rest h e more other =
    absurd (omega (arith, get_op-shorter opcode [] operand rest e))
bet_data_from-pass fuel count opcode (x ∷ xs) operand rest h e more other =
    rw (bet_data_from, e, more, other) refl

-- OP_LOTTO ends the search, with the operand of what stands behind it.
pub bet_data_from-found :
    (fuel count opcode opcode' : ℕ) (script operand rest bet rest' : List ℕ)
    → get_op script ≡ some (opcode, operand, rest)
    → above_limit opcode count ≡ false
    → (opcode == op_lotto) ≡ true
    → get_op rest ≡ some (opcode', bet, rest')
    → bet_data_from (suc fuel) count script ≡ ok (some bet)
unfolding bet_data_from
bet_data_from-found fuel count opcode opcode' [] operand rest bet rest' e more lotto e' =
    absurd (omega (arith, get_op-shorter opcode [] operand rest e))
bet_data_from-found fuel count opcode opcode' (x ∷ xs) operand rest bet rest' e more lotto e' =
    rw (bet_data_from, e, more, lotto, e') refl

-- What a script is put together of: operations that push nothing, and data that is pushed.
pub data ScriptItem : Type 0 where
  op : ℕ → ScriptItem
  push : List ℕ → ScriptItem

abbrev pub script_of : List ScriptItem → List ℕ → List ℕ
script_of [] behind = behind
script_of (op opcode ∷ items) behind = opcode ∷ script_of items behind
script_of (push bytes ∷ items) behind = push_data bytes ++ script_of items behind

-- How many of the items count as operations: those above OP_16.
abbrev pub counted : List ScriptItem → ℕ
counted [] = 0
counted (op opcode ∷ items) = if ltb 0x60 opcode then suc (counted items) else counted items
counted (push bytes ∷ items) = counted items

-- Opcodes that push no data of the script and are not OP_LOTTO, and data of fewer than 2^32 bytes.
abbrev pub IsBeforeLotto : List ScriptItem → Type 0
IsBeforeLotto [] = Unit
IsBeforeLotto (op opcode ∷ items) =
    (0x4e < opcode) × ((opcode == op_lotto) ≡ false) × IsBeforeLotto items
IsBeforeLotto (push bytes ∷ items) = (length bytes < 2 ^ 32) × IsBeforeLotto items

get_op-plain :
    (opcode : ℕ) (rest : List ℕ) → 0x4e < opcode → get_op (opcode ∷ rest) ≡ some (opcode, [], rest)
unfolding get_op
get_op-plain opcode rest h = ground arith

search_passes :
    (fuel count : ℕ) (items : List ScriptItem) (bet rest : List ℕ)
    → IsBeforeLotto items
    → count + counted items ≤ 200
    → length bet < 2 ^ 32
    → length (script_of items (op_lotto ∷ push_data bet ++ rest)) ≤ fuel
    → bet_data_from fuel count (script_of items (op_lotto ∷ push_data bet ++ rest)) ≡ ok (some bet)
search_passes zero count [] bet rest p c h f = absurd (omega arith)
search_passes zero count (op opcode ∷ items) bet rest p c h f = absurd (omega arith)
search_passes zero count (push bytes ∷ items) bet rest p c h f =
    let behind = script_of items (op_lotto ∷ push_data bet ++ rest) in
    let shorter =
      get_op-shorter (push_opcode (length bytes)) (push_data bytes ++ behind) bytes behind
        (get_op-push_data bytes behind p.0) in
    absurd (omega (arith, shorter, f))
search_passes (suc fuel) count [] bet rest p c h f =
    bet_data_from-found fuel count op_lotto _ _ [] _ bet rest
      (get_op-plain op_lotto _ (omega arith)) (ground arith) refl (get_op-push_data bet rest h)
search_passes (suc fuel) count (op opcode ∷ items) bet rest p c h f =
    bet_data_from-pass fuel count opcode _ [] _ f (get_op-plain opcode _ p.0) (ground arith) p.1
    ∙ search_passes fuel (count_behind opcode count) items bet rest p.2 (ground arith) h
        (omega (arith, f))
search_passes (suc fuel) count (push bytes ∷ items) bet rest p c h f =
    let behind = script_of items (op_lotto ∷ push_data bet ++ rest) in
    let opcode = push_opcode (length bytes) in
    let got = get_op-push_data bytes behind p.0 in
    let shorter = get_op-shorter opcode (push_data bytes ++ behind) bytes behind got in
    bet_data_from-pass fuel count opcode (push_data bytes ++ behind) bytes behind f got
      (ground arith) (ground arith)
    ∙ search_passes fuel (count_behind opcode count) items bet rest p.1 (ground (arith, c)) h
        (omega (arith, shorter, f))

-- GetBetData finds the bet of fewer than 2^32 bytes that is pushed behind the first OP_LOTTO of a
-- script, where what stands before it are opcodes above OP_PUSHDATA4 and pushed data of fewer than
-- 2^32 bytes, with at most 200 opcodes above OP_16 among them, and whatever stands behind the bet.
pub get_bet_data-push_data :
    (items : List ScriptItem) (bet rest : List ℕ)
    → IsBeforeLotto items
    → counted items ≤ 200
    → length bet < 2 ^ 32
    → get_bet_data (script_of items (op_lotto ∷ push_data bet ++ rest)) ≡ ok (some bet)
unfolding get_bet_data
get_bet_data-push_data items bet rest p c h =
    search_passes (length (script_of items (op_lotto ∷ push_data bet ++ rest))) 0 items bet rest p
      (omega (arith, c)) h (omega arith)
