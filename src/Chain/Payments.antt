-- ===== src/Chain/Payments.antt =====
-- A plain payment to the pool, without a bet, in the count of the bets (src/core.cpp:
-- CTxOut::GetLottoTxOutType; src/main.cpp: GetLottoValueFromTx).
use dsvalue.Prelude.{
  ℕ, suc, ◌≡◌, refl, sym, ap, ◌∙◌, true, false, List, [], ◌∷◌, ◌++◌, some, ok, if◌then◌else◌, ltb,
  ◌==◌, length, take, drop, take_append, drop_append, length-append, list_eq_refl, arith,
}
use dsvalue.Prelude.Int.{ℤ, add64}
use dsvalue.Core.{TxOut}
use dsvalue.Script.{get_op, op_lotto}
use dsvalue.Chain.Bets.{
  TxState, zero_address, too_many, uint160, is_hash_op, count_op, is_valid_state,
  get_lotto_pool_address_from_tx, pool_address_from, is_send_pool_adress, out_type_from,
  get_lotto_tx_out_type, lotto_value_from,
}

-- OP_DUP OP_HASH160 <key> OP_EQUALVERIFY OP_CHECKSIG
abbrev pub plain_script : List ℕ → List ℕ
plain_script key = 0x76 ∷ 0xa9 ∷ 20 ∷ (key ++ (0x88 ∷ 0xac ∷ []))

-- The rest of the script.
abbrev tail : List ℕ
tail = 0x88 ∷ 0xac ∷ []

abbrev KeyParts : List ℕ → Type 0
KeyParts key =
    (ltb (length (key ++ tail)) 20 ≡ false)
    × (take 20 (key ++ tail) ≡ key)
    × (drop 20 (key ++ tail) ≡ tail)

key_parts : (key : List ℕ) → length key ≡ 20 → KeyParts key
key_parts key h = (
  ground (arith, length-append key tail),
  ap (λ (n : ℕ). take n (key ++ tail)) (sym h) ∙ take_append key tail,
  ap (λ (n : ℕ). drop n (key ++ tail)) (sym h) ∙ drop_append key tail,
)

length-plain : (key : List ℕ) → length key ≡ 20 → length (plain_script key) ≡ 25
length-plain key h = omega (arith, length-append key tail)

address_with_fuel :
    (n : ℕ) (script : List ℕ)
    → length script ≡ n
    → get_lotto_pool_address_from_tx script ≡ pool_address_from n 0 zero_address script
unfolding get_lotto_pool_address_from_tx
address_with_fuel n script h = ap (λ (k : ℕ). pool_address_from k 0 zero_address script) h

get_op-key : (key : List ℕ) → length key ≡ 20 → get_op (20 ∷ (key ++ tail)) ≡ some (20, key, tail)
unfolding get_op
get_op-key key h = let (enough, front, back) = key_parts key h in rw (enough, front, back) refl

-- An opcode without an operand, behind few others.
address_step :
    (opcode fuel n : ℕ) (address script : List ℕ)
    → get_op (opcode ∷ script) ≡ some (opcode, [], script)
    → too_many opcode n ≡ false
    → is_hash_op opcode ≡ false
    → pool_address_from (suc fuel) n address (opcode ∷ script)
      ≡ pool_address_from fuel (count_op opcode n) address script
unfolding pool_address_from
address_step opcode fuel n address script e few plain = rw (pool_address_from, e, few, plain) refl

uint160-full : (key : List ℕ) → length key ≡ 20 → uint160 key ≡ key
uint160-full key h = rw h refl

-- OP_HASH160 and the key behind it.
address_hash :
    (fuel n : ℕ) (address key script rest : List ℕ)
    → get_op (0xa9 ∷ script) ≡ some (0xa9, [], script)
    → get_op script ≡ some (20, key, rest)
    → too_many 0xa9 n ≡ false
    → length key ≡ 20
    → pool_address_from (suc fuel) n address (0xa9 ∷ script)
      ≡ pool_address_from fuel (count_op 0xa9 n) key rest
unfolding pool_address_from
address_hash fuel n address key script rest e e' few h =
    rw (pool_address_from, e, few, e')
      (ap (λ (x : List ℕ). pool_address_from fuel (count_op 0xa9 n) x rest) (uint160-full key h))

plain-address :
    (key : List ℕ) → length key ≡ 20 → get_lotto_pool_address_from_tx (plain_script key) ≡ ok key
unfolding pool_address_from get_op
plain-address key h =
    address_with_fuel 25 (plain_script key) (length-plain key h)
    ∙ address_step 0x76 24 0 zero_address (0xa9 ∷ 20 ∷ (key ++ tail)) refl refl refl
    ∙ address_hash 23 1 zero_address key (20 ∷ (key ++ tail)) tail refl (get_op-key key h) refl h

plain-is_send :
    (key : List ℕ) (tip_height : ℕ)
    → length key ≡ 20
    → is_send_pool_adress key tip_height (plain_script key) ≡ ok true
unfolding is_send_pool_adress
plain-is_send key tip_height h = rw (plain-address key h, list_eq_refl key) refl

module _ (key : List ℕ) (tip_height : ℕ) where
  type_step :
      (opcode fuel n : ℕ) (value : ℤ) (s : TxState) (script vch rest : List ℕ)
      → get_op (opcode ∷ script) ≡ some (opcode, vch, rest)
      → too_many opcode n ≡ false
      → (opcode == op_lotto) ≡ false
      → out_type_from key tip_height (suc fuel) n value s (opcode ∷ script)
        ≡ out_type_from key tip_height fuel (count_op opcode n) value s rest
  unfolding out_type_from
  type_step opcode fuel n value s script vch rest e few other =
      rw (out_type_from, e, few, other) refl

  plain-out_type_from :
      (value : ℤ) (s : TxState)
      → length key ≡ 20
      → out_type_from key tip_height 25 0 value s (plain_script key) ≡ ok (true, s)
  unfolding out_type_from get_op
  plain-out_type_from value s h =
      type_step 0x76 24 0 value s (0xa9 ∷ 20 ∷ (key ++ tail)) [] (0xa9 ∷ 20 ∷ (key ++ tail)) refl
        refl refl
      ∙ type_step 0xa9 23 1 value s (20 ∷ (key ++ tail)) [] (20 ∷ (key ++ tail)) refl refl refl
      ∙ type_step 20 22 2 value s (key ++ tail) key tail (get_op-key key h) refl refl

  -- A plain payment to the pool, with no bet in its script, keeps the state of the output before.
  plain-get_lotto_tx_out_type :
      (value : ℤ) (s : TxState)
      → length key ≡ 20
      → get_lotto_tx_out_type key tip_height
          (record { n_value = value; script_pub_key = plain_script key })
          s
        ≡ ok (true, s)
  unfolding get_lotto_tx_out_type
  plain-get_lotto_tx_out_type value s h =
      rw (plain-is_send key tip_height h, length-plain key h) (plain-out_type_from value s h)

  -- GetLottoValueFromTx counts an output that pays to the pool with a plain script, which holds no
  -- OP_LOTTO, when the state that the output before it left is that of a valid bet, and only then: it
  -- adds the value of the payment to the sum, and hands the same state on to the outputs behind.
  pub lotto_value_from-plain :
      (value : ℤ) (vout : List TxOut) (s : TxState) (sum : ℤ)
      → length key ≡ 20
      → lotto_value_from key tip_height
          (record { n_value = value; script_pub_key = plain_script key } ∷ vout)
          s
          sum
        ≡ lotto_value_from key tip_height vout s (if is_valid_state s then add64 sum value else sum)
  unfolding lotto_value_from
  lotto_value_from-plain value vout s sum h = rw (plain-get_lotto_tx_out_type value s h) refl
