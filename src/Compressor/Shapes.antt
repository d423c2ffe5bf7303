-- ===== src/Compressor/Shapes.antt =====
-- The usual scripts, taken apart into their parts (src/script.cpp: IsToKeyID, IsToScriptID,
-- IsToPubKey).
use dsvalue.Prelude.{
  ℕ, zero, suc, ◌+◌, ◌≡◌, refl, ap, ◌∙◌, sym, Bool, true, false, ◌&&◌, ◌||◌, List, [], ◌∷◌, ◌++◌,
  Option, none, some, if◌then◌else◌, ◌==◌, length, take, drop, get_elem?, arith, Bool-cases, inl,
  inr, ◌⊎◌, ==_iff,
}
use dsvalue.Compressor.{
  byte_at, is_to_key_id, is_to_script_id, is_to_pub_key, Curve, op_dup, op_hash160, op_equalverify,
  op_checksig, op_equal,
}

pub take-append-drop {ℓ} : {A : Type ℓ} (n : ℕ) (xs : List A) → take n xs ++ drop n xs ≡ xs
take-append-drop zero xs = refl
take-append-drop (suc n) [] = refl
take-append-drop (suc n) (x ∷ xs) = ap (◌∷◌ x) (take-append-drop n xs)

get_elem?-drop {ℓ} :
    {A : Type ℓ} (n i : ℕ) (xs : List A) → get_elem? (drop n xs) i ≡ get_elem? xs (n + i)
get_elem?-drop zero i xs = ap (get_elem? xs) (omega arith)
get_elem?-drop (suc n) i [] = refl
get_elem?-drop (suc n) i (x ∷ xs) =
    let e : suc n + i ≡ suc (n + i) = omega arith in rw e (get_elem?-drop n i xs)

pub length-drop {ℓ} :
    {A : Type ℓ} (n k : ℕ) (xs : List A) → length xs ≡ n + k → length (drop n xs) ≡ k
length-drop zero k xs h = omega arith
length-drop (suc n) k [] h = absurd (omega arith)
length-drop (suc n) k (x ∷ xs) h = length-drop n k xs (omega arith)

pub length-take {ℓ} :
    {A : Type ℓ} (n k : ℕ) (xs : List A) → length xs ≡ n + k → length (take n xs) ≡ n
length-take zero k xs h = refl
length-take (suc n) k [] h = absurd (omega arith)
length-take (suc n) k (x ∷ xs) h = ap suc (length-take n k xs (omega arith))

-- A list by its first part and the one or two entries behind it.
single : (xs : List ℕ) → length xs ≡ 1 → xs ≡ byte_at xs 0 ∷ []
single [] h = absurd (omega arith)
single (x ∷ []) h = refl
single (x ∷ y ∷ xs) h = absurd (omega arith)

pair : (xs : List ℕ) → length xs ≡ 2 → xs ≡ byte_at xs 0 ∷ byte_at xs 1 ∷ []
pair [] h = absurd (omega arith)
pair (x ∷ []) h = absurd (omega arith)
pair (x ∷ y ∷ []) h = refl
pair (x ∷ y ∷ z ∷ xs) h = absurd (omega arith)

byte_at-drop : (n i : ℕ) (xs : List ℕ) → byte_at (drop n xs) i ≡ byte_at xs (n + i)
byte_at-drop n i xs = rw (byte_at, get_elem?-drop n i xs) refl

pub split_last : (n : ℕ) (xs : List ℕ) → length xs ≡ n + 1 → xs ≡ take n xs ++ byte_at xs n ∷ []
split_last n xs h =
    sym (take-append-drop n xs)
    ∙ ap (λ (t : List ℕ). take n xs ++ t)
        (single (drop n xs) (length-drop n 1 xs h)
          ∙ ap (λ (b : ℕ). b ∷ []) (byte_at-drop n 0 xs ∙ ap (byte_at xs) (omega arith)))

pub split_last2 :
    (n : ℕ) (xs : List ℕ)
    → length xs ≡ n + 2
    → xs ≡ take n xs ++ byte_at xs n ∷ byte_at xs (n + 1) ∷ []
split_last2 n xs h =
    let e0 : n + 0 ≡ n = omega arith in
    sym (take-append-drop n xs)
    ∙ ap (λ (t : List ℕ). take n xs ++ t)
        (pair (drop n xs) (length-drop n 2 xs h)
          ∙ rw (byte_at-drop n 0 xs, byte_at-drop n 1 xs, e0) refl)

-- The first entry of a list that has one.
pub split_first : (xs : List ℕ) (n : ℕ) → length xs ≡ suc n → xs ≡ byte_at xs 0 ∷ drop 1 xs
split_first [] n h = absurd (omega arith)
split_first (x ∷ xs) n h = refl

pub is_to_key_id-eq_some :
    (script key_id : List ℕ)
    → is_to_key_id script ≡ some key_id
    → (script ≡ op_dup ∷ op_hash160 ∷ 20 ∷ key_id ++ op_equalverify ∷ op_checksig ∷ [])
      × (length key_id ≡ 20)
unfolding is_to_key_id
is_to_key_id-eq_some (a ∷ b ∷ c ∷ script) key_id h =
    let n : length script ≡ 22 = ground arith in
    let a_eq : a ≡ op_dup = ground arith in
    let b_eq : b ≡ op_hash160 = ground arith in
    let c_eq : c ≡ 20 = ground arith in
    let v : byte_at script 20 ≡ op_equalverify = ground arith in
    let w : byte_at script 21 ≡ op_checksig = ground arith in
    let k : take 20 script ≡ key_id = ground arith in
    let whole : script ≡ key_id ++ op_equalverify ∷ op_checksig ∷ [] =
      split_last2 20 script n ∙ rw (v, w, k) refl in
    (cc, ap length (sym k) ∙ length-take 20 2 script n)
is_to_key_id-eq_some [] key_id h = ground arith
is_to_key_id-eq_some (a ∷ []) key_id h = ground arith
is_to_key_id-eq_some (a ∷ b ∷ []) key_id h = ground arith

pub is_to_script_id-eq_some :
    (script script_id : List ℕ)
    → is_to_script_id script ≡ some script_id
    → (script ≡ op_hash160 ∷ 20 ∷ script_id ++ op_equal ∷ []) × (length script_id ≡ 20)
unfolding is_to_script_id
is_to_script_id-eq_some (a ∷ b ∷ script) script_id h =
    let n : length script ≡ 21 = ground arith in
    let a_eq : a ≡ op_hash160 = ground arith in
    let b_eq : b ≡ 20 = ground arith in
    let v : byte_at script 20 ≡ op_equal = ground arith in
    let k : take 20 script ≡ script_id = ground arith in
    let whole : script ≡ script_id ++ op_equal ∷ [] = split_last 20 script n ∙ rw (v, k) refl in
    (cc, ap length (sym k) ∙ length-take 20 1 script n)
is_to_script_id-eq_some [] script_id h = ground arith
is_to_script_id-eq_some (a ∷ []) script_id h = ground arith

-- A public key of 33 bytes, or one of 65 bytes that the curve has.
abbrev pub IsKey : Curve → List ℕ → List ℕ → Type 0
IsKey curve script pubkey =
    ((script ≡ 33 ∷ pubkey ++ op_checksig ∷ [])
      × (length pubkey ≡ 33)
      × ((byte_at pubkey 0 ≡ 2) ⊎ (byte_at pubkey 0 ≡ 3)))
    ⊎ ((script ≡ 65 ∷ pubkey ++ op_checksig ∷ [])
        × (length pubkey ≡ 65)
        × (byte_at pubkey 0 ≡ 4)
        × (curve.is_fully_valid pubkey ≡ true))

either_byte : (b x y : ℕ) → (b == x || b == y) ≡ true → (b ≡ x) ⊎ (b ≡ y)
either_byte b x y h = elim (Bool-cases (b == x)) [
  | inl e ↦ inl ((==_iff b x).0 e)
  | inr e ↦ inr (ground arith)
]

some_inj {ℓ} : {A : Type ℓ} {x y : A} → some x ≡ some y → x ≡ y
some_inj h = cc

-- Where a conditional on an option has a value: from one of its branches.
if_some {ℓ} :
    {A : Type ℓ} {y : A} (b : Bool) (x r : Option A)
    → (if b then x else r) ≡ some y
    → ((b ≡ true) × (x ≡ some y)) ⊎ (r ≡ some y)
if_some true x r h = inl (refl, h)
if_some false x r h = inr h

abbrev long_test : List ℕ → Bool
long_test script =
    length script == 67
    && byte_at script 0 == 65
    && byte_at script 66 == op_checksig
    && byte_at script 1 == 0x04

abbrev short_test : List ℕ → Bool
short_test script =
    length script == 35
    && byte_at script 0 == 33
    && byte_at script 34 == op_checksig
    && (byte_at script 1 == 0x02 || byte_at script 1 == 0x03)

short-IsKey :
    (curve : Curve) (a : ℕ) (script pubkey : List ℕ)
    → short_test (a ∷ script) ≡ true
    → take 33 script ≡ pubkey
    → IsKey curve (a ∷ script) pubkey
short-IsKey curve a [] pubkey t k = ground arith
short-IsKey curve a (b ∷ script) pubkey t k =
    let n : length (b ∷ script) ≡ 34 = ground arith in
    let a_eq : a ≡ 33 = ground arith in
    let v : byte_at (b ∷ script) 33 ≡ op_checksig = ground arith in
    let test : (b == 2 || b == 3) ≡ true = ground arith in
    let first = either_byte b 2 3 test in
    inl (
      cc (split_last 33 (b ∷ script) n),
      ap length (sym k) ∙ length-take 33 1 (b ∷ script) n,
      rw (← k) first,
    )

long-IsKey :
    (curve : Curve) (a : ℕ) (script pubkey : List ℕ)
    → long_test (a ∷ script) ≡ true
    → take 65 script ≡ pubkey
    → curve.is_fully_valid pubkey ≡ true
    → IsKey curve (a ∷ script) pubkey
long-IsKey curve a [] pubkey t k f = ground arith
long-IsKey curve a (b ∷ script) pubkey t k f =
    let n : length (b ∷ script) ≡ 66 = ground arith in
    let a_eq : a ≡ 65 = ground arith in
    let v : byte_at (b ∷ script) 65 ≡ op_checksig = ground arith in
    let first : b ≡ 4 = ground arith in
    inr (
      cc (split_last 65 (b ∷ script) n),
      ap length (sym k) ∙ length-take 65 1 (b ∷ script) n,
      rw (← k) first,
      f,
    )

pub is_to_pub_key-eq_some :
    (curve : Curve) (script pubkey : List ℕ)
    → is_to_pub_key curve script ≡ some pubkey
    → IsKey curve script pubkey
unfolding is_to_pub_key
is_to_pub_key-eq_some curve [] pubkey h = ground arith
is_to_pub_key-eq_some curve (a ∷ script) pubkey h = elim (if_some (short_test (a ∷ script)) _ _ h) [
  | inl (t, k) ↦ short-IsKey curve a script pubkey t (some_inj k)
  | inr h' ↦ elim (if_some (long_test (a ∷ script)) _ _ h') [
    | inl (t, h'') ↦ elim (if_some (curve.is_fully_valid (take 65 script)) _ none h'') [
      | inl (f, k) ↦ long-IsKey curve a script pubkey t (some_inj k) (rw (← some_inj k) f)
      | inr e ↦ cc
    ]
    | inr e ↦ cc
  ]
]
