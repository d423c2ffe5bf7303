-- ===== src/Lotto/Header/Assign.antt =====
-- What copying and assigning a CLottoHeader make of its hashes.
use dsvalue.Prelude.{
  ℕ, ◌≡◌, refl, Bool, true, false, ap, ◌∙◌, [], ◌∷◌, Option, none, some, if◌then◌else◌, ◌==◌, arith,
  Bool-cases, Option-cases, inl, inr,
}
use dsvalue.Prelude.Map.{Map, lookup, insert_new, lookup-insert}
use dsvalue.Lotto.Header.{LottoHeader, insert_range, assign, copy}

-- The hash of `this` at a height, or else the one of `obj`.
abbrev pub or_else : Option ℕ → Option ℕ → Option ℕ
or_else none other = other
or_else (some hash) other = some hash

or_else-none : (a : Option ℕ) → a ≡ or_else a none
or_else-none none = refl
or_else-none (some v) = refl

or_else-or_else :
    (a : Option ℕ) (c : Bool) (v : ℕ) (b : Option ℕ)
    → or_else (or_else a (if c then some v else none)) b ≡ or_else a (if c then some v else b)
or_else-or_else none true v b = refl
or_else-or_else none false v b = refl
or_else-or_else (some w) c v b = refl

lookup-insert_new :
    (j k v : ℕ) (m : Map ℕ)
    → lookup j (insert_new k v m) ≡ or_else (lookup j m) (if k == j then some v else none)
lookup-insert_new j k v m = elim (Option-cases (lookup k m)) [
  | inl e ↦ elim (Bool-cases (k == j)) [
    | inl l ↦
        let equal : k ≡ j = ground arith in
        let absent = rw equal at e in ground (arith, e, absent, lookup-insert j k v m)
    | inr l ↦ elim (Option-cases (lookup j m)) [
      | inl f ↦ ground (arith, e, f, lookup-insert j k v m)
      | inr (w, f) ↦ ground (arith, e, f, lookup-insert j k v m)
    ]
  ]
  | inr (w, e) ↦ elim (Bool-cases (k == j)) [
    | inl l ↦
        let equal : k ≡ j = ground arith in
        let present = rw equal at e in ground (arith, e, present)
    | inr l ↦ elim (Option-cases (lookup j m)) [
      | inl f ↦ ground (arith, e, f)
      | inr (u, f) ↦ ground (arith, e, f)
    ]
  ]
]

lookup-insert_range :
    (range m : Map ℕ) (j : ℕ)
    → lookup j (insert_range range m) ≡ or_else (lookup j m) (lookup j range)
unfolding insert_range
lookup-insert_range [] m j = or_else-none (lookup j m)
lookup-insert_range ((k, v) ∷ range) m j =
    lookup-insert_range range (insert_new k v m) j
    ∙ ap (λ found. or_else found (lookup j range)) (lookup-insert_new j k v m)
    ∙ or_else-or_else (lookup j m) (k == j) v (lookup j range)

-- Assignment keeps every hash that the object has, and takes from the other one only those at heights
-- where it has none. A copy has the hashes of the original.
pub assign-lookup :
    (this obj : LottoHeader) (j : ℕ)
    → (lookup j (assign this obj).m_bitcoin_hash
        ≡ or_else (lookup j this.m_bitcoin_hash) (lookup j obj.m_bitcoin_hash))
      × (lookup j (copy obj).m_bitcoin_hash ≡ lookup j obj.m_bitcoin_hash)
assign-lookup this obj j = (
  unfold assign in lookup-insert_range obj.m_bitcoin_hash this.m_bitcoin_hash j,
  unfold copy in lookup-insert_range obj.m_bitcoin_hash [] j,
)
