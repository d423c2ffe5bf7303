-- ===== src/Core/Merkle/Branch.antt =====
-- The branch of every transaction leads to the root.
use dsvalue.Prelude.{
  ℕ, zero, suc, ◌+◌, ◌-◌, ◌/◌, ◌%◌, ◌≤◌, ◌<◌, ◌≡◌, refl, sym, ap, ◌∙◌, true, List, [], ◌∷◌, ◌++◌,
  some, ok, if◌then◌else◌, ltb, length, drop, get_elem?, drop_append, arith, Bool-cases, inl, inr,
  length-append,
}
use dsvalue.Prelude.Int.{pos}
use dsvalue.Core.Merkle.{
  other_side, min, is_odd, back_or_zero, at, parents, tree_from, build_merkle_tree, branch_from,
  get_merkle_branch, check_from, check_merkle_branch,
}

get_elem?-append :
    (xs ys : List ℕ) (i : ℕ) {h : ℕ} → get_elem? xs i ≡ some h → get_elem? (xs ++ ys) i ≡ some h
get_elem?-append [] ys i e = cc
get_elem?-append (x ∷ xs) ys zero e = e
get_elem?-append (x ∷ xs) ys (suc i) e = get_elem?-append xs ys i e

get_elem?-lt : (xs : List ℕ) (i : ℕ) {h : ℕ} → get_elem? xs i ≡ some h → i < length xs
get_elem?-lt [] i e = cc
get_elem?-lt (x ∷ xs) zero e = omega arith
get_elem?-lt (x ∷ xs) (suc i) e = omega (arith, get_elem?-lt xs i e)

back_or_zero-append : (xs ys : List ℕ) → 0 < length ys → back_or_zero (xs ++ ys) ≡ back_or_zero ys
back_or_zero-append [] ys h = refl
back_or_zero-append (x ∷ []) [] h = absurd (omega arith)
back_or_zero-append (x ∷ []) (y ∷ ys) h = refl
back_or_zero-append (x ∷ x' ∷ xs) ys h = back_or_zero-append (x' ∷ xs) ys h

side_step :
    (i n : ℕ)
    → 0 < n
    → min (other_side (suc (suc i))) (suc (suc n) - 1) ≡ suc (suc (min (other_side i) (n - 1)))
side_step i n h = ground arith

half_step : (i : ℕ) → suc (suc i) / 2 ≡ suc (i / 2)
half_step i = omega arith

parity_step : (i : ℕ) → suc (suc i) % 2 ≡ i % 2
parity_step i = omega arith

-- A level of one hash has no branch.
only_index :
    (level : List ℕ) (i : ℕ) {h : ℕ}
    → length level ≤ 1
    → get_elem? level i ≡ some h
    → h ≡ back_or_zero level
only_index [] i l e = cc
only_index (a ∷ []) zero l e = cc
only_index (a ∷ []) (suc i) l e = cc
only_index (a ∷ b ∷ level) i l e = absurd (omega arith)

module _ (hash2 : ℕ → ℕ → ℕ) where
  length-parents : (level : List ℕ) → length (parents hash2 level) ≡ (length level + 1) / 2
  unfolding parents
  length-parents [] = omega arith
  length-parents (a ∷ []) = omega arith
  length-parents (a ∷ b ∷ level) = omega (arith, length-parents level)

  -- The hash of a node with its sibling.
  abbrev join : ℕ → ℕ → ℕ → ℕ
  join i sibling h = if is_odd (pos i) then hash2 sibling h else hash2 h sibling

  -- The parent of a node stands at half its index.
  parents-get_elem? :
      (level : List ℕ) (i : ℕ) {h : ℕ}
      → get_elem? level i ≡ some h
      → (sibling : ℕ) × (get_elem? level (min (other_side i) (length level - 1)) ≡ some sibling)
        × (get_elem? (parents hash2 level) (i / 2) ≡ some (join i sibling h))
  unfolding parents
  parents-get_elem? [] i e = cc
  parents-get_elem? (a ∷ []) zero e = (a, refl, ground arith)
  parents-get_elem? (a ∷ []) (suc i) e = cc
  parents-get_elem? (a ∷ b ∷ level) zero e = (b, ground arith, ground arith)
  parents-get_elem? (a ∷ b ∷ level) (suc zero) e = (a, ground arith, ground arith)
  parents-get_elem? (a ∷ b ∷ level) (suc (suc i)) e =
      let (sibling, at_side, at_parent) = parents-get_elem? level i e in
      (
        sibling,
        ap (get_elem? (a ∷ b ∷ level))
              (side_step i (length level) (omega (arith, get_elem?-lt level i e)))
            ∙ at_side,
        rw (half_step i, parity_step i) at_parent,
      )

  tree_from-nonempty :
      (fuel : ℕ) (level : List ℕ) → 0 < length level → 0 < length (tree_from hash2 fuel level)
  unfolding tree_from
  tree_from-nonempty zero level h = h
  tree_from-nonempty (suc fuel) level h =
      ground (arith, length-append level (tree_from hash2 fuel (parents hash2 level)))

  tree_step :
      (fuel : ℕ) (level : List ℕ)
      → ltb 1 (length level) ≡ true
      → tree_from hash2 (suc fuel) level ≡ level ++ tree_from hash2 fuel (parents hash2 level)
  unfolding tree_from
  tree_step fuel level h = rw h refl

  branch_step :
      (fuel : ℕ) (tree : List ℕ) (n i : ℕ) {sibling : ℕ} {branch : List ℕ}
      → ltb 1 n ≡ true
      → get_elem? tree (min (other_side i) (n - 1)) ≡ some sibling
      → branch_from hash2 fuel (drop n tree) ((n + 1) / 2) (i / 2) ≡ ok branch
      → branch_from hash2 (suc fuel) tree n i ≡ ok (sibling ∷ branch)
  unfolding branch_from
  branch_step fuel tree n i h e f = rw (h, e, at, f) refl

  branch_to_root :
      (fuel : ℕ) (level : List ℕ) (i : ℕ) {h : ℕ}
      → length level ≤ suc fuel
      → get_elem? level i ≡ some h
      → (branch : List ℕ) × (branch_from hash2 fuel (tree_from hash2 fuel level) (length level) i
          ≡ ok branch)
        × (check_from hash2 h branch (pos i) ≡ back_or_zero (tree_from hash2 fuel level))
  unfolding check_from
  branch_to_root zero level i l e =
      ([], unfold branch_from in refl, unfold tree_from in only_index level i l e)
  branch_to_root (suc fuel) level i {h} l e = elim (Bool-cases (ltb 1 (length level))) [
    | inr one ↦ (
      [],
      unfold branch_from in rw one refl,
      unfold tree_from in rw one (only_index level i (ground arith) e),
    )
    | inl more ↦
        let (sibling, at_side, at_parent) = parents-get_elem? level i e in
        let above = tree_from hash2 fuel (parents hash2 level) in
        let size = length-parents level in
        let (branch, f, g) =
          branch_to_root fuel (parents hash2 level) (i / 2) (omega (arith, size, l)) at_parent in
        let here = get_elem?-append level above (min (other_side i) (length level - 1)) at_side in
        let nonempty = tree_from-nonempty fuel (parents hash2 level) (ground (arith, size)) in
        let rest : branch_from hash2 fuel (drop (length level) (level ++ above))
              ((length level + 1) / 2) (i / 2)
            ≡ ok branch =
          rw (drop_append level above, ← size) f in
        (
          sibling ∷ branch,
          rw (tree_step fuel level more)
              (branch_step fuel (level ++ above) (length level) i more here rest),
          rw (tree_step fuel level more) (g ∙ sym (back_or_zero-append level above nonempty)),
        )
  ]

-- For the hashes of the transactions of a block and the index of one of them, GetMerkleBranch returns
-- a branch, and CheckMerkleBranch computes from it and the hash of that transaction the root that
-- BuildMerkleTree returns.
pub check_merkle_branch-get_merkle_branch :
    (hash2 : ℕ → ℕ → ℕ) (hashes : List ℕ) (i h : ℕ)
    → get_elem? hashes i ≡ some h
    → (branch : List ℕ) × (get_merkle_branch hash2 hashes i ≡ ok branch)
      × (check_merkle_branch hash2 h branch (pos i) ≡ (build_merkle_tree hash2 hashes).1)
unfolding get_merkle_branch check_merkle_branch build_merkle_tree
check_merkle_branch-get_merkle_branch hash2 hashes i h e =
    branch_to_root hash2 (length hashes) hashes i (omega arith) e
