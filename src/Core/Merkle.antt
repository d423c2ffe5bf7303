-- ===== src/Core/Merkle.antt =====
-- The Merkle tree of a block: BuildMerkleTree, GetMerkleBranch and CheckMerkleBranch of CBlock
-- (src/core.cpp). The hash of two hashes, double SHA-256 of their 64 bytes, is a parameter.
pub mod Branch
use dsvalue.Prelude.{
  ℕ, zero, suc, ◌+◌, ◌-◌, ◌*◌, ◌/◌, ◌%◌, Bool, List, [], ◌∷◌, ◌++◌, Option, none, some, Result, ok,
  err, Error, ◌>>=◌, if◌then◌else◌, ltb, leb, ◌==◌, length, drop, get_elem?,
}
use dsvalue.Prelude.Int.{ℤ, pos, negsuc}

-- nIndex ^ 1
abbrev pub other_side : ℕ → ℕ
other_side n = if n % 2 == 0 then n + 1 else n - 1

abbrev pub min : ℕ → ℕ → ℕ
min a b = if leb a b then a else b

-- nIndex & 1 and nIndex >> 1
abbrev pub is_odd : ℤ → Bool
is_odd (pos n) = n % 2 == 1
is_odd (negsuc n) = n % 2 == 0

abbrev pub half : ℤ → ℤ
half (pos n) = pos (n / 2)
half (negsuc n) = negsuc (n / 2)

-- vMerkleTree.empty() ? 0 : vMerkleTree.back()
abbrev pub back_or_zero : List ℕ → ℕ
back_or_zero [] = 0
back_or_zero (x ∷ xs) = let rest = back_or_zero xs in elim xs [ [] ↦ x | y ∷ ys ↦ rest ]

-- The branch reads the vector where a level starts.
abbrev pub at : List ℕ → ℕ → Result ℕ
at tree i = elim (get_elem? tree i) [ none ↦ err Error.undefined | some h ↦ ok h ]

module _ (hash2 : ℕ → ℕ → ℕ) where
  -- The inner loop of BuildMerkleTree: the last hash of a level of odd size is paired with itself.
  unfoldable pub parents : List ℕ → List ℕ
  parents [] = []
  parents (a ∷ []) = hash2 a a ∷ []
  parents (a ∷ b ∷ level) = hash2 a b ∷ parents level

  -- What vMerkleTree has from a level on; the fuel bounds the levels above it.
  unfoldable pub tree_from : ℕ → List ℕ → List ℕ
  unfolding parents
  tree_from zero level = level
  tree_from (suc fuel) level =
      let above = tree_from fuel (parents level) in
      if ltb 1 (length level) then level ++ above else level

  -- vMerkleTree that CBlock::BuildMerkleTree makes of the hashes of the transactions, and the root.
  unfoldable pub build_merkle_tree : List ℕ → List ℕ × ℕ
  unfolding tree_from
  build_merkle_tree hashes =
      let tree = tree_from (length hashes) hashes in (tree, back_or_zero tree)

  -- The loop of GetMerkleBranch on the vector from the level on, the size of the level and the index
  -- in it.
  unfoldable pub branch_from : ℕ → List ℕ → ℕ → ℕ → Result (List ℕ)
  branch_from zero tree n_size n_index = ok []
  branch_from (suc fuel) tree n_size n_index =
      if ltb 1 n_size
      then (do
        sibling ← at tree (min (other_side n_index) (n_size - 1))
        branch ← branch_from fuel (drop n_size tree) ((n_size + 1) / 2) (n_index / 2)
        ok (sibling ∷ branch))
      else ok []

  -- CBlock::GetMerkleBranch, for an index that is not negative.
  unfoldable pub get_merkle_branch : List ℕ → ℕ → Result (List ℕ)
  unfolding build_merkle_tree branch_from
  get_merkle_branch hashes n_index =
      branch_from (length hashes) (build_merkle_tree hashes).0 (length hashes) n_index

  -- The loop of CheckMerkleBranch.
  unfoldable pub check_from : ℕ → List ℕ → ℤ → ℕ
  check_from hash [] n_index = hash
  check_from hash (otherside ∷ branch) n_index =
      check_from (if is_odd n_index then hash2 otherside hash else hash2 hash otherside) branch
        (half n_index)

  -- CBlock::CheckMerkleBranch
  unfoldable pub check_merkle_branch : ℕ → List ℕ → ℤ → ℕ
  unfolding check_from
  check_merkle_branch hash branch (negsuc zero) = 0
  check_merkle_branch hash branch (negsuc (suc n)) = check_from hash branch (negsuc (suc n))
  check_merkle_branch hash branch (pos n) = check_from hash branch (pos n)
