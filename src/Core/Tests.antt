-- ===== src/Core/Tests.antt =====
-- Transactions, amounts and Merkle trees at concrete values.
use dsvalue.Prelude.{ℕ, ◌+◌, ◌*◌, ◌≡◌, refl, List, [], ◌∷◌, ok, arith}
use dsvalue.Prelude.Int.{pos}
use dsvalue.Core.{compress_amount, decompress_amount}
use dsvalue.Core.Amount.{decompress_amount-compress_amount}
use dsvalue.Core.Merkle.{get_merkle_branch, check_merkle_branch, build_merkle_tree}
use dsvalue.Core.Merkle.Branch.{check_merkle_branch-get_merkle_branch}

decompress_amount-compress_amount_example :
    (x : ℕ) × (compress_amount 1250000000 ≡ ok x) × (decompress_amount x ≡ 1250000000)
decompress_amount-compress_amount_example =
    decompress_amount-compress_amount 1250000000 (omega arith)

check_merkle_branch-get_merkle_branch_example :
    (branch : List ℕ) × (get_merkle_branch (λ a b. 3 * a + b) (4 ∷ 6 ∷ 8 ∷ 1 ∷ 5 ∷ []) 4
      ≡ ok branch)
    × (check_merkle_branch (λ a b. 3 * a + b) 5 branch (pos 4)
        ≡ (build_merkle_tree (λ a b. 3 * a + b) (4 ∷ 6 ∷ 8 ∷ 1 ∷ 5 ∷ [])).1)
check_merkle_branch-get_merkle_branch_example =
    check_merkle_branch-get_merkle_branch (λ a b. 3 * a + b) (4 ∷ 6 ∷ 8 ∷ 1 ∷ 5 ∷ []) 4 5 refl
