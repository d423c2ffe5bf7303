-- ===== src/Chain/Blocks/Accepted.antt =====
-- The blocks that CheckBlock accepts (src/main.cpp).
use dsvalue.Prelude.{
  ℕ, zero, suc, ◌+◌, ◌≤◌, ◌≡◌, ◌≢◌, refl, ap, ◌∙◌, Bool, true, false, not, ◌&&◌, ◌||◌, List, [],
  ◌∷◌, map, Result, ok, >>=-eq-ok, ltb, ◌==◌, length, contains, All, arith, Bool-cases,
  Option-cases, inl, inr,
}
use dsvalue.Core.{Transaction}
use dsvalue.Core.Merkle.{build_merkle_tree}
use dsvalue.Script.{get_op}
use dsvalue.Script.BetData.{get_op-shorter}
use dsvalue.Chain.Verdict.{Verdict, accepted, rejected, refuse_if-accepted}
use dsvalue.Chain.Parts.{Block}
use dsvalue.Chain.Transactions.{check_transaction, max_block_size}
use dsvalue.Chain.Transactions.WellFormed.{IsWellFormed, check_transaction-IsWellFormed}
use dsvalue.Chain.Blocks.{
  sig_ops_of, sig_ops_from, get_sig_op_count, sig_ops_of_txs, starts_with_coinbase, more_coinbases,
  check_transactions, unique_hashes, block_size, check_hashes_and_sig_ops, check_block,
}

sig_ops-returns :
    (fuel : ℕ) (f_accurate : Bool) (last n : ℕ) (script : List ℕ)
    → length script ≤ fuel
    → (m : ℕ) × (sig_ops_from fuel f_accurate last n script ≡ ok m)
unfolding sig_ops_from
sig_ops-returns fuel f_accurate last n [] h = (n, refl)
sig_ops-returns zero f_accurate last n (x ∷ xs) h = absurd (omega arith)
sig_ops-returns (suc fuel) f_accurate last n (x ∷ xs) h = elim (Option-cases (get_op (x ∷ xs))) [
  | inl e ↦ (n, rw (sig_ops_from, e) refl)
  | inr ((opcode, operand, rest), e) ↦
      let shorter = get_op-shorter opcode (x ∷ xs) operand rest e in
      let (m, later) =
        sig_ops-returns fuel f_accurate opcode (n + sig_ops_of f_accurate last opcode) rest
          (omega arith) in
      (m, rw (sig_ops_from, e) later)
]

-- GetSigOpCount returns on every script.
pub get_sig_op_count-returns :
    (f_accurate : Bool) (script : List ℕ) → (m : ℕ) × (get_sig_op_count f_accurate script ≡ ok m)
unfolding get_sig_op_count
get_sig_op_count-returns f_accurate script =
    sig_ops-returns (length script) f_accurate 0xff 0 script (omega arith)

-- The hashes are all different.
abbrev pub IsApart : List ℕ → Type 0
IsApart [] = Unit
IsApart (hash ∷ hashes) = All (λ later. later ≢ hash) hashes × IsApart hashes

-- None of the hashes is in the set.
abbrev IsFresh : List ℕ → List ℕ → Type 0
IsFresh unique_tx hashes = All (λ hash. contains unique_tx hash ≡ false) hashes

part_hash :
    (hash : ℕ) (unique_tx hashes : List ℕ)
    → IsFresh (hash ∷ unique_tx) hashes
    → IsFresh unique_tx hashes × All (λ later. later ≢ hash) hashes
part_hash hash unique_tx [] f = (tt, tt)
part_hash hash unique_tx (later ∷ hashes) f =
    let (fresh, others) = part_hash hash unique_tx hashes (f.1) in
    ((ground (arith, f.0), fresh), (λ e. ground (arith, f.0, e), others))

length-unique_hashes :
    (unique_tx hashes : List ℕ)
    → length (unique_hashes unique_tx hashes) ≤ length unique_tx + length hashes
unfolding unique_hashes
length-unique_hashes unique_tx [] = omega arith
length-unique_hashes unique_tx (hash ∷ hashes) = elim (Bool-cases (contains unique_tx hash)) [
  | inl there ↦ rw there (omega (arith, length-unique_hashes unique_tx hashes))
  | inr fresh ↦ rw fresh (omega (arith, length-unique_hashes (hash ∷ unique_tx) hashes))
]

-- A set that has grown by every hash has had none of them before.
unique_hashes-IsApart :
    (unique_tx hashes : List ℕ)
    → length (unique_hashes unique_tx hashes) ≡ length unique_tx + length hashes
    → IsFresh unique_tx hashes × IsApart hashes
unfolding unique_hashes
unique_hashes-IsApart unique_tx [] h = (tt, tt)
unique_hashes-IsApart unique_tx (hash ∷ hashes) h = elim (Bool-cases (contains unique_tx hash)) [
  | inl there ↦
      let h1 = rw there at h in absurd (omega (arith, h1, length-unique_hashes unique_tx hashes))
  | inr fresh ↦
      let h1 = rw fresh at h in
      let (unseen, apart) = unique_hashes-IsApart (hash ∷ unique_tx) hashes (omega (arith, h1)) in
      let (earlier, others) = part_hash hash unique_tx hashes unseen in
      ((fresh, earlier), (others, apart))
]

-- What goes on only from a transaction that is accepted.
verdict-accepted :
    (verdict : Verdict) (rest : Result Verdict)
    → (elim verdict [ accepted ↦ rest | rejected penalty ↦ ok (rejected penalty) ]) ≡ ok accepted
    → (verdict ≡ accepted) × (rest ≡ ok accepted)
verdict-accepted accepted rest h = (refl, h)
verdict-accepted (rejected penalty) rest h = absurd (ground arith)

check_transactions-accepted :
    (vtx : List Transaction) (rest : Result Verdict)
    → check_transactions vtx rest ≡ ok accepted
    → All IsWellFormed vtx × (rest ≡ ok accepted)
unfolding check_transactions
check_transactions-accepted [] rest h = (tt, h)
check_transactions-accepted (tx ∷ vtx) rest h =
    let (verdict, e, h1) = >>=-eq-ok (check_transaction tx) _ h in
    let (passes, h2) = verdict-accepted verdict (check_transactions vtx rest) h1 in
    let (later, h3) = check_transactions-accepted vtx rest h2 in
    let accepts = e ∙ ap (λ (v : Verdict). ok v) passes in
    (((check_transaction-IsWellFormed tx).0 accepts, later), h3)

not-false : (b : Bool) → not b ≡ false → b ≡ true
not-false true h = refl
not-false false h = cc

length-map :
    (get_hash : Transaction → ℕ) (vtx : List Transaction) → length (map get_hash vtx) ≡ length vtx
length-map get_hash [] = refl
length-map get_hash (tx ∷ vtx) = ap suc (length-map get_hash vtx)

unique-IsApart :
    (get_hash : Transaction → ℕ) (vtx : List Transaction)
    → (length (unique_hashes [] (map get_hash vtx)) == length vtx) ≡ true
    → IsApart (map get_hash vtx)
unique-IsApart get_hash vtx h =
    (unique_hashes-IsApart [] (map get_hash vtx) (ground (arith, h, length-map get_hash vtx))).1

same_root :
    (f_check : Bool)
    → f_check ≡ true
    → (expected root : ℕ) → (f_check && not (expected == root)) ≡ false
    → root ≡ expected
same_root true on expected root h = ground arith
same_root false on expected root h = cc

module _ (get_hash : Transaction → ℕ) (hash2 : ℕ → ℕ → ℕ) (check_proof_of_work : Block → Bool)
    (adjusted_time : ℕ) where
  -- A block that CheckBlock accepts starts with a coinbase and has no other one, each of its
  -- transactions passes the conditions of CheckTransaction, no two of them have the same hash, and with
  -- fCheckMerkleRoot the root of their Merkle tree is that of the header.
  pub check_block-accepted :
      (f_check_pow f_check_merkle_root : Bool) (block : Block)
      → check_block get_hash hash2 check_proof_of_work adjusted_time f_check_pow f_check_merkle_root
          block
        ≡ ok accepted
      → (starts_with_coinbase block.vtx ≡ true)
        × (more_coinbases block.vtx ≡ false)
        × All IsWellFormed block.vtx
        × IsApart (map get_hash block.vtx)
        × (f_check_merkle_root ≡ true
            → (build_merkle_tree hash2 (map get_hash block.vtx)).1 ≡ block.hash_merkle_root)
  unfolding check_block check_hashes_and_sig_ops
  check_block-accepted f_check_pow f_check_merkle_root block h =
      let (sized, h1) =
        refuse_if-accepted
          (length block.vtx == 0
            || ltb max_block_size (length block.vtx)
            || ltb max_block_size (block_size block))
          100 _ h in
      let (worked, h2) =
        refuse_if-accepted (f_check_pow && not (check_proof_of_work block)) 50 _ h1 in
      let (timely, h3) = refuse_if-accepted (ltb (adjusted_time + 7200) block.n_time) 0 _ h2 in
      let (first, h4) = refuse_if-accepted (not (starts_with_coinbase block.vtx)) 100 _ h3 in
      let (only, h5) = refuse_if-accepted (more_coinbases block.vtx) 100 _ h4 in
      let (all, h6) = check_transactions-accepted block.vtx _ h5 in
      let (unique, h7) =
        refuse_if-accepted
          (not (length (unique_hashes [] (map get_hash block.vtx)) == length block.vtx)) 100 _ h6 in
      let (n_sig_ops, counted, h8) = >>=-eq-ok (sig_ops_of_txs block.vtx) _ h7 in
      let (few, h9) = refuse_if-accepted (ltb 20000 n_sig_ops) 100 _ h8 in
      let (rooted, h10) =
        refuse_if-accepted
          (f_check_merkle_root
            && not (block.hash_merkle_root == (build_merkle_tree hash2 (map get_hash block.vtx)).1))
          100 _ h9 in
      (
        not-false _ first,
        only,
        all,
        unique-IsApart get_hash block.vtx (not-false _ unique),
        λ e. same_root f_check_merkle_root e block.hash_merkle_root _ rooted,
      )
