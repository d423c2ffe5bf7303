-- ===== src/Chain/Passing.antt =====
-- What comes behind the tests on the Bitcoin hashes of a block (src/main.cpp: CheckLottoResult).
use dsvalue.Prelude.{
  ℕ, ◌≡◌, List, [], ◌∷◌, Result, ok, ◌==◌, arith, Bool-cases, Option-cases, inl, inr,
}
use dsvalue.Prelude.Int.{pos}
use dsvalue.Lotto.Header.{LottoHeader, get_first_bitcoin_height}
use dsvalue.Chain.Verdict.{Verdict, accepted, refuse_if-accepted}
use dsvalue.Chain.Parts.{Node}
use dsvalue.Chain.Check.{check_hashes, check_start, btc_start_hight}

pub check_hashes-accepted :
    (node : Node) (m : List (ℕ × ℕ)) (iter_pre : ℕ) (rest : Result Verdict)
    → check_hashes node m iter_pre rest ≡ ok accepted
    → rest ≡ ok accepted
unfolding check_hashes
check_hashes-accepted node [] iter_pre rest h = h
check_hashes-accepted node ((height, hash) ∷ m) iter_pre rest h =
    elim (Option-cases (node.bitcoin_index (pos height))) [
      | inl none_there ↦ let t = rw (check_hashes, none_there) at h in absurd (ground arith)
      | inr (index, there) ↦
          let h1 = rw (check_hashes, there) at h in
          let (linked, h2) = refuse_if-accepted _ 0 _ h1 in
          let (fresh, h3) = refuse_if-accepted _ 100 _ h2 in
          check_hashes-accepted node m hash rest h3
    ]

pub check_start-accepted :
    (node : Node) (header before : LottoHeader) (rest : Result Verdict)
    → check_start node header before rest ≡ ok accepted
    → rest ≡ ok accepted
unfolding check_start
check_start-accepted node header before rest h =
    elim (Bool-cases (get_first_bitcoin_height header == btc_start_hight)) [
      | inl start ↦ rw (check_start, start) at h
      | inr later ↦
          let h1 = rw (check_start, later) at h in
          elim (Option-cases (node.bitcoin_index (pos (get_first_bitcoin_height header)))) [
            | inl none_there ↦ let t = rw none_there at h1 in absurd (ground arith)
            | inr (index, there) ↦ let h2 = rw there at h1 in (refuse_if-accepted _ 100 _ h2).1
          ]
    ]
