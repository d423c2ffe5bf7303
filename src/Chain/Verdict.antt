-- ===== src/Chain/Verdict.antt =====
-- What a check answers (src/main.h: CValidationState): it accepts, or it sets a penalty for the peer.
use dsvalue.Prelude.{ℕ, ◌≡◌, ◌↔◌, refl, Bool, true, false, Result, ok, arith}

-- A block or a transaction is accepted, or rejected with a penalty for the peer that sent it.
pub data Verdict : Type 0 where
  accepted : Verdict
  rejected : ℕ → Verdict

-- if (c) return state.DoS(penalty, …); rest
abbrev pub refuse_if : Bool → ℕ → Result Verdict → Result Verdict
refuse_if c penalty rest = elim c [ true ↦ ok (rejected penalty) | false ↦ rest ]

pub refuse_if-accepted :
    (c : Bool) (penalty : ℕ) (rest : Result Verdict)
    → refuse_if c penalty rest ≡ ok accepted
    → (c ≡ false) × (rest ≡ ok accepted)
refuse_if-accepted true penalty rest h = absurd (ground arith)
refuse_if-accepted false penalty rest h = (refl, h)

pub refuse_if_iff :
    (c : Bool) (penalty : ℕ) (rest : Result Verdict)
    → (refuse_if c penalty rest ≡ ok accepted) ↔ ((c ≡ false) × (rest ≡ ok accepted))
refuse_if_iff c penalty rest = (refuse_if-accepted c penalty rest, λ p. rw (p.0) (p.1))
