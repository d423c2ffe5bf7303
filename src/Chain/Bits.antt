-- ===== src/Chain/Bits.antt =====
-- Amounts of 64 bits and their sums (int64_t in src/core.h: CTxOut::nValue).
use dsvalue.Prelude.{ℕ, ◌+◌, ◌%◌, ◌^◌, ◌≡◌, ◌∙◌, List, [], ◌∷◌, arith}
use dsvalue.Prelude.Int.{ℤ, pos, negsuc, to_bits, wrap64, add64, ◌+ℤ◌}
use dsvalue.Core.{TxOut}

-- The bits of an int64_t.
abbrev pub bits : ℤ → ℕ
bits z = to_bits (2 ^ 64) z

bits_wrap : (z : ℤ) → bits (wrap64 z) ≡ bits z
unfolding wrap64
bits_wrap (pos n) = ground arith
bits_wrap (negsuc n) = ground arith

bits_add : (a b : ℤ) → bits (a +ℤ b) ≡ (bits a + bits b) % 2 ^ 64
unfolding ◌+ℤ◌
bits_add (pos a) (pos b) = ground arith
bits_add (pos a) (negsuc b) = ground arith
bits_add (negsuc a) (pos b) = ground arith
bits_add (negsuc a) (negsuc b) = ground arith

pub bits-add64 : (a b : ℤ) → bits (add64 a b) ≡ (bits a + bits b) % 2 ^ 64
unfolding add64
bits-add64 a b = bits_wrap (a +ℤ b) ∙ bits_add a b

-- What the outputs are worth together.
abbrev pub total : List TxOut → ℕ
total [] = 0
total (txout ∷ vout) = bits txout.n_value + total vout
