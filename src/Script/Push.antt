-- ===== src/Script/Push.antt =====
-- Pushed data is read back.
use dsvalue.Prelude.{
  ℕ, ◌+◌, ◌*◌, ◌/◌, ◌%◌, ◌^◌, ◌<◌, ◌≡◌, ◌++◌, List, some, arith, if◌then◌else◌, ltb, leb, length,
  length-append, take_append, drop_append,
}
use dsvalue.Script.{get_op, push_data, read_size}

-- The opcode that pushes data of a size.
abbrev pub push_opcode : ℕ → ℕ
push_opcode n =
    if ltb n 0x4c then n else if leb n 0xff then 0x4c else if leb n 0xffff then 0x4d else 0x4e

four_bytes :
    (n : ℕ)
    → n < 2 ^ 32
    → n % 256 + 256 * (n / 256 % 256 + 256 * (n / 65536 % 256 + 256 * (n / 16777216 % 256))) ≡ n
four_bytes n h = omega arith

-- Data of fewer than 2^32 bytes that is pushed to a script is the operand that GetOp reads, and what
-- stood behind it is left.
pub get_op-push_data :
    (bytes rest : List ℕ)
    → length bytes < 2 ^ 32
    → get_op (push_data bytes ++ rest) ≡ some (push_opcode (length bytes), bytes, rest)
unfolding get_op push_data read_size
get_op-push_data bytes rest h = ground (
  arith,
  length-append bytes rest,
  take_append bytes rest,
  drop_append bytes rest,
  four_bytes (length bytes) h,
)
