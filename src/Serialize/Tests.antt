-- ===== src/Serialize/Tests.antt =====
-- Numbers in a stream at concrete values. The comment above WriteVarInt gives other bytes for 16511 and
-- for 65535.
use dsvalue.Prelude.{ℕ, ◌≡◌, refl, List, [], ◌∷◌, ◌++◌, ok, length, arith, inl}
use dsvalue.Serialize.{
  write_var_int, read_var_int, get_size_of_var_int, write_compact_size, read_compact_size,
  get_size_of_compact_size,
}
use dsvalue.Serialize.VarInt.{read_var_int-write_var_int}
use dsvalue.Serialize.CompactSize.{read_compact_size-write_compact_size}

write_16511 : write_var_int 32 16511 ≡ ok (0xff ∷ 0x7f ∷ [])
unfolding write_var_int
write_16511 = refl

write_65535 : write_var_int 32 65535 ≡ ok (0x82 ∷ 0xfe ∷ 0x7f ∷ [])
unfolding write_var_int
write_65535 = refl

write_16384 : write_var_int 64 16384 ≡ ok (0xff ∷ 0x00 ∷ [])
unfolding write_var_int
write_16384 = refl

read_var_int-write_var_int_example :
    (out : List ℕ) × (write_var_int 32 65535 ≡ ok out)
    × (read_var_int 32 (out ++ 7 ∷ []) ≡ ok (65535, 7 ∷ []))
    × (get_size_of_var_int 32 65535 ≡ ok (length out))
read_var_int-write_var_int_example =
    read_var_int-write_var_int 32 65535 (7 ∷ []) (inl refl) (omega arith)

read_compact_size-write_compact_size_example :
    (read_compact_size (write_compact_size 70000 ++ 9 ∷ []) ≡ ok (70000, 9 ∷ []))
    × (length (write_compact_size 70000) ≡ get_size_of_compact_size 70000)
read_compact_size-write_compact_size_example =
    read_compact_size-write_compact_size 70000 (9 ∷ []) (omega arith)

read_a_size : read_compact_size (253 ∷ 0x2c ∷ 0x01 ∷ 5 ∷ []) ≡ ok (300, 5 ∷ [])
unfolding read_compact_size
read_a_size = refl
