-- ===== src/Serialize.antt =====
-- Numbers in a stream (src/serialize.h): WriteVarInt, ReadVarInt, GetSizeOfVarInt, WriteCompactSize,
-- ReadCompactSize and GetSizeOfCompactSize. A stream to write to is the list of the bytes that are
-- written, a stream to read from the list of those that are left; a read past its end throws.
pub mod VarInt
pub mod CompactSize
mod Tests
use dsvalue.Prelude.{
  ℕ, zero, suc, ◌+◌, ◌-◌, ◌*◌, ◌/◌, ◌%◌, ◌^◌, List, [], ◌∷◌, Result, ok, err, Error, ◌>>=◌, ◌>>◌,
  guard, if◌then◌else◌, ltb, leb, ◌==◌, length, take, drop,
}

-- The size of the buffer of WriteVarInt for a number of w bits.
abbrev pub buffer_size : ℕ → ℕ
buffer_size w = (w + 6) / 7

-- The high bit of every byte but the one that is written last.
abbrev pub more_flag : List ℕ → ℕ
more_flag [] = 0
more_flag (_ ∷ _) = 0x80

-- The first loop of WriteVarInt, with the room that its buffer has left, and the buffer in the order
-- in which the second loop writes it: the byte that was put last stands first.
unfoldable pub fill_buffer : ℕ → ℕ → List ℕ → Result (List ℕ)
fill_buffer zero n tmp = err Error.undefined
fill_buffer (suc room) n tmp =
    let filled = (n % 128 + more_flag tmp) ∷ tmp in
    let more = fill_buffer room (n / 128 - 1) filled in if leb n 0x7f then ok filled else more

-- WriteVarInt of a number of w bits.
unfoldable pub write_var_int : ℕ → ℕ → Result (List ℕ)
unfolding fill_buffer
write_var_int w n = fill_buffer (buffer_size w) n []

-- The loop of ReadVarInt, where `m` is 2 to the number of bits.
unfoldable pub read_groups : ℕ → ℕ → List ℕ → Result (ℕ × List ℕ)
read_groups m n [] = err Error.thrown
read_groups m n (ch_data ∷ is) =
    let shifted = n * 128 % m + ch_data % 128 in
    let more = read_groups m ((shifted + 1) % m) is in
    if leb 0x80 ch_data then more else ok (shifted, is)

-- ReadVarInt of a number of w bits: the number, and what is left of the stream.
unfoldable pub read_var_int : ℕ → List ℕ → Result (ℕ × List ℕ)
unfolding read_groups
read_var_int w is = read_groups (2 ^ w) 0 is

-- The loop of GetSizeOfVarInt, on a fuel for its rounds.
unfoldable pub count_groups : ℕ → ℕ → ℕ → Result ℕ
count_groups zero n n_ret = err Error.fuel
count_groups (suc fuel) n n_ret =
    let more = count_groups fuel (n / 128 - 1) (suc n_ret) in
    if leb n 0x7f then ok (suc n_ret) else more

-- GetSizeOfVarInt of a number of w bits.
unfoldable pub get_size_of_var_int : ℕ → ℕ → Result ℕ
unfolding count_groups
get_size_of_var_int w n = count_groups (buffer_size w) n 0

-- s.write of a number of `size` bytes, the lowest first.
unfoldable pub write_bytes : ℕ → ℕ → List ℕ
write_bytes zero n = []
write_bytes (suc size) n = n % 256 ∷ write_bytes size (n / 256)

-- s.read of a number of `size` bytes, the lowest first.
unfoldable pub read_bytes : ℕ → List ℕ → Result (ℕ × List ℕ)
read_bytes zero is = ok (0, is)
read_bytes (suc size) [] = err Error.thrown
read_bytes (suc size) (x ∷ is) = read_bytes size is >>= λ got. ok (x + 256 * got.0, got.1)

-- s.read of a block of bytes.
unfoldable pub read_block : ℕ → List ℕ → Result (List ℕ × List ℕ)
read_block size is = guard (leb size (length is)) Error.thrown >> ok (take size is, drop size is)

-- GetSizeOfCompactSize
unfoldable pub get_size_of_compact_size : ℕ → ℕ
get_size_of_compact_size n_size =
    if ltb n_size 253
    then 1
    else if leb n_size 0xffff
    then 3
    else if leb n_size 0xffffffff
    then 5
    else 9

-- WriteCompactSize
unfoldable pub write_compact_size : ℕ → List ℕ
unfolding write_bytes
write_compact_size n_size =
    if ltb n_size 253
    then write_bytes 1 n_size
    else if leb n_size 0xffff
    then 253 ∷ write_bytes 2 n_size
    else if leb n_size 0xffffffff
    then 254 ∷ write_bytes 4 n_size
    else 255 ∷ write_bytes 8 n_size

abbrev pub max_size : ℕ
max_size = 0x02000000

-- The number behind the first byte, which is refused where a shorter form has it.
abbrev pub read_long : ℕ → ℕ → List ℕ → Result (ℕ × List ℕ)
read_long size least is =
    read_bytes size is >>= λ got. guard (leb least got.0) Error.thrown >> ok got

-- The branches of ReadCompactSize.
abbrev pub read_size_form : ℕ → List ℕ → Result (ℕ × List ℕ)
read_size_form ch_size is =
    if ltb ch_size 253
    then ok (ch_size, is)
    else if ch_size == 253
    then read_long 2 253 is
    else if ch_size == 254
    then read_long 4 0x10000 is
    else read_long 8 0x100000000 is

-- ReadCompactSize
unfoldable pub read_compact_size : List ℕ → Result (ℕ × List ℕ)
unfolding read_bytes
read_compact_size [] = err Error.thrown
read_compact_size (ch_size ∷ is) =
    read_size_form ch_size is >>= λ got. guard (leb got.0 max_size) Error.thrown >> ok got
