-- ===== src/Compressor/Scripts.antt =====
-- CScriptCompressor reads back what it writes (src/script.h, script.cpp).
use dsvalue.Prelude.{
  ℕ, zero, suc, ◌+◌, ◌-◌, ◌%◌, ◌^◌, ◌<◌, ◌≡◌, refl, ap, ◌∙◌, true, false, List, [], ◌∷◌, ◌++◌, some,
  ok, ltb, length, take, drop, arith, inl, inr, ◌⊎◌, Option-cases, take_append, drop_append,
  length-append, le→leb, lt→ltb,
}
use native.Mathlib.Nat.{mod-eq_of_lt}
use mathlib.Core.List.{append_assoc}
use dsvalue.Serialize.{read_var_int, read_block}
use dsvalue.Serialize.VarInt.{read_var_int-write_var_int}
use dsvalue.Compressor.{
  byte_at, bytes_at, is_to_key_id, is_to_script_id, is_to_pub_key, Curve, compress_key, compress,
  decompress, decompress_pub_key, get_special_size, write_script, read_script, read_script_body,
  op_checksig,
}
use dsvalue.Compressor.Shapes.{
  is_to_key_id-eq_some, is_to_script_id-eq_some, is_to_pub_key-eq_some, IsKey, length-drop,
  length-take,
}

module _ (curve : Curve) where
  -- The curve gives a valid key back from its first coordinate and the parity of the second one.
  abbrev pub Decompresses : Type 0
  Decompresses =
      (pubkey : List ℕ)
      → length pubkey ≡ 65
      → byte_at pubkey 0 ≡ 4
      → curve.is_fully_valid pubkey ≡ true
      → curve.decompress_key ((2 + byte_at pubkey 64 % 2) ∷ bytes_at pubkey 1 32) ≡ some pubkey

  -- A short form is a code and the bytes that stand for the script.
  abbrev ShortForm : List ℕ → List ℕ → Type 0
  ShortForm script out =
      (code : ℕ) × (body : List ℕ) × (out ≡ code ∷ body)
      × (code < 6)
      × (length body ≡ get_special_size code)
      × ((old : List ℕ) → decompress curve code body old ≡ ok script)

  take_all : (n : ℕ) (xs : List ℕ) → length xs ≡ n → take n xs ≡ xs
  take_all zero [] h = refl
  take_all zero (x ∷ xs) h = absurd (omega arith)
  take_all (suc n) [] h = refl
  take_all (suc n) (x ∷ xs) h = ap (◌∷◌ x) (take_all n xs (omega arith))

  short_key-ShortForm :
      (script pubkey out : List ℕ)
      → script ≡ 33 ∷ pubkey ++ op_checksig ∷ []
      → length pubkey ≡ 33
      → (byte_at pubkey 0 ≡ 2) ⊎ (byte_at pubkey 0 ≡ 3)
      → compress_key pubkey ≡ some out
      → ShortForm script out
  unfolding compress_key decompress
  short_key-ShortForm script [] out s n b h = absurd (omega arith)
  short_key-ShortForm script (a ∷ pubkey) out s n (inl b) h =
      let whole : take 32 pubkey ≡ pubkey = take_all 32 pubkey (omega arith) in
      (2, pubkey, ground arith, omega arith, omega arith, λ old. rw (s, b) refl)
  short_key-ShortForm script (a ∷ pubkey) out s n (inr b) h =
      let whole : take 32 pubkey ≡ pubkey = take_all 32 pubkey (omega arith) in
      (3, pubkey, ground arith, omega arith, omega arith, λ old. rw (s, b) refl)

  decompress_pub_key-eq_ok :
      (code : ℕ) (input pubkey old : List ℕ)
      → curve.decompress_key ((code - 2) ∷ input) ≡ some pubkey
      → length pubkey ≡ 65
      → decompress_pub_key curve code input old ≡ ok (65 ∷ pubkey ++ op_checksig ∷ [])
  decompress_pub_key-eq_ok code input pubkey old e n = rw (decompress_pub_key, e) (rw n refl)

  long_key-ShortForm :
      Decompresses
      → (script pubkey out : List ℕ) → script ≡ 65 ∷ pubkey ++ op_checksig ∷ []
      → length pubkey ≡ 65
      → byte_at pubkey 0 ≡ 4
      → curve.is_fully_valid pubkey ≡ true
      → compress_key pubkey ≡ some out
      → ShortForm script out
  unfolding compress_key decompress
  long_key-ShortForm d script pubkey out s n b f h =
      let size : length (bytes_at pubkey 1 32) ≡ 32 =
        length-take 32 32 (drop 1 pubkey) (length-drop 1 64 pubkey n) in
      let back = d pubkey n b f in
      let shape : out ≡ (4 + byte_at pubkey 64 % 2) ∷ bytes_at pubkey 1 32 = ground (arith, h) in
      elim (parity (byte_at pubkey 64)) [
        | inl e ↦ (
          4,
          bytes_at pubkey 1 32,
          rw e at shape,
          omega arith,
          size,
          λ old.
              decompress_pub_key-eq_ok 4 (bytes_at pubkey 1 32) pubkey old (rw e at back) n
              ∙ rw s refl,
        )
        | inr e ↦ (
          5,
          bytes_at pubkey 1 32,
          rw e at shape,
          omega arith,
          size,
          λ old.
              decompress_pub_key-eq_ok 5 (bytes_at pubkey 1 32) pubkey old (rw e at back) n
              ∙ rw s refl,
        )
      ]
    where
      parity : (n : ℕ) → (n % 2 ≡ 0) ⊎ (n % 2 ≡ 1)
      parity n = ground arith

  key_script-ShortForm :
      Decompresses
      → (script pubkey out : List ℕ) → IsKey curve script pubkey
      → compress_key pubkey ≡ some out
      → ShortForm script out
  key_script-ShortForm d script pubkey out (inl (s, n, b)) h =
      short_key-ShortForm script pubkey out s n b h
  key_script-ShortForm d script pubkey out (inr (s, n, b, f)) h =
      long_key-ShortForm d script pubkey out s n b f h

  compress-ShortForm :
      Decompresses → (script out : List ℕ) → compress curve script ≡ some out → ShortForm script out
  unfolding compress decompress
  compress-ShortForm d script out h = elim (Option-cases (is_to_key_id script)) [
    | inr (key_id, e) ↦
        let (s, n) = is_to_key_id-eq_some script key_id e in
        (0, key_id, ground arith, omega arith, n, λ old. rw s refl)
    | inl e ↦ elim (Option-cases (is_to_script_id script)) [
      | inr (script_id, e') ↦
          let (s, n) = is_to_script_id-eq_some script script_id e' in
          (1, script_id, ground arith, omega arith, n, λ old. rw s refl)
      | inl e' ↦ elim (Option-cases (is_to_pub_key curve script)) [
        | inl e'' ↦ absurd (ground arith)
        | inr (pubkey, e'') ↦
            key_script-ShortForm d script pubkey out (is_to_pub_key-eq_some curve script pubkey e'')
              (ground arith)
      ]
    ]
  ]

  read_block_append :
      (block rest : List ℕ) (n : ℕ)
      → length block ≡ n
      → read_block n (block ++ rest) ≡ ok (block, rest)
  unfolding read_block
  read_block_append block rest n h =
      rw
        (
          ← h,
          length-append block rest,
          le→leb (length block) (length block + length rest) (omega arith),
          take_append block rest,
          drop_append block rest,
        )
        refl

  read_script-after :
      (n : ℕ) (old is is' : List ℕ)
      → read_var_int 32 is ≡ ok (n, is')
      → read_script curve old is ≡ read_script_body curve old n is'
  unfolding read_script
  read_script-after n old is is' e = rw e refl

  one_byte : (code : ℕ) (is : List ℕ) → code < 6 → read_var_int 32 (code ∷ is) ≡ ok (code, is)
  unfolding read_var_int
  one_byte code is h = ground arith

  special_body :
      (code : ℕ) (body old script rest : List ℕ)
      → code < 6
      → length body ≡ get_special_size code
      → decompress curve code body old ≡ ok script
      → read_script_body curve old code (body ++ rest) ≡ ok (script, rest)
  special_body code body old script rest c n h =
      rw (lt→ltb code 6 c, read_block_append body rest (get_special_size code) n, h) refl

  plain_body :
      (old script rest : List ℕ)
      → read_script_body curve old (length script + 6) (script ++ rest) ≡ ok (script, rest)
  plain_body old script rest =
      let test : ltb (length script + 6) 6 ≡ false = ground arith in
      rw test (read_block_append script rest (length script + 6 - 6) (omega arith))

  -- The writer of scripts returns for each script of fewer than 2^32 - 6 bytes, and the reader gives the
  -- script back, whatever it held before, and leaves what follows.
  pub read_script-write_script :
      Decompresses
      → (script old rest : List ℕ) → length script + 6 < 2 ^ 32
      → (out : List ℕ) × (write_script curve script ≡ ok out)
        × (read_script curve old (out ++ rest) ≡ ok (script, rest))
  unfolding write_script
  read_script-write_script d script old rest h = elim (Option-cases (compress curve script)) [
    | inr (out, e) ↦
        let (code, body, shape, small, size, back) = compress-ShortForm d script out e in
        (
          out,
          rw (write_script, e) refl,
          rw shape (
              read_script-after code old _ _ (one_byte code (body ++ rest) small)
              ∙ special_body code body old script rest small size (back old)),
        )
    | inl e ↦
        let (out, written, reads, counted) =
          read_var_int-write_var_int 32 (length script + 6) (script ++ rest) (inl refl) h in
        (
          out ++ script,
          rw (write_script, e, mod-eq_of_lt h, written) refl,
          rw (append_assoc out script rest)
              (read_script-after _ old _ _ reads ∙ plain_body old script rest),
        )
  ]
