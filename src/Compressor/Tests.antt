-- ===== src/Compressor/Tests.antt =====
-- The compact form of scripts and outputs at concrete values, with a curve that has one key.
use dsvalue.Prelude.{
  ℕ, ◌≡◌, refl, List, [], ◌∷◌, ◌++◌, none, some, ok, replicate, if◌then◌else◌, list_eq, list_eq→≡,
  arith,
}
use dsvalue.Compressor.{Curve, compress, write_script, read_script, op_checksig}
use dsvalue.Compressor.Scripts.{Decompresses, read_script-write_script}

abbrev one_key : List ℕ
one_key = 4 ∷ replicate 64 7

abbrev pub one_key_curve : Curve
one_key_curve = record {
  is_fully_valid = λ key. list_eq key one_key;
  decompress_key = λ key. if list_eq key (3 ∷ replicate 32 7) then some one_key else none;
}

pub one_key_curve-Decompresses : Decompresses one_key_curve
one_key_curve-Decompresses pubkey n b f = let same = list_eq→≡ pubkey one_key f in rw same refl

abbrev key_script : List ℕ
key_script = 65 ∷ one_key ++ op_checksig ∷ []

compressed : compress one_key_curve key_script ≡ some (5 ∷ replicate 32 7)
unfolding compress
compressed = refl

read_script-write_script_example :
    (out : List ℕ) × (write_script one_key_curve key_script ≡ ok out)
    × (read_script one_key_curve [] (out ++ 1 ∷ []) ≡ ok (key_script, 1 ∷ []))
read_script-write_script_example =
    read_script-write_script one_key_curve one_key_curve-Decompresses key_script [] (1 ∷ [])
      (omega arith)
