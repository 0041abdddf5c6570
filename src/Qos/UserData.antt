-- ===== src/Qos/UserData.antt =====
-- `set_type_hash_user_data` of rmw_cyclonedds_c/src/rmw_cyclonedds_c.c: the type hash of a message
-- type as text, in a buffer of 82 bytes on the stack. A write outside of the buffer would be lost.
pub mod Decoded
use Prim.Native.Nat.{bit_and}
use rmw_cyclonedds_c.Common.{
  ℕ, ◌+◌, ◌/◌, ◌%◌, ◌^◌, Bool, not, List, [], ◌∷◌, ◌++◌, Option, none, some, CString, ltb, ◌==◌,
  if◌then◌else◌, length, get_or, set, take,
}

-- `rosidl_type_hash_t`: a `uint8_t` and 32 bytes.
pub record TypeHash : Type 0 where
  pub version : ℕ
  pub value : List ℕ

abbrev pub type_hash_size : ℕ
type_hash_size = 32

abbrev pub user_data_size : ℕ
user_data_size = 82

-- "0123456789abcdef"
abbrev pub hex : CString
hex = 48 ∷ 49 ∷ 50 ∷ 51 ∷ 52 ∷ 53 ∷ 54 ∷ 55 ∷ 56 ∷ 57 ∷ 97 ∷ 98 ∷ 99 ∷ 100 ∷ 101 ∷ 102 ∷ []

-- "typehash=RIHS"
abbrev pub hash_prefix : CString
hash_prefix = 116 ∷ 121 ∷ 112 ∷ 101 ∷ 104 ∷ 97 ∷ 115 ∷ 104 ∷ 61 ∷ 82 ∷ 73 ∷ 72 ∷ 83 ∷ []

-- "%02u" of a `uint8_t`: two digits at least, three from 100 on.
abbrev pub two_digits : ℕ → CString
two_digits v =
    if ltb v 100
    then (48 + v / 10) ∷ (48 + v % 10) ∷ []
    else (48 + v / 100) ∷ (48 + v / 10 % 10) ∷ (48 + v % 10) ∷ []

-- What `snprintf` prints: "typehash=RIHS%02u_".
unfoldable pub printed : ℕ → CString
printed version = hash_prefix ++ (two_digits version ++ (95 ∷ []))

-- Bytes at consecutive places of the buffer.
unfoldable pub write_at : ℕ → CString → List ℕ → List ℕ
write_at offset [] buffer = buffer
write_at offset (b ∷ s) buffer = write_at (offset + 1) s (set buffer offset b)

-- The loop over the hash: two digits for each byte.
unfoldable pub write_hex : List ℕ → ℕ → List ℕ → ℕ × List ℕ
write_hex [] offset buffer = (offset, buffer)
write_hex (b ∷ bs) offset buffer = write_hex bs (offset + 1 + 1) (
    set (set buffer offset (get_or hex (b / 2 ^ 4) 0)) (offset + 1) (get_or hex (bit_and b 0x0f) 0))

-- The bytes in front of the offset once all is written behind the printed text. `snprintf` writes a
-- NUL behind its text.
unfoldable pub fill : List ℕ → CString → List ℕ → CString
fill stack text value =
    let (offset, buffer) = write_hex value (length text) (write_at 0 (text ++ (0 ∷ [])) stack) in
    take (offset + 1) (set (set buffer offset 59) (offset + 1) 0)

-- `stack` is what the buffer holds before, `has_function` whether the type support has a
-- `get_type_hash_func`, `hash` its result. What is handed to `dds_qset_userdata`, or `none` where the
-- function returns false.
unfoldable pub set_type_hash_user_data : List ℕ → Bool → Option TypeHash → Option CString
set_type_hash_user_data stack has_function none = none
set_type_hash_user_data stack has_function (some type_hash) =
    let text = printed type_hash.version in
    if not has_function
    then none
    else if type_hash.version == 0
    then none
    else if not (length text == 16)
    then none
    else some (fill stack text type_hash.value)
