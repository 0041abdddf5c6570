-- ===== src/Qos/UserData/Decoded.antt =====
-- The user data that carries a type hash, read back.
use Prim.Native.Nat.{bit_and}
use rmw_cyclonedds_c.Common.{
  ℕ, suc, ◌+◌, ◌-◌, ◌*◌, ◌/◌, ◌%◌, ◌^◌, ◌≤◌, ◌<◌, ◌≡◌, refl, ap, ◌∙◌, sym, ◌⊎◌, inl, inr, Bool,
  true, false, List, [], ◌∷◌, ◌++◌, Option, none, some, CString, arith, ltb, ◌==◌, if◌then◌else◌,
  length, get_or, set, take, drop, All, length-append, length-set, ◌≢◌, lt→ltb, ltb→lt, ltb→ge,
  take-length, append_assoc, Bool-cases, ==→eq, take-set_self, take-set_le, append-nil, passes_to,
  passes_to-lt,
}
use native.Mathlib.Nat.{add-zero}
use native.Mathlib.Numerals.{add-one}
use mathlib.Core.Path.{ap₂}
use rmw_cyclonedds_c.Qos.UserData.{
  TypeHash, hex, hash_prefix, printed, write_at, write_hex, fill, set_type_hash_user_data,
}

-- The digit of one hexadecimal character.
abbrev pub nibble : ℕ → ℕ
nibble c = if ltb c 97 then c - 48 else c - 87

abbrev pub bytes_of_hex : CString → List ℕ
bytes_of_hex [] = []
bytes_of_hex (h ∷ []) = []
bytes_of_hex (h ∷ l ∷ s) = (nibble h * 16 + nibble l) ∷ bytes_of_hex s

abbrev pub hex_of : List ℕ → CString
hex_of [] = []
hex_of (b ∷ bs) = get_or hex (b / 2 ^ 4) 0 ∷ get_or hex (bit_and b 0x0f) 0 ∷ hex_of bs

-- What a reader of the user data finds: the version behind "typehash=RIHS", the value behind "_".
abbrev pub hash_of : CString → TypeHash
hash_of u = record {
  version = (get_or u 13 0 - 48) * 10 + (get_or u 14 0 - 48);
  value = bytes_of_hex (take 64 (drop 16 u));
}

append_at :
    (buffer : List ℕ) (offset b : ℕ)
    → offset < length buffer
    → take (offset + 1) (set buffer offset b) ≡ take offset buffer ++ (b ∷ [])
append_at buffer offset b h = rw add-one (take-set_self offset buffer b h)

write_at_lem :
    (s : CString) (offset : ℕ) (buffer : List ℕ)
    → offset + length s ≤ length buffer
    → take (offset + length s) (write_at offset s buffer) ≡ take offset buffer ++ s
unfolding write_at
write_at_lem [] offset buffer h = rw (add-zero, append-nil)
write_at_lem (b ∷ s) offset buffer h =
    let shift : offset + suc (length s) ≡ offset + 1 + length s = omega arith in
    rw shift (
      write_at_lem s (offset + 1) (set buffer offset b) (omega (arith, length-set buffer offset b))
      ∙ ap (λ t. t ++ s) (append_at buffer offset b (omega arith))
      ∙ append_assoc (take offset buffer) (b ∷ []) s)

length-write_at :
    (s : CString) (offset : ℕ) (buffer : List ℕ) → length (write_at offset s buffer) ≡ length buffer
unfolding write_at
length-write_at [] offset buffer = refl
length-write_at (b ∷ s) offset buffer =
    length-write_at s (offset + 1) (set buffer offset b) ∙ length-set buffer offset b

write_hex_lem :
    (bs : List ℕ) (offset : ℕ) (buffer : List ℕ)
    → write_hex bs offset buffer ≡ (offset + length (hex_of bs), write_at offset (hex_of bs) buffer)
unfolding write_hex write_at
write_hex_lem [] offset buffer = ap (λ n. (n, buffer)) (sym (add-zero offset))
write_hex_lem (b ∷ bs) offset buffer =
    let shift : offset + length (hex_of (b ∷ bs)) ≡ offset + 1 + 1 + length (hex_of bs) =
      omega arith in
    rw shift (write_hex_lem bs (offset + 1 + 1) _)

length-hex_of : (bs : List ℕ) → length (hex_of bs) ≡ 2 * length bs
length-hex_of [] = refl
length-hex_of (b ∷ bs) = omega (arith, length-hex_of bs)

abbrev reads_back : ℕ → Bool
reads_back b = nibble (get_or hex (b / 2 ^ 4) 0) * 16 + nibble (get_or hex (bit_and b 0x0f) 0) == b

reads_back_table : passes_to reads_back 256 ≡ true
unfolding passes_to
reads_back_table = refl

bytes_of_hex-hex_of : (bs : List ℕ) → All (λ b. b < 256) bs → bytes_of_hex (hex_of bs) ≡ bs
bytes_of_hex-hex_of [] h = refl
bytes_of_hex-hex_of (b ∷ bs) h =
    ap₂ ◌∷◌ (==→eq _ _ (passes_to-lt reads_back 256 b h.0 reads_back_table))
      (bytes_of_hex-hex_of bs h.1)

-- The text that reaches DDS.
abbrev pub encoded : TypeHash → CString
encoded h = printed h.version ++ (hex_of h.value ++ (59 ∷ []))

write_at-append :
    (s t : CString) (offset : ℕ) (buffer : List ℕ)
    → write_at offset (s ++ t) buffer ≡ write_at (offset + length s) t (write_at offset s buffer)
unfolding write_at
write_at-append [] t offset buffer = ap (λ n. write_at n t buffer) (sym (add-zero offset))
write_at-append (b ∷ s) t offset buffer =
    write_at-append s t (offset + 1) (set buffer offset b)
    ∙ ap (λ n. write_at n t (write_at (offset + 1) s (set buffer offset b))) (omega arith)

-- The NUL behind the text does not reach into it.
text_kept :
    (text buffer : List ℕ)
    → length text < length buffer
    → take (length text) (write_at 0 (text ++ (0 ∷ [])) buffer) ≡ text
unfolding write_at
text_kept text buffer h =
    let start : 0 + length text ≡ length text = omega arith in
    ap (take (length text)) (write_at-append text (0 ∷ []) 0 buffer)
    ∙ take-set_le (length text) (write_at 0 text buffer) (0 + length text) 0 (omega arith)
    ∙ ap (λ n. take n (write_at 0 text buffer)) (sym start)
    ∙ write_at_lem text 0 buffer (omega arith)

-- What follows the print: the loop, the semicolon and the NUL stay in the buffer.
buffer_lem :
    (stack text digits : List ℕ)
    → length stack ≡ 82
    → length text + length digits + 2 ≤ 82
    → take (length text + length digits + 1) (
        set
          (set
            (write_at (length text) digits (write_at 0 (text ++ (0 ∷ [])) stack))
            (length text + length digits)
            59)
          (length text + length digits + 1)
          0)
      ≡ text ++ (digits ++ (59 ∷ []))
buffer_lem stack text digits e h =
    let printed_into : List ℕ = write_at 0 (text ++ (0 ∷ [])) stack in
    let n : length printed_into ≡ 82 = length-write_at (text ++ (0 ∷ [])) 0 stack ∙ e in
    let filled : List ℕ = write_at (length text) digits printed_into in
    let m : length filled ≡ 82 = length-write_at digits (length text) printed_into ∙ n in
    take-set_le _ _ _ 0 (omega arith)
    ∙ append_at filled (length text + length digits) 59 (omega arith)
    ∙ ap (λ t. t ++ (59 ∷ []))
        (write_at_lem digits (length text) printed_into (omega arith)
          ∙ ap (λ t. t ++ digits) (text_kept text stack (omega arith)))
    ∙ append_assoc text digits (59 ∷ [])

printed_small :
    (v : ℕ) → v < 100 → printed v ≡ hash_prefix ++ ((48 + v / 10) ∷ (48 + v % 10) ∷ 95 ∷ [])
unfolding printed
printed_small v h = rw (lt→ltb v 100 h) refl

printed_large : (v : ℕ) → 100 ≤ v → length (printed v) ≡ 17
unfolding printed
printed_large v h = ground arith

fill_lem :
    (stack text value : List ℕ)
    → length stack ≡ 82
    → length text ≡ 16
    → length value ≡ 32
    → fill stack text value ≡ text ++ (hex_of value ++ (59 ∷ []))
unfolding fill
fill_lem stack text value e t v =
    ap (λ (r : ℕ × List ℕ). take (r.0 + 1) (set (set r.1 r.0 59) (r.0 + 1) 0))
      (write_hex_lem value (length text) (write_at 0 (text ++ (0 ∷ [])) stack))
    ∙ buffer_lem stack text (hex_of value) e (omega (arith, length-hex_of value))

encoded-hash_of :
    (h : TypeHash)
    → h.version < 100
    → length h.value ≡ 32
    → All (λ b. b < 256) h.value
    → hash_of (encoded h) ≡ h
encoded-hash_of h v n bytes =
    let digits : length (hex_of h.value) ≡ 64 = omega (arith, length-hex_of h.value) in
    let value : take 64 (hex_of h.value ++ (59 ∷ [])) ≡ hex_of h.value =
      ap (λ n. take n (hex_of h.value ++ (59 ∷ []))) (sym digits)
      ∙ take-length (hex_of h.value) (59 ∷ []) in
    let version : (48 + h.version / 10 - 48) * 10 + (48 + h.version % 10 - 48) ≡ h.version =
      omega arith in
    rw (printed_small h.version v) (λ i. record {
      version = version i;
      value = (ap bytes_of_hex value ∙ bytes_of_hex-hex_of h.value bytes) i;
    })

length-encoded : (h : TypeHash) → h.version < 100 → length h.value ≡ 32 → length (encoded h) ≡ 81
length-encoded h v n =
    rw (printed_small h.version v)
      (omega (arith, length-append (hex_of h.value) (59 ∷ []), length-hex_of h.value))

-- What a type hash becomes: refused without a version or with one of three digits, and otherwise 81
-- bytes from which the hash can be read back.
abbrev pub Encodes : TypeHash → Option CString → Type 0
Encodes h none = (h.version ≡ 0) ⊎ (100 ≤ h.version)
Encodes h (some u) = (h.version ≢ 0) × (length u ≡ 81) × (hash_of u ≡ h)

-- `set_type_hash_user_data`, whatever the stack holds, hands a hash of 32 bytes to DDS as 81 bytes,
-- from which the version and the value can be read back, or refuses it; it refuses exactly the
-- versions 0 and 100 and above.
pub set_type_hash_user_data-Encodes :
    (stack : List ℕ) (h : TypeHash)
    → length stack ≡ 82
    → length h.value ≡ 32
    → All (λ b. b < 256) h.value
    → Encodes h (set_type_hash_user_data stack true (some h))
unfolding set_type_hash_user_data
set_type_hash_user_data-Encodes stack h e n bytes = elim (Bool-cases (h.version == 0)) [
  | inl z ↦ rw (set_type_hash_user_data, z) (inl (==→eq h.version 0 z))
  | inr z ↦ elim (Bool-cases (ltb h.version 100)) [
    | inl k ↦
        let v : h.version < 100 = ltb→lt _ _ k in
        let t : length (printed h.version) ≡ 16 = ap length (printed_small h.version v) in
        let sixteen : (length (printed h.version) == 16) ≡ true = ap (λ n. n == 16) t in
        rw (set_type_hash_user_data, z, sixteen)
          (rw (fill_lem stack (printed h.version) h.value e t n)
            (ground arith, length-encoded h v n, encoded-hash_of h v n bytes))
    | inr k ↦
        let large : 100 ≤ h.version = ltb→ge _ _ k in
        let seventeen : (length (printed h.version) == 16) ≡ false =
          ap (λ n. n == 16) (printed_large h.version large) in
        rw (set_type_hash_user_data, z, seventeen) (inr large)
  ]
]
