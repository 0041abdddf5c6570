-- ===== src/Rmw.antt =====
-- The types that every part of rmw_cyclonedds_c/src/rmw_cyclonedds_c.c shares: RMW return codes,
-- DDS return codes and handles, GUIDs.
use rmw_cyclonedds_c.Common.{ℕ, ◌≡◌, refl, Bool, true, false, arith}

-- `rmw_ret_t`, the values that the code returns.
pub data Ret : Type 0 where
  ok error timeout unsupported bad_alloc invalid_argument incorrect_rmw_implementation : Ret

abbrev pub is_ok : Ret → Bool
is_ok ok = true
is_ok _ = false

abbrev pub is_invalid_argument : Ret → Bool
is_invalid_argument invalid_argument = true
is_invalid_argument _ = false

-- `dds_return_t` and `dds_entity_t`: a count or a handle, or a negative code (`negsuc n` is
-- -(n + 1)).
pub data ℤ : Type 0 where
  pos : ℕ → ℤ
  negsuc : ℕ → ℤ

-- `value < 0`
abbrev pub is_negative : ℤ → Bool
is_negative (pos n) = false
is_negative (negsuc n) = true

-- `value > 0`
abbrev pub is_positive : ℤ → Bool
is_positive (pos ℕ.zero) = false
is_positive (pos (ℕ.suc n)) = true
is_positive (negsuc n) = false

pub not_positive : (z : ℤ) → is_negative z ≡ true → is_positive z ≡ false
not_positive (pos n) h = absurd (ground (arith, h))
not_positive (negsuc n) h = refl

-- The error text that `map_dds_result` formats is not kept.
abbrev pub map_dds_result : ℤ → Ret
map_dds_result (pos n) = ok
map_dds_result (negsuc n) = error

-- The 16 bytes of a `dds_guid_t` or a `Gid_`, as the number that they spell: `memcmp(...) == 0` is
-- equality of numbers, and 16 zero bytes are 0.
abbrev pub Guid : Type 0
Guid = ℕ
