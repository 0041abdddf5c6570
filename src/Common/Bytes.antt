-- ===== src/Common/Bytes.antt =====
-- C strings: the bytes in front of the terminating NUL.
use Prim.Native.Nat.{ℕ}
use mathlib.Core.Path.{◌≡◌, refl}
use mathlib.Core.Logic.{◌↔◌}
use mathlib.Core.Bool.{Bool, true, false, ◌&&◌}
use mathlib.Core.Option.{none, some}
use mathlib.Core.List.{List, [], ◌∷◌}
use native.Mathlib.Omega.{arith}
use rmw_cyclonedds_c.Common.Tests.{◌==◌}
use rmw_cyclonedds_c.Common.Lists.{get_elem?}

abbrev pub CString : Type 0
CString = List ℕ

-- `s[i] == '\0'`: the NUL stands at `strlen(s)`, and no byte in front of it is one.
abbrev pub is_nul : CString → ℕ → Bool
is_nul s i = elim (get_elem? s i) [ none ↦ true | some b ↦ false ]

-- `strcmp(a, b) == 0`
unfoldable pub bytes_eq : CString → CString → Bool
bytes_eq [] [] = true
bytes_eq [] (y ∷ ys) = false
bytes_eq (x ∷ xs) [] = false
bytes_eq (x ∷ xs) (y ∷ ys) = x == y && bytes_eq xs ys

pub bytes_eq_refl : (a : CString) → bytes_eq a a ≡ true
unfolding bytes_eq
bytes_eq_refl [] = refl
bytes_eq_refl (x ∷ xs) = ground (arith, bytes_eq_refl xs)

bytes_eq→eq : (a b : CString) → bytes_eq a b ≡ true → a ≡ b
unfolding bytes_eq
bytes_eq→eq [] [] h = refl
bytes_eq→eq [] (y ∷ ys) h = ground arith
bytes_eq→eq (x ∷ xs) [] h = ground arith
bytes_eq→eq (x ∷ xs) (y ∷ ys) h = ground (arith, bytes_eq→eq xs ys)

pub bytes_eq_iff : (a b : CString) → (bytes_eq a b ≡ true) ↔ (a ≡ b)
bytes_eq_iff a b = (bytes_eq→eq a b, λ e. grind (arith, bytes_eq_refl))
