-- ===== src/Common/Table/Shift.antt =====
-- The loop that closes the gap of a removed entry, and the loops that copy and clear.
use Prim.Native.Nat.{ℕ, zero, suc, ◌+◌, ◌≤◌, ◌<◌}
use mathlib.Core.Path.{◌≡◌, refl, ap, ◌∙◌}
use mathlib.Core.List.{List, [], ◌∷◌}
use native.Mathlib.Omega.{arith}
use rmw_cyclonedds_c.Common.Lists.{length, get_or, set, take, erase_at, length-set, take-set_le}
use rmw_cyclonedds_c.Common.Table.{shift_down, clear_from, copy_into}

module _ {ℓ} {A : Type ℓ} (z : A) where
  pub length-shift_down : (n i : ℕ) (xs : List A) → length (shift_down z n i xs) ≡ length xs
  unfolding shift_down
  length-shift_down zero i xs = refl
  length-shift_down (suc n) i xs =
      length-shift_down n (suc i) _ ∙ length-set xs i (get_or xs (suc i) z)

  shift_down-cons :
      (n i : ℕ) (x : A) (xs : List A) → shift_down z n (suc i) (x ∷ xs) ≡ x ∷ shift_down z n i xs
  unfolding shift_down
  shift_down-cons zero i x xs = refl
  shift_down-cons (suc n) i x xs = shift_down-cons n (suc i) x (set xs i (get_or xs (suc i) z))

  take-shift_down_zero :
      (n : ℕ) (x : A) (xs : List A) → n ≤ length xs → take n (shift_down z n 0 (x ∷ xs)) ≡ take n xs
  unfolding shift_down
  take-shift_down_zero zero x xs h = refl
  take-shift_down_zero (suc n) x [] h = absurd (omega arith)
  take-shift_down_zero (suc n) x (y ∷ ys) h =
      rw (shift_down-cons n 0 y (y ∷ ys))
        (ap (λ t. y ∷ t) (take-shift_down_zero n y ys (omega arith)))

  -- The loop writes the entry at `i` over, and keeps all others in order.
  pub take-shift_down :
      (n i : ℕ) (xs : List A)
      → i + n < length xs
      → take (i + n) (shift_down z n i xs) ≡ erase_at i (take (suc (i + n)) xs)
  take-shift_down n i [] h = absurd (omega arith)
  take-shift_down n zero (x ∷ xs) h =
      let e : 0 + n ≡ n = omega arith in rw e (take-shift_down_zero n x xs (omega arith))
  take-shift_down n (suc i) (x ∷ xs) h =
      let e : suc i + n ≡ suc (i + n) = omega arith in
      rw (e, shift_down-cons n i x xs) (ap (λ t. x ∷ t) (take-shift_down n i xs (omega arith)))

  pub length-clear_from : (n i : ℕ) (xs : List A) → length (clear_from z n i xs) ≡ length xs
  unfolding clear_from
  length-clear_from zero i xs = refl
  length-clear_from (suc n) i xs = length-clear_from n (suc i) _ ∙ length-set xs i z

  -- Clearing from `i` on leaves the entries in front.
  pub take-clear_from : (m n i : ℕ) (xs : List A) → m ≤ i → take m (clear_from z n i xs) ≡ take m xs
  unfolding clear_from
  take-clear_from m zero i xs h = refl
  take-clear_from m (suc n) i xs h =
      take-clear_from m n (suc i) _ (omega arith) ∙ take-set_le m xs i z h

module _ {ℓ} {A : Type ℓ} where
  pub length-copy_into :
      (source : List A) (i : ℕ) (xs : List A) → length (copy_into source i xs) ≡ length xs
  unfolding copy_into
  length-copy_into [] i xs = refl
  length-copy_into (s ∷ source) i xs = length-copy_into source (suc i) _ ∙ length-set xs i s

  copy_into-cons :
      (source : List A) (i : ℕ) (x : A) (xs : List A)
      → copy_into source (suc i) (x ∷ xs) ≡ x ∷ copy_into source i xs
  unfolding copy_into
  copy_into-cons [] i x xs = refl
  copy_into-cons (s ∷ source) i x xs = copy_into-cons source (suc i) x (set xs i s)

  -- What is copied in is what is then read, if it fits.
  pub take-copy_into :
      (source xs : List A)
      → length source ≤ length xs
      → take (length source) (copy_into source 0 xs) ≡ source
  unfolding copy_into
  take-copy_into [] xs h = refl
  take-copy_into (s ∷ source) [] h = absurd (omega arith)
  take-copy_into (s ∷ source) (x ∷ xs) h =
      rw (copy_into-cons source 0 s xs) (ap (λ t. s ∷ t) (take-copy_into source xs (omega arith)))
