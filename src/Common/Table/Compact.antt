-- ===== src/Common/Table/Compact.antt =====
-- The in-place compaction loop keeps exactly the accepted entries, in order.
use Prim.Native.Nat.{ℕ, zero, suc, ◌+◌, ◌≤◌, ◌<◌}
use mathlib.Core.Path.{◌≡◌, refl, sym, ◌∙◌}
use mathlib.Core.Logic.{inl, inr}
use mathlib.Core.Bool.{Bool, true, false}
use mathlib.Core.List.{List, [], ◌∷◌, ◌++◌, append-nil, append_assoc}
use native.Mathlib.Omega.{arith}
use rmw_cyclonedds_c.Common.Tests.{◌==◌, if◌then◌else◌, Bool-cases, ==→eq}
use rmw_cyclonedds_c.Common.Lists.{
  length, get_or, set, take, drop, filter, length-set, take-set_self, take-suc, drop-set_lt,
  drop-eq-cons,
}
use rmw_cyclonedds_c.Common.Table.{compact_from}

module _ {ℓ} {A : Type ℓ} (z : A) (keep : A → Bool) where
  -- What the loop has done when it stops, started with the array `xs`.
  pub record Compacted (n s d : ℕ) (xs : List A) (out : List A × ℕ) : Type ℓ where
    pub size : length out.0 ≡ length xs
    pub entries : take out.1 out.0 ≡ take d xs ++ filter keep (take n (drop s xs))
    pub bound : out.1 ≤ d + n

  moved-take :
      (s d : ℕ) (xs : List A)
      → d ≤ s
      → s < length xs
      → take (suc d) (if d == s then xs else set xs d (get_or xs s z))
        ≡ take d xs ++ (get_or xs s z ∷ [])
  moved-take s d xs h k = elim (Bool-cases (d == s)) [
    | inl e ↦ rw e (rw (← ==→eq d s e) (take-suc d xs z (omega (arith, ==→eq d s e))))
    | inr e ↦ rw e (take-set_self d xs (get_or xs s z) (omega arith))
  ]

  moved-drop :
      (s d : ℕ) (xs : List A)
      → d ≤ s
      → drop (suc s) (if d == s then xs else set xs d (get_or xs s z)) ≡ drop (suc s) xs
  moved-drop s d xs h = elim (Bool-cases (d == s)) [
    | inl e ↦ rw e
    | inr e ↦ rw e (drop-set_lt (suc s) xs d (get_or xs s z) (omega arith))
  ]

  moved-length :
      (s d : ℕ) (xs : List A) → length (if d == s then xs else set xs d (get_or xs s z)) ≡ length xs
  moved-length s d xs = elim (Bool-cases (d == s)) [
    | inl e ↦ rw e
    | inr e ↦ rw e (length-set xs d (get_or xs s z))
  ]

  -- A round that keeps its entry.
  Compacted-keep :
      (n s d : ℕ) (xs ys : List A) (out : List A × ℕ)
      → s < length xs
      → keep (get_or xs s z) ≡ true
      → length ys ≡ length xs
      → take (suc d) ys ≡ take d xs ++ (get_or xs s z ∷ [])
      → drop (suc s) ys ≡ drop (suc s) xs
      → Compacted n (suc s) (suc d) ys out
      → Compacted (suc n) s d xs out
  Compacted-keep n s d xs ys out k e l t r c = record {
    size = c.size ∙ l;
    entries =
        c.entries
        ∙ rw (t, r, drop-eq-cons s xs z k, e)
            (append_assoc (take d xs) (get_or xs s z ∷ [])
              (filter keep (take n (drop (suc s) xs))));
    bound = omega (arith, c.bound);
  }

  -- A round that drops its entry.
  Compacted-drop :
      (n s d : ℕ) (xs : List A) (out : List A × ℕ)
      → s < length xs
      → keep (get_or xs s z) ≡ false
      → Compacted n (suc s) d xs out
      → Compacted (suc n) s d xs out
  Compacted-drop n s d xs out k e c = record {
    size = c.size;
    entries = c.entries ∙ rw (drop-eq-cons s xs z k, e);
    bound = omega (arith, c.bound);
  }

  pub compact_from-Compacted :
      (n s d : ℕ) (xs : List A)
      → d ≤ s
      → s + n ≤ length xs
      → Compacted n s d xs (compact_from z keep n s d xs)
  unfolding compact_from
  compact_from-Compacted zero s d xs h k = record {
    size = refl;
    entries = sym (append-nil (take d xs));
    bound = omega arith;
  }
  compact_from-Compacted (suc n) s d xs h k = elim (Bool-cases (keep (get_or xs s z))) [
    | inl e ↦ rw e (
        Compacted-keep n s d xs _ _ (omega arith) e (moved-length s d xs)
          (moved-take s d xs h (omega arith)) (moved-drop s d xs h)
          (compact_from-Compacted n (suc s) (suc d) _ (omega arith)
            (omega (arith, moved-length s d xs))))
    | inr e ↦ rw e (
        Compacted-drop n s d xs _ (omega arith) e
          (compact_from-Compacted n (suc s) d xs (omega arith) (omega arith)))
  ]
