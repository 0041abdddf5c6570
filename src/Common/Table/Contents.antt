-- ===== src/Common/Table/Contents.antt =====
-- Each operation on a table, seen through the list of the entries in use.
use Prim.Native.Nat.{ℕ, zero, suc, ◌+◌, ◌-◌, ◌≤◌, ◌<◌}
use mathlib.Core.Path.{◌≡◌, ◌∙◌, ap, sym}
use mathlib.Core.Logic.{inl, inr}
use mathlib.Core.Bool.{Bool}
use mathlib.Core.List.{List, [], ◌∷◌, ◌++◌}
use native.Mathlib.Omega.{arith}
use rmw_cyclonedds_c.Common.Tests.{ltb, Bool-cases}
use rmw_cyclonedds_c.Common.Keys.{ltb-find_index}
use rmw_cyclonedds_c.Common.Lists.{
  length, get_or, take, drop, filter, find_index, erase_at, length-set, length-take, take-set_le,
  take-set_self, drop-eq-cons, length-replicate, any,
}
use rmw_cyclonedds_c.Common.Table.{
  Table, contents, Fits, empty, push, search, search_from, remove_at, compact, compact_clear,
  compact_from, shift_down,
}
use rmw_cyclonedds_c.Common.Table.Shift.{
  take-shift_down, length-shift_down, length-clear_from, take-clear_from,
}
use rmw_cyclonedds_c.Common.Table.Compact.{compact_from-Compacted, Compacted}

module _ {ℓ} {A : Type ℓ} where
  pub length-contents : (cap : ℕ) (t : Table A) → Fits cap t → length (contents t) ≡ t.count
  length-contents cap t f = length-take t.count t.slots (omega (arith, f.0, f.1))

  pub empty-Fits : (z : A) (cap : ℕ) → Fits cap (empty z cap)
  empty-Fits z cap = (length-replicate cap z, omega arith)

  pub contents-push :
      (cap : ℕ) (t : Table A) (v : A)
      → Fits cap t
      → t.count < cap
      → contents (push t v) ≡ contents t ++ (v ∷ [])
  unfolding push
  contents-push cap t v f h = take-set_self t.count t.slots v (omega (arith, f.0))

  pub push-Fits : (cap : ℕ) (t : Table A) (v : A) → Fits cap t → t.count < cap → Fits cap (push t v)
  unfolding push
  push-Fits cap t v f h = (length-set t.slots t.count v ∙ f.0, h)

module _ {ℓ} {A : Type ℓ} (z : A) where
  search_from_lem :
      (p : A → Bool) (n i : ℕ) (xs : List A)
      → i + n ≤ length xs
      → search_from z p n i xs ≡ i + find_index p (take n (drop i xs))
  unfolding search_from
  search_from_lem p zero i xs h = omega arith
  search_from_lem p (suc n) i xs h =
      rw (drop-eq-cons i xs z (omega arith)) (elim (Bool-cases (p (get_or xs i z))) [
        | inl e ↦ rw e (omega arith)
        | inr e ↦ rw e (omega (arith, search_from_lem p n (suc i) xs (omega arith)))
      ])

  pub search_lem :
      (cap : ℕ) (p : A → Bool) (t : Table A) → Fits cap t → search z p t ≡ find_index p (contents t)
  unfolding search
  search_lem cap p t f =
      omega (arith, search_from_lem p t.count 0 t.slots (omega (arith, f.0, f.1)))

  -- The search stops in front of the count exactly if some entry in use passes.
  pub ltb-search-count :
      (cap : ℕ) (p : A → Bool) (t : Table A)
      → Fits cap t
      → ltb (search z p t) t.count ≡ any p (contents t)
  ltb-search-count cap p t f = rw (search_lem cap p t f) (
      ap (ltb (find_index p (contents t))) (sym (length-contents cap t f))
      ∙ ltb-find_index p (contents t))

  closed_gap :
      (i c : ℕ) (xs : List A)
      → i < c
      → c ≤ length xs
      → take (c - 1) (shift_down z (c - 1 - i) i xs) ≡ erase_at i (take c xs)
  closed_gap i c xs h k =
      let front : i + (c - 1 - i) ≡ c - 1 = omega arith in
      let whole : suc (c - 1) ≡ c = omega arith in
      let shifted = take-shift_down z (c - 1 - i) i xs (omega arith) in
      rw whole at (rw front at shifted)

  pub contents-remove_at :
      (cap i : ℕ) (t : Table A)
      → Fits cap t
      → i < t.count
      → contents (remove_at z i t) ≡ erase_at i (contents t)
  unfolding remove_at
  contents-remove_at cap i t f h =
      take-set_le (t.count - 1) (shift_down z (t.count - 1 - i) i t.slots) (t.count - 1) z
        (omega arith)
      ∙ closed_gap i t.count t.slots h (omega (arith, f.0, f.1))

  pub remove_at-Fits : (cap i : ℕ) (t : Table A) → Fits cap t → Fits cap (remove_at z i t)
  unfolding remove_at
  remove_at-Fits cap i t f = (
    length-set _ (t.count - 1) z ∙ length-shift_down z (t.count - 1 - i) i t.slots ∙ f.0,
    omega (arith, f.1),
  )

  module _ (keep : A → Bool) (cap : ℕ) (t : Table A) (f : Fits cap t) where
    compacts : Compacted z keep t.count 0 0 t.slots (compact_from z keep t.count 0 0 t.slots)
    compacts =
        compact_from-Compacted z keep t.count 0 0 t.slots (omega arith) (omega (arith, f.0, f.1))

    pub contents-compact : contents (compact z keep t) ≡ filter keep (contents t)
    unfolding compact
    contents-compact = compacts.entries

    pub compact-Fits : Fits cap (compact z keep t)
    unfolding compact
    compact-Fits = (compacts.size ∙ f.0, omega (arith, compacts.bound, f.1))

    pub contents-compact_clear : contents (compact_clear z keep t) ≡ filter keep (contents t)
    unfolding compact_clear
    contents-compact_clear =
        let out = compact_from z keep t.count 0 0 t.slots in
        take-clear_from z out.1 (t.count - out.1) out.1 out.0 (omega arith) ∙ compacts.entries

    pub compact_clear-Fits : Fits cap (compact_clear z keep t)
    unfolding compact_clear
    compact_clear-Fits =
        let out = compact_from z keep t.count 0 0 t.slots in
        (
          length-clear_from z (t.count - out.1) out.1 out.0 ∙ compacts.size ∙ f.0,
          omega (arith, compacts.bound, f.1),
        )
