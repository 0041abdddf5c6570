-- ===== src/Common/Table.antt =====
-- C arrays of a fixed capacity with a count of the entries in use, and the loops that
-- rmw_cyclonedds_c/src/rmw_cyclonedds_c.c runs over them: append, search, shift down, compact in
-- place and clear.
pub mod Shift
pub mod Compact
pub mod Contents
pub mod Keyed
use Prim.Native.Nat.{ℕ, zero, suc, ◌+◌, ◌-◌, ◌≤◌, ◌<◌}
use mathlib.Core.Path.{◌≡◌, refl}
use mathlib.Core.Bool.{Bool, true, false}
use mathlib.Core.List.{List, [], ◌∷◌}
use rmw_cyclonedds_c.Common.Tests.{◌==◌, if◌then◌else◌}
use rmw_cyclonedds_c.Common.Lists.{length, get_or, set, take, replicate}

-- `T slots[MAX]; size_t count;`
pub record Table {ℓ} (A : Type ℓ) : Type ℓ where
  pub slots : List A
  pub count : ℕ

module _ {ℓ} {A : Type ℓ} where
  -- The entries in use, which is all that a reader of the table goes through.
  abbrev pub contents : Table A → List A
  contents t = take t.count t.slots

  -- The table has room for `cap` entries, and no more are in use.
  abbrev pub Fits : ℕ → Table A → Type 0
  Fits cap t = (length t.slots ≡ cap) × (t.count ≤ cap)

  -- `memset` of the whole array, and no entry in use.
  abbrev pub empty : A → ℕ → Table A
  empty z cap = record { slots = replicate cap z; count = 0 }

  -- `slots[count] = v; ++count;`
  unfoldable pub push : Table A → A → Table A
  push t v = record { slots = set t.slots t.count v; count = suc t.count }

  -- `for (i = 0; i < n; ++i) slots[at + i] = source[i];`
  unfoldable pub copy_into : List A → ℕ → List A → List A
  copy_into [] at xs = xs
  copy_into (s ∷ source) at xs = copy_into source (suc at) (set xs at s)

  -- `for (index = i; index < i + rounds; ++index) if (p(slots[index])) return index;`
  unfoldable pub search_from : A → (A → Bool) → ℕ → ℕ → List A → ℕ
  search_from z p zero i xs = i
  search_from z p (suc rounds) i xs =
      let rest = search_from z p rounds (suc i) xs in if p (get_or xs i z) then i else rest

  -- `memset(&slots[i], 0, rounds * sizeof(slots[0]))`
  unfoldable pub clear_from : A → ℕ → ℕ → List A → List A
  clear_from z zero i xs = xs
  clear_from z (suc rounds) i xs = clear_from z rounds (suc i) (set xs i z)

  -- `for (index = i; index < i + rounds; ++index) slots[index] = slots[index + 1];`
  unfoldable pub shift_down : A → ℕ → ℕ → List A → List A
  shift_down z zero i xs = xs
  shift_down z (suc rounds) i xs = shift_down z rounds (suc i) (set xs i (get_or xs (suc i) z))

  -- One round of the compaction loop moves `slots[source]` down to `slots[destination]`.
  unfoldable pub compact_from : A → (A → Bool) → ℕ → ℕ → ℕ → List A → List A × ℕ
  compact_from z keep zero source destination xs = (xs, destination)
  compact_from z keep (suc rounds) source destination xs =
      let entry = get_or xs source z in
      let kept = keep entry in
      let moved = if destination == source then xs else set xs destination entry in
      compact_from z keep rounds (suc source) (if kept then suc destination else destination)
        (if kept then moved else xs)

  -- The index of the first entry that passes, or the count.
  unfoldable pub search : A → (A → Bool) → Table A → ℕ
  unfolding search_from
  search z p t = search_from z p t.count 0 t.slots

  -- The entry at `i` is overwritten by those behind it, and the last place is cleared.
  unfoldable pub remove_at : A → ℕ → Table A → Table A
  unfolding shift_down
  remove_at z i t = record {
    slots = set (shift_down z (t.count - 1 - i) i t.slots) (t.count - 1) z;
    count = t.count - 1;
  }

  -- Only the entries that `keep` accepts stay, in their order. What lies behind them is left.
  unfoldable pub compact : A → (A → Bool) → Table A → Table A
  unfolding compact_from
  compact z keep t =
      let (xs, n) = compact_from z keep t.count 0 0 t.slots in record { slots = xs; count = n }

  -- The same, with the places that fell free cleared.
  unfoldable pub compact_clear : A → (A → Bool) → Table A → Table A
  unfolding compact_from clear_from
  compact_clear z keep t =
      let (xs, n) = compact_from z keep t.count 0 0 t.slots in
      record { slots = clear_from z (t.count - n) n xs; count = n }
