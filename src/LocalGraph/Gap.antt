-- ===== src/LocalGraph/Gap.antt =====
-- The loop of `graph_remove_node` that closes the gap of a removed node.
use rmw_cyclonedds_c.Common.{
  ℕ, zero, suc, ◌+◌, ◌-◌, ◌≤◌, ◌<◌, ◌≡◌, refl, ap, ◌∙◌, List, [], ◌∷◌, map, arith, length, drop,
  take, get_or, set, length-set, drop-set_lt, drop-eq-cons,
}
use mathlib.Core.Path.{subst}
use rmw_cyclonedds_c.Common.Table.{Table, contents, Fits, copy_into}
use rmw_cyclonedds_c.Common.Table.Contents.{length-contents}
use rmw_cyclonedds_c.Common.Table.Shift.{take-copy_into, length-copy_into}
use rmw_cyclonedds_c.GraphCache.{max_endpoints_per_node}
use rmw_cyclonedds_c.Rmw.{Guid}
use rmw_cyclonedds_c.LocalGraph.{
  Local, Slot, copy_row, copy_slot, copy_node, close_gap, zero_slot, node_info, empty_row,
}
use rmw_cyclonedds_c.LocalGraph.Links.{reindex}
use rmw_cyclonedds_c.LocalGraph.Consistent.{SlotFits, slot_owner}

-- A copied row lists the same GUIDs.
contents-copy_row :
    (r : Table Guid) → Fits max_endpoints_per_node r → contents (copy_row r) ≡ contents r
unfolding copy_row
contents-copy_row r f =
    let n = length-contents max_endpoints_per_node r f in
    subst (λ m. take m (copy_into (contents r) 0 empty_row.slots) ≡ contents r) n
      (take-copy_into (contents r) empty_row.slots (omega (arith, n, f.1)))

copy_row-Fits :
    (r : Table Guid) → Fits max_endpoints_per_node r → Fits max_endpoints_per_node (copy_row r)
unfolding copy_row
copy_row-Fits r f = (length-copy_into (contents r) 0 empty_row.slots, f.1)

pub node_info-copy_slot : (s : Slot) → SlotFits s → node_info (copy_slot s) ≡ node_info s
unfolding copy_slot
node_info-copy_slot s f = λ i. record {
  node_namespace = s.node_namespace;
  node_name = s.node_name;
  reader_gids = contents-copy_row s.readers f.2 i;
  writer_gids = contents-copy_row s.writers f.3 i;
}

pub copy_slot-SlotFits : (s : Slot) → SlotFits s → SlotFits (copy_slot s)
unfolding copy_slot
copy_slot-SlotFits s f = (f.0, f.1, copy_row-Fits s.readers f.2, copy_row-Fits s.writers f.3)

-- The slots behind the loop, and the places that it writes.
pub shift_slots : ℕ → ℕ → List Slot → List Slot
shift_slots zero i xs = xs
shift_slots (suc n) i xs =
    shift_slots n (suc i) (set xs i (copy_slot (get_or xs (suc i) zero_slot)))

-- The entry at `i` is gone, and those behind it are copies.
abbrev pub erase_copy : ℕ → List Slot → List Slot
erase_copy i [] = []
erase_copy zero (x ∷ xs) = map copy_slot xs
erase_copy (suc i) (x ∷ xs) = x ∷ erase_copy i xs

pub length-shift_slots : (n i : ℕ) (xs : List Slot) → length (shift_slots n i xs) ≡ length xs
unfolding shift_slots
length-shift_slots zero i xs = refl
length-shift_slots (suc n) i xs =
    length-shift_slots n (suc i) _ ∙ length-set xs i (copy_slot (get_or xs (suc i) zero_slot))

shift_slots-cons :
    (n i : ℕ) (x : Slot) (xs : List Slot) → shift_slots n (suc i) (x ∷ xs) ≡ x ∷ shift_slots n i xs
unfolding shift_slots
shift_slots-cons zero i x xs = refl
shift_slots-cons (suc n) i x xs =
    shift_slots-cons n (suc i) x (set xs i (copy_slot (get_or xs (suc i) zero_slot)))

take-shift_slots_zero :
    (n : ℕ) (x : Slot) (xs : List Slot)
    → n ≤ length xs
    → take n (shift_slots n 0 (x ∷ xs)) ≡ map copy_slot (take n xs)
unfolding shift_slots
take-shift_slots_zero zero x xs h = refl
take-shift_slots_zero (suc n) x [] h = absurd (omega arith)
take-shift_slots_zero (suc n) x (y ∷ ys) h =
    rw (shift_slots-cons n 0 (copy_slot y) (y ∷ ys))
      (ap (λ t. copy_slot y ∷ t) (take-shift_slots_zero n y ys (omega arith)))

take-shift_slots :
    (n i : ℕ) (xs : List Slot)
    → i + n < length xs
    → take (i + n) (shift_slots n i xs) ≡ erase_copy i (take (suc (i + n)) xs)
take-shift_slots n i [] h = absurd (omega arith)
take-shift_slots n zero (x ∷ xs) h =
    let e : 0 + n ≡ n = omega arith in rw e (take-shift_slots_zero n x xs (omega arith))
take-shift_slots n (suc i) (x ∷ xs) h =
    let e : suc i + n ≡ suc (i + n) = omega arith in
    rw (e, shift_slots-cons n i x xs) (ap (λ t. x ∷ t) (take-shift_slots n i xs (omega arith)))

pub closed_slots :
    (i c : ℕ) (xs : List Slot)
    → i < c
    → c ≤ length xs
    → take (c - 1) (shift_slots (c - 1 - i) i xs) ≡ erase_copy i (take c xs)
closed_slots i c xs h k =
    let front : i + (c - 1 - i) ≡ c - 1 = omega arith in
    let whole : suc (c - 1) ≡ c = omega arith in
    let shifted = take-shift_slots (c - 1 - i) i xs (omega arith) in
    rw whole at (rw front at shifted)

-- The loop copies the slots down and tells each owner its new index; it does nothing else.
pub close_gap_lem :
    (n i : ℕ) (l : Local)
    → i + n < length l.nodes.slots
    → close_gap n i l ≡ record l {
      nodes = record l.nodes { slots = shift_slots n i l.nodes.slots };
      heap = reindex i (map slot_owner (take n (drop (suc i) l.nodes.slots))) l.heap;
    }
unfolding close_gap copy_node shift_slots reindex
close_gap_lem zero i l h = refl
close_gap_lem (suc n) i l h =
    close_gap_lem n (suc i) (copy_node i (suc i) l) (
      omega
        (arith, length-set l.nodes.slots i (copy_slot (get_or l.nodes.slots (suc i) zero_slot))))
    ∙ rw (
      drop-set_lt (suc (suc i)) l.nodes.slots i (copy_slot (get_or l.nodes.slots (suc i) zero_slot))
          (omega arith),
      drop-eq-cons (suc i) l.nodes.slots zero_slot (omega arith),
    )
