-- ===== src/LocalGraph/Nodes/Removed.antt =====
-- `graph_remove_node`: the node's slot is closed, and every object behind it learns its new place.
pub mod Outcome
use rmw_cyclonedds_c.Common.{
  ℕ, zero, suc, ◌+◌, ◌-◌, ◌≤◌, ◌<◌, ◌≡◌, refl, sym, ap, ◌∙◌, Bool, true, false, not, ◌&&◌, ◌||◌,
  List, [], ◌∷◌, ◌++◌, map, arith, length, drop, take, set, get_or, erase_at, All, All-map,
  All-mono, ltb, ◌==◌, if◌then◌else◌, length-set, take-set_le, Bool-cases, inl, inr, CString,
  if_elim,
}
use mathlib.Core.Path.{subst, subst₂, ap₂}
use rmw_cyclonedds_c.Common.Keys.{
  has_key, without, index_of, Distinct, filter-Distinct, erase_at-index_of, has_key-without,
  without_absent,
}
use rmw_cyclonedds_c.Common.Table.{Table, contents, Fits}
use rmw_cyclonedds_c.Rmw.{Ret, ok, error, invalid_argument, is_ok, ℤ, Guid}
use rmw_cyclonedds_c.GraphCache.{NodeInfo}
use rmw_cyclonedds_c.LocalGraph.{
  Local, Slot, Address, NodeData, update, publish, node_is_valid, zero_slot, max_local_nodes,
  reset_node, close_gap, copy_slot, take_out_node, remove_node, node_info,
}
use rmw_cyclonedds_c.LocalGraph.Links.{Linked, Linked-update, Linked-erase_at, reindex, self_key}
use rmw_cyclonedds_c.LocalGraph.Consistent.{IsConsistent, SlotFits, owners, infos, slot_owner}
use rmw_cyclonedds_c.LocalGraph.Gap.{
  shift_slots, erase_copy, length-shift_slots, closed_slots, close_gap_lem, node_info-copy_slot,
  copy_slot-SlotFits,
}
use rmw_cyclonedds_c.LocalGraph.Nodes.{
  publish_same, has_key-get_or, publish-IsConsistent, length-owners, valid_owner,
}

infos-copies :
    (xs : List Slot) → All SlotFits xs → map node_info (map copy_slot xs) ≡ map node_info xs
infos-copies [] f = refl
infos-copies (x ∷ xs) f = ap₂ ◌∷◌ (node_info-copy_slot x f.0) (infos-copies xs f.1)

owners-copies : (xs : List Slot) → map slot_owner (map copy_slot xs) ≡ map slot_owner xs
unfolding copy_slot
owners-copies [] = refl
owners-copies (x ∷ xs) = ap (λ t. x.owner ∷ t) (owners-copies xs)

-- The copies list the same nodes with the same owners.
infos-erase_copy :
    (i : ℕ) (xs : List Slot)
    → All SlotFits xs
    → map node_info (erase_copy i xs) ≡ erase_at i (map node_info xs)
infos-erase_copy i [] f = refl
infos-erase_copy zero (x ∷ xs) f = infos-copies xs f.1
infos-erase_copy (suc i) (x ∷ xs) f = ap (λ t. node_info x ∷ t) (infos-erase_copy i xs f.1)

owners-erase_copy :
    (i : ℕ) (xs : List Slot) → map slot_owner (erase_copy i xs) ≡ erase_at i (map slot_owner xs)
owners-erase_copy i [] = refl
owners-erase_copy zero (x ∷ xs) = owners-copies xs
owners-erase_copy (suc i) (x ∷ xs) = ap (λ t. x.owner ∷ t) (owners-erase_copy i xs)

All-erase_copy : (i : ℕ) (xs : List Slot) → All SlotFits xs → All SlotFits (erase_copy i xs)
All-erase_copy i [] f = f
All-erase_copy zero (x ∷ xs) f = All-map SlotFits copy_slot xs (All-mono copy_slot-SlotFits xs f.1)
All-erase_copy (suc i) (x ∷ xs) f = (f.0, All-erase_copy i xs f.1)

no_owners : (k : ℕ) → map slot_owner (take k []) ≡ []
no_owners zero = refl
no_owners (suc k) = refl

-- The owners behind the gap, as the loop reads them from the slots.
moved_owners :
    (n i : ℕ) (xs : List Slot)
    → i < n
    → map slot_owner (take (n - 1 - i) (drop (suc i) xs))
      ≡ drop (suc i) (map slot_owner (take n xs))
moved_owners zero i xs h = absurd (omega arith)
moved_owners (suc n) i [] h = no_owners (suc n - 1 - i)
moved_owners (suc n) zero (x ∷ xs) h = let e : suc n - 1 - 0 ≡ n = omega arith in rw e
moved_owners (suc n) (suc i) (x ∷ xs) h =
    let e : suc n - 1 - suc i ≡ n - 1 - i = omega arith in rw e (moved_owners n i xs (omega arith))

any_ne :
    (addresses : List Address) (b a : Address)
    → has_key self_key b addresses ≡ true
    → has_key self_key a addresses ≡ false
    → (a == b) ≡ false
any_ne [] b a h k = ground arith
any_ne (x ∷ addresses) b a h k = ground (arith, any_ne addresses b a)

-- To erase a place is to remove its owner, where no owner stands twice.
erase_at-get_or :
    (addresses : List Address) (i : ℕ)
    → i < length addresses
    → Distinct self_key addresses
    → erase_at i addresses ≡ without self_key (get_or addresses i 0) addresses
erase_at-get_or [] i h d = absurd (omega arith)
erase_at-get_or (a ∷ addresses) zero h d = ground (arith, without_absent self_key a addresses d.0)
erase_at-get_or (a ∷ addresses) (suc i) h d = ground (
  arith,
  erase_at-get_or addresses i (omega arith) d.1,
  has_key-get_or addresses i (omega arith),
  any_ne addresses (get_or addresses i 0) a,
)

module _ (l : Local) (node : Address) (c : IsConsistent l)
    (valid : node_is_valid l node ≡ true) where
  abbrev pub index : ℕ
  index = (l.heap node).graph_index

  below : index < l.nodes.count
  below = (valid_owner l node valid).0

  pub rest : Local
  rest = take_out_node l node

  closed : close_gap (l.nodes.count - 1 - index) index l ≡ record l {
    nodes = record l.nodes { slots = shift_slots (l.nodes.count - 1 - index) index l.nodes.slots };
    heap =
        reindex index
          (map slot_owner (take (l.nodes.count - 1 - index) (drop (suc index) l.nodes.slots)))
          l.heap;
  }
  closed =
      close_gap_lem (l.nodes.count - 1 - index) index l
        (omega (arith, below, c.nodes_fit.0, c.nodes_fit.1))

  contents-rest : contents rest.nodes ≡ erase_copy index (contents l.nodes)
  unfolding rest take_out_node reset_node
  contents-rest =
      take-set_le (l.nodes.count - 1) _ (l.nodes.count - 1) zero_slot (omega arith)
      ∙ ap (λ (m : Local). take (l.nodes.count - 1) m.nodes.slots) closed
      ∙ closed_slots index l.nodes.count l.nodes.slots below
          (omega (arith, c.nodes_fit.0, c.nodes_fit.1))

  pub owners-rest : owners rest ≡ erase_at index (owners l)
  owners-rest = ap (map slot_owner) contents-rest ∙ owners-erase_copy index (contents l.nodes)

  pub infos-rest : infos rest ≡ erase_at index (infos l)
  infos-rest =
      ap (map node_info) contents-rest ∙ infos-erase_copy index (contents l.nodes) c.slots_fit

  -- No two places have one owner, so the node is gone.
  pub erased : erase_at index (owners l) ≡ without self_key node (owners l)
  erased =
      erase_at-get_or (owners l) index (omega (arith, below, length-owners l c)) c.distinct
      ∙ ap (λ a. without self_key a (owners l)) (valid_owner l node valid).1

  sizes-rest : Fits max_local_nodes rest.nodes
  unfolding rest take_out_node reset_node
  sizes-rest = (
    length-set _ (l.nodes.count - 1) zero_slot
        ∙ ap (λ (m : Local). length m.nodes.slots) closed
        ∙ length-shift_slots (l.nodes.count - 1 - index) index l.nodes.slots
        ∙ c.nodes_fit.0,
    omega (arith, c.nodes_fit.1),
  )

  links-rest : Linked rest.heap rest.self 0 (without self_key node (owners l))
  unfolding rest take_out_node
  links-rest = rw closed (
      Linked-update l.self _ 0 (without self_key node (owners l)) node _
        (has_key-without self_key node (owners l)) moved)
    where
      moved :
          Linked
            (reindex index
              (map slot_owner (take (l.nodes.count - 1 - index) (drop (suc index) l.nodes.slots)))
              l.heap)
            l.self
            0
            (without self_key node (owners l))
      moved =
          subst₂ (λ told left. Linked (reindex index told l.heap) l.self 0 left)
            (sym (moved_owners l.nodes.count index l.nodes.slots below)) erased
            (Linked-erase_at l.self l.heap 0 index index (owners l) (omega arith) c.distinct
              c.linked)

  pub rest-IsConsistent : IsConsistent rest
  rest-IsConsistent = record {
    nodes_fit = sizes-rest;
    slots_fit = rw contents-rest (All-erase_copy index (contents l.nodes) c.slots_fit);
    linked = subst (Linked rest.heap rest.self 0) (sym (owners-rest ∙ erased)) links-rest;
    distinct =
        subst (Distinct self_key) (sym (owners-rest ∙ erased))
          (filter-Distinct self_key _ (owners l) c.distinct);
  }
