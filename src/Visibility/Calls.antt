-- ===== src/Visibility/Calls.antt =====
-- What each operation on the local graph leaves of the own nodes in the cache: `graph_add_node`,
-- `graph_remove_node`, `graph_add_endpoint` and `graph_remove_endpoint`.
use rmw_cyclonedds_c.Common.{
  ℕ, zero, suc, ◌-◌, ◌≡◌, refl, sym, ◌∙◌, Bool, true, false, ◌||◌, not, map, arith, ltb, length,
  CString, ◌==◌, if◌then◌else◌, if_elim, Bool-cases, inl, inr, get_or,
}
use mathlib.Core.Path.{subst}
use rmw_cyclonedds_c.Common.Table.{contents, push, search, remove_at}
use rmw_cyclonedds_c.Rmw.{Ret, error, invalid_argument, is_ok, ℤ, Guid}
use rmw_cyclonedds_c.GraphCache.{string_bound, max_endpoints_per_node}
use rmw_cyclonedds_c.GraphCache.Valid.{IsValid}
use rmw_cyclonedds_c.GraphCache.View.{node_of}
use rmw_cyclonedds_c.LocalGraph.{
  Local, Address, publish, node_info, node_is_valid, enter_node, retract_node, add_node, copy_node,
  close_gap, take_out_node, remove_node, row_of, write_row, retract_row, add_endpoint,
  remove_endpoint, zero_slot, max_local_nodes,
}
use rmw_cyclonedds_c.LocalGraph.Nodes.{publish_same}
use rmw_cyclonedds_c.Visibility.Announced.{own_nodes, IsShown, publish-own_nodes}

-- A call that returns OK shows the local nodes in the cache; any other leaves what the cache holds
-- of them as it was.
pub record Announces (l : Local) (r : Ret × Local) : Type 0 where
  pub valid : IsValid r.1.cache
  pub same_guid : r.1.participant_guid ≡ l.participant_guid
  pub shown : is_ok r.0 ≡ true → IsShown r.1
  pub kept : is_ok r.0 ≡ false → own_nodes r.1 ≡ own_nodes l

module _ (l : Local) (v : IsValid l.cache) where
  refused : (r : Ret) → is_ok r ≡ false → Announces l (r, l)
  refused r e = record { valid = v; same_guid = refl; shown = λ h. ground arith; kept = λ h. refl }

  -- An announcement of `m`, which has the cache of `l`.
  module _ (m : Local) (same_cache : m.cache ≡ l.cache)
      (same : m.participant_guid ≡ l.participant_guid) (written : ℤ) where
    after : Local
    after = (publish written m).1

    valid-after : IsValid after.cache
    unfolding after
    valid-after = (publish-own_nodes written m (subst IsValid (sym same_cache) v)).0

    own_nodes-after : own_nodes after ≡ (
        if is_ok (publish written m).0
        then map (node_of m.participant_guid) (map node_info (contents m.nodes))
        else own_nodes m)
    unfolding after
    own_nodes-after = (publish-own_nodes written m (subst IsValid (sym same_cache) v)).1

    own_nodes-before : own_nodes m ≡ own_nodes l
    own_nodes-before = rw (same_cache, same) refl

    IsShown-after : is_ok (publish written m).0 ≡ true → IsShown after
    unfolding after
    IsShown-after h = let s = publish_same written m in own_nodes-after ∙ rw h (rw (s.0, s.3) refl)

    kept-after : is_ok (publish written m).0 ≡ false → own_nodes after ≡ own_nodes l
    kept-after h = own_nodes-after ∙ rw h own_nodes-before

    published : Announces l (publish written m)
    unfolding after
    published = record {
      valid = valid-after;
      same_guid = (publish_same written m).3 ∙ same;
      shown = IsShown-after;
      kept = kept-after;
    }

    -- What is taken back where the announcement fails does not touch the cache.
    rolled_back :
        (undo : Local → Local)
        → ((k : Local)
            → ((undo k).cache ≡ k.cache) × ((undo k).participant_guid ≡ k.participant_guid))
        → Announces l
            (let (result, k) = publish written m in (result, if is_ok result then k else undo k))
    unfolding after
    rolled_back undo u = elim (Bool-cases (is_ok (publish written m).0)) [
      | inl e ↦ rw e published
      | inr e ↦ rw e (record {
        valid = rw (u after).0 valid-after;
        same_guid = (u after).1 ∙ (publish_same written m).3 ∙ same;
        shown = λ h. ground (arith, e);
        kept = λ h. rw ((u after).0, (u after).1) (kept-after e);
      })
    ]

  pub add_node-Announces :
      (written : ℤ) (node : Address) (name namespace_ : CString)
      → Announces l (add_node written l node name namespace_)
  unfolding add_node enter_node retract_node
  add_node-Announces written node name namespace_ =
      if_elim (Announces l) (ltb string_bound (length name) || ltb string_bound (length namespace_))
        (invalid_argument, l) _ (λ _. refused invalid_argument refl)
        (λ _.
          if_elim (Announces l) (l.nodes.count == max_local_nodes) (error, l) _
            (λ _. refused error refl)
            (λ _.
              rolled_back (enter_node l node name namespace_) refl refl written
                (λ k. retract_node k node l.nodes.count) (λ k. (refl, refl))))

  pub add_endpoint-Announces :
      (written : ℤ) (node : Address) (guid : Guid) (writer : Bool)
      → Announces l (add_endpoint written l node guid writer)
  unfolding add_endpoint write_row
  add_endpoint-Announces written node guid writer =
      let row = row_of writer (get_or l.nodes.slots (l.heap node).graph_index zero_slot) in
      if_elim (Announces l) (not (node_is_valid l node)) (invalid_argument, l) _
        (λ _. refused invalid_argument refl)
        (λ _.
          if_elim (Announces l) (row.count == max_endpoints_per_node) (error, l) _
            (λ _. refused error refl)
            (λ _.
              rolled_back (write_row l node writer (push row guid)) refl refl written
                (λ k. write_row k node writer (retract_row (push row guid))) (λ k. (refl, refl))))

  pub remove_endpoint-Announces :
      (written : ℤ) (node : Address) (guid : Guid) (writer : Bool)
      → Announces l (remove_endpoint written l node guid writer)
  unfolding remove_endpoint write_row
  remove_endpoint-Announces written node guid writer =
      let row = row_of writer (get_or l.nodes.slots (l.heap node).graph_index zero_slot) in
      let i = search 0 (λ g. g == guid) row in
      if_elim (Announces l) (not (node_is_valid l node)) (invalid_argument, l) _
        (λ _. refused invalid_argument refl)
        (λ _.
          if_elim (Announces l) (i == row.count) (invalid_argument, l) _
            (λ _. refused invalid_argument refl)
            (λ _. published (write_row l node writer (remove_at 0 i row)) refl refl written))

close_gap-same :
    (rounds i : ℕ) (l : Local)
    → ((close_gap rounds i l).cache ≡ l.cache)
      × ((close_gap rounds i l).participant_guid ≡ l.participant_guid)
unfolding close_gap copy_node
close_gap-same zero i l = (refl, refl)
close_gap-same (suc rounds) i l = close_gap-same rounds (suc i) (copy_node i (suc i) l)

pub remove_node-Announces :
    (l : Local)
    → IsValid l.cache
    → (written : ℤ) (node : Address) → Announces l (remove_node written l node)
unfolding remove_node take_out_node
remove_node-Announces l v written node =
    let slot = get_or l.nodes.slots (l.heap node).graph_index zero_slot in
    let same =
      close_gap-same (l.nodes.count - 1 - (l.heap node).graph_index) (l.heap node).graph_index l in
    if_elim (Announces l) (not (node_is_valid l node)) (invalid_argument, l) _
      (λ _. refused l v invalid_argument refl)
      (λ _.
        if_elim (Announces l) (not (slot.readers.count == 0) || not (slot.writers.count == 0))
          (invalid_argument, l) _ (λ _. refused l v invalid_argument refl)
          (λ _. published l v (take_out_node l node) same.0 same.1 written))
