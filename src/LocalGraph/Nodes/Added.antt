-- ===== src/LocalGraph/Nodes/Added.antt =====
-- `graph_add_node`: the node is announced, or nothing of it is left.
use rmw_cyclonedds_c.Common.{
  suc, ◌-◌, ◌≤◌, ◌<◌, ◌≡◌, refl, sym, ap, ◌∙◌, false, ◌||◌, [], ◌∷◌, ◌++◌, map, arith, length, set,
  All, All-append, ltb, ◌==◌, if◌then◌else◌, length-set, take-set_self, take-set_le, Bool-cases,
  inl, inr, CString, if_elim,
}
use mathlib.Core.Path.{subst}
use mathlib.Core.List.{map-append}
use rmw_cyclonedds_c.Common.Keys.{has_key, Distinct, put_absent, put-Distinct}
use rmw_cyclonedds_c.Common.Table.{contents, Fits}
use rmw_cyclonedds_c.Common.Table.Contents.{empty-Fits}
use rmw_cyclonedds_c.Rmw.{Ret, error, invalid_argument, is_ok, ℤ, Guid}
use rmw_cyclonedds_c.GraphCache.{NodeInfo, string_bound, max_endpoints_per_node}
use rmw_cyclonedds_c.LocalGraph.{
  Local, Slot, Address, update, publish, zero_slot, max_local_nodes, enter_node, retract_node,
  add_node, node_info,
}
use rmw_cyclonedds_c.LocalGraph.Links.{Linked, Linked-update, Linked-append, self_key}
use rmw_cyclonedds_c.LocalGraph.Consistent.{IsConsistent, SlotFits, owners, infos, slot_owner}
use rmw_cyclonedds_c.LocalGraph.Nodes.{publish_same, publish-IsConsistent, length-owners}

abbrev pub new_slot : Address → CString → CString → Slot
new_slot node name namespace_ = record zero_slot {
  node_name = name;
  node_namespace = namespace_;
  owner = node;
}

abbrev pub new_info : CString → CString → NodeInfo
new_info name namespace_ = record {
  node_namespace = namespace_;
  node_name = name;
  reader_gids = [];
  writer_gids = [];
}

module _ (l : Local) (node : Address) (name namespace_ : CString) (c : IsConsistent l)
    (room : l.nodes.count < max_local_nodes) where
  entered : Local
  entered = enter_node l node name namespace_

  entered_self : entered.self ≡ l.self
  unfolding entered enter_node
  entered_self = refl

  entered_sizes : Fits max_local_nodes entered.nodes
  unfolding entered enter_node
  entered_sizes = (
    length-set (set l.nodes.slots l.nodes.count zero_slot) l.nodes.count _
        ∙ length-set l.nodes.slots l.nodes.count zero_slot
        ∙ c.nodes_fit.0,
    room,
  )

  contents-entered :
      contents entered.nodes ≡ contents l.nodes ++ (new_slot node name namespace_ ∷ [])
  unfolding entered enter_node
  contents-entered =
      take-set_self l.nodes.count (set l.nodes.slots l.nodes.count zero_slot)
        (new_slot node name namespace_)
        (omega (arith, length-set l.nodes.slots l.nodes.count zero_slot, c.nodes_fit.0))
      ∙ ap (λ xs. xs ++ (new_slot node name namespace_ ∷ []))
          (take-set_le l.nodes.count l.nodes.slots l.nodes.count zero_slot (omega arith))

  owners-entered : owners entered ≡ owners l ++ (node ∷ [])
  owners-entered = ap (map slot_owner) contents-entered ∙ map-append slot_owner (contents l.nodes) _

  infos-entered : infos entered ≡ infos l ++ (new_info name namespace_ ∷ [])
  infos-entered = ap (map node_info) contents-entered ∙ map-append node_info (contents l.nodes) _

  module _ (live : (node == 0) ≡ false) (fresh : has_key self_key node (owners l) ≡ false)
      (fits : (length name ≤ string_bound) × (length namespace_ ≤ string_bound)) where
    links-entered : Linked entered.heap l.self 0 (owners l ++ (node ∷ []))
    unfolding entered enter_node
    links-entered =
        Linked-append l.self entered.heap 0 (owners l) node
          (Linked-update l.self l.heap 0 (owners l) node _ fresh c.linked)
          (ground (arith, length-owners l c))

    entered-IsConsistent : IsConsistent entered
    entered-IsConsistent = record {
      nodes_fit = entered_sizes;
      slots_fit = subst (All SlotFits) (sym contents-entered) (
          All-append SlotFits (contents l.nodes) _ c.slots_fit (
            (
              fits.0,
              fits.1,
              empty-Fits {A = Guid} 0 max_endpoints_per_node,
              empty-Fits {A = Guid} 0 max_endpoints_per_node,
            ),
            tt,
          ));
      linked = links;
      distinct =
          subst (Distinct self_key) (put_absent self_key node (owners l) fresh ∙ sym owners-entered)
            (put-Distinct self_key node (owners l) c.distinct);
    }
      where
        links : Linked entered.heap entered.self 0 (owners entered)
        links =
            rw entered_self
              (subst (Linked entered.heap l.self 0) (sym owners-entered) links-entered)

  -- What is left of a node that was entered in `m` and taken back.
  module _ (m : Local) (same_nodes : m.nodes ≡ entered.nodes) where
    left : Local
    left = retract_node m node l.nodes.count

    left_sizes : Fits max_local_nodes left.nodes
    unfolding left retract_node
    left_sizes = rw same_nodes (
      length-set entered.nodes.slots l.nodes.count zero_slot ∙ entered_sizes.0,
      omega (arith, entered_sizes.1),
    )

    contents-left : contents left.nodes ≡ contents l.nodes
    unfolding left retract_node entered enter_node
    contents-left =
        let count : suc l.nodes.count - 1 ≡ l.nodes.count = omega arith in
        rw (same_nodes, count)
          (take-set_le l.nodes.count
              (set (set l.nodes.slots l.nodes.count zero_slot) l.nodes.count
                (new_slot node name namespace_))
              l.nodes.count zero_slot (omega arith)
            ∙ take-set_le l.nodes.count (set l.nodes.slots l.nodes.count zero_slot) l.nodes.count
                (new_slot node name namespace_) (omega arith)
            ∙ take-set_le l.nodes.count l.nodes.slots l.nodes.count zero_slot (omega arith))

    links-left :
        has_key self_key node (owners l) ≡ false
        → m.heap ≡ entered.heap
        → m.self ≡ entered.self
        → Linked left.heap left.self 0 (owners l)
    unfolding left retract_node entered enter_node
    links-left fresh same_heap same_self =
        rw (same_heap, same_self)
          (Linked-update l.self (update l.heap node _) 0 (owners l) node _ fresh
            (Linked-update l.self l.heap 0 (owners l) node _ fresh c.linked))

    left-IsConsistent :
        has_key self_key node (owners l) ≡ false
        → m.heap ≡ entered.heap
        → m.self ≡ entered.self
        → IsConsistent left
    left-IsConsistent fresh same_heap same_self = record {
      nodes_fit = left_sizes;
      slots_fit = rw contents-left c.slots_fit;
      linked =
          subst (Linked left.heap left.self 0) (sym (ap (map slot_owner) contents-left))
            (links-left fresh same_heap same_self);
      distinct = rw contents-left c.distinct;
    }

-- What a caller of `graph_add_node` finds: the node is listed behind the others, or nothing changed.
abbrev pub Added : Local → Address → CString → CString → Ret × Local → Type 0
Added l node name namespace_ r =
    IsConsistent r.1
    × (infos r.1 ≡ (if is_ok r.0 then infos l ++ (new_info name namespace_ ∷ []) else infos l))
    × (owners r.1 ≡ (if is_ok r.0 then owners l ++ (node ∷ []) else owners l))

-- The announcement and, where it fails, what takes the node back.
announced-Added :
    (written : ℤ) (l : Local) (node : Address) (name namespace_ : CString)
    → IsConsistent l
    → l.nodes.count < max_local_nodes
    → (node == 0) ≡ false
    → has_key self_key node (owners l) ≡ false
    → (length name ≤ string_bound) × (length namespace_ ≤ string_bound)
    → Added l node name namespace_ (
        let (result, m) = publish written (enter_node l node name namespace_) in
        (result, if is_ok result then m else retract_node m node l.nodes.count))
unfolding entered left
announced-Added written l node name namespace_ c room live fresh fits =
    elim (Bool-cases (is_ok (publish written e).0)) [
      | inl done ↦ rw done (
        publish-IsConsistent written e
            (entered-IsConsistent l node name namespace_ c room live fresh fits),
        ap (λ t. map node_info (contents t)) same.0 ∙ infos-entered l node name namespace_ c room,
        ap (λ t. map slot_owner (contents t)) same.0 ∙ owners-entered l node name namespace_ c room,
      )
      | inr failed ↦ rw failed (
        left-IsConsistent l node name namespace_ c room m same.0 fresh same.1 same.2,
        ap (map node_info) (contents-left l node name namespace_ c room m same.0),
        ap (map slot_owner) (contents-left l node name namespace_ c room m same.0),
      )
    ]
  where
    e : Local
    e = enter_node l node name namespace_

    m : Local
    m = (publish written e).1

    same :
        (m.nodes ≡ e.nodes)
        × (m.heap ≡ e.heap)
        × (m.self ≡ e.self)
        × (m.participant_guid ≡ e.participant_guid)
    same = publish_same written e

-- `graph_add_node`, given a consistent local graph and a live object that owns no node of it, keeps
-- the graph consistent. If it returns OK, the node is listed behind the others, with no endpoints,
-- and the object owns it; if it returns anything else, the listed nodes and their owners are those
-- of before, also where the announcement failed.
pub add_node-Added :
    (written : ℤ) (l : Local) (node : Address) (name namespace_ : CString)
    → IsConsistent l
    → (node == 0) ≡ false
    → has_key self_key node (owners l) ≡ false
    → Added l node name namespace_ (add_node written l node name namespace_)
unfolding add_node
add_node-Added written l node name namespace_ c live fresh =
    if_elim (Added l node name namespace_)
      (ltb string_bound (length name) || ltb string_bound (length namespace_)) (invalid_argument, l)
      _ (λ _. (c, refl, refl))
      (λ fits.
        if_elim (Added l node name namespace_) (l.nodes.count == max_local_nodes) (error, l) _
          (λ _. (c, refl, refl))
          (λ room.
            announced-Added written l node name namespace_ c (ground (arith, c.nodes_fit.1)) live
              fresh (ground arith, ground arith)))
