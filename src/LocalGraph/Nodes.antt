-- ===== src/LocalGraph/Nodes.antt =====
-- `graph_add_node` and `graph_remove_node`.
pub mod Added
pub mod Removed
use rmw_cyclonedds_c.Common.{
  ℕ, zero, suc, ◌+◌, ◌-◌, ◌≤◌, ◌<◌, ◌≡◌, refl, sym, ap, ◌∙◌, Bool, true, false, not, ◌&&◌, List, [],
  ◌∷◌, ◌++◌, map, arith, length, drop, take, get_or, set, erase_at, All, ltb, length-map,
  get_or-take, Bool-cases, ◌↔◌, inl, inr, ==→eq, ◌==◌, if◌then◌else◌,
}
use rmw_cyclonedds_c.Common.Keys.{has_key}
use rmw_cyclonedds_c.Common.Table.{Table, contents, Fits}
use rmw_cyclonedds_c.Common.Table.Contents.{length-contents}
use rmw_cyclonedds_c.Rmw.{
  Ret, ok, error, is_ok, is_invalid_argument, ℤ, pos, negsuc, map_dds_result,
}
use rmw_cyclonedds_c.GraphCache.{
  Cache, Snapshot, apply_snapshot, replace_nodes, add_participant_locked,
}
use rmw_cyclonedds_c.LocalGraph.{
  Local, Slot, Address, NodeData, publish, node_is_valid, zero_slot, local_snapshot,
  max_local_nodes,
}
use rmw_cyclonedds_c.LocalGraph.Links.{Linked, Linked-get_or, self_key}
use rmw_cyclonedds_c.LocalGraph.Consistent.{IsConsistent, SlotFits, owners, infos, slot_owner}

apply_snapshot-code :
    (c : Cache) (s : Snapshot) → is_invalid_argument (apply_snapshot c s).0 ≡ false
unfolding apply_snapshot replace_nodes add_participant_locked
apply_snapshot-code c s = ground arith

-- An announcement fails with an error if it fails.
pub publish-code : (written : ℤ) (l : Local) → is_invalid_argument (publish written l).0 ≡ false
unfolding publish
publish-code (pos n) l = apply_snapshot-code l.cache (local_snapshot l)
publish-code (negsuc n) l = refl

-- An announcement changes neither the slots nor the links.
pub publish_same :
    (written : ℤ) (l : Local)
    → ((publish written l).1.nodes ≡ l.nodes)
      × ((publish written l).1.heap ≡ l.heap)
      × ((publish written l).1.self ≡ l.self)
      × ((publish written l).1.participant_guid ≡ l.participant_guid)
unfolding publish
publish_same written l = ground arith

-- The invariant speaks of the slots and the links only.
pub IsConsistent-same :
    (l m : Local)
    → m.nodes ≡ l.nodes
    → m.heap ≡ l.heap
    → m.self ≡ l.self
    → IsConsistent l
    → IsConsistent m
IsConsistent-same l m n h s c = record {
  nodes_fit = rw n c.nodes_fit;
  slots_fit = rw n c.slots_fit;
  linked = rw (n, h, s) c.linked;
  distinct = rw n c.distinct;
}

pub publish-IsConsistent :
    (written : ℤ) (l : Local) → IsConsistent l → IsConsistent (publish written l).1
publish-IsConsistent written l c =
    let same = publish_same written l in
    IsConsistent-same l (publish written l).1 same.0 same.1 same.2 c

get_or-map :
    (xs : List Slot) (i : ℕ) → get_or (map slot_owner xs) i 0 ≡ (get_or xs i zero_slot).owner
get_or-map [] i = refl
get_or-map (x ∷ xs) zero = refl
get_or-map (x ∷ xs) (suc i) = get_or-map xs i

pub length-owners : (l : Local) → IsConsistent l → length (owners l) ≡ l.nodes.count
length-owners l c =
    length-map slot_owner (contents l.nodes) ∙ length-contents max_local_nodes l.nodes c.nodes_fit

-- A node that passes `graph_node_is_valid_locked` owns the slot that it points to.
pub valid_owner :
    (l : Local) (node : Address)
    → node_is_valid l node ≡ true
    → ((l.heap node).graph_index < l.nodes.count)
      × (get_or (owners l) (l.heap node).graph_index 0 ≡ node)
unfolding node_is_valid
valid_owner l node h = ground (
  arith,
  get_or-map (contents l.nodes) (l.heap node).graph_index,
  get_or-take l.nodes.count l.nodes.slots (l.heap node).graph_index zero_slot,
)

pub has_key-get_or :
    (addresses : List Address) (i : ℕ)
    → i < length addresses
    → has_key self_key (get_or addresses i 0) addresses ≡ true
has_key-get_or [] i h = absurd (omega arith)
has_key-get_or (a ∷ addresses) zero h = ground arith
has_key-get_or (a ∷ addresses) (suc i) h = ground (arith, has_key-get_or addresses i)

find_owner :
    (heap : Address → NodeData) (self : Address) (k : ℕ) (addresses : List Address) (a : Address)
    → Linked heap self k addresses
    → has_key self_key a addresses ≡ true
    → ((a == 0) ≡ false)
      × ((heap a).context ≡ self)
      × (i : ℕ) × ((heap a).graph_index ≡ k + i)
      × (i < length addresses)
      × (get_or addresses i 0 ≡ a)
find_owner heap self k [] a l h = ground arith
find_owner heap self k (b ∷ addresses) a l h = elim (Bool-cases (b == a)) [
  | inl e ↦
      let same = ==→eq b a e in
      (rw (← same) l.0, rw (← same) l.1, 0, rw (← same) (omega (arith, l.2)), omega arith, same)
  | inr e ↦
      let (z, c, i, x, b', o) = find_owner heap self (suc k) addresses a l.3 (rw e at h) in
      (z, c, suc i, omega arith, omega arith, o)
]

-- `graph_node_is_valid_locked` accepts exactly the addresses that own a slot in use.
pub node_is_valid_iff :
    (l : Local) (node : Address)
    → IsConsistent l
    → (node_is_valid l node ≡ true) ↔ (has_key self_key node (owners l) ≡ true)
unfolding node_is_valid
node_is_valid_iff l node c = (forth, back)
  where
    forth : node_is_valid l node ≡ true → has_key self_key node (owners l) ≡ true
    forth h =
        let v = valid_owner l node h in
        rw v.1 at (
          has_key-get_or (owners l) (l.heap node).graph_index
            (omega (arith, v.0, length-owners l c)))

    back : has_key self_key node (owners l) ≡ true → node_is_valid l node ≡ true
    back h =
        let (z, x, i, e, b, o) = find_owner l.heap l.self 0 (owners l) node c.linked h in
        ground (
          arith,
          e,
          o,
          length-owners l c,
          get_or-map (contents l.nodes) i,
          get_or-take l.nodes.count l.nodes.slots i zero_slot,
        )
