-- ===== src/LocalGraph/Nodes/Removed/Outcome.antt =====
-- What a caller of `graph_remove_node` finds.
use rmw_cyclonedds_c.Common.{
  ℕ, zero, suc, ◌≡◌, refl, sym, ap, ◌∙◌, Bool, true, false, not, ◌&&◌, List, [], ◌∷◌, map, arith,
  length, get_or, erase_at, All, ◌==◌, if◌then◌else◌, if_elim, get_or-take, ◌<◌,
}
use mathlib.Core.Path.{subst}
use rmw_cyclonedds_c.Common.Keys.{has_key, without}
use rmw_cyclonedds_c.Common.Table.{Table, contents, Fits}
use rmw_cyclonedds_c.Common.Table.Contents.{length-contents}
use rmw_cyclonedds_c.Rmw.{Ret, invalid_argument, is_invalid_argument, ℤ}
use rmw_cyclonedds_c.GraphCache.{NodeInfo, max_endpoints_per_node}
use rmw_cyclonedds_c.LocalGraph.{
  Local, Slot, Address, publish, node_is_valid, zero_slot, max_local_nodes, take_out_node,
  remove_node, node_info,
}
use rmw_cyclonedds_c.LocalGraph.Links.{self_key}
use rmw_cyclonedds_c.LocalGraph.Consistent.{IsConsistent, SlotFits, owners, infos, slot_owner}
use rmw_cyclonedds_c.LocalGraph.Nodes.{
  publish-code, publish_same, publish-IsConsistent, node_is_valid_iff, valid_owner,
}
use rmw_cyclonedds_c.LocalGraph.Nodes.Removed.{
  rest, rest-IsConsistent, infos-rest, owners-rest, erased,
}

abbrev pub is_empty {ℓ} : {A : Type ℓ} → List A → Bool
is_empty [] = true
is_empty (x ∷ xs) = false

abbrev pub zero_info : NodeInfo
zero_info = node_info zero_slot

-- The object owns a node, and that node lists no endpoint.
abbrev pub removable : Local → Address → Bool
removable l node =
    let info = get_or (infos l) (l.heap node).graph_index zero_info in
    has_key self_key node (owners l) && is_empty info.reader_gids && is_empty info.writer_gids

abbrev pub Removed : Local → Address → Ret × Local → Type 0
Removed l node r =
    IsConsistent r.1
    × (infos r.1
        ≡ (if removable l node then erase_at (l.heap node).graph_index (infos l) else infos l))
    × (owners r.1 ≡ (if removable l node then without self_key node (owners l) else owners l))
    × (is_invalid_argument r.0 ≡ not (removable l node))
    × (r.1 ≡ (if removable l node then r.1 else l))

pub valid-has_key :
    (l : Local) (node : Address)
    → IsConsistent l
    → node_is_valid l node ≡ has_key self_key node (owners l)
valid-has_key l node c =
    same (node_is_valid l node) _ (node_is_valid_iff l node c).0 (node_is_valid_iff l node c).1
  where
    same : (a b : Bool) → (a ≡ true → b ≡ true) → (b ≡ true → a ≡ true) → a ≡ b
    same true b f g = sym (f refl)
    same false true f g = g refl
    same false false f g = refl

is_empty-length {ℓ} : {A : Type ℓ} (xs : List A) → is_empty xs ≡ (length xs == 0)
is_empty-length [] = refl
is_empty-length (x ∷ xs) = ground arith

get_or-infos :
    (xs : List Slot) (i : ℕ)
    → get_or (map node_info xs) i zero_info ≡ node_info (get_or xs i zero_slot)
get_or-infos [] i = refl
get_or-infos (x ∷ xs) zero = refl
get_or-infos (x ∷ xs) (suc i) = get_or-infos xs i

All-get_or :
    (xs : List Slot) (i : ℕ) → All SlotFits xs → i < length xs → SlotFits (get_or xs i zero_slot)
All-get_or [] i f h = absurd (omega arith)
All-get_or (x ∷ xs) zero f h = f.0
All-get_or (x ∷ xs) (suc i) f h = All-get_or xs i f.1 (omega arith)

is_empty-contents :
    (r : Table ℕ) → Fits max_endpoints_per_node r → is_empty (contents r) ≡ (r.count == 0)
is_empty-contents r f =
    is_empty-length (contents r) ∙ ap (λ n. n == 0) (length-contents max_endpoints_per_node r f)

module _ (l : Local) (node : Address) (c : IsConsistent l) where
  slot : Slot
  slot = get_or l.nodes.slots (l.heap node).graph_index zero_slot

  slot-info :
      node_is_valid l node ≡ true
      → (get_or (infos l) (l.heap node).graph_index zero_info ≡ node_info slot) × SlotFits slot
  unfolding slot
  slot-info valid =
      let below = (valid_owner l node valid).0 in
      let same =
        get_or-take l.nodes.count l.nodes.slots (l.heap node).graph_index zero_slot below in
      (
        get_or-infos (contents l.nodes) (l.heap node).graph_index ∙ ap node_info same,
        subst SlotFits same (
            All-get_or (contents l.nodes) (l.heap node).graph_index c.slots_fit
              (omega (arith, below, length-contents max_local_nodes l.nodes c.nodes_fit))),
      )

  -- The code's test, once the node is known to be valid.
  removable_lem :
      node_is_valid l node ≡ true
      → removable l node ≡ ((slot.readers.count == 0) && (slot.writers.count == 0))
  removable_lem valid =
      let (info, fits) = slot-info valid in
      rw (
        info,
        sym (valid-has_key l node c) ∙ valid,
        is_empty-contents slot.readers fits.2,
        is_empty-contents slot.writers fits.3,
      )

  taken_out :
      (written : ℤ)
      → node_is_valid l node ≡ true
      → removable l node ≡ true
      → Removed l node (publish written (take_out_node l node))
  unfolding rest
  taken_out written valid e =
      let same = publish_same written (take_out_node l node) in
      (
        publish-IsConsistent written (take_out_node l node) (rest-IsConsistent l node c valid),
        ap (λ t. map node_info (contents t)) same.0 ∙ infos-rest l node c valid ∙ rw e,
        ap (λ t. map slot_owner (contents t)) same.0
            ∙ owners-rest l node c valid
            ∙ erased l node c valid
            ∙ rw e,
        publish-code written (take_out_node l node) ∙ rw e refl,
        rw e refl,
      )

-- `graph_remove_node`, given a consistent local graph, keeps it consistent. If the object owns a
-- node with no endpoints, that node is gone, whether or not the announcement succeeds; every other
-- node stays, in its order, and so does its owner. Otherwise, and only then, the call returns
-- RMW_RET_INVALID_ARGUMENT, and nothing of the local graph changes, the cache, the objects and the
-- announced samples included.
pub remove_node-Removed :
    (written : ℤ) (l : Local) (node : Address)
    → IsConsistent l
    → Removed l node (remove_node written l node)
unfolding remove_node slot
remove_node-Removed written l node c =
    if_elim (Removed l node) (not (node_is_valid l node)) (invalid_argument, l) _
      (λ e. unchanged (ground (arith, valid-has_key l node c)))
      (λ e.
        let valid = not-false (node_is_valid l node) e in
        if_elim (Removed l node) _ (invalid_argument, l) _
          (λ busy. unchanged (removable_lem l node c valid ∙ ground arith))
          (λ bare. taken_out l node c written valid (removable_lem l node c valid ∙ ground arith)))
  where
    unchanged : removable l node ≡ false → Removed l node (invalid_argument, l)
    unchanged e = (c, rw e, rw e, rw e refl, rw e refl)

    not-false : (b : Bool) → not b ≡ false → b ≡ true
    not-false b h = ground arith
