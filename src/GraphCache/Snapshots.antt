-- ===== src/GraphCache/Snapshots.antt =====
-- `graph_cache_apply_snapshot` against its specification.
use rmw_cyclonedds_c.Common.{
  ◌+◌, ◌-◌, ◌≤◌, ◌≡◌, refl, sym, ap, ◌∙◌, Bool, true, not, List, [], ◌∷◌, ◌++◌, map, arith, ◌==◌,
  length, filter, append-nil, append_assoc, length-replicate, length-map,
}
use mathlib.Core.Path.{ap₂}
use mathlib.Core.List.{map-append}
use rmw_cyclonedds_c.Common.Keys.{without}
use rmw_cyclonedds_c.Common.Table.{Table, contents, Fits, push, compact}
use rmw_cyclonedds_c.Common.Table.Shift.{take-copy_into, length-copy_into}
use rmw_cyclonedds_c.Common.Table.Contents.{
  length-contents, contents-push, push-Fits, contents-compact, compact-Fits,
}
use rmw_cyclonedds_c.Rmw.{Guid}
use rmw_cyclonedds_c.GraphCache.{
  Cache, CachedNode, NodeInfo, Snapshot, add_participant_locked, signal, report_limit, max_nodes,
  max_endpoints_per_node, zero_node, count_owned, copy_gids, cache_node, append_nodes,
  replace_nodes, apply_snapshot,
}
use rmw_cyclonedds_c.GraphCache.Valid.{IsValid}
use rmw_cyclonedds_c.GraphCache.Strings.{exceeded_limit_lem}
use rmw_cyclonedds_c.GraphCache.Participants.{add_participant_locked_refines, map-node_view-without}
use rmw_cyclonedds_c.GraphCache.View
use rmw_cyclonedds_c.GraphCache.View.{
  View, NodeView, view, seen, node_view, node_of, owner_key, node_admissible, all_admissible,
}

abbrev pub other : Guid → CachedNode → Bool
other g n = not (n.participant_guid == g)

-- The nodes counted for replacement and those kept are all the nodes.
count_owned-add-kept :
    (g : Guid) (ns : List CachedNode) → count_owned g ns + length (filter (other g) ns) ≡ length ns
unfolding count_owned
count_owned-add-kept g [] = omega arith
count_owned-add-kept g (n ∷ ns) = ground (arith, count_owned-add-kept g ns)

contents-copy_gids :
    (gids : List Guid) → length gids ≤ max_endpoints_per_node → contents (copy_gids gids) ≡ gids
unfolding copy_gids
contents-copy_gids gids h =
    take-copy_into gids _ (omega (arith, length-replicate {0} max_endpoints_per_node))

pub copy_gids-Fits :
    (gids : List Guid)
    → length gids ≤ max_endpoints_per_node
    → Fits max_endpoints_per_node (copy_gids gids)
unfolding copy_gids
copy_gids-Fits gids h = (length-copy_into gids 0 _, h)

pub append_nodes-Fits :
    (g : Guid) (ns : List NodeInfo) (t : Table CachedNode)
    → Fits max_nodes t
    → t.count + length ns ≤ max_nodes
    → Fits max_nodes (append_nodes g ns t)
unfolding append_nodes push
append_nodes-Fits g [] t f h = f
append_nodes-Fits g (n ∷ ns) t f h =
    append_nodes-Fits g ns (push t (cache_node g n)) (push-Fits max_nodes t _ f (omega arith))
      (omega arith)

pub contents-append_nodes :
    (g : Guid) (ns : List NodeInfo) (t : Table CachedNode)
    → Fits max_nodes t
    → t.count + length ns ≤ max_nodes
    → contents (append_nodes g ns t) ≡ contents t ++ map (cache_node g) ns
unfolding append_nodes push
contents-append_nodes g [] t f h = sym (append-nil (contents t))
contents-append_nodes g (n ∷ ns) t f h =
    contents-append_nodes g ns (push t (cache_node g n)) (push-Fits max_nodes t _ f (omega arith))
      (omega arith)
    ∙ rw (contents-push max_nodes t (cache_node g n) f (omega arith))
        (append_assoc (contents t) (cache_node g n ∷ []) (map (cache_node g) ns))

node_view-cache_node :
    (g : Guid) (n : NodeInfo) → node_admissible n ≡ true → node_view (cache_node g n) ≡ node_of g n
unfolding cache_node
node_view-cache_node g n h =
    ground (arith, contents-copy_gids n.reader_gids, contents-copy_gids n.writer_gids)

map-node_view-cache_node :
    (g : Guid) (ns : List NodeInfo)
    → all_admissible ns ≡ true
    → map node_view (map (cache_node g) ns) ≡ map (node_of g) ns
map-node_view-cache_node g [] h = refl
map-node_view-cache_node g (n ∷ ns) h =
    ground (arith, node_view-cache_node g n, map-node_view-cache_node g ns)

pub nodes-add_participant_locked :
    (c : Cache) (g : Guid)
    → ((add_participant_locked c g).1.nodes ≡ c.nodes)
      × ((add_participant_locked c g).1.endpoints ≡ c.endpoints)
unfolding add_participant_locked
nodes-add_participant_locked c g = ground arith

module _ (c : Cache) (s : Snapshot) (v : IsValid c) where
  abbrev others : List NodeView
  others = without owner_key s.gid (map node_view (contents c.nodes))

  abbrev pub kept : Table CachedNode
  kept = compact zero_node (other s.gid) c.nodes

  pub kept-Fits : Fits max_nodes kept
  kept-Fits = compact-Fits zero_node (other s.gid) max_nodes c.nodes v.nodes_fit

  view-kept : map node_view (contents kept) ≡ others
  view-kept =
      ap (map node_view) (contents-compact zero_node (other s.gid) max_nodes c.nodes v.nodes_fit)
      ∙ map-node_view-without s.gid (contents c.nodes)

  count-kept : kept.count ≡ length others
  count-kept =
      sym (length-contents max_nodes kept kept-Fits)
      ∙ sym (length-map node_view (contents kept))
      ∙ ap length view-kept

  -- What the code computes for the nodes that stay is their number.
  count_of_others : c.nodes.count - count_owned s.gid (contents c.nodes) ≡ length others
  count_of_others = omega (
    arith,
    count_owned-add-kept s.gid (contents c.nodes),
    length-contents max_nodes c.nodes v.nodes_fit,
    ap length (map-node_view-without s.gid (contents c.nodes)),
    length-map node_view (filter (other s.gid) (contents c.nodes)),
  )

  -- The count behind the compaction is what the code computed before it.
  pub count-kept-eq : kept.count ≡ c.nodes.count - count_owned s.gid (contents c.nodes)
  count-kept-eq = count-kept ∙ sym count_of_others

  view-appended :
      all_admissible s.node_infos ≡ true
      → length others + length s.node_infos ≤ max_nodes
      → map node_view (contents (append_nodes s.gid s.node_infos kept))
        ≡ others ++ map (node_of s.gid) s.node_infos
  view-appended a h =
      ap (map node_view)
        (contents-append_nodes s.gid s.node_infos kept kept-Fits (omega (arith, count-kept)))
      ∙ map-append node_view (contents kept) (map (cache_node s.gid) s.node_infos)
      ∙ ap₂ ◌++◌ view-kept (map-node_view-cache_node s.gid s.node_infos a)

  replace_nodes_refines :
      all_admissible s.node_infos ≡ true
      → length s.node_infos ≤ max_nodes
      → seen (replace_nodes c s) ≡ View.apply_snapshot (view c) s
  unfolding replace_nodes View.apply_snapshot signal report_limit
  replace_nodes_refines a h = ground (
    arith,
    count_of_others,
    view-appended a,
    nodes-add_participant_locked c s.gid,
    add_participant_locked_refines c s.gid v,
  )

-- `graph_cache_apply_snapshot` on a valid cache accepts exactly the snapshots within the limits for
-- which there is room once the participant's old nodes are gone. It then has the snapshot's nodes
-- in place of those, behind the nodes of the other participants, and the participant is known. It
-- leaves all as it was where it refuses.
pub apply_snapshot_refines :
    (c : Cache) (s : Snapshot)
    → IsValid c
    → seen (apply_snapshot c s) ≡ View.apply_snapshot (view c) s
unfolding apply_snapshot View.apply_snapshot
apply_snapshot_refines c s v =
    ground (arith, exceeded_limit_lem s.node_infos, replace_nodes_refines c s v)
