-- ===== src/GraphCache/Participants.antt =====
-- `graph_cache_add_participant` and `graph_cache_remove_participant` against their specification.
use rmw_cyclonedds_c.Common.{◌≡◌, refl, ap, ◌∙◌, not, List, [], ◌∷◌, map, arith, ltb, ◌==◌, filter}
use rmw_cyclonedds_c.Common.Keys.{has_key, without}
use rmw_cyclonedds_c.Common.Table.{contents}
use rmw_cyclonedds_c.Common.Table.Contents.{
  length-contents, ltb-search-count, contents-push, contents-compact_clear,
}
use rmw_cyclonedds_c.Common.Table.Keyed.{contents-remove_key}
use rmw_cyclonedds_c.Rmw.{Guid}
use rmw_cyclonedds_c.GraphCache.{
  Cache, CachedNode, find_participant, add_participant_locked, add_participant, remove_participant,
  signal, max_participants, max_nodes, max_endpoints, zero_node, zero_endpoint,
}
use rmw_cyclonedds_c.GraphCache.Valid.{IsValid}
use rmw_cyclonedds_c.GraphCache.View
use rmw_cyclonedds_c.GraphCache.View.{
  View, NodeView, view, seen, node_view, guid_key, owner_key, endpoint_owner_key,
}

view-signal : (c : Cache) → view (signal c) ≡ view c
unfolding signal
view-signal c = ground arith

-- The search stops in front of the count exactly if the participant is cached.
pub find_participant_lem :
    (c : Cache) (g : Guid)
    → IsValid c
    → ltb (find_participant c g) c.participants.count ≡ has_key guid_key g (contents c.participants)
unfolding find_participant
find_participant_lem c g v =
    ltb-search-count 0 max_participants (λ p. p == g) c.participants v.participants_fit

pub add_participant_locked_refines :
    (c : Cache) (g : Guid)
    → IsValid c
    → seen (add_participant_locked c g) ≡ View.add_participant (view c) g
unfolding add_participant_locked View.add_participant
add_participant_locked_refines c g v = ground (
  arith,
  find_participant_lem c g v,
  length-contents max_participants c.participants v.participants_fit,
  v.participants_fit,
  contents-push max_participants c.participants g v.participants_fit,
)

-- `graph_cache_add_participant` on a valid cache does what `View.add_participant` says: it accepts a
-- participant that is known, or that there is room for at the end of the list, and otherwise
-- refuses and leaves the cache as it was.
pub add_participant_refines :
    (c : Cache) (g : Guid)
    → IsValid c
    → seen (add_participant c g) ≡ View.add_participant (view c) g
unfolding add_participant
add_participant_refines c g v =
    ground (arith, add_participant_locked_refines c g v, view-signal (add_participant_locked c g).1)

pub map-node_view-without :
    (g : Guid) (ns : List CachedNode)
    → map node_view (filter (λ n. not (n.participant_guid == g)) ns)
      ≡ without owner_key g (map node_view ns)
map-node_view-without g [] = refl
map-node_view-without g (n ∷ ns) = ground (arith, map-node_view-without g ns)

-- `graph_cache_remove_participant` on a valid cache removes the participant, each node that it owns
-- and each endpoint that it owns, and nothing else; the order of what stays is kept.
pub remove_participant_refines :
    (c : Cache) (g : Guid)
    → IsValid c
    → view (remove_participant c g) ≡ View.remove_participant (view c) g
unfolding remove_participant View.remove_participant
remove_participant_refines c g v = view-signal _ ∙ (λ i. record {
  participants =
      contents-remove_key guid_key 0 max_participants g c.participants v.participants_fit
        v.distinct_participants i;
  nodes =
      (ap (map node_view) (
            contents-compact_clear zero_node (λ n. not (n.participant_guid == g)) max_nodes c.nodes
              v.nodes_fit)
          ∙ map-node_view-without g (contents c.nodes))
        i;
  endpoints =
      contents-compact_clear zero_endpoint (λ e. not (e.participant_guid == g)) max_endpoints
        c.endpoints v.endpoints_fit i;
})
