-- ===== src/GraphCache/Valid.antt =====
-- The invariant of the graph cache.
use rmw_cyclonedds_c.Common.{◌≤◌, ◌≡◌, true, length, All}
use rmw_cyclonedds_c.Common.Keys.{has_key, Distinct}
use rmw_cyclonedds_c.Common.Table.{contents, Fits}
use rmw_cyclonedds_c.GraphCache.{
  Cache, CachedNode, CachedEndpoint, max_participants, max_nodes, max_endpoints,
  max_endpoints_per_node, string_bound,
}
use rmw_cyclonedds_c.GraphCache.View.{guid_key, endpoint_key}

-- The arrays of a node keep within their bounds, and so do its strings.
abbrev pub NodeFits : CachedNode → Type 0
NodeFits n =
    (length n.name ≤ string_bound)
    × (length n.namespace_ ≤ string_bound)
    × Fits max_endpoints_per_node n.readers
    × Fits max_endpoints_per_node n.writers

abbrev pub EndpointFits : CachedEndpoint → Type 0
EndpointFits e = (length e.topic_name ≤ string_bound) × (length e.type_name ≤ string_bound)

pub record IsValid (c : Cache) : Type 0 where
  pub participants_fit : Fits max_participants c.participants
  pub nodes_fit : Fits max_nodes c.nodes
  pub endpoints_fit : Fits max_endpoints c.endpoints
  pub node_bounds : All NodeFits (contents c.nodes)
  pub endpoint_bounds : All EndpointFits (contents c.endpoints)
  pub distinct_participants : Distinct guid_key (contents c.participants)
  pub distinct_endpoints : Distinct endpoint_key (contents c.endpoints)
  pub owned :
      All
        (λ n. has_key guid_key n.participant_guid (contents c.participants) ≡ true)
        (contents c.nodes)
