-- ===== src/GraphCache/View.antt =====
-- What the graph cache promises: lists of participants, nodes and endpoints, with no arrays, no
-- places and no order of writing. The functions of this file are the specification of those of
-- GraphCache.antt; each returns whether the update was accepted.
use rmw_cyclonedds_c.Common.{
  ℕ, ◌+◌, Bool, true, false, ◌&&◌, ◌||◌, not, List, [], ◌∷◌, ◌++◌, map, CString, leb, ◌==◌,
  if◌then◌else◌, length,
}
use rmw_cyclonedds_c.Common.Keys.{has_key, without, put}
use rmw_cyclonedds_c.Common.Table.{contents}
use rmw_cyclonedds_c.Rmw.{Ret, is_ok, Guid}
use rmw_cyclonedds_c.GraphCache.{
  Cache, CachedNode, CachedEndpoint, NodeInfo, Snapshot, max_participants, max_nodes, max_endpoints,
  max_endpoints_per_node, string_bound,
}

-- A node, with the GUIDs of its endpoints as lists.
pub record NodeView : Type 0 where
  pub participant_guid : Guid
  pub name : CString
  pub namespace_ : CString
  pub readers : List Guid
  pub writers : List Guid

pub record View : Type 0 where
  pub participants : List Guid
  pub nodes : List NodeView
  pub endpoints : List CachedEndpoint

abbrev pub node_view : CachedNode → NodeView
node_view n = record {
  participant_guid = n.participant_guid;
  name = n.name;
  namespace_ = n.namespace_;
  readers = contents n.readers;
  writers = contents n.writers;
}

abbrev pub view : Cache → View
view c = record {
  participants = contents c.participants;
  nodes = map node_view (contents c.nodes);
  endpoints = contents c.endpoints;
}

-- What a call lets its callers see: whether it was accepted, and the cache behind it.
abbrev pub seen : Ret × Cache → Bool × View
seen r = (is_ok r.0, view r.1)

abbrev pub guid_key : Guid → ℕ
guid_key g = g

abbrev pub endpoint_key : CachedEndpoint → ℕ
endpoint_key e = e.guid

abbrev pub owner_key : NodeView → ℕ
owner_key n = n.participant_guid

abbrev pub endpoint_owner_key : CachedEndpoint → ℕ
endpoint_owner_key e = e.participant_guid

pub has_participant : Guid → View → Bool
has_participant g v = has_key guid_key g v.participants

-- A new participant is accepted while there is room, a known one always.
unfoldable pub add_participant : View → Guid → Bool × View
add_participant v g =
    if has_key guid_key g v.participants
    then (true, v)
    else if length v.participants == max_participants
    then (false, v)
    else (true, record v { participants = v.participants ++ (g ∷ []) })

-- The participant goes with all that it owns.
unfoldable pub remove_participant : View → Guid → View
remove_participant v g = record {
  participants = without guid_key g v.participants;
  nodes = without owner_key g v.nodes;
  endpoints = without endpoint_owner_key g v.endpoints;
}

abbrev pub node_admissible : NodeInfo → Bool
node_admissible n =
    leb (length n.reader_gids) max_endpoints_per_node
    && leb (length n.writer_gids) max_endpoints_per_node
    && leb (length n.node_name) string_bound
    && leb (length n.node_namespace) string_bound

abbrev pub all_admissible : List NodeInfo → Bool
all_admissible [] = true
all_admissible (n ∷ ns) = node_admissible n && all_admissible ns

abbrev pub node_of : Guid → NodeInfo → NodeView
node_of g n = record {
  participant_guid = g;
  name = n.node_name;
  namespace_ = n.node_namespace;
  readers = n.reader_gids;
  writers = n.writer_gids;
}

-- A snapshot takes the place of all that was known of its participant's nodes, or changes nothing.
unfoldable pub apply_snapshot : View → Snapshot → Bool × View
unfolding add_participant
apply_snapshot v s =
    let others = without owner_key s.gid v.nodes in
    let room = leb (length others + length s.node_infos) max_nodes in
    let (known, v') = add_participant v s.gid in
    if leb (length s.node_infos) max_nodes && all_admissible s.node_infos && room && known
    then (true, record v' { nodes = others ++ map (node_of s.gid) s.node_infos })
    else (false, v)

-- An endpoint is recorded under its GUID, in place of what was known of it.
unfoldable pub upsert_endpoint : View → CachedEndpoint → Bool × View
upsert_endpoint v e =
    if leb (length e.topic_name) string_bound
      && leb (length e.type_name) string_bound
      && (has_key endpoint_key e.guid v.endpoints || not (length v.endpoints == max_endpoints))
    then (true, record v { endpoints = put endpoint_key e v.endpoints })
    else (false, v)

unfoldable pub remove_endpoint_guid : View → Guid → View
remove_endpoint_guid v g = record v { endpoints = without endpoint_key g v.endpoints }
