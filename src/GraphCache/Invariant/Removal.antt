-- ===== src/GraphCache/Invariant/Removal.antt =====
-- The removal of a participant and of an endpoint keeps the invariant.
use rmw_cyclonedds_c.Common.{
  ◌≡◌, sym, ◌∙◌, Bool, true, false, not, List, arith, ◌==◌, filter, All, All-mono, All-filter_test,
  All-filter,
}
use mathlib.Core.Path.{subst, subst₂}
use rmw_cyclonedds_c.Common.Keys.{has_key, without, Distinct, filter-Distinct, has_key-without_ne}
use rmw_cyclonedds_c.Common.Table.{contents}
use rmw_cyclonedds_c.Common.Table.Contents.{compact_clear-Fits, contents-compact_clear}
use rmw_cyclonedds_c.Common.Table.Keyed.{contents-remove_key, remove_key-Fits}
use rmw_cyclonedds_c.Rmw.{Guid}
use rmw_cyclonedds_c.GraphCache.{
  Cache, CachedNode, remove_participant, remove_endpoint_guid, drop_participant, drop_endpoint,
  zero_node, zero_endpoint, max_participants, max_nodes, max_endpoints,
}
use rmw_cyclonedds_c.GraphCache.Valid.{IsValid, NodeFits, EndpointFits}
use rmw_cyclonedds_c.GraphCache.Snapshots.{other}
use rmw_cyclonedds_c.GraphCache.View.{guid_key, endpoint_key, endpoint_owner_key}
use rmw_cyclonedds_c.GraphCache.Invariant.{signal-IsValid}

still_owned :
    (ps : List Guid) (g : Guid) (ns : List CachedNode)
    → All (λ n. has_key guid_key n.participant_guid ps ≡ true) ns
    → All
        (λ n. has_key guid_key n.participant_guid (without guid_key g ps) ≡ true)
        (filter (other g) ns)
still_owned ps g ns h =
    All-mono (λ n k. has_key-without_ne guid_key n.participant_guid g ps (not_eq _ k.1) ∙ k.0)
      (filter (other g) ns) (All-filter_test _ (other g) ns h)
  where
    not_eq : (b : Bool) → not b ≡ true → b ≡ false
    not_eq b e = ground arith

drop_participant-IsValid : (c : Cache) (g : Guid) → IsValid c → IsValid (drop_participant c g)
unfolding drop_participant
drop_participant-IsValid c g v = record {
  participants_fit =
      remove_key-Fits guid_key 0 max_participants g c.participants v.participants_fit;
  nodes_fit = compact_clear-Fits zero_node (other g) max_nodes c.nodes v.nodes_fit;
  endpoints_fit = compact_clear-Fits zero_endpoint _ max_endpoints c.endpoints v.endpoints_fit;
  node_bounds =
      subst (All NodeFits) (sym nodes_left)
        (All-filter NodeFits (other g) (contents c.nodes) v.node_bounds);
  endpoint_bounds =
      subst (All EndpointFits) (sym endpoints_left)
        (All-filter EndpointFits _ (contents c.endpoints) v.endpoint_bounds);
  distinct_participants =
      subst (Distinct guid_key) (sym participants_left)
        (filter-Distinct guid_key _ (contents c.participants) v.distinct_participants);
  distinct_endpoints =
      subst (Distinct endpoint_key) (sym endpoints_left)
        (filter-Distinct endpoint_key _ (contents c.endpoints) v.distinct_endpoints);
  owned =
      subst₂ (λ ps ns. All (λ n. has_key guid_key n.participant_guid ps ≡ true) ns)
        (sym participants_left) (sym nodes_left)
        (still_owned (contents c.participants) g (contents c.nodes) v.owned);
}
  where
    participants_left :
        contents (drop_participant c g).participants ≡ without guid_key g (contents c.participants)
    participants_left =
        contents-remove_key guid_key 0 max_participants g c.participants v.participants_fit
          v.distinct_participants

    nodes_left : contents (drop_participant c g).nodes ≡ filter (other g) (contents c.nodes)
    nodes_left = contents-compact_clear zero_node (other g) max_nodes c.nodes v.nodes_fit

    endpoints_left :
        contents (drop_participant c g).endpoints
        ≡ without endpoint_owner_key g (contents c.endpoints)
    endpoints_left =
        contents-compact_clear zero_endpoint (λ e. not (e.participant_guid == g)) max_endpoints
          c.endpoints v.endpoints_fit

drop_endpoint-IsValid : (c : Cache) (g : Guid) → IsValid c → IsValid (drop_endpoint c g)
unfolding drop_endpoint
drop_endpoint-IsValid c g v = record {
  participants_fit = v.participants_fit;
  nodes_fit = v.nodes_fit;
  endpoints_fit =
      remove_key-Fits endpoint_key zero_endpoint max_endpoints g c.endpoints v.endpoints_fit;
  node_bounds = v.node_bounds;
  endpoint_bounds =
      subst (All EndpointFits) (sym left)
        (All-filter EndpointFits _ (contents c.endpoints) v.endpoint_bounds);
  distinct_participants = v.distinct_participants;
  distinct_endpoints =
      subst (Distinct endpoint_key) (sym left)
        (filter-Distinct endpoint_key _ (contents c.endpoints) v.distinct_endpoints);
  owned = v.owned;
}
  where
    left : contents (drop_endpoint c g).endpoints ≡ without endpoint_key g (contents c.endpoints)
    left =
        contents-remove_key endpoint_key zero_endpoint max_endpoints g c.endpoints v.endpoints_fit
          v.distinct_endpoints

pub remove_participant-IsValid :
    (c : Cache) (g : Guid) → IsValid c → IsValid (remove_participant c g)
unfolding remove_participant
remove_participant-IsValid c g v =
    signal-IsValid (drop_participant c g) (drop_participant-IsValid c g v)

pub remove_endpoint_guid-IsValid :
    (c : Cache) (g : Guid) → IsValid c → IsValid (remove_endpoint_guid c g)
unfolding remove_endpoint_guid
remove_endpoint_guid-IsValid c g v =
    signal-IsValid (drop_endpoint c g) (drop_endpoint-IsValid c g v)
