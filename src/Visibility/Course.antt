-- ===== src/Visibility/Course.antt =====
-- The local graph and the cache of a context over its life: every order of the operations on nodes
-- and endpoints, with the samples that Cyclone's threads bring in between.
pub mod Shown
use rmw_cyclonedds_c.Common.{
  ◌≡◌, refl, sym, ap, ◌∙◌, Bool, true, false, ◌&&◌, ◌||◌, not, List, map, arith, CString, ◌==◌,
  Option, if◌then◌else◌, any, Bool-cases, inl, inr,
}
use rmw_cyclonedds_c.Common.Keys.{has_key}
use rmw_cyclonedds_c.Rmw.{Ret, is_ok, is_invalid_argument, ℤ, Guid}
use rmw_cyclonedds_c.GraphCache.{
  Cache, CachedEndpoint, add_participant, upsert_endpoint, remove_endpoint_guid,
  endpoint_is_associated,
}
use rmw_cyclonedds_c.GraphCache.Valid.{IsValid}
use rmw_cyclonedds_c.GraphCache.View
use rmw_cyclonedds_c.GraphCache.View.{view, node_of}
use rmw_cyclonedds_c.GraphCache.Participants.{add_participant_refines}
use rmw_cyclonedds_c.Discovery.{
  GraphSample, ParticipantSample, EndpointSample, graph_data_available, participant_data_available,
  endpoint_data_available,
}
use rmw_cyclonedds_c.Discovery.Safety.{
  nodes_of, graph_data_available_local, participant_data_available_local,
}
use rmw_cyclonedds_c.Discovery.Reach.{Step, Step-IsValid, Reach-IsValid}
use rmw_cyclonedds_c.LocalGraph.{
  Local, Address, add_node, remove_node, add_endpoint, remove_endpoint,
}
use rmw_cyclonedds_c.LocalGraph.Links.{self_key}
use rmw_cyclonedds_c.LocalGraph.Consistent.{IsConsistent, owners, infos}
use rmw_cyclonedds_c.LocalGraph.Nodes.{IsConsistent-same}
use rmw_cyclonedds_c.LocalGraph.Nodes.Added.{add_node-Added}
use rmw_cyclonedds_c.LocalGraph.Nodes.Removed.Outcome.{removable, remove_node-Removed}
use rmw_cyclonedds_c.LocalGraph.Endpoints.Outcome.Calls.{
  add_endpoint-Listed, remove_endpoint-Delisted, lists,
}
use rmw_cyclonedds_c.Context.Opening.{InitAnswers, new_implementation}
use rmw_cyclonedds_c.Context.Opening.Created.{started}
use rmw_cyclonedds_c.Context.Lifecycle.Balanced.{started-IsConsistent, started-Reach}
use rmw_cyclonedds_c.Visibility.Announced.{
  own_nodes, IsShown, lists_endpoint, endpoint_is_associated-lists,
}
use rmw_cyclonedds_c.Visibility.Calls.{
  Announces, add_node-Announces, remove_node-Announces, add_endpoint-Announces,
  remove_endpoint-Announces,
}

-- Whether the cache lags behind once a call that adds has returned this.
abbrev pub lags_add : Bool → Ret → Bool
lags_add lags result = lags && not (is_ok result)

-- A removal that is made although its announcement fails leaves the cache behind.
abbrev pub lags_remove : Bool → Ret → Bool
lags_remove lags result = not (is_ok result) && (lags || not (is_invalid_argument result))

abbrev pub with_cache : Local → Cache → Local
with_cache l c = record l { cache = c }

-- From the local graph that `rmw_init` leaves, by calls on nodes and endpoints and by samples.
pub data Course : Local → Bool → Type 0 where
  begins :
      (a : InitAnswers) (self : Address) → Course (started a (new_implementation self).local) false
  node_added :
      {l : Local} {lags : Bool}
      → Course l lags
      → (written : ℤ) (node : Address) (name namespace_ : CString) → (node == 0) ≡ false
      → has_key self_key node (owners l) ≡ false
      → Course
          (add_node written l node name namespace_).1
          (lags_add lags (add_node written l node name namespace_).0)
  node_removed :
      {l : Local} {lags : Bool}
      → Course l lags
      → (written : ℤ) (node : Address)
      → Course (remove_node written l node).1 (lags_remove lags (remove_node written l node).0)
  endpoint_added :
      {l : Local} {lags : Bool}
      → Course l lags
      → (written : ℤ) (node : Address) (guid : Guid) (writer : Bool)
      → Course
          (add_endpoint written l node guid writer).1
          (lags_add lags (add_endpoint written l node guid writer).0)
  endpoint_removed :
      {l : Local} {lags : Bool}
      → Course l lags
      → (written : ℤ) (node : Address) (guid : Guid) (writer : Bool)
      → Course
          (remove_endpoint written l node guid writer).1
          (lags_remove lags (remove_endpoint written l node guid writer).0)
  graph_samples :
      {l : Local} {lags : Bool}
      → Course l lags
      → (takes : List (List GraphSample))
      → Course (with_cache l (graph_data_available l.participant_guid l.cache takes)) lags
  participant_samples :
      {l : Local} {lags : Bool}
      → Course l lags
      → (takes : List (List ParticipantSample))
      → Course (with_cache l (participant_data_available l.participant_guid l.cache takes)) lags
  endpoint_samples :
      {l : Local} {lags : Bool}
      → Course l lags
      → (writer : Bool) (takes : List (List EndpointSample))
      → Course (with_cache l (endpoint_data_available l.participant_guid writer l.cache takes)) lags
  own_endpoint :
      {l : Local} {lags : Bool}
      → Course l lags
      → (guid : Guid) (topic type_ : Option CString) (writer : Bool)
      → Course
          (with_cache l (upsert_endpoint l.cache guid l.participant_guid topic type_ writer).1)
          lags
  own_endpoint_gone :
      {l : Local} {lags : Bool}
      → Course l lags
      → (guid : Guid) → Course (with_cache l (remove_endpoint_guid l.cache guid)) lags
