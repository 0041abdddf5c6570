-- ===== src/Discovery/Reach.antt =====
-- Every cache that a context can come to, from `rmw_init` on.
use rmw_cyclonedds_c.Common.{Bool, List, [], Option, CString}
use rmw_cyclonedds_c.Common.Table.{empty}
use rmw_cyclonedds_c.Common.Table.Contents.{empty-Fits}
use rmw_cyclonedds_c.Rmw.{Guid, ℤ}
use rmw_cyclonedds_c.GraphCache.{
  Cache, Snapshot, apply_snapshot, add_participant, upsert_endpoint, remove_endpoint_guid,
  zero_node, zero_endpoint, max_participants, max_nodes, max_endpoints,
}
use rmw_cyclonedds_c.GraphCache.Valid.{IsValid}
use rmw_cyclonedds_c.GraphCache.Invariant.{add_participant-IsValid}
use rmw_cyclonedds_c.GraphCache.Invariant.Removal.{remove_endpoint_guid-IsValid}
use rmw_cyclonedds_c.GraphCache.Invariant.Update.{apply_snapshot-IsValid, upsert_endpoint-IsValid}
use rmw_cyclonedds_c.Discovery.{
  GraphSample, ParticipantSample, EndpointSample, graph_data_available, participant_data_available,
  endpoint_data_available,
}
use rmw_cyclonedds_c.Discovery.Safety.{
  graph_data_available-IsValid, participant_data_available-IsValid, endpoint_data_available-IsValid,
}

-- The cache in the zeroed memory of a new context, once its graph guard is made.
abbrev pub zeroed : ℤ → Cache
zeroed guard = record {
  participants = empty 0 max_participants;
  nodes = empty zero_node max_nodes;
  endpoints = empty zero_endpoint max_endpoints;
  guard_entity = guard;
  signals = 0;
  reports = [];
}

pub zeroed-IsValid : (guard : ℤ) → IsValid (zeroed guard)
zeroed-IsValid guard = record {
  participants_fit = empty-Fits {A = Guid} 0 max_participants;
  nodes_fit = empty-Fits zero_node max_nodes;
  endpoints_fit = empty-Fits zero_endpoint max_endpoints;
  node_bounds = tt;
  endpoint_bounds = tt;
  distinct_participants = tt;
  distinct_endpoints = tt;
  owned = tt;
}

-- One critical section on the cache: a callback of Cyclone's threads, or the local context's own
-- announcement, a new endpoint of its own, or one that goes.
pub data Step (own : Guid) (c : Cache) : Cache → Type 0 where
  graph_samples : (takes : List (List GraphSample)) → Step own c (graph_data_available own c takes)
  participant_samples :
      (takes : List (List ParticipantSample)) → Step own c (participant_data_available own c takes)
  endpoint_samples :
      (writer : Bool) (takes : List (List EndpointSample))
      → Step own c (endpoint_data_available own writer c takes)
  announcement : (s : Snapshot) → Step own c (apply_snapshot c s).1
  own_endpoint :
      (guid : Guid) (topic type_ : Option CString) (writer : Bool)
      → Step own c (upsert_endpoint c guid own topic type_ writer).1
  own_endpoint_gone : (guid : Guid) → Step own c (remove_endpoint_guid c guid)

pub data Reach (own : Guid) (guard : ℤ) : Cache → Type 0 where
  initial : Reach own guard (add_participant (zeroed guard) own).1
  next : {c d : Cache} → Reach own guard c → Step own c d → Reach own guard d

pub Step-IsValid : {own : Guid} {c d : Cache} → Step own c d → IsValid c → IsValid d
Step-IsValid {own} {c} (graph_samples takes) v = graph_data_available-IsValid own c takes v
Step-IsValid {own} {c} (participant_samples takes) v =
    participant_data_available-IsValid own c takes v
Step-IsValid {own} {c} (endpoint_samples writer takes) v =
    endpoint_data_available-IsValid own writer c takes v
Step-IsValid {own} {c} (announcement s) v = apply_snapshot-IsValid c s v
Step-IsValid {own} {c} (own_endpoint guid topic type_ writer) v =
    upsert_endpoint-IsValid c guid own topic type_ writer v
Step-IsValid {own} {c} (own_endpoint_gone guid) v = remove_endpoint_guid-IsValid c guid v

-- Whatever samples arrive and whatever the context announces, in any order, the cache is valid: no
-- array overflows, every string keeps its NUL, participants and endpoint GUIDs stand once each, and
-- each cached node belongs to a cached participant.
pub Reach-IsValid : {own : Guid} {guard : ℤ} {c : Cache} → Reach own guard c → IsValid c
Reach-IsValid {own} {guard} initial =
    add_participant-IsValid (zeroed guard) own (zeroed-IsValid guard)
Reach-IsValid (next r s) = Step-IsValid s (Reach-IsValid r)
