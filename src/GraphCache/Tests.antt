-- ===== src/GraphCache/Tests.antt =====
-- A small graph cache: the theorems of the cache at concrete inputs, and runs of its functions.
use rmw_cyclonedds_c.Common.{◌≡◌, refl, any, true, [], ◌∷◌, some, arith, replicate}
use rmw_cyclonedds_c.Common.Table.{compact_clear, search}
use rmw_cyclonedds_c.Rmw.{pos, ok}
use rmw_cyclonedds_c.GraphCache.{
  Cache, CachedNode, CachedEndpoint, Snapshot, add_participant, remove_participant, apply_snapshot,
  upsert_endpoint, remove_endpoint_guid, endpoint_is_associated, string_fits, fits_from,
  replace_nodes, exceeded_limit, count_owned, zero_node, zero_endpoint,
}
use rmw_cyclonedds_c.GraphCache.Valid.{IsValid}
use rmw_cyclonedds_c.GraphCache.View
use rmw_cyclonedds_c.GraphCache.View.{view, seen}
use rmw_cyclonedds_c.GraphCache.Participants.{add_participant_refines, remove_participant_refines}
use rmw_cyclonedds_c.GraphCache.Snapshots.{apply_snapshot_refines}
use rmw_cyclonedds_c.GraphCache.Endpoints.{
  upsert_endpoint_refines, remove_endpoint_guid_refines, endpoint_is_associated_lem, names_endpoint,
}

-- A node of participant 9 with one writer, 21.
abbrev pub talker : CachedNode
talker = record {
  participant_guid = 9;
  name = 116 ∷ [];
  namespace_ = 47 ∷ [];
  readers = record {
    slots = 0 ∷ 0 ∷ 0 ∷ 0 ∷ 0 ∷ 0 ∷ 0 ∷ 0 ∷ 0 ∷ 0 ∷ 0 ∷ 0 ∷ 0 ∷ 0 ∷ 0 ∷ 0 ∷ [];
    count = 0;
  };
  writers = record {
    slots = 21 ∷ 0 ∷ 0 ∷ 0 ∷ 0 ∷ 0 ∷ 0 ∷ 0 ∷ 0 ∷ 0 ∷ 0 ∷ 0 ∷ 0 ∷ 0 ∷ 0 ∷ 0 ∷ [];
    count = 1;
  };
}

abbrev pub chatter : CachedEndpoint
chatter = record {
  guid = 21;
  participant_guid = 9;
  topic_name = 114 ∷ 116 ∷ 47 ∷ 99 ∷ [];
  type_name = 84 ∷ [];
  writer = true;
}

-- Participants 7 and 9, the node and its endpoint.
abbrev pub small : Cache
small = record {
  participants = record { slots = 7 ∷ 9 ∷ 0 ∷ 0 ∷ 0 ∷ 0 ∷ 0 ∷ 0 ∷ []; count = 2 };
  nodes = record { slots = talker ∷ replicate 15 zero_node; count = 1 };
  endpoints = record { slots = chatter ∷ replicate 31 zero_endpoint; count = 1 };
  guard_entity = pos 5;
  signals = 0;
  reports = [];
}

pub small-IsValid : IsValid small
small-IsValid = record {
  participants_fit = (refl, omega arith);
  nodes_fit = (refl, omega arith);
  endpoints_fit = (refl, omega arith);
  node_bounds = ((omega arith, omega arith, (refl, omega arith), (refl, omega arith)), tt);
  endpoint_bounds = ((omega arith, omega arith), tt);
  distinct_participants = (refl, (refl, tt));
  distinct_endpoints = (refl, tt);
  owned = (refl, tt);
}

-- Participant 9 announces a node with a reader in place of the talker.
abbrev pub listener : Snapshot
listener = record {
  gid = 9;
  node_infos =
      record {
        node_namespace = 47 ∷ [];
        node_name = 108 ∷ [];
        reader_gids = 30 ∷ [];
        writer_gids = [];
      }
      ∷ [];
}

add_participant_refines_example :
    seen (add_participant small 11) ≡ View.add_participant (view small) 11
add_participant_refines_example = add_participant_refines small 11 small-IsValid

remove_participant_refines_example :
    view (remove_participant small 9) ≡ View.remove_participant (view small) 9
remove_participant_refines_example = remove_participant_refines small 9 small-IsValid

apply_snapshot_refines_example :
    seen (apply_snapshot small listener) ≡ View.apply_snapshot (view small) listener
apply_snapshot_refines_example = apply_snapshot_refines small listener small-IsValid

upsert_endpoint_refines_example :
    seen (upsert_endpoint small 21 9 (some chatter.topic_name) (some chatter.type_name) true)
    ≡ View.upsert_endpoint (view small) chatter
upsert_endpoint_refines_example = upsert_endpoint_refines small small-IsValid chatter

remove_endpoint_guid_refines_example :
    view (remove_endpoint_guid small 21) ≡ View.remove_endpoint_guid (view small) 21
remove_endpoint_guid_refines_example = remove_endpoint_guid_refines small small-IsValid 21

endpoint_is_associated_lem_example :
    endpoint_is_associated small chatter ≡ any (names_endpoint chatter) (view small).nodes
endpoint_is_associated_lem_example = endpoint_is_associated_lem small chatter

chatter_is_associated : endpoint_is_associated small chatter ≡ true
unfolding endpoint_is_associated
chatter_is_associated = refl

participant_loss : (remove_participant small 9).nodes.count ≡ 0
unfolding remove_participant compact_clear search
participant_loss = refl

listener_replaces : (apply_snapshot small listener).0 ≡ ok
unfolding apply_snapshot replace_nodes exceeded_limit string_fits fits_from count_owned search
listener_replaces = refl
