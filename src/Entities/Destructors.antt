-- ===== src/Entities/Destructors.antt =====
-- `rmw_destroy_publisher` and `rmw_destroy_subscription` of
-- rmw_cyclonedds_c/src/rmw_cyclonedds_c.c. The results of DDS are arguments.
use rmw_cyclonedds_c.Common.{
  suc, Bool, true, false, ◌||◌, not, List, Option, none, some, ◌==◌, if◌then◌else◌,
}
use rmw_cyclonedds_c.Rmw.{Ret, ok, error, invalid_argument, is_ok, ℤ, map_dds_result}
use rmw_cyclonedds_c.GraphCache.{remove_endpoint_guid}
use rmw_cyclonedds_c.LocalGraph.{remove_endpoint}
use rmw_cyclonedds_c.Handles.{NodeHandle, context_impl_from_node}
use rmw_cyclonedds_c.Ledger.{Resource, give_back, give_back_if}
use rmw_cyclonedds_c.Entities.{World, Endpoint, entity_of}

-- What `dds_delete` and `dds_write` return during a destruction.
pub record Deletions : Type 0 where
  pub condition : ℤ
  pub entity : ℤ
  pub topic : ℤ
  pub written : ℤ

-- The memory that both destructions give back.
unfoldable pub give_back_memory : List Resource → List Resource
unfolding give_back
give_back_memory live = give_back Resource.handle (
    give_back Resource.topic_name
      (give_back Resource.endpoint (give_back Resource.dds_sample live)))

-- Both destructions behind their guards. `conditions` is the result of deleting the condition, ok
-- for a publisher.
unfoldable pub destroy_endpoint : Bool → Ret → Deletions → Endpoint → World → Ret × World
unfolding give_back_if give_back_memory
destroy_endpoint is_writer condition_result d e w =
    let l = record w.local { cache = remove_endpoint_guid w.local.cache e.guid } in
    let (removed, l') = remove_endpoint d.written l e.node e.guid is_writer in
    let entity_result = map_dds_result d.entity in
    let topic_result = map_dds_result d.topic in
    let live1 = give_back_if (is_ok entity_result) (entity_of is_writer) w.live in
    let live2 = give_back_if (is_ok topic_result) Resource.topic live1 in
    (
      if not (is_ok condition_result) || not (is_ok entity_result) || not (is_ok topic_result)
          then error
          else removed,
      record {
        local = record l' { cache = record l'.cache { signals = suc l'.cache.signals } };
        live = give_back_memory live2;
      },
    )

-- A publisher or a subscription that is null, foreign or without data is `none`.
unfoldable pub destroy_publisher :
    Deletions → Option NodeHandle → Option Endpoint → World → Ret × World
unfolding destroy_endpoint
destroy_publisher d n none w = (invalid_argument, w)
destroy_publisher d n (some e) w =
    if context_impl_from_node n == 0 then (invalid_argument, w) else destroy_endpoint true ok d e w

unfoldable pub destroy_subscription :
    Deletions → Option NodeHandle → Option Endpoint → World → Ret × World
unfolding destroy_endpoint
destroy_subscription d n none w = (invalid_argument, w)
destroy_subscription d n (some e) w =
    if context_impl_from_node n == 0
    then (invalid_argument, w)
    else destroy_endpoint false (map_dds_result d.condition) d e w
