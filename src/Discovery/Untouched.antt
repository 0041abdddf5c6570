-- ===== src/Discovery/Untouched.antt =====
-- The updates of endpoints in the cache, which do not touch its nodes.
use rmw_cyclonedds_c.Common.{◌≡◌, refl, ◌∙◌, Bool, List, Option, CString, arith}
use rmw_cyclonedds_c.Rmw.{Guid}
use rmw_cyclonedds_c.GraphCache.{
  Cache, signal, report_limit, write_endpoint, store_endpoint, upsert_endpoint, drop_endpoint,
  remove_endpoint_guid,
}
use rmw_cyclonedds_c.Discovery.{EndpointSample, endpoint_sample, endpoint_data_available}
use rmw_cyclonedds_c.Discovery.Safety.{drain_keeps, endpoint_sample_cases}

pub nodes-upsert_endpoint :
    (c : Cache) (guid participant_guid : Guid) (topic type_ : Option CString) (writer : Bool)
    → (upsert_endpoint c guid participant_guid topic type_ writer).1.nodes ≡ c.nodes
unfolding upsert_endpoint store_endpoint write_endpoint signal report_limit
nodes-upsert_endpoint c guid participant_guid topic type_ writer = ground arith

pub nodes-remove_endpoint_guid :
    (c : Cache) (guid : Guid) → (remove_endpoint_guid c guid).nodes ≡ c.nodes
unfolding remove_endpoint_guid drop_endpoint signal
nodes-remove_endpoint_guid c guid = ground arith

-- No stream of endpoint samples touches the nodes of the cache.
pub nodes-endpoint_data_available :
    (own : Guid) (writer : Bool) (c : Cache) (takes : List (List EndpointSample))
    → (endpoint_data_available own writer c takes).nodes ≡ c.nodes
unfolding endpoint_data_available
nodes-endpoint_data_available own writer c takes =
    drain_keeps (endpoint_sample writer own) (λ d. d.nodes ≡ c.nodes)
      (λ d s h.
        endpoint_sample_cases (λ k. k.nodes ≡ c.nodes) own d h writer s
          (λ e. nodes-upsert_endpoint d e.key e.participant_key e.topic_name e.type_name writer ∙ h)
          (λ g. nodes-remove_endpoint_guid d g ∙ h))
      c takes refl
