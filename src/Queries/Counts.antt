-- ===== src/Queries/Counts.antt =====
-- `rmw_count_publishers` and `rmw_count_subscribers`: what `graph_count_endpoints` counts.
use rmw_cyclonedds_c.Common.{
  ℕ, suc, ◌+◌, ◌≡◌, Bool, not, List, [], ◌∷◌, ◌++◌, Option, none, some, CString, arith, leb,
  if◌then◌else◌, length, filter,
}
use rmw_cyclonedds_c.Common.Table.{contents}
use rmw_cyclonedds_c.Rmw.{Ret, ok, invalid_argument, is_ok}
use rmw_cyclonedds_c.GraphCache.{Cache, CachedEndpoint}
use rmw_cyclonedds_c.GraphCache.View.{view}
use rmw_cyclonedds_c.GraphCache.Endpoints.{endpoint_is_associated_lem}
use rmw_cyclonedds_c.Handles.{NodeHandle}
use rmw_cyclonedds_c.Queries.{
  count_matching, count_endpoints, validate_topic_count_arguments, topic_prefix,
}
use rmw_cyclonedds_c.Queries.Listing.{counted}

count_matching_lem :
    (c : Cache) (topic : CString) (writers : Bool) (es : List CachedEndpoint) (n : ℕ)
    → count_matching c (topic_prefix ++ topic) writers es n
      ≡ n + length (filter (counted (view c) topic writers) es)
unfolding count_matching
count_matching_lem c topic writers [] n = omega arith
count_matching_lem c topic writers (e ∷ es) n = ground (
  arith,
  endpoint_is_associated_lem c e,
  count_matching_lem c topic writers es n,
  count_matching_lem c topic writers es (suc n),
)

-- `graph_count_endpoints`, where its arguments are accepted, returns OK with the number of the
-- endpoints on the topic and the side asked for that some node of their participant names, if the
-- DDS topic name has at most 256 bytes; otherwise it returns RMW_RET_INVALID_ARGUMENT and does not
-- write the count. Where the arguments are refused, the count is not written either.
pub count_endpoints_lem :
    (validation : Ret × Bool) (c : Cache) (handle : Option NodeHandle) (topic : CString)
    (has_count writers : Bool)
    → count_endpoints validation c handle (some topic) has_count writers ≡ (
        let result = validate_topic_count_arguments validation handle (some topic) has_count in
        if not (is_ok result)
        then (result, none)
        else if leb (length topic) 254
        then (ok, some (length (filter (counted (view c) topic writers) (view c).endpoints)))
        else (invalid_argument, none))
unfolding count_endpoints
count_endpoints_lem validation c handle topic has_count writers =
    ground (arith, count_matching_lem c topic writers (contents c.endpoints) 0)
