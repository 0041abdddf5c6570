-- ===== src/Queries/Tests.antt =====
-- The graph queries on a small cache: the theorems at concrete inputs.
use rmw_cyclonedds_c.Common.{
  ◌≡◌, ◌==◌, refl, true, false, [], ◌∷◌, ◌++◌, none, some, CString, arith, if◌then◌else◌, leb, ltb,
  length, filter, bytes_eq, not,
}
use rmw_cyclonedds_c.Rmw.{ok, invalid_argument, is_ok}
use rmw_cyclonedds_c.GraphCache.{endpoint_is_associated, holds_gid}
use rmw_cyclonedds_c.GraphCache.View.{view}
use rmw_cyclonedds_c.GraphCache.Tests.{small}
use rmw_cyclonedds_c.Handles.{
  NodeHandle, implementation_identifier, identifiers_match, graph_context_from_node,
}
use rmw_cyclonedds_c.Queries.{
  count_publishers, count_matching, count_endpoints, get_topic_names_and_types, get_node_names,
  type_output_name, validate_topic_count_arguments,
}
use rmw_cyclonedds_c.Queries.Listing.{topics_and_types, counted}
use rmw_cyclonedds_c.Queries.Counts.{count_endpoints_lem}
use rmw_cyclonedds_c.Queries.Result.{
  get_topic_names_and_types_refines, get_topic_names_and_types-TopicsOf, TopicsOf,
}
use rmw_cyclonedds_c.Queries.NodeNames.{get_node_names-NamesOf, NamesOf}
use rmw_cyclonedds_c.Queries.TypeName.{type_output_name-dds_type_name, dds_type_name, ros_path}

abbrev pub own_node : NodeHandle
own_node = record {
  implementation_identifier = some implementation_identifier;
  context = some (record {
    implementation_identifier = some implementation_identifier;
    impl = 1;
    shutdown = false;
  });
  node_data = 100;
}

own_node_is_valid : graph_context_from_node (some own_node) ≡ ok
unfolding graph_context_from_node identifiers_match bytes_eq
own_node_is_valid = refl

-- "/c"
abbrev topic : CString
topic = 47 ∷ 99 ∷ []

get_topic_names_and_types_refines_example :
    get_topic_names_and_types (λ _. true) (λ _. []) ok small (some own_node) true true false
    ≡ (ok, topics_and_types (view small) false)
get_topic_names_and_types_refines_example =
    get_topic_names_and_types_refines (λ _. true) (λ _. []) (λ _. refl) small false (some own_node)
      own_node_is_valid

count_endpoints_lem_example :
    count_endpoints (ok, true) small (some own_node) (some topic) true true ≡ (
      let result = validate_topic_count_arguments (ok, true) (some own_node) (some topic) true in
      if not (is_ok result)
      then (result, none)
      else if leb (length topic) 254
      then (ok, some (length (filter (counted (view small) topic true) (view small).endpoints)))
      else (invalid_argument, none))
count_endpoints_lem_example = count_endpoints_lem (ok, true) small (some own_node) topic true true

-- Memory runs out behind the name of the first node.
get_node_names-NamesOf_example :
    NamesOf
      (view small).nodes
      (get_node_names (λ k. ltb k 3) (λ _. []) small (some own_node) true true)
get_node_names-NamesOf_example =
    get_node_names-NamesOf (λ k. ltb k 3) (λ _. []) small (some own_node) true true (λ _. refl)

-- Memory runs out behind the first topic's name.
get_topic_names_and_types-TopicsOf_example :
    TopicsOf small false
      (get_topic_names_and_types (λ k. k == 0) (λ _. []) ok small (some own_node) true true false)
get_topic_names_and_types-TopicsOf_example =
    get_topic_names_and_types-TopicsOf small false (λ k. k == 0) (λ _. []) ok (some own_node) true
      true (λ _. refl)

-- "std::msg::dds_::A_"
type_output_name-dds_type_name_example :
    type_output_name
      (dds_type_name ((115 ∷ 116 ∷ 100 ∷ []) ∷ (109 ∷ 115 ∷ 103 ∷ []) ∷ []) (65 ∷ []))
      false
    ≡ ros_path ((115 ∷ 116 ∷ 100 ∷ []) ∷ (109 ∷ 115 ∷ 103 ∷ []) ∷ []) ++ (65 ∷ [])
type_output_name-dds_type_name_example =
    type_output_name-dds_type_name ((115 ∷ 116 ∷ 100 ∷ []) ∷ (109 ∷ 115 ∷ 103 ∷ []) ∷ []) (65 ∷ [])
      (refl, (refl, tt)) (omega arith)

chatter_is_counted :
    (count_publishers (ok, true) small (some own_node) (some topic) true) ≡ (ok, some 1)
unfolding count_publishers count_endpoints count_matching validate_topic_count_arguments
    graph_context_from_node endpoint_is_associated holds_gid bytes_eq identifiers_match
chatter_is_counted = refl
