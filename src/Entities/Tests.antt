-- ===== src/Entities/Tests.antt =====
-- Publishers and subscriptions on a local graph with two nodes: the theorems at concrete inputs.
use rmw_cyclonedds_c.Common.{◌≡◌, refl, true, false, [], ◌∷◌, some, ◌==◌, bytes_eq}
use rmw_cyclonedds_c.Rmw.{pos}
use rmw_cyclonedds_c.Common.Table.{push, search, compact_from}
use rmw_cyclonedds_c.GraphCache.{
  add_participant_locked, apply_snapshot, replace_nodes, install_nodes, append_nodes, cache_node,
  copy_gids, exceeded_limit, count_owned, string_fits, fits_from, find_participant, signal,
  upsert_endpoint, store_endpoint, find_endpoint, write_endpoint,
}
use rmw_cyclonedds_c.LocalGraph.{add_endpoint, write_row, set_row, publish, node_is_valid}
use rmw_cyclonedds_c.LocalGraph.Tests.{two_nodes, two_nodes-IsConsistent}
use rmw_cyclonedds_c.Entities.Graph.{Registered}
use rmw_cyclonedds_c.Entities.Graph.Creation.{
  create_publisher-Registered, create_subscription-Registered,
}
use rmw_cyclonedds_c.Handles.{identifiers_match, context_impl_from_node}
use rmw_cyclonedds_c.Queries.Tests.{own_node}
use rmw_cyclonedds_c.Qos.{
  QosProfile, History, Liveliness, Reliability, Durability, make_dds_topic_name, qos_is_supported,
}
use rmw_cyclonedds_c.Entities.{
  World, Answers, Request, Endpoint, create_publisher, create_subscription, create_endpoint,
  accepted, create_handle, take_memory, open_writer, open_reader, register,
}
use rmw_cyclonedds_c.Entities.Destructors.{Deletions, destroy_publisher, destroy_subscription}
use rmw_cyclonedds_c.Entities.Ledger.{Balanced}
use rmw_cyclonedds_c.Entities.Ledger.Creation.{
  create_publisher-Balanced, create_subscription-Balanced,
}
use rmw_cyclonedds_c.Entities.Destruction.{
  Undone, destroy_publisher-create_publisher, destroy_subscription-create_subscription,
}

abbrev pub profile : QosProfile
profile = record {
  history = History.keep_last;
  depth = 10;
  reliability = Reliability.reliable;
  durability = Durability.volatile;
  deadline = record { sec = 0; nsec = 0 };
  lifespan = record { sec = 0; nsec = 0 };
  liveliness = Liveliness.automatic;
  liveliness_lease_duration = record { sec = 0; nsec = 0 };
  avoid_ros_namespace_conventions = false;
}

-- A request for "/a" of type "T", and answers without a failure.
abbrev request : Request
request = record {
  node = some own_node;
  type_name = some (84 ∷ []);
  topic_name = some (47 ∷ 97 ∷ []);
  qos = some profile;
  options_are_supported = true;
}

abbrev answers : Answers
answers = record {
  handle_memory = true;
  name_memory = true;
  endpoint_memory = true;
  dds_name_memory = true;
  qos_made = true;
  sample_memory = true;
  topic = pos 11;
  entity = pos 12;
  condition = pos 13;
  guid_result = pos 0;
  guid = 77;
  written = pos 0;
  written_back = pos 0;
  entity_deleted = pos 0;
  topic_deleted = pos 0;
}

abbrev world : World
world = record { local = two_nodes; live = [] }

abbrev opened_endpoint : Endpoint
opened_endpoint = record { topic = pos 11; entity = pos 12; guid = 77; node = 100; qos = profile }

abbrev deletions : Deletions
deletions = record { condition = pos 0; entity = pos 0; topic = pos 0; written = pos 0 }

own_context : (context_impl_from_node (some own_node) == 0) ≡ false
unfolding context_impl_from_node identifiers_match bytes_eq
own_context = refl

create_publisher-Balanced_example :
    Balanced true answers [] (create_publisher answers request world)
create_publisher-Balanced_example = create_publisher-Balanced answers request world

create_subscription-Balanced_example :
    Balanced false answers [] (create_subscription answers request world)
create_subscription-Balanced_example = create_subscription-Balanced answers request world

create_publisher-Registered_example :
    Registered two_nodes 100 77 true (create_publisher answers request world)
create_publisher-Registered_example =
    create_publisher-Registered answers request world two_nodes-IsConsistent refl

create_subscription-Registered_example :
    Registered two_nodes 100 77 false (create_subscription answers request world)
create_subscription-Registered_example =
    create_subscription-Registered answers request world two_nodes-IsConsistent refl

publisher_made : (create_publisher answers request world).0 ≡ some opened_endpoint
unfolding create_publisher create_endpoint accepted create_handle take_memory open_writer register
    add_endpoint write_row set_row publish node_is_valid push search apply_snapshot replace_nodes
    install_nodes append_nodes cache_node copy_gids exceeded_limit count_owned string_fits fits_from
    find_participant add_participant_locked signal compact_from upsert_endpoint store_endpoint
    find_endpoint write_endpoint make_dds_topic_name qos_is_supported context_impl_from_node
    identifiers_match bytes_eq
publisher_made = refl

destroy_publisher-create_publisher_example :
    Undone true world deletions
      (destroy_publisher deletions
        (some own_node)
        (some opened_endpoint)
        (create_publisher answers request world).1).1
destroy_publisher-create_publisher_example =
    destroy_publisher-create_publisher answers request world deletions (some own_node)
      opened_endpoint two_nodes-IsConsistent refl publisher_made refl refl own_context

subscription_made : (create_subscription answers request world).0 ≡ some opened_endpoint
unfolding create_subscription create_endpoint accepted create_handle take_memory open_reader
    register add_endpoint write_row set_row publish node_is_valid push search apply_snapshot
    replace_nodes install_nodes append_nodes cache_node copy_gids exceeded_limit count_owned
    string_fits fits_from find_participant add_participant_locked signal compact_from
    upsert_endpoint store_endpoint find_endpoint write_endpoint make_dds_topic_name qos_is_supported
    context_impl_from_node identifiers_match bytes_eq
subscription_made = refl

destroy_subscription-create_subscription_example :
    Undone false world deletions
      (destroy_subscription deletions
        (some own_node)
        (some opened_endpoint)
        (create_subscription answers request world).1).1
destroy_subscription-create_subscription_example =
    destroy_subscription-create_subscription answers request world deletions (some own_node)
      opened_endpoint two_nodes-IsConsistent refl subscription_made refl refl own_context
