-- ===== src/NodeHandles/Tests.antt =====
-- A node made and destroyed on a local graph with two nodes: the theorems at concrete inputs.
use rmw_cyclonedds_c.Common.{◌≡◌, refl, true, false, [], ◌∷◌, some, bytes_eq}
use rmw_cyclonedds_c.Rmw.{pos, negsuc}
use rmw_cyclonedds_c.LocalGraph.Tests.{two_nodes, two_nodes-IsConsistent}
use rmw_cyclonedds_c.Handles.{
  ContextHandle, implementation_identifier, identifiers_match, NodeHandle, context_impl_from_node,
}
use rmw_cyclonedds_c.Entities.{World}
use rmw_cyclonedds_c.NodeHandles.{
  NodeAnswers, create_node, node_arguments, destroy_node, owned_by_node,
}
use rmw_cyclonedds_c.NodeHandles.Outcome.{Created, create_node-Created}
use rmw_cyclonedds_c.NodeHandles.Destruction.{Destroyed, is_own_node, destroy_node-Destroyed}

abbrev own_context : ContextHandle
own_context = record {
  implementation_identifier = some implementation_identifier;
  impl = 1;
  shutdown = false;
}

abbrev answers : NodeAnswers
answers = record {
  names_are_valid = true;
  handle_memory = true;
  data_memory = true;
  name_memory = true;
  namespace_memory = true;
  address = 300;
  written = pos 0;
}

abbrev world : World
world = record { local = two_nodes; live = owned_by_node [] }

create_node-Created_example :
    Created world
      (some (110 ∷ []))
      (some (47 ∷ []))
      (create_node answers (some own_context) (some (110 ∷ [])) (some (47 ∷ [])) world)
create_node-Created_example =
    create_node-Created answers (some own_context) (some (110 ∷ [])) (some (47 ∷ [])) world
      two_nodes-IsConsistent refl refl

-- The object at 200 owns a node without endpoints; the announcement fails.
abbrev node_handle : NodeHandle
node_handle = record {
  implementation_identifier = some implementation_identifier;
  context = some own_context;
  node_data = 200;
}

destroy_node-Destroyed_example :
    Destroyed world node_handle [] (destroy_node (negsuc 0) (some node_handle) world)
destroy_node-Destroyed_example =
    destroy_node-Destroyed (negsuc 0) (some implementation_identifier) (some own_context) 200 world
      [] two_nodes-IsConsistent refl

is_own : is_own_node node_handle ≡ true
unfolding context_impl_from_node identifiers_match bytes_eq
is_own = refl

-- The arguments pass the guards.
names_pass :
    node_arguments (some own_context) (some (110 ∷ [])) (some (47 ∷ [])) ≡ some (110 ∷ [], 47 ∷ [])
unfolding node_arguments identifiers_match bytes_eq
names_pass = refl
