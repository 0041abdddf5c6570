-- ===== src/LocalGraph/Tests.antt =====
-- A local graph with two nodes: the theorems at concrete inputs.
use rmw_cyclonedds_c.Common.{true, false, refl, [], ◌∷◌, arith, replicate, if◌then◌else◌, ◌==◌}
use rmw_cyclonedds_c.Rmw.{pos, negsuc}
use rmw_cyclonedds_c.GraphCache.Tests.{small}
use rmw_cyclonedds_c.LocalGraph.{
  Local, Slot, Address, NodeData, zero_slot, empty_row, add_node, remove_node, add_endpoint,
  remove_endpoint,
}
use rmw_cyclonedds_c.LocalGraph.Consistent.{IsConsistent}
use rmw_cyclonedds_c.LocalGraph.Endpoints.Outcome.{Listed}
use rmw_cyclonedds_c.LocalGraph.Endpoints.Outcome.Calls.{
  Delisted, add_endpoint-Listed, remove_endpoint-Delisted,
}
use rmw_cyclonedds_c.LocalGraph.Nodes.Added.{Added, add_node-Added}
use rmw_cyclonedds_c.LocalGraph.Nodes.Removed.Outcome.{Removed, remove_node-Removed}

-- The context stands at 1, the nodes' objects at 100 and 200.
abbrev pub talker_slot : Slot
talker_slot = record {
  node_name = 116 ∷ [];
  node_namespace = 47 ∷ [];
  readers = empty_row;
  writers = record { slots = 21 ∷ replicate 15 0; count = 1 };
  owner = 100;
}

abbrev pub idle_slot : Slot
idle_slot = record {
  node_name = 105 ∷ [];
  node_namespace = 47 ∷ [];
  readers = empty_row;
  writers = empty_row;
  owner = 200;
}

abbrev pub objects : Address → NodeData
objects a =
    if a == 100
    then record { context = 1; graph_index = 0 }
    else if a == 200
    then record { context = 1; graph_index = 1 }
    else record { context = 0; graph_index = 0 }

abbrev pub two_nodes : Local
two_nodes = record {
  self = 1;
  participant_guid = 7;
  nodes = record { slots = talker_slot ∷ idle_slot ∷ replicate 6 zero_slot; count = 2 };
  heap = objects;
  cache = small;
  announced = [];
}

pub two_nodes-IsConsistent : IsConsistent two_nodes
two_nodes-IsConsistent = record {
  nodes_fit = (refl, omega arith);
  slots_fit = (
    (omega arith, omega arith, (refl, omega arith), (refl, omega arith)),
    ((omega arith, omega arith, (refl, omega arith), (refl, omega arith)), tt),
  );
  linked = (refl, refl, refl, (refl, refl, refl, tt));
  distinct = (refl, (refl, tt));
}

add_node-Added_example :
    Added two_nodes 300 (110 ∷ []) (47 ∷ []) (add_node (pos 0) two_nodes 300 (110 ∷ []) (47 ∷ []))
add_node-Added_example =
    add_node-Added (pos 0) two_nodes 300 (110 ∷ []) (47 ∷ []) two_nodes-IsConsistent refl refl

remove_node-Removed_example : Removed two_nodes 200 (remove_node (negsuc 0) two_nodes 200)
remove_node-Removed_example = remove_node-Removed (negsuc 0) two_nodes 200 two_nodes-IsConsistent

add_endpoint-Listed_example :
    Listed two_nodes 200 33 false (add_endpoint (pos 0) two_nodes 200 33 false)
add_endpoint-Listed_example =
    add_endpoint-Listed (pos 0) two_nodes 200 33 false two_nodes-IsConsistent

remove_endpoint-Delisted_example :
    Delisted two_nodes 100 21 true (remove_endpoint (pos 0) two_nodes 100 21 true)
remove_endpoint-Delisted_example =
    remove_endpoint-Delisted (pos 0) two_nodes 100 21 true two_nodes-IsConsistent
