-- ===== src/LocalGraph/Consistent.antt =====
-- The invariant of the local graph, and what other nodes are told of it.
use rmw_cyclonedds_c.Common.{◌≤◌, List, map, length, All}
use rmw_cyclonedds_c.Common.Keys.{Distinct}
use rmw_cyclonedds_c.Common.Table.{contents, Fits}
use rmw_cyclonedds_c.GraphCache.{max_endpoints_per_node, string_bound, NodeInfo}
use rmw_cyclonedds_c.LocalGraph.{Local, Slot, Address, max_local_nodes, node_info}
use rmw_cyclonedds_c.LocalGraph.Links.{Linked, self_key}

abbrev pub SlotFits : Slot → Type 0
SlotFits s =
    (length s.node_name ≤ string_bound)
    × (length s.node_namespace ≤ string_bound)
    × Fits max_endpoints_per_node s.readers
    × Fits max_endpoints_per_node s.writers

abbrev pub slot_owner : Slot → Address
slot_owner s = s.owner

abbrev pub owners : Local → List Address
owners l = map slot_owner (contents l.nodes)

-- The local nodes as the announcement lists them.
abbrev pub infos : Local → List NodeInfo
infos l = map node_info (contents l.nodes)

pub record IsConsistent (l : Local) : Type 0 where
  pub nodes_fit : Fits max_local_nodes l.nodes
  pub slots_fit : All SlotFits (contents l.nodes)
  pub linked : Linked l.heap l.self 0 (owners l)
  pub distinct : Distinct self_key (owners l)
