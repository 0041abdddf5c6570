-- ===== src/LocalGraph.antt =====
-- The outbound side of the graph in rmw_cyclonedds_c/src/rmw_cyclonedds_c.c: `graph_nodes`,
-- `graph_readers`, `graph_writers` and `graph_node_owners` of `rmw_context_impl_t`, which one index
-- governs, are one table of slots, and the `node_data_t` objects stand on a heap. Each function runs
-- under `graph_lock`. Whether `dds_write` takes an announcement is an argument.
pub mod Links
pub mod Consistent
pub mod Gap
pub mod Nodes
pub mod Endpoints
pub mod Tests
use rmw_cyclonedds_c.Common.{
  ℕ, zero, suc, ◌-◌, Bool, ◌&&◌, ◌||◌, not, List, [], ◌∷◌, map, CString, ltb, ◌==◌, if◌then◌else◌,
  length, set, get_or,
}
use rmw_cyclonedds_c.Common.Table.{Table, contents, empty, push, search, remove_at, copy_into}
use rmw_cyclonedds_c.Rmw.{Ret, error, invalid_argument, is_ok, ℤ, map_dds_result, Guid}
use rmw_cyclonedds_c.GraphCache.{
  Cache, NodeInfo, Snapshot, apply_snapshot, max_endpoints_per_node, string_bound,
}

abbrev pub max_local_nodes : ℕ
max_local_nodes = 8

-- The address of an object; 0 is the null pointer.
abbrev pub Address : Type 0
Address = ℕ

-- One index of the arrays: the node's entry, its rows of GUIDs with their lengths, its owner.
pub record Slot : Type 0 where
  pub node_name : CString
  pub node_namespace : CString
  pub readers : Table Guid
  pub writers : Table Guid
  pub owner : Address

-- `node_data_t`
pub record NodeData : Type 0 where
  pub context : Address
  pub graph_index : ℕ

-- `nodes.count` is `graph_node_count`, `self` the context's own address. `announced` holds the
-- samples that `dds_write` took, last first.
pub record Local : Type 0 where
  pub self : Address
  pub participant_guid : Guid
  pub nodes : Table Slot
  pub heap : Address → NodeData
  pub cache : Cache
  pub announced : List Snapshot

abbrev pub empty_row : Table Guid
empty_row = empty 0 max_endpoints_per_node

abbrev pub zero_slot : Slot
zero_slot = record {
  node_name = [];
  node_namespace = [];
  readers = empty_row;
  writers = empty_row;
  owner = 0;
}

abbrev pub update : (Address → NodeData) → Address → NodeData → Address → NodeData
update heap a d b = if b == a then d else heap b

-- `graph_reset_node`
unfoldable pub reset_node : ℕ → Table Slot → Table Slot
reset_node i t = record t { slots = set t.slots i zero_slot }

abbrev pub node_info : Slot → NodeInfo
node_info s = record {
  node_namespace = s.node_namespace;
  node_name = s.node_name;
  reader_gids = contents s.readers;
  writer_gids = contents s.writers;
}

-- The sample that announces the local participant.
abbrev pub local_snapshot : Local → Snapshot
local_snapshot l = record {
  gid = l.participant_guid;
  node_infos = map node_info (contents l.nodes);
}

-- `graph_publish_locked`, where `dds_write` returns `written`.
unfoldable pub publish : ℤ → Local → Ret × Local
publish written l =
    let result = map_dds_result written in
    if is_ok result
    then (let (applied, c) = apply_snapshot l.cache (local_snapshot l) in
        (applied, record l { cache = c; announced = local_snapshot l ∷ l.announced }))
    else (result, l)

-- `graph_node_is_valid_locked`
unfoldable pub node_is_valid : Local → Address → Bool
node_is_valid l node =
    not (node == 0)
    && (l.heap node).context == l.self
    && ltb (l.heap node).graph_index l.nodes.count
    && (get_or l.nodes.slots (l.heap node).graph_index zero_slot).owner == node

-- The entry and the links that `graph_add_node` writes in front of the announcement.
unfoldable pub enter_node : Local → Address → CString → CString → Local
unfolding reset_node
enter_node l node name namespace_ =
    let i = l.nodes.count in
    let slot : Slot = record zero_slot {
      node_name = name;
      node_namespace = namespace_;
      owner = node;
    } in
    record l {
      nodes = record { slots = set (reset_node i l.nodes).slots i slot; count = suc i };
      heap = update l.heap node (record { context = l.self; graph_index = i });
    }

-- What `graph_add_node` takes back when the announcement fails; `i` is the new node's index.
unfoldable pub retract_node : Local → Address → ℕ → Local
unfolding reset_node
retract_node l node i = record l {
  nodes = reset_node i (record l.nodes { count = l.nodes.count - 1 });
  heap = update l.heap node (record (l.heap node) { context = 0 });
}

unfoldable pub add_node : ℤ → Local → Address → CString → CString → Ret × Local
unfolding enter_node retract_node publish
add_node written l node name namespace_ =
    if ltb string_bound (length name) || ltb string_bound (length namespace_)
    then (invalid_argument, l)
    else if l.nodes.count == max_local_nodes
    then (error, l)
    else let (result, l') = publish written (enter_node l node name namespace_) in
      (result, if is_ok result then l' else retract_node l' node l.nodes.count)

-- The row that `graph_copy_node` makes in a cleared place: the entries in use, and nothing else.
unfoldable pub copy_row : Table Guid → Table Guid
copy_row row = record { slots = copy_into (contents row) 0 empty_row.slots; count = row.count }

unfoldable pub copy_slot : Slot → Slot
unfolding copy_row
copy_slot s = record s { readers = copy_row s.readers; writers = copy_row s.writers }

-- `graph_copy_node`: the owner learns its new index.
unfoldable pub copy_node : ℕ → ℕ → Local → Local
unfolding copy_slot
copy_node destination source l =
    let s = get_or l.nodes.slots source zero_slot in
    record l {
      nodes = record l.nodes { slots = set l.nodes.slots destination (copy_slot s) };
      heap = update l.heap s.owner (record (l.heap s.owner) { graph_index = destination });
    }

-- `for (index = i; index < i + rounds; ++index) graph_copy_node(context, index, index + 1);`
unfoldable pub close_gap : ℕ → ℕ → Local → Local
unfolding copy_node
close_gap zero i l = l
close_gap (suc rounds) i l = close_gap rounds (suc i) (copy_node i (suc i) l)

-- What `graph_remove_node` does in front of the announcement.
unfoldable pub take_out_node : Local → Address → Local
unfolding close_gap reset_node
take_out_node l node =
    let i = (l.heap node).graph_index in
    let n = l.nodes.count in
    let l' = close_gap (n - 1 - i) i l in
    record l' {
      nodes = reset_node (n - 1) (record l'.nodes { count = n - 1 });
      heap = update l'.heap node (record (l'.heap node) { context = 0 });
    }

unfoldable pub remove_node : ℤ → Local → Address → Ret × Local
unfolding node_is_valid take_out_node publish
remove_node written l node =
    let slot = get_or l.nodes.slots (l.heap node).graph_index zero_slot in
    if not (node_is_valid l node)
    then (invalid_argument, l)
    else if not (slot.readers.count == 0) || not (slot.writers.count == 0)
    then (invalid_argument, l)
    else publish written (take_out_node l node)

-- The sequence that `writer` selects.
abbrev pub row_of : Bool → Slot → Table Guid
row_of writer s = if writer then s.writers else s.readers

unfoldable pub set_row : Bool → Table Guid → Slot → Slot
set_row writer row s = if writer then record s { writers = row } else record s { readers = row }

-- The local graph with another row at the node's index.
unfoldable pub write_row : Local → Address → Bool → Table Guid → Local
unfolding set_row
write_row l node writer row =
    let i = (l.heap node).graph_index in
    record l {
      nodes = record l.nodes {
        slots = set l.nodes.slots i (set_row writer row (get_or l.nodes.slots i zero_slot));
      };
    }

-- What `graph_add_endpoint` takes back when the announcement fails.
unfoldable pub retract_row : Table Guid → Table Guid
retract_row row = record { slots = set row.slots (row.count - 1) 0; count = row.count - 1 }

unfoldable pub add_endpoint : ℤ → Local → Address → Guid → Bool → Ret × Local
unfolding node_is_valid write_row retract_row publish push
add_endpoint written l node guid writer =
    let row = row_of writer (get_or l.nodes.slots (l.heap node).graph_index zero_slot) in
    if not (node_is_valid l node)
    then (invalid_argument, l)
    else if row.count == max_endpoints_per_node
    then (error, l)
    else let (result, l') = publish written (write_row l node writer (push row guid)) in
      (result, if is_ok result then l' else write_row l' node writer (retract_row (push row guid)))

unfoldable pub remove_endpoint : ℤ → Local → Address → Guid → Bool → Ret × Local
unfolding node_is_valid write_row publish search remove_at
remove_endpoint written l node guid writer =
    let row = row_of writer (get_or l.nodes.slots (l.heap node).graph_index zero_slot) in
    let i = search 0 (λ g. g == guid) row in
    if not (node_is_valid l node)
    then (invalid_argument, l)
    else if i == row.count
    then (invalid_argument, l)
    else publish written (write_row l node writer (remove_at 0 i row))
