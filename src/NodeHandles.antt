-- ===== src/NodeHandles.antt =====
-- `rmw_create_node` and `rmw_destroy_node` of rmw_cyclonedds_c/src/rmw_cyclonedds_c.c: the handle, the
-- `node_data_t` object and the two copies of names, around `graph_add_node` and `graph_remove_node`.
-- The verdicts of `rmw_validate_node_name` and `rmw_validate_namespace` are arguments, as are the
-- address of the new object and the results of the allocator and of `dds_write`.
pub mod Outcome
pub mod Destruction
pub mod Tests
use rmw_cyclonedds_c.Common.{
  ℕ, suc, Bool, true, false, ◌||◌, not, List, [], ◌∷◌, Option, none, some, CString, ◌==◌,
  if◌then◌else◌,
}
use rmw_cyclonedds_c.Rmw.{
  Ret, ok, error, invalid_argument, incorrect_rmw_implementation, is_ok, is_invalid_argument, ℤ,
}
use rmw_cyclonedds_c.LocalGraph.{Local, Address, NodeData, update, add_node, remove_node}
use rmw_cyclonedds_c.Handles.{ContextHandle, NodeHandle, identifiers_match, context_impl_from_node}
use rmw_cyclonedds_c.Ledger.{Resource, take_up_if, give_back, give_back_if}
use rmw_cyclonedds_c.Entities.{World}

-- What the calls of `rmw_create_node` answer; for an allocation, whether it succeeds.
pub record NodeAnswers : Type 0 where
  pub names_are_valid : Bool
  pub handle_memory : Bool
  pub data_memory : Bool
  pub name_memory : Bool
  pub namespace_memory : Bool
  pub address : Address
  pub written : ℤ

-- `dds_set_guardcondition` on the graph guard.
abbrev pub wake_graph : Local → Local
wake_graph l = record l { cache = record l.cache { signals = suc l.cache.signals } }

-- What a node owns, above the rest of the ledger.
abbrev pub owned_by_node : List Resource → List Resource
owned_by_node live =
    Resource.node_namespace ∷ Resource.node_name ∷ Resource.node_data ∷ Resource.handle ∷ live

-- The object in zeroed memory.
abbrev pub with_object : Address → Local → Local
with_object a l = record l { heap = update l.heap a (record { context = 0; graph_index = 0 }) }

-- The order in which the names, the object and the handle are given back.
unfoldable pub give_back_node : Bool → Bool → List Resource → List Resource
give_back_node name namespace_ live =
    let live1 = give_back_if name Resource.node_name live in
    let live2 = give_back_if namespace_ Resource.node_namespace live1 in
    give_back Resource.handle (give_back Resource.node_data live2)

-- The part of `rmw_create_node` behind its guards.
unfoldable pub make_node : NodeAnswers → CString → CString → World → Option Address × World
make_node a name namespace_ w =
    let live1 =
      take_up_if a.data_memory Resource.node_data
        (take_up_if a.handle_memory Resource.handle w.live) in
    let live2 = take_up_if a.namespace_memory Resource.node_namespace (
      take_up_if a.name_memory Resource.node_name
        (Resource.node_data ∷ Resource.handle ∷ w.live)) in
    let (result, l) =
      add_node a.written (with_object a.address w.local) a.address name namespace_ in
    if not a.handle_memory || not a.data_memory
    then (
      none,
      record w {
        live =
            give_back_if a.data_memory Resource.node_data
              (give_back_if a.handle_memory Resource.handle live1);
      },
    )
    else if not a.name_memory || not a.namespace_memory
    then (none, record w { live = give_back_node a.name_memory a.namespace_memory live2 })
    else if not (is_ok result)
    then (none, record { local = l; live = give_back_node true true (owned_by_node w.live) })
    else (some a.address, record { local = wake_graph l; live = owned_by_node w.live })

-- The guards of `rmw_create_node`; the names, where they pass.
unfoldable pub node_arguments :
    Option ContextHandle → Option CString → Option CString → Option (CString × CString)
node_arguments none name namespace_ = none
node_arguments (some context) name namespace_ =
    if not (identifiers_match context.implementation_identifier)
      || context.impl == 0
      || context.shutdown
    then none
    else elim name [
      | none ↦ none
      | some n ↦ elim namespace_ [ none ↦ none | some ns ↦ some (n, ns) ]
    ]

unfoldable pub create_node :
    NodeAnswers
    → Option ContextHandle
    → Option CString
    → Option CString
    → World
    → Option Address × World
create_node a context name namespace_ w = elim (node_arguments context name namespace_) [
  | none ↦ (none, w)
  | some (n, ns) ↦ if not a.names_are_valid then (none, w) else make_node a n ns w
]

-- The part of `rmw_destroy_node` behind its guards.
unfoldable pub release_node : ℤ → Address → World → Ret × World
release_node written node w =
    let (result, l) = remove_node written w.local node in
    if is_invalid_argument result
    then (result, record w { local = l })
    else (result, record { local = wake_graph l; live = give_back_node true true w.live })

unfoldable pub destroy_node : ℤ → Option NodeHandle → World → Ret × World
destroy_node written none w = (invalid_argument, w)
destroy_node written (some node) w = elim node.implementation_identifier [
  | none ↦ (invalid_argument, w)
  | some identifier ↦
      if not (identifiers_match (some identifier))
      then (incorrect_rmw_implementation, w)
      else if context_impl_from_node (some node) == 0 || node.node_data == 0
      then (invalid_argument, w)
      else release_node written node.node_data w
]
