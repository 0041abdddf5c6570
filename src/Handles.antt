-- ===== src/Handles.antt =====
-- The handles of rmw_cyclonedds_c/src/rmw_cyclonedds_c.c as its guards read them: `rmw_context_t`,
-- `rmw_node_t`, `identifiers_match`, `context_impl_from_node`, `graph_context_from_node` and
-- `rmw_node_get_graph_guard_condition`. A null pointer to a handle is `none`, a null address 0.
use rmw_cyclonedds_c.Common.{
  ◌≡◌, ap, Bool, true, false, ◌||◌, not, [], ◌∷◌, Option, none, some, CString, bytes_eq,
  bytes_eq_iff, ◌==◌, if◌then◌else◌,
}
use rmw_cyclonedds_c.Rmw.{Ret, ok, invalid_argument, incorrect_rmw_implementation}
use rmw_cyclonedds_c.LocalGraph.{Address}

-- "rmw_cyclonedds_c"
abbrev pub implementation_identifier : CString
implementation_identifier =
    114 ∷ 109 ∷ 119 ∷ 95 ∷ 99 ∷ 121 ∷ 99 ∷ 108 ∷ 111 ∷ 110 ∷ 101 ∷ 100 ∷ 100 ∷ 115 ∷ 95 ∷ 99 ∷ []

-- `rmw_context_t`
pub record ContextHandle : Type 0 where
  pub implementation_identifier : Option CString
  pub impl : Address
  pub shutdown : Bool

-- `rmw_node_t`; `node_data` is the address of its `node_data_t`.
pub record NodeHandle : Type 0 where
  pub implementation_identifier : Option CString
  pub context : Option ContextHandle
  pub node_data : Address

unfoldable pub identifiers_match : Option CString → Bool
identifiers_match none = false
identifiers_match (some identifier) = bytes_eq identifier implementation_identifier

pub identifiers_match-eq :
    (o : Option CString) → identifiers_match o ≡ true → o ≡ some implementation_identifier
unfolding identifiers_match
identifiers_match-eq none h = cc h
identifiers_match-eq (some s) h = ap some ((bytes_eq_iff s implementation_identifier).0 h)

-- The context of a node handle, or the null pointer.
unfoldable pub context_impl_from_node : Option NodeHandle → Address
unfolding identifiers_match
context_impl_from_node none = 0
context_impl_from_node (some node) = elim node.context [
  | none ↦ 0
  | some context ↦
      if not (identifiers_match node.implementation_identifier)
        || not (identifiers_match context.implementation_identifier)
      then 0
      else context.impl
]

unfoldable pub graph_context_from_node : Option NodeHandle → Ret
unfolding identifiers_match
graph_context_from_node none = invalid_argument
graph_context_from_node (some node) =
    if not (identifiers_match node.implementation_identifier)
    then incorrect_rmw_implementation
    else elim node.context [
      | none ↦ invalid_argument
      | some context ↦
          if not (identifiers_match context.implementation_identifier) || context.impl == 0
          then invalid_argument
          else ok
    ]

-- `rmw_node_get_graph_guard_condition`: the guard condition is a part of the implementation at the
-- address returned, `none` is the null pointer.
unfoldable pub node_get_graph_guard_condition : Option NodeHandle → Option Address
unfolding context_impl_from_node
node_get_graph_guard_condition node =
    let implementation = context_impl_from_node node in
    if implementation == 0 then none else some implementation
