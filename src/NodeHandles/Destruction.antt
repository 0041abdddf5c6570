-- ===== src/NodeHandles/Destruction.antt =====
-- What `rmw_destroy_node` leaves of the memory and of the local graph.
use rmw_cyclonedds_c.Common.{
  ◌≡◌, refl, ap, ◌∙◌, Bool, true, false, not, ◌&&◌, ◌||◌, ◌==◌, arith, Option, none, some, CString,
  List, if◌then◌else◌, Bool-cases, inl, inr, erase_at,
}
use rmw_cyclonedds_c.Common.Keys.{without}
use rmw_cyclonedds_c.Rmw.{
  Ret, invalid_argument, incorrect_rmw_implementation, is_ok, is_invalid_argument, ℤ,
}
use rmw_cyclonedds_c.LocalGraph.{Address, remove_node}
use rmw_cyclonedds_c.LocalGraph.Links.{self_key}
use rmw_cyclonedds_c.LocalGraph.Consistent.{IsConsistent, owners, infos}
use rmw_cyclonedds_c.LocalGraph.Nodes.Removed.Outcome.{removable, remove_node-Removed}
use rmw_cyclonedds_c.Ledger.{Resource}
use rmw_cyclonedds_c.Entities.{World}
use rmw_cyclonedds_c.Handles.{ContextHandle, NodeHandle, identifiers_match, context_impl_from_node}
use rmw_cyclonedds_c.NodeHandles.{release_node, destroy_node, owned_by_node, give_back_node}
use rmw_cyclonedds_c.NodeHandles.Outcome.{wake_graph-IsConsistent, give_back_node_lem}

-- A node goes with all that it owns, or nothing changes.
abbrev pub Released : World → Address → List Resource → Ret × World → Type 0
Released w node rest r =
    IsConsistent r.1.local
    × (is_invalid_argument r.0 ≡ not (removable w.local node))
    × (r.1.live ≡ (if removable w.local node then rest else w.live))
    × (owners r.1.local ≡ (
        if removable w.local node then without self_key node (owners w.local) else owners w.local))
    × (infos r.1.local ≡ (
        if removable w.local node
        then erase_at (w.local.heap node).graph_index (infos w.local)
        else infos w.local))

-- `rmw_destroy_node` behind its guards, given a consistent local graph, keeps it consistent. If the
-- object owns a node without endpoints, the node is gone and the handle, the object and both names are
-- given back, also where the announcement fails; the code returned is then not
-- RMW_RET_INVALID_ARGUMENT. Otherwise it is, and the ledger and the list of nodes are as before.
release_node-Released :
    (written : ℤ) (node : Address) (w : World) (rest : List Resource)
    → IsConsistent w.local
    → w.live ≡ owned_by_node rest
    → Released w node rest (release_node written node w)
unfolding release_node
release_node-Released written node w rest c h =
    let r = remove_node written w.local node in
    let removed = remove_node-Removed written w.local node c in
    let freed : give_back_node true true w.live ≡ rest =
      ap (give_back_node true true) h ∙ give_back_node_lem true true rest in
    elim (Bool-cases (removable w.local node)) [
      | inl e ↦
          let code : is_invalid_argument r.0 ≡ false = removed.3 ∙ rw e refl in
          rw (release_node, code, e)
            (
              wake_graph-IsConsistent r.1 removed.0,
              code,
              freed,
              removed.2 ∙ rw e refl,
              removed.1 ∙ rw e refl,
            )
      | inr e ↦
          let code : is_invalid_argument r.0 ≡ true = removed.3 ∙ rw e refl in
          rw (release_node, code, e)
            (removed.0, code, refl, removed.2 ∙ rw e refl, removed.1 ∙ rw e refl)
    ]

-- A handle of this implementation, with a context and an object.
abbrev pub is_own_node : NodeHandle → Bool
is_own_node n =
    identifiers_match n.implementation_identifier
    && not (context_impl_from_node (some n) == 0 || n.node_data == 0)

-- The node goes, or the handle is refused and nothing changes.
abbrev pub Destroyed : World → NodeHandle → List Resource → Ret × World → Type 0
Destroyed w n rest r =
    (is_own_node n ≡ true → Released w n.node_data rest r)
    × (is_own_node n ≡ false → (is_ok r.0 ≡ false) × (r.1 ≡ w))

-- The two tests in front of what destroys the node.
guarded :
    (w : World) (node : Address) (rest : List Resource) (ours missing : Bool) (r : Ret × World)
    → Released w node rest r
    → let t =
        if not ours
        then (incorrect_rmw_implementation, w)
        else if missing
        then (invalid_argument, w)
        else r in
      ((ours && not missing) ≡ true → Released w node rest t)
      × ((ours && not missing) ≡ false → (is_ok t.0 ≡ false) × (t.1 ≡ w))
guarded w node rest true true r done = (λ e. ground arith, λ _. (refl, refl))
guarded w node rest true false r done = (λ _. done, λ e. ground arith)
guarded w node rest false missing r done = (λ e. ground arith, λ _. (refl, refl))

-- `rmw_destroy_node`, given a consistent local graph, where the ledger holds what a node owns. A
-- handle of another implementation, or one without context or object, is refused with an error, and
-- nothing changes. Otherwise the local graph stays consistent. If the object owns a node without
-- endpoints, the node is gone and the handle, the object and both names are given back, also where
-- the announcement fails; the code returned is then not RMW_RET_INVALID_ARGUMENT. If it does not, it
-- is, and the ledger and the list of nodes are as before.
pub destroy_node-Destroyed :
    (written : ℤ) (identifier : Option CString) (context : Option ContextHandle) (node : Address)
    (w : World) (rest : List Resource)
    → IsConsistent w.local
    → w.live ≡ owned_by_node rest
    → let n : NodeHandle = record {
      implementation_identifier = identifier;
      context = context;
      node_data = node;
    } in
      Destroyed w n rest (destroy_node written (some n) w)
unfolding destroy_node identifiers_match
destroy_node-Destroyed written none context node w rest c h =
    (λ e. ground (arith, e), λ _. (refl, refl))
destroy_node-Destroyed written (some identifier) context node w rest c h =
    guarded w node rest (identifiers_match (some identifier)) _ (release_node written node w)
      (release_node-Released written node w rest c h)
