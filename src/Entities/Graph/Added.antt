-- ===== src/Entities/Graph/Added.antt =====
-- A GUID that `graph_add_endpoint` has added, and what erasing it gives back.
use rmw_cyclonedds_c.Common.{
  ℕ, ◌<◌, ◌≡◌, refl, ap, ◌∙◌, sym, Bool, true, false, not, List, [], ◌∷◌, ◌++◌, arith, ◌==◌,
  if_elim, Bool-cases, inl, inr, length, get_or, set, erase_at, set-set, set-get_or, get_or-set,
}
use rmw_cyclonedds_c.Common.Keys.{has_key, index_of}
use rmw_cyclonedds_c.Rmw.{Ret, error, invalid_argument, is_ok, ℤ, Guid}
use rmw_cyclonedds_c.GraphCache.{max_endpoints_per_node, NodeInfo}
use rmw_cyclonedds_c.LocalGraph.{
  Local, Address, zero_slot, add_endpoint, node_is_valid, publish, write_row, retract_row, row_of,
}
use rmw_cyclonedds_c.Common.Table.{push}
use rmw_cyclonedds_c.LocalGraph.Links.{self_key}
use rmw_cyclonedds_c.LocalGraph.Nodes.{publish_same}
use rmw_cyclonedds_c.LocalGraph.Endpoints.Row

pub gids_of-with_gids :
    (writer : Bool) (gids : List Guid) (n : NodeInfo)
    → Row.gids_of writer (Row.with_gids writer gids n) ≡ gids
gids_of-with_gids true gids n = refl
gids_of-with_gids false gids n = refl

with_gids-with_gids :
    (writer : Bool) (gids : List Guid) (n : NodeInfo)
    → Row.with_gids writer (Row.gids_of writer n) (Row.with_gids writer gids n) ≡ n
with_gids-with_gids true gids n = refl
with_gids-with_gids false gids n = refl

erase_at-index_of_last :
    (guid : Guid) (gids : List Guid)
    → has_key self_key guid gids ≡ false
    → erase_at (index_of self_key guid (gids ++ (guid ∷ []))) (gids ++ (guid ∷ [])) ≡ gids
erase_at-index_of_last guid [] h = ground arith
erase_at-index_of_last guid (g ∷ gids) h = ground (arith, erase_at-index_of_last guid gids)

-- To erase a GUID that was just added gives back the list of nodes.
pub erase_added :
    (xs : List NodeInfo) (i : ℕ) (d : NodeInfo) (writer : Bool) (guid : Guid)
    → i < length xs
    → let gids = Row.gids_of writer (get_or xs i d) in
      let added = set xs i (Row.with_gids writer (gids ++ (guid ∷ [])) (get_or xs i d)) in
      let more = Row.gids_of writer (get_or added i d) in
      has_key self_key guid gids ≡ false
      → set added i
          (Row.with_gids writer (erase_at (index_of self_key guid more) more) (get_or added i d))
        ≡ xs
erase_added xs i d writer guid h fresh =
    let n = get_or xs i d in
    let gids = Row.gids_of writer n in
    let n' = Row.with_gids writer (gids ++ (guid ∷ [])) n in
    let there : get_or (set xs i n') i d ≡ n' = get_or-set xs i n' d h in
    let more : Row.gids_of writer n' ≡ gids ++ (guid ∷ []) =
      gids_of-with_gids writer (gids ++ (guid ∷ [])) n in
    rw
      (
        there,
        more,
        erase_at-index_of_last guid gids fresh,
        with_gids-with_gids writer (gids ++ (guid ∷ [])) n,
      )
      (set-set xs i n' n ∙ set-get_or xs i d)

add_endpoint-refused :
    (written : ℤ) (l : Local) (node : Address) (guid : Guid) (writer : Bool)
    → node_is_valid l node ≡ false
    → add_endpoint written l node guid writer ≡ (invalid_argument, l)
unfolding add_endpoint
add_endpoint-refused written l node guid writer e = rw (add_endpoint, e) refl

-- Only a valid node takes an endpoint.
pub add_endpoint-valid :
    (written : ℤ) (l : Local) (node : Address) (guid : Guid) (writer : Bool)
    → is_ok (add_endpoint written l node guid writer).0 ≡ true
    → node_is_valid l node ≡ true
add_endpoint-valid written l node guid writer h = elim (Bool-cases (node_is_valid l node)) [
  | inl e ↦ e
  | inr e ↦
      let refused : is_ok (add_endpoint written l node guid writer).0 ≡ false =
        ap (λ r. is_ok r.0) (add_endpoint-refused written l node guid writer e) in
      absurd (ground (arith, sym h ∙ refused))
]

module _ (written : ℤ) (l : Local) (node : Address) (guid : Guid) (writer : Bool) where
  abbrev pub SameHeap : Ret × Local → Type 0
  SameHeap r = r.1.heap ≡ l.heap

  pub add_endpoint-heap : SameHeap (add_endpoint written l node guid writer)
  unfolding add_endpoint write_row
  add_endpoint-heap =
      let row = row_of writer (get_or l.nodes.slots (l.heap node).graph_index zero_slot) in
      let r = publish written (write_row l node writer (push row guid)) in
      let same = publish_same written (write_row l node writer (push row guid)) in
      if_elim SameHeap (not (node_is_valid l node)) (invalid_argument, l) _ (λ _. refl)
        (λ _.
          if_elim SameHeap (row.count == max_endpoints_per_node) (error, l) _ (λ _. refl)
            (λ _.
              if_elim (λ m. m.heap ≡ l.heap) (is_ok r.0) r.1
                (write_row r.1 node writer (retract_row (push row guid))) (λ _. same.1)
                (λ _. same.1)))
