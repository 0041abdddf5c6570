-- ===== src/LocalGraph/Endpoints/Outcome/Calls.antt =====
-- The whole calls of `graph_add_endpoint` and `graph_remove_endpoint`.
use rmw_cyclonedds_c.Common.{
  ℕ, ◌≤◌, ◌<◌, ◌≡◌, refl, sym, ap, ◌∙◌, Bool, true, false, not, ◌&&◌, map, arith, ltb, ◌==◌,
  if◌then◌else◌, if_elim, Bool-cases, inl, inr, erase_at, find_index-le,
}
use rmw_cyclonedds_c.Common.Keys.{has_key, index_of}
use rmw_cyclonedds_c.Common.Table.{contents, push, search, remove_at}
use rmw_cyclonedds_c.Common.Table.Contents.{
  length-contents, search_lem, ltb-search-count, contents-remove_at, remove_at-Fits,
}
use rmw_cyclonedds_c.Rmw.{is_invalid_argument, Ret, error, invalid_argument, is_ok, ℤ, Guid}
use rmw_cyclonedds_c.GraphCache.{max_endpoints_per_node}
use rmw_cyclonedds_c.LocalGraph.{
  Local, Address, publish, node_is_valid, node_info, write_row, retract_row, add_endpoint,
  remove_endpoint,
}
use rmw_cyclonedds_c.LocalGraph.Links.{self_key}
use rmw_cyclonedds_c.LocalGraph.Consistent.{IsConsistent, owners, infos, slot_owner}
use rmw_cyclonedds_c.LocalGraph.Nodes.{publish-code, publish_same, publish-IsConsistent}
use rmw_cyclonedds_c.LocalGraph.Nodes.Removed.Outcome.{valid-has_key}
use rmw_cyclonedds_c.LocalGraph.Endpoints.Row
use rmw_cyclonedds_c.LocalGraph.Endpoints.Outcome.{
  info_of, with_node_gids, Listed, row, row-Fits, gids-row, wrote-infos, old, new, entered,
  announced, undone, announced-IsConsistent, owners-announced, infos-announced, undone-IsConsistent,
  owners-undone, infos-undone,
}

announced-Listed :
    (written : ℤ) (l : Local) (node : Address) (guid : Guid) (writer : Bool) (c : IsConsistent l)
    (valid : node_is_valid l node ≡ true)
    → (row l node c valid writer).count < max_endpoints_per_node
    → Listed l node guid writer (
        let r = push (row l node c valid writer) guid in
        let (result, m) = publish written (write_row l node writer r) in
        (result, if is_ok result then m else write_row m node writer (retract_row r)))
unfolding announced undone entered new old
announced-Listed written l node guid writer c valid room =
    elim (Bool-cases (
      is_ok
        (publish written (write_row l node writer (push (row l node c valid writer) guid))).0)) [
          | inl done ↦ rw done (
            announced-IsConsistent l node c valid writer guid written room,
            owners-announced l node c valid writer guid written room,
            infos-announced l node c valid writer guid written room,
          )
          | inr failed ↦ rw failed (
            undone-IsConsistent l node c valid writer guid written room,
            owners-undone l node c valid writer guid written room,
            infos-undone l node c valid writer guid written room,
          )
        ]

not-false : (b : Bool) → not b ≡ false → b ≡ true
not-false b h = ground arith

-- `graph_add_endpoint`, given a consistent local graph, keeps it consistent and leaves every node
-- where it was. If it returns OK, the GUID stands last on its side of the node; if it returns
-- anything else, the nodes are listed as before, also where the announcement failed.
pub add_endpoint-Listed :
    (written : ℤ) (l : Local) (node : Address) (guid : Guid) (writer : Bool)
    → IsConsistent l
    → Listed l node guid writer (add_endpoint written l node guid writer)
unfolding add_endpoint row
add_endpoint-Listed written l node guid writer c =
    if_elim (Listed l node guid writer) (not (node_is_valid l node)) (invalid_argument, l) _
      (λ _. (c, refl, refl))
      (λ e.
        let valid = not-false (node_is_valid l node) e in
        if_elim (Listed l node guid writer) _ (error, l) _ (λ _. (c, refl, refl))
          (λ room.
            announced-Listed written l node guid writer c valid
              (count_lt _ (row-Fits l node c valid writer).1 room)))
  where
    count_lt :
        (n : ℕ)
        → n ≤ max_endpoints_per_node
        → (n == max_endpoints_per_node) ≡ false
        → n < max_endpoints_per_node
    count_lt n h e = ground arith

-- The object owns a node that lists the GUID on that side.
abbrev pub lists : Local → Address → Guid → Bool → Bool
lists l node guid writer =
    has_key self_key node (owners l) && has_key self_key guid (Row.gids_of writer (info_of l node))

abbrev pub Delisted : Local → Address → Guid → Bool → Ret × Local → Type 0
Delisted l node guid writer r =
    let gids = Row.gids_of writer (info_of l node) in
    IsConsistent r.1
    × (owners r.1 ≡ owners l)
    × (infos r.1 ≡ (
        if lists l node guid writer
        then with_node_gids l node writer (erase_at (index_of self_key guid gids) gids)
        else infos l))
    × (is_invalid_argument r.0 ≡ not (lists l node guid writer))
    × (r.1 ≡ (if lists l node guid writer then r.1 else l))

module _ (written : ℤ) (l : Local) (node : Address) (guid : Guid) (writer : Bool)
    (c : IsConsistent l) (valid : node_is_valid l node ≡ true) where
  place : ℕ
  place = search 0 (λ g. g == guid) (row l node c valid writer)

  place-lt :
      ltb place (row l node c valid writer).count
      ≡ has_key self_key guid (Row.gids_of writer (info_of l node))
  unfolding place
  place-lt =
      ltb-search-count 0 max_endpoints_per_node (λ g. g == guid) (row l node c valid writer)
        (row-Fits l node c valid writer)
      ∙ ap (has_key self_key guid) (sym (gids-row l node c valid writer))

  place-eq : place ≡ index_of self_key guid (contents (row l node c valid writer))
  unfolding place
  place-eq =
      search_lem 0 max_endpoints_per_node (λ g. g == guid) (row l node c valid writer)
        (row-Fits l node c valid writer)

  place-le : place ≤ (row l node c valid writer).count
  place-le = omega (
    arith,
    place-eq,
    find_index-le (λ g. self_key g == guid) (contents (row l node c valid writer)),
    length-contents max_endpoints_per_node (row l node c valid writer)
        (row-Fits l node c valid writer),
  )

  lists-eq : lists l node guid writer ≡ ltb place (row l node c valid writer).count
  lists-eq = rw (place-lt, ← valid-has_key l node c, valid)

  taken_out :
      place < (row l node c valid writer).count
      → lists l node guid writer ≡ true
      → Delisted l node guid writer (
          publish written (write_row l node writer (remove_at 0 place (row l node c valid writer))))
  taken_out h e =
      let r = remove_at 0 place (row l node c valid writer) in
      let fits =
        remove_at-Fits 0 max_endpoints_per_node place (row l node c valid writer)
          (row-Fits l node c valid writer) in
      let same = publish_same written (write_row l node writer r) in
      (
        publish-IsConsistent written (write_row l node writer r)
            (Row.write_row-IsConsistent l node c valid writer r fits),
        ap (λ t. map slot_owner (contents t)) same.0
            ∙ Row.owners-write_row l node c valid writer r fits,
        ap (λ t. map node_info (contents t)) same.0
            ∙ wrote-infos l node c valid writer r fits
            ∙ ap (with_node_gids l node writer) (
                contents-remove_at 0 max_endpoints_per_node place (row l node c valid writer)
                  (row-Fits l node c valid writer) h
                ∙ ap (λ i. erase_at i (contents (row l node c valid writer))) place-eq
                ∙ ap (λ gids. erase_at (index_of self_key guid gids) gids)
                    (sym (gids-row l node c valid writer)))
            ∙ rw e,
        publish-code written (write_row l node writer r) ∙ rw e refl,
        rw e refl,
      )

-- `graph_remove_endpoint`, given a consistent local graph, keeps it consistent and leaves every node
-- where it was. If the object owns a node that lists the GUID on that side, its first entry goes,
-- whether or not the announcement succeeds. Otherwise, and only then, the call returns
-- RMW_RET_INVALID_ARGUMENT, and nothing of the local graph changes, the cache, the objects and the
-- announced samples included.
pub remove_endpoint-Delisted :
    (written : ℤ) (l : Local) (node : Address) (guid : Guid) (writer : Bool)
    → IsConsistent l
    → Delisted l node guid writer (remove_endpoint written l node guid writer)
unfolding remove_endpoint row place
remove_endpoint-Delisted written l node guid writer c =
    if_elim (Delisted l node guid writer) (not (node_is_valid l node)) (invalid_argument, l) _
      (λ e. unchanged (ground (arith, valid-has_key l node c)))
      (λ e.
        let valid = not-false (node_is_valid l node) e in
        let below = place-le written l node guid writer c valid in
        if_elim (Delisted l node guid writer) _ (invalid_argument, l) _
          (λ absent. unchanged (lists-eq written l node guid writer c valid ∙ ground arith))
          (λ present.
            taken_out written l node guid writer c valid (ground arith)
              (lists-eq written l node guid writer c valid ∙ ground arith)))
  where
    unchanged : lists l node guid writer ≡ false → Delisted l node guid writer (invalid_argument, l)
    unchanged e = (c, refl, rw e, rw e refl, rw e refl)
