-- ===== src/LocalGraph/Endpoints/Outcome.antt =====
-- What callers of `graph_add_endpoint` and `graph_remove_endpoint` find.
pub mod Calls
use rmw_cyclonedds_c.Common.{
  ℕ, zero, suc, ◌+◌, ◌-◌, ◌≤◌, ◌<◌, ◌≡◌, refl, sym, ap, ◌∙◌, Bool, true, false, not, List, [], ◌∷◌,
  ◌++◌, map, arith, length, take, get_or, set, ltb, ◌==◌, if◌then◌else◌, if_elim, Bool-cases, inl,
  inr, set-set, set-get_or, get_or-set, length-set, take-set_le, find_index, erase_at,
  find_index-le, ◌↔◌, length-map, any, ==→eq,
}
use mathlib.Core.Path.{subst}
use rmw_cyclonedds_c.Common.Keys.{ltb-find_index, has_key}
use rmw_cyclonedds_c.Common.Table.{Table, contents, Fits, push, search, remove_at}
use rmw_cyclonedds_c.Common.Table.Contents.{
  length-contents, contents-push, push-Fits, search_lem, ltb-search-count, contents-remove_at,
  remove_at-Fits,
}
use rmw_cyclonedds_c.Rmw.{Ret, ok, error, invalid_argument, is_ok, ℤ, Guid}
use rmw_cyclonedds_c.GraphCache.{NodeInfo, max_endpoints_per_node}
use rmw_cyclonedds_c.LocalGraph.{
  Local, Slot, Address, NodeData, publish, node_is_valid, zero_slot, node_info, row_of, write_row,
  retract_row, add_endpoint, remove_endpoint,
}
use rmw_cyclonedds_c.LocalGraph.Links.{self_key}
use rmw_cyclonedds_c.LocalGraph.Consistent.{IsConsistent, owners, infos, slot_owner}
use rmw_cyclonedds_c.LocalGraph.Nodes.{publish_same, publish-IsConsistent, node_is_valid_iff}
use rmw_cyclonedds_c.LocalGraph.Endpoints.Row

-- The node's entry in the announcement.
abbrev pub info_of : Local → Address → NodeInfo
info_of l node = get_or (infos l) (l.heap node).graph_index (node_info zero_slot)

-- The announcement with other GUIDs on one side of the node.
abbrev pub with_node_gids : Local → Address → Bool → List Guid → List NodeInfo
with_node_gids l node writer gids =
    set (infos l) (l.heap node).graph_index (Row.with_gids writer gids (info_of l node))

-- The endpoint is listed last on its side, or nothing changed; no node comes, goes or moves.
abbrev pub Listed : Local → Address → Guid → Bool → Ret × Local → Type 0
Listed l node guid writer r =
    IsConsistent r.1
    × (owners r.1 ≡ owners l)
    × (infos r.1 ≡ (
        if is_ok r.0
        then with_node_gids l node writer (Row.gids_of writer (info_of l node) ++ (guid ∷ []))
        else infos l))

contents-retract_row :
    (row : Table Guid) (guid : Guid)
    → Fits max_endpoints_per_node row
    → row.count < max_endpoints_per_node
    → contents (retract_row (push row guid)) ≡ contents row
unfolding retract_row push
contents-retract_row row guid f h =
    let count : suc row.count - 1 ≡ row.count = omega arith in
    rw count (
      take-set_le row.count (set row.slots row.count guid) row.count 0 (omega arith)
      ∙ take-set_le row.count row.slots row.count guid (omega arith))

retract_row-Fits :
    (row : Table Guid) (guid : Guid)
    → Fits max_endpoints_per_node row
    → row.count < max_endpoints_per_node
    → Fits max_endpoints_per_node (retract_row (push row guid))
unfolding retract_row push
retract_row-Fits row guid f h = (
  length-set (set row.slots row.count guid) _ 0 ∙ length-set row.slots row.count guid ∙ f.0,
  omega (arith, f.1),
)

with_gids-with_gids :
    (writer : Bool) (a b : List Guid) (n : NodeInfo)
    → Row.with_gids writer a (Row.with_gids writer b n) ≡ Row.with_gids writer a n
with_gids-with_gids true a b n = refl
with_gids-with_gids false a b n = refl

with_gids-gids_of :
    (writer : Bool) (n : NodeInfo) → Row.with_gids writer (Row.gids_of writer n) n ≡ n
with_gids-gids_of true n = refl
with_gids-gids_of false n = refl

-- The same owners have the same valid nodes.
valid-same :
    (l m : Local) (node : Address)
    → IsConsistent l
    → IsConsistent m
    → owners m ≡ owners l
    → node_is_valid l node ≡ true
    → node_is_valid m node ≡ true
valid-same l m node c d e valid =
    (node_is_valid_iff m node d).1 (rw e ((node_is_valid_iff l node c).0 valid))

module _ (l : Local) (node : Address) (c : IsConsistent l) (valid : node_is_valid l node ≡ true)
    (writer : Bool) where
  row : Table Guid
  row = row_of writer (Row.slot l node c valid)

  row-Fits : Fits max_endpoints_per_node row
  unfolding row
  row-Fits = Row.row_of-Fits writer (Row.slot l node c valid) (Row.slot-SlotFits l node c valid)

  -- What the announcement lists of the row is the row's contents.
  info-eq : info_of l node ≡ node_info (Row.slot l node c valid)
  info-eq = Row.info-slot l node c valid

  gids-row : Row.gids_of writer (info_of l node) ≡ contents row
  unfolding row
  gids-row =
      ap (Row.gids_of writer) info-eq ∙ Row.gids_of-node_info writer (Row.slot l node c valid)

  -- The node with another row.
  wrote-infos :
      (r : Table Guid)
      → Fits max_endpoints_per_node r
      → infos (write_row l node writer r) ≡ with_node_gids l node writer (contents r)
  wrote-infos r f =
      Row.infos-write_row l node c valid writer r f
      ∙ ap (λ n. set (infos l) (l.heap node).graph_index (Row.with_gids writer (contents r) n))
          (sym info-eq)

module _ (l : Local) (node : Address) (c : IsConsistent l) (valid : node_is_valid l node ≡ true)
    (writer : Bool) (guid : Guid) (written : ℤ)
    (room : (row l node c valid writer).count < max_endpoints_per_node) where
  old : Table Guid
  old = row l node c valid writer

  old-Fits : Fits max_endpoints_per_node old
  unfolding old
  old-Fits = row-Fits l node c valid writer

  new : Table Guid
  new = push old guid

  new-Fits : Fits max_endpoints_per_node new
  unfolding new old
  new-Fits =
      push-Fits max_endpoints_per_node (row l node c valid writer) guid
        (row-Fits l node c valid writer) room

  entered : Local
  entered = write_row l node writer new

  entered-IsConsistent : IsConsistent entered
  unfolding entered
  entered-IsConsistent = Row.write_row-IsConsistent l node c valid writer new new-Fits

  announced : Local
  announced = (publish written entered).1

  announced-IsConsistent : IsConsistent announced
  unfolding announced
  announced-IsConsistent = publish-IsConsistent written entered entered-IsConsistent

  owners-announced : owners announced ≡ owners l
  unfolding announced entered
  owners-announced =
      ap (λ t. map slot_owner (contents t)) (publish_same written entered).0
      ∙ Row.owners-write_row l node c valid writer new new-Fits

  infos-announced :
      infos announced
      ≡ with_node_gids l node writer (Row.gids_of writer (info_of l node) ++ (guid ∷ []))
  unfolding announced entered new old
  infos-announced =
      ap (λ t. map node_info (contents t)) (publish_same written entered).0
      ∙ wrote-infos l node c valid writer new new-Fits
      ∙ ap (with_node_gids l node writer) (
          contents-push max_endpoints_per_node old guid old-Fits room
          ∙ ap (λ gids. gids ++ (guid ∷ [])) (sym (gids-row l node c valid writer)))

  same_index : (announced.heap node).graph_index ≡ (l.heap node).graph_index
  unfolding announced entered
  same_index =
      ap (λ (h : Address → NodeData). (h node).graph_index)
        ((publish_same written entered).1
          ∙ (Row.same-write_row l node c valid writer new new-Fits).0)

  valid-announced : node_is_valid announced node ≡ true
  valid-announced = valid-same l announced node c announced-IsConsistent owners-announced valid

  undone : Local
  undone = write_row announced node writer (retract_row new)

  undone-Fits : Fits max_endpoints_per_node (retract_row new)
  unfolding new old
  undone-Fits =
      retract_row-Fits (row l node c valid writer) guid (row-Fits l node c valid writer) room

  undone-IsConsistent : IsConsistent undone
  unfolding undone
  undone-IsConsistent =
      Row.write_row-IsConsistent announced node announced-IsConsistent valid-announced writer
        (retract_row new) undone-Fits

  owners-undone : owners undone ≡ owners l
  unfolding undone
  owners-undone =
      Row.owners-write_row announced node announced-IsConsistent valid-announced writer
        (retract_row new) undone-Fits
      ∙ owners-announced

  -- The entry in the announcement that was to be, at the place of the node.
  info-announced :
      info_of announced node
      ≡ Row.with_gids writer (Row.gids_of writer (info_of l node) ++ (guid ∷ [])) (info_of l node)
  info-announced =
      rw (infos-announced, same_index)
        (get_or-set (infos l) (l.heap node).graph_index _ _
          (omega (arith, Row.index-lt l node c valid, length-map node_info (contents l.nodes))))

  contents-undone : contents (retract_row new) ≡ contents (row l node c valid writer)
  unfolding new old
  contents-undone =
      contents-retract_row (row l node c valid writer) guid (row-Fits l node c valid writer) room

  infos-undone : infos undone ≡ infos l
  unfolding undone
  infos-undone =
      wrote-infos announced node announced-IsConsistent valid-announced writer (retract_row new)
        undone-Fits
      ∙ rw
          (
            info-announced,
            infos-announced,
            same_index,
            with_gids-with_gids,
            set-set (infos l) (l.heap node).graph_index,
            contents-undone,
            ← gids-row l node c valid writer,
            with_gids-gids_of,
          )
          (set-get_or (infos l) (l.heap node).graph_index (node_info zero_slot))
