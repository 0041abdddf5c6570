-- ===== src/LocalGraph/Endpoints/Row.antt =====
-- One row of one node of the local graph is written.
use rmw_cyclonedds_c.Common.{
  ℕ, ◌≡◌, refl, sym, ap, ◌∙◌, Bool, true, false, List, map, arith, length, get_or, set, All-set,
  All-get_or, length-set, set-take, map-set, set-get_or, get_or-map, get_or-take, ◌<◌,
}
use mathlib.Core.Path.{subst}
use rmw_cyclonedds_c.Common.Table.{Table, contents, Fits}
use rmw_cyclonedds_c.Common.Table.Contents.{length-contents}
use rmw_cyclonedds_c.Rmw.{Guid}
use rmw_cyclonedds_c.GraphCache.{NodeInfo, max_endpoints_per_node}
use rmw_cyclonedds_c.LocalGraph.{
  Local, Slot, Address, node_is_valid, zero_slot, max_local_nodes, node_info, row_of, set_row,
  write_row,
}
use rmw_cyclonedds_c.LocalGraph.Consistent.{IsConsistent, SlotFits, owners, infos, slot_owner}
use rmw_cyclonedds_c.LocalGraph.Nodes.{valid_owner}

-- The GUIDs of a node on one side, and the node with others there.
abbrev pub gids_of : Bool → NodeInfo → List Guid
gids_of true n = n.writer_gids
gids_of false n = n.reader_gids

abbrev pub with_gids : Bool → List Guid → NodeInfo → NodeInfo
with_gids true gids n = record n { writer_gids = gids }
with_gids false gids n = record n { reader_gids = gids }

node_info-set_row :
    (writer : Bool) (row : Table Guid) (s : Slot)
    → node_info (set_row writer row s) ≡ with_gids writer (contents row) (node_info s)
unfolding set_row
node_info-set_row true row s = refl
node_info-set_row false row s = refl

owner-set_row :
    (writer : Bool) (row : Table Guid) (s : Slot) → (set_row writer row s).owner ≡ s.owner
unfolding set_row
owner-set_row true row s = refl
owner-set_row false row s = refl

set_row-SlotFits :
    (writer : Bool) (row : Table Guid) (s : Slot)
    → Fits max_endpoints_per_node row
    → SlotFits s
    → SlotFits (set_row writer row s)
unfolding set_row
set_row-SlotFits true row s f h = (h.0, h.1, h.2, f)
set_row-SlotFits false row s f h = (h.0, h.1, f, h.3)

pub gids_of-node_info :
    (writer : Bool) (s : Slot) → gids_of writer (node_info s) ≡ contents (row_of writer s)
gids_of-node_info true s = refl
gids_of-node_info false s = refl

pub row_of-Fits :
    (writer : Bool) (s : Slot) → SlotFits s → Fits max_endpoints_per_node (row_of writer s)
row_of-Fits true s f = f.3
row_of-Fits false s f = f.2

module _ (l : Local) (node : Address) (c : IsConsistent l)
    (valid : node_is_valid l node ≡ true) where
  abbrev pub index : ℕ
  index = (l.heap node).graph_index

  abbrev pub slot : Slot
  slot = get_or l.nodes.slots index zero_slot

  slot-eq : get_or (contents l.nodes) index zero_slot ≡ slot
  slot-eq = get_or-take l.nodes.count l.nodes.slots index zero_slot (valid_owner l node valid).0

  pub index-lt : index < length (contents l.nodes)
  index-lt =
      omega
        (arith, (valid_owner l node valid).0, length-contents max_local_nodes l.nodes c.nodes_fit)

  pub slot-SlotFits : SlotFits slot
  slot-SlotFits =
      subst SlotFits slot-eq
        (All-get_or SlotFits (contents l.nodes) index zero_slot c.slots_fit index-lt)

  pub info-slot : get_or (infos l) index (node_info zero_slot) ≡ node_info slot
  info-slot = get_or-map node_info (contents l.nodes) index zero_slot ∙ ap node_info slot-eq

  module _ (writer : Bool) (row : Table Guid) (f : Fits max_endpoints_per_node row) where
    contents-write_row :
        contents (write_row l node writer row).nodes
        ≡ set (contents l.nodes) index (set_row writer row slot)
    unfolding write_row
    contents-write_row = set-take l.nodes.count l.nodes.slots index (set_row writer row slot)

    pub owners-write_row : owners (write_row l node writer row) ≡ owners l
    owners-write_row =
        ap (map slot_owner) contents-write_row
        ∙ map-set slot_owner (contents l.nodes) index (set_row writer row slot)
        ∙ ap (set (owners l) index) (
            owner-set_row writer row slot
            ∙ ap slot_owner (sym slot-eq)
            ∙ sym (get_or-map slot_owner (contents l.nodes) index zero_slot))
        ∙ set-get_or (owners l) index 0

    pub infos-write_row :
        infos (write_row l node writer row)
        ≡ set (infos l) index (with_gids writer (contents row) (node_info slot))
    infos-write_row =
        ap (map node_info) contents-write_row
        ∙ map-set node_info (contents l.nodes) index (set_row writer row slot)
        ∙ ap (set (infos l) index) (node_info-set_row writer row slot)

    sizes-write_row : Fits max_local_nodes (write_row l node writer row).nodes
    unfolding write_row
    sizes-write_row = (length-set l.nodes.slots index _ ∙ c.nodes_fit.0, c.nodes_fit.1)

    pub same-write_row :
        ((write_row l node writer row).heap ≡ l.heap)
        × ((write_row l node writer row).self ≡ l.self)
    unfolding write_row
    same-write_row = (refl, refl)

    pub write_row-IsConsistent : IsConsistent (write_row l node writer row)
    write_row-IsConsistent = record {
      nodes_fit = sizes-write_row;
      slots_fit = rw contents-write_row (
          All-set SlotFits (contents l.nodes) index (set_row writer row slot)
            (set_row-SlotFits writer row slot f slot-SlotFits) c.slots_fit);
      linked = rw (owners-write_row, same-write_row.0, same-write_row.1) c.linked;
      distinct = rw owners-write_row c.distinct;
    }
