-- ===== src/Entities/Graph.antt =====
-- What the end of a creation does to the local graph.
pub mod Added
pub mod Creation
use rmw_cyclonedds_c.Common.{
  ℕ, ◌<◌, ◌≡◌, refl, ap, ◌∙◌, sym, Bool, true, false, ◌&&◌, not, List, [], ◌∷◌, ◌++◌, Option, none,
  some, CString, arith, ◌==◌, if◌then◌else◌, if_elim, Bool-cases, inl, inr, length, get_or, set,
  erase_at, set-set, set-get_or, get_or-set, any, length-map,
}
use mathlib.Core.Path.{subst}
use rmw_cyclonedds_c.Common.Keys.{has_key, index_of, any-append}
use rmw_cyclonedds_c.Rmw.{Ret, error, invalid_argument, is_ok, ℤ, Guid}
use rmw_cyclonedds_c.GraphCache.{max_endpoints_per_node, NodeInfo, Cache, upsert_endpoint}
use rmw_cyclonedds_c.LocalGraph.{
  Local, Address, node_info, zero_slot, add_endpoint, remove_endpoint, node_is_valid, publish,
  write_row, retract_row, row_of,
}
use rmw_cyclonedds_c.Common.Table.{push, contents}
use rmw_cyclonedds_c.LocalGraph.Links.{self_key}
use rmw_cyclonedds_c.LocalGraph.Consistent.{IsConsistent, owners, infos}
use rmw_cyclonedds_c.LocalGraph.Nodes.{publish_same}
use rmw_cyclonedds_c.LocalGraph.Nodes.Removed.Outcome.{valid-has_key}
use rmw_cyclonedds_c.LocalGraph.Endpoints.Row
use rmw_cyclonedds_c.LocalGraph.Endpoints.Outcome.{info_of, with_node_gids, Listed}
use rmw_cyclonedds_c.LocalGraph.Endpoints.Outcome.Calls.{
  lists, Delisted, add_endpoint-Listed, remove_endpoint-Delisted,
}
use rmw_cyclonedds_c.Qos.{QosProfile}
use rmw_cyclonedds_c.Entities.{World, Answers, Endpoint, Held, register}
use rmw_cyclonedds_c.Entities.Graph.Added.{
  gids_of-with_gids, erase_added, add_endpoint-valid, add_endpoint-heap,
}

pub with_cache-IsConsistent :
    (l : Local) (cache : Cache) → IsConsistent l → IsConsistent (record l { cache = cache })
with_cache-IsConsistent l cache c = record {
  nodes_fit = c.nodes_fit;
  slots_fit = c.slots_fit;
  linked = c.linked;
  distinct = c.distinct;
}

-- The GUID that was added is found.
has_key-last : (guid : Guid) (gids : List Guid) → has_key self_key guid (gids ++ (guid ∷ [])) ≡ true
has_key-last guid [] = ground arith
has_key-last guid (g ∷ gids) = ground (arith, has_key-last guid gids)

-- The GUID is listed last on its side of the node, or the list of nodes is as before.
abbrev pub Registered : Local → Address → Guid → Bool → Option Endpoint × World → Type 0
Registered l node guid is_writer r =
    IsConsistent r.1.local
    × (owners r.1.local ≡ owners l)
    × (infos r.1.local ≡ elim r.0 [
      | none ↦ infos l
      | some e ↦
          with_node_gids l node is_writer (Row.gids_of is_writer (info_of l node) ++ (guid ∷ []))
    ])

-- Whatever becomes of the cache, taking the endpoint off the node undoes what a creation did to the
-- list of nodes, whether or not that can be announced.
abbrev pub Reversible : Local → Bool → Option Endpoint × World → Type 0
Reversible l is_writer r = elim r.0 [
  | none ↦ Unit
  | some e ↦
      (written : ℤ) (cache : Cache)
      → let l' =
          (remove_endpoint written (record r.1.local { cache = cache }) e.node e.guid
            is_writer).1 in
        IsConsistent l' × (owners l' ≡ owners l) × (infos l' ≡ infos l)
]

module _ (written written_back : ℤ) (l : Local) (node : Address) (guid : Guid) (is_writer : Bool)
    (cache : Cache) (c : IsConsistent l)
    (fresh : has_key self_key guid (Row.gids_of is_writer (info_of l node)) ≡ false)
    (added : is_ok (add_endpoint written l node guid is_writer).0 ≡ true) where
  abbrev after : Local
  after = record (add_endpoint written l node guid is_writer).1 { cache = cache }

  abbrev place : ℕ
  place = (l.heap node).graph_index

  abbrev gids : List Guid
  gids = Row.gids_of is_writer (info_of l node)

  abbrev erased_at : ℕ → List NodeInfo → List NodeInfo
  erased_at i xs =
      let n = get_or xs i (node_info zero_slot) in
      let more = Row.gids_of is_writer n in
      set xs i (Row.with_gids is_writer (erase_at (index_of self_key guid more) more) n)

  abbrev listed_at : ℕ → List NodeInfo → Bool
  listed_at i xs = has_key self_key guid (Row.gids_of is_writer (get_or xs i (node_info zero_slot)))

  valid : node_is_valid l node ≡ true
  valid = add_endpoint-valid written l node guid is_writer added

  same_place : (after.heap node).graph_index ≡ place
  same_place = ap (λ m. (m node).graph_index) (add_endpoint-heap written l node guid is_writer)

  longer : infos after ≡ with_node_gids l node is_writer (gids ++ (guid ∷ []))
  longer = (add_endpoint-Listed written l node guid is_writer c).2 ∙ rw added refl

  place-lt : place < length (infos l)
  place-lt = omega (arith, Row.index-lt l node c valid, length-map node_info (contents l.nodes))

  listed : lists after node guid is_writer ≡ true
  listed =
      let owner : has_key self_key node (owners after) ≡ true =
        ap (has_key self_key node) (add_endpoint-Listed written l node guid is_writer c).1
        ∙ sym (valid-has_key l node c)
        ∙ valid in
      let entry : listed_at (after.heap node).graph_index (infos after) ≡ true =
        ap (λ i. listed_at i (infos after)) same_place
        ∙ ap (listed_at place) longer
        ∙ ap (λ n. has_key self_key guid (Row.gids_of is_writer n))
            (get_or-set (infos l) place _ (node_info zero_slot) place-lt)
        ∙ ap (has_key self_key guid)
            (gids_of-with_gids is_writer (gids ++ (guid ∷ [])) (info_of l node))
        ∙ has_key-last guid gids in
      rw (owner, entry) refl

  -- What `graph_remove_endpoint` takes back is what `graph_add_endpoint` put there.
  taken_back :
      let r = remove_endpoint written_back after node guid is_writer in
      IsConsistent r.1 × (owners r.1 ≡ owners l) × (infos r.1 ≡ infos l)
  taken_back =
      let listing = add_endpoint-Listed written l node guid is_writer c in
      let delisted =
        remove_endpoint-Delisted written_back after node guid is_writer (
          with_cache-IsConsistent (add_endpoint written l node guid is_writer).1 cache listing.0) in
      (
        delisted.0,
        delisted.1 ∙ listing.1,
        delisted.2
            ∙ ap
                (λ b.
                  if b then erased_at (after.heap node).graph_index (infos after) else infos after)
                listed
            ∙ ap (λ i. erased_at i (infos after)) same_place
            ∙ ap (erased_at place) longer
            ∙ erase_added (infos l) place (node_info zero_slot) is_writer guid place-lt fresh,
      )

-- The end of `rmw_create_publisher` and `rmw_create_subscription`, given a consistent local graph whose
-- node does not list the new GUID yet, keeps the graph consistent and every node where it was. Where
-- it succeeds, the node lists the GUID last on its side; where the announcement or the cache fails,
-- the nodes are listed as before, whether or not taking the GUID back can be announced. What it does
-- to the nodes can be undone.
pub register-Registered :
    (is_writer : Bool) (a : Answers) (h : Held) (name type_ : CString) (qos : QosProfile)
    (node : Address) (w : World)
    → IsConsistent w.local
    → has_key self_key a.guid (Row.gids_of is_writer (info_of w.local node)) ≡ false
    → Registered w.local node a.guid is_writer (register is_writer a h name type_ qos node w)
      × Reversible w.local is_writer (register is_writer a h name type_ qos node w)
unfolding register
register-Registered is_writer a h name type_ qos node w c fresh =
    let r = add_endpoint a.written w.local node a.guid is_writer in
    let listing = add_endpoint-Listed a.written w.local node a.guid is_writer c in
    let cached =
      upsert_endpoint r.1.cache a.guid r.1.participant_guid (some name) (some type_) is_writer in
    elim (Bool-cases (is_ok r.0)) [
      | inl e ↦ elim (Bool-cases (is_ok cached.0)) [
        | inl f ↦
            rw (register, e, f)
              (
                (with_cache-IsConsistent r.1 _ listing.0, listing.1, listing.2 ∙ rw e refl),
                λ written cache.
                    taken_back a.written written w.local node a.guid is_writer cache c fresh e,
              )
        | inr f ↦
            rw (register, e, f)
              (
                taken_back a.written a.written_back w.local node a.guid is_writer cached.1 c fresh
                    e,
                tt,
              )
      ]
      | inr e ↦ rw (register, e) ((listing.0, listing.1, listing.2 ∙ rw e refl), tt)
    ]
