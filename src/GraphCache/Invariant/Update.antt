-- ===== src/GraphCache/Invariant/Update.antt =====
-- A snapshot and an endpoint that is written keep the invariant.
use rmw_cyclonedds_c.Common.{
  ℕ, suc, ◌+◌, ◌-◌, ◌≤◌, ◌<◌, ◌≡◌, sym, ap, ◌∙◌, Bool, true, false, ◌||◌, not, List, [], ◌∷◌, ◌++◌,
  map, arith, ltb, ◌==◌, length, filter, All, All-filter, All-append, some, none, inl, inr,
  Bool-cases, Option, Option-cases, CString, length-set, ltb→ge, leb→le, ==→eq,
}
use mathlib.Core.Path.{subst}
use rmw_cyclonedds_c.Common.Keys.{has_key, Distinct, any-append, put, put-Distinct, All-put}
use mathlib.Core.Option
use rmw_cyclonedds_c.Common.Table.{contents}
use rmw_cyclonedds_c.Common.Table.Contents.{contents-compact}
use rmw_cyclonedds_c.Rmw.{Guid, is_ok}
use rmw_cyclonedds_c.GraphCache.{
  Cache, CachedEndpoint, NodeInfo, Snapshot, Limit, add_participant_locked, install_nodes,
  replace_nodes, apply_snapshot, exceeded_limit, count_owned, cache_node, write_endpoint,
  upsert_endpoint, store_endpoint, find_endpoint, zero_node, max_nodes, max_endpoints, string_fits,
  string_bound,
}
use rmw_cyclonedds_c.GraphCache.Valid.{IsValid, NodeFits, EndpointFits}
use rmw_cyclonedds_c.GraphCache.Strings.{exceeded_limit_lem, string_fits_lem, accepted}
use rmw_cyclonedds_c.GraphCache.Participants.{add_participant_locked_refines}
use rmw_cyclonedds_c.GraphCache.Endpoints.{
  find_endpoint-lt, find_endpoint-le, write_endpoint_present, write_endpoint_absent,
}
use rmw_cyclonedds_c.GraphCache.Snapshots.{
  other, copy_gids-Fits, append_nodes-Fits, contents-append_nodes, kept, kept-Fits, count-kept-eq,
  nodes-add_participant_locked,
}
use rmw_cyclonedds_c.GraphCache.View
use rmw_cyclonedds_c.GraphCache.View.{
  guid_key, endpoint_key, node_admissible, all_admissible, View, seen, view,
}
use rmw_cyclonedds_c.GraphCache.Invariant.{
  signal-IsValid, report_limit-IsValid, add_participant_locked-IsValid,
}

cache_node-NodeFits :
    (g : Guid) (n : NodeInfo) → node_admissible n ≡ true → NodeFits (cache_node g n)
unfolding cache_node
cache_node-NodeFits g n h = (
  ground arith,
  ground arith,
  copy_gids-Fits n.reader_gids (ground arith),
  copy_gids-Fits n.writer_gids (ground arith),
)

cached_nodes-NodeFits :
    (g : Guid) (ns : List NodeInfo)
    → all_admissible ns ≡ true
    → All NodeFits (map (cache_node g) ns)
cached_nodes-NodeFits g [] h = tt
cached_nodes-NodeFits g (n ∷ ns) h =
    (cache_node-NodeFits g n (ground arith), cached_nodes-NodeFits g ns (ground arith))

cached_nodes-owned :
    (g : Guid) (ps : List Guid) (ns : List NodeInfo)
    → has_key guid_key g ps ≡ true
    → All (λ n. has_key guid_key n.participant_guid ps ≡ true) (map (cache_node g) ns)
unfolding cache_node
cached_nodes-owned g ps [] h = tt
cached_nodes-owned g ps (n ∷ ns) h = (h, cached_nodes-owned g ps ns h)

install_nodes-IsValid :
    (c : Cache) (s : Snapshot)
    → IsValid c
    → all_admissible s.node_infos ≡ true
    → c.nodes.count - count_owned s.gid (contents c.nodes) + length s.node_infos ≤ max_nodes
    → has_key guid_key s.gid (contents c.participants) ≡ true
    → IsValid (install_nodes c s)
unfolding install_nodes
install_nodes-IsValid c s v a room known = record {
  participants_fit = v.participants_fit;
  nodes_fit = append_nodes-Fits s.gid s.node_infos (kept c s v) (kept-Fits c s v) fits;
  endpoints_fit = v.endpoints_fit;
  node_bounds = subst (All NodeFits) (sym installed) (
      All-append NodeFits (filter (other s.gid) (contents c.nodes)) _
        (All-filter NodeFits (other s.gid) (contents c.nodes) v.node_bounds)
        (cached_nodes-NodeFits s.gid s.node_infos a));
  endpoint_bounds = v.endpoint_bounds;
  distinct_participants = v.distinct_participants;
  distinct_endpoints = v.distinct_endpoints;
  owned =
      subst (All λ n. has_key guid_key n.participant_guid (contents c.participants) ≡ true)
        (sym installed)
        (All-append _ (filter (other s.gid) (contents c.nodes)) _
          (All-filter _ (other s.gid) (contents c.nodes) v.owned)
          (cached_nodes-owned s.gid (contents c.participants) s.node_infos known));
}
  where
    fits : (kept c s v).count + length s.node_infos ≤ max_nodes
    fits = omega (arith, count-kept-eq c s v)

    installed :
        contents (install_nodes c s).nodes
        ≡ filter (other s.gid) (contents c.nodes) ++ map (cache_node s.gid) s.node_infos
    installed =
        contents-append_nodes s.gid s.node_infos (kept c s v) (kept-Fits c s v) fits
        ∙ ap (λ ns. ns ++ map (cache_node s.gid) s.node_infos)
            (contents-compact zero_node (other s.gid) max_nodes c.nodes v.nodes_fit)

View-add_participant-known :
    (w : View) (g : Guid)
    → (View.add_participant w g).0 ≡ true
    → has_key guid_key g (View.add_participant w g).1.participants ≡ true
unfolding View.add_participant
View-add_participant-known w g h = ground (arith, any-append (λ p. p == g) w.participants (g ∷ []))

-- A participant that was accepted is known.
add_participant_locked-known :
    (c : Cache) (g : Guid)
    → IsValid c
    → is_ok (add_participant_locked c g).0 ≡ true
    → has_key guid_key g (contents (add_participant_locked c g).1.participants) ≡ true
add_participant_locked-known c g v h =
    ground (arith, add_participant_locked_refines c g v, View-add_participant-known (view c) g)

replace_nodes-IsValid :
    (c : Cache) (s : Snapshot)
    → IsValid c
    → all_admissible s.node_infos ≡ true
    → IsValid (replace_nodes c s).1
unfolding replace_nodes
replace_nodes-IsValid c s v a = elim (Bool-cases (ltb max_nodes new_count)) [
  | inl full ↦ rw full (report_limit-IsValid Limit.nodes c v)
  | inr room ↦ rw room (elim (Bool-cases (is_ok (add_participant_locked c s.gid).0)) [
    | inl known ↦ rw known (
        signal-IsValid (install_nodes c' s) (
          install_nodes-IsValid c' s valid a
            (rw (nodes-add_participant_locked c s.gid).0 (ltb→ge max_nodes new_count room))
            (add_participant_locked-known c s.gid v known)))
    | inr refused ↦ rw refused valid
  ])
]
  where
    new_count : ℕ
    new_count = c.nodes.count - count_owned s.gid (contents c.nodes) + length s.node_infos

    c' : Cache
    c' = (add_participant_locked c s.gid).1

    valid : IsValid c'
    valid = add_participant_locked-IsValid c s.gid v

pub apply_snapshot-IsValid : (c : Cache) (s : Snapshot) → IsValid c → IsValid (apply_snapshot c s).1
unfolding apply_snapshot
apply_snapshot-IsValid c s v = elim (Bool-cases (ltb max_nodes (length s.node_infos))) [
  | inl long ↦ rw long (report_limit-IsValid Limit.nodes_per_snapshot c v)
  | inr short ↦ rw short (elim (Option-cases (exceeded_limit s.node_infos)) [
    | inl none_exceeded ↦ rw none_exceeded (
        replace_nodes-IsValid c s v
          (sym (exceeded_limit_lem s.node_infos) ∙ ap accepted none_exceeded))
    | inr (l, exceeded) ↦ rw exceeded (report_limit-IsValid l c v)
  ])
]

written-IsValid :
    (c : Cache) (index count : ℕ) (e : CachedEndpoint)
    → IsValid c
    → count ≤ max_endpoints
    → EndpointFits e
    → contents (write_endpoint c index count e).endpoints
      ≡ put endpoint_key e (contents c.endpoints)
    → IsValid (write_endpoint c index count e)
unfolding write_endpoint
written-IsValid c index count e v h f written = record {
  participants_fit = v.participants_fit;
  nodes_fit = v.nodes_fit;
  endpoints_fit = (length-set c.endpoints.slots index e ∙ v.endpoints_fit.0, h);
  node_bounds = v.node_bounds;
  endpoint_bounds =
      subst (All EndpointFits) (sym written)
        (All-put endpoint_key EndpointFits e (contents c.endpoints) f v.endpoint_bounds);
  distinct_participants = v.distinct_participants;
  distinct_endpoints =
      subst (Distinct endpoint_key) (sym written)
        (put-Distinct endpoint_key e (contents c.endpoints) v.distinct_endpoints);
  owned = v.owned;
}

store_endpoint-IsValid :
    (c : Cache) (e : CachedEndpoint) → IsValid c → EndpointFits e → IsValid (store_endpoint c e).1
unfolding store_endpoint
store_endpoint-IsValid c e v f = elim (Bool-cases (find_endpoint c e.guid == count)) [
  | inl new ↦ rw new (elim (Bool-cases (count == max_endpoints)) [
    | inl full ↦ rw full (report_limit-IsValid Limit.endpoints c v)
    | inr room ↦ rw room (
        signal-IsValid (write_endpoint c (find_endpoint c e.guid) (suc count) e) (
          written-IsValid c (find_endpoint c e.guid) (suc count) e v
            (count_lt count v.endpoints_fit.1 room) f
            (rw (==→eq (find_endpoint c e.guid) count new) (
              write_endpoint_absent c v e
                (sym (find_endpoint-lt c v e.guid) ∙ not_below (find_endpoint c e.guid) count new)
                (count_lt count v.endpoints_fit.1 room)))))
  ])
  | inr old ↦ rw old (
      signal-IsValid (write_endpoint c (find_endpoint c e.guid) count e) (
        written-IsValid c (find_endpoint c e.guid) count e v v.endpoints_fit.1 f (
          write_endpoint_present c v e (
            sym (find_endpoint-lt c v e.guid)
            ∙ below (find_endpoint c e.guid) count old (find_endpoint-le c v e.guid)))))
]
  where
    count : ℕ
    count = c.endpoints.count

    count_lt : (n : ℕ) → n ≤ max_endpoints → (n == max_endpoints) ≡ false → n < max_endpoints
    count_lt n h e = ground arith

    not_below : (i n : ℕ) → (i == n) ≡ true → ltb i n ≡ false
    not_below i n h = ground arith

    below : (i n : ℕ) → (i == n) ≡ false → i ≤ n → ltb i n ≡ true
    below i n h k = ground arith

pub upsert_endpoint-IsValid :
    (c : Cache) (guid participant_guid : Guid) (topic_name type_name : Option CString)
    (writer : Bool)
    → IsValid c
    → IsValid (upsert_endpoint c guid participant_guid topic_name type_name writer).1
unfolding upsert_endpoint string_fits
upsert_endpoint-IsValid c guid participant_guid topic_name type_name writer v =
    elim (Bool-cases (not (string_fits topic_name) || not (string_fits type_name))) [
      | inl long ↦ rw long (report_limit-IsValid Limit.endpoint_name c v)
      | inr fits ↦ rw fits (
          store_endpoint-IsValid c _ v
            (bound topic_name (left _ _ fits), bound type_name (right _ _ fits)))
    ]
  where
    left : (a b : Bool) → (not a || not b) ≡ false → a ≡ true
    left a b h = ground arith

    right : (a b : Bool) → (not a || not b) ≡ false → b ≡ true
    right a b h = ground arith

    bound : (s : Option CString) → string_fits s ≡ true → length (Option.get_or s []) ≤ string_bound
    bound none h = ground arith
    bound (some s) h = leb→le _ _ (sym (string_fits_lem s) ∙ h)
