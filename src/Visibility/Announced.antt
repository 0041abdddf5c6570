-- ===== src/Visibility/Announced.antt =====
-- What a snapshot, and the announcement that `graph_publish_locked` makes of the local graph, leave
-- of a participant's nodes in a cache.
use rmw_cyclonedds_c.Common.{
  ◌≡◌, refl, sym, ap, ◌∙◌, Bool, List, [], ◌∷◌, ◌++◌, map, arith, ◌==◌, if◌then◌else◌, filter, any,
  Bool-cases, inl, inr, ==_refl,
}
use rmw_cyclonedds_c.Common.Keys.{without}
use rmw_cyclonedds_c.Rmw.{ℤ, is_ok, map_dds_result, Guid}
use rmw_cyclonedds_c.GraphCache.{
  Cache, CachedEndpoint, NodeInfo, Snapshot, apply_snapshot, endpoint_is_associated,
}
use rmw_cyclonedds_c.GraphCache.Valid.{IsValid}
use rmw_cyclonedds_c.GraphCache.View
use rmw_cyclonedds_c.GraphCache.View.{View, NodeView, view, node_of, owner_key}
use rmw_cyclonedds_c.GraphCache.Snapshots.{apply_snapshot_refines}
use rmw_cyclonedds_c.GraphCache.Invariant.Update.{apply_snapshot-IsValid}
use rmw_cyclonedds_c.GraphCache.Endpoints.{names_endpoint, endpoint_is_associated_lem}
use rmw_cyclonedds_c.Discovery.Safety.{nodes_of}
use rmw_cyclonedds_c.LocalGraph.{Local, publish, local_snapshot}
use rmw_cyclonedds_c.LocalGraph.Consistent.{infos}

-- What the cache holds of the context's own participant.
abbrev pub own_nodes : Local → List NodeView
own_nodes l = nodes_of l.participant_guid (view l.cache)

-- The cache shows the local nodes, each with its endpoints, in their order, and no other node of the
-- own participant.
abbrev pub IsShown : Local → Type 0
IsShown l = own_nodes l ≡ map (node_of l.participant_guid) (infos l)

nodes_of-installed_own :
    (g : Guid) (ns : List NodeView) (is : List NodeInfo)
    → filter (λ n. n.participant_guid == g) (without owner_key g ns ++ map (node_of g) is)
      ≡ map (node_of g) is
nodes_of-installed_own g [] [] = refl
nodes_of-installed_own g [] (i ∷ is) = ground (arith, ==_refl g, nodes_of-installed_own g [] is)
nodes_of-installed_own g (n ∷ ns) is = ground (arith, nodes_of-installed_own g ns is)

nodes_of-apply_snapshot_own :
    (v : View) (s : Snapshot)
    → nodes_of s.gid (View.apply_snapshot v s).1
      ≡ (if (View.apply_snapshot v s).0 then map (node_of s.gid) s.node_infos else nodes_of s.gid v)
unfolding View.apply_snapshot View.add_participant
nodes_of-apply_snapshot_own v s = ground (arith, nodes_of-installed_own s.gid v.nodes s.node_infos)

-- An accepted snapshot makes its nodes all that a cache holds of its participant.
nodes_of-snapshot :
    (c : Cache) (s : Snapshot)
    → IsValid c
    → nodes_of s.gid (view (apply_snapshot c s).1) ≡ (
        if is_ok (apply_snapshot c s).0
        then map (node_of s.gid) s.node_infos
        else nodes_of s.gid (view c))
nodes_of-snapshot c s v =
    let r = apply_snapshot_refines c s v in
    ap (λ p. nodes_of s.gid p.1) r
    ∙ nodes_of-apply_snapshot_own (view c) s
    ∙ ap (λ b. if b then map (node_of s.gid) s.node_infos else nodes_of s.gid (view c))
        (sym (ap (λ p. p.0) r))

-- What an announcement leaves of the own nodes: those of the local graph, or those of before.
pub publish-own_nodes :
    (written : ℤ) (l : Local)
    → IsValid l.cache
    → IsValid (publish written l).1.cache
      × (own_nodes (publish written l).1 ≡ (
          if is_ok (publish written l).0
          then map (node_of l.participant_guid) (infos l)
          else own_nodes l))
unfolding publish
publish-own_nodes written l v = elim (Bool-cases (is_ok (map_dds_result written))) [
  | inl e ↦
      rw (publish, e)
        (
          apply_snapshot-IsValid l.cache (local_snapshot l) v,
          nodes_of-snapshot l.cache (local_snapshot l) v,
        )
  | inr e ↦ rw (publish, e, e) (v, refl)
]

-- The node names the endpoint on its side.
abbrev pub lists_endpoint : CachedEndpoint → NodeInfo → Bool
lists_endpoint e n = any (λ x. x == e.guid) (if e.writer then n.writer_gids else n.reader_gids)

any-names_endpoint :
    (g : Guid) (e : CachedEndpoint) (ns : List NodeView)
    → e.participant_guid ≡ g
    → any (names_endpoint e) ns ≡ any (names_endpoint e) (filter (λ n. n.participant_guid == g) ns)
any-names_endpoint g e [] h = refl
any-names_endpoint g e (n ∷ ns) h = ground (arith, any-names_endpoint g e ns)

any-node_of :
    (g : Guid) (e : CachedEndpoint) (is : List NodeInfo)
    → e.participant_guid ≡ g
    → any (names_endpoint e) (map (node_of g) is) ≡ any (lists_endpoint e) is
any-node_of g e [] h = refl
any-node_of g e (i ∷ is) h = ground (arith, any-node_of g e is, ==_refl g)

-- Where the cache shows the local nodes, an endpoint of the own participant is associated exactly if
-- a local node lists it.
pub endpoint_is_associated-lists :
    (l : Local) (e : CachedEndpoint)
    → IsShown l
    → e.participant_guid ≡ l.participant_guid
    → endpoint_is_associated l.cache e ≡ any (lists_endpoint e) (infos l)
endpoint_is_associated-lists l e shown h =
    endpoint_is_associated_lem l.cache e
    ∙ any-names_endpoint l.participant_guid e (view l.cache).nodes h
    ∙ ap (any (names_endpoint e)) shown
    ∙ any-node_of l.participant_guid e (infos l) h
