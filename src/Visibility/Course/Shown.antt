-- ===== src/Visibility/Course/Shown.antt =====
-- What the cache of a context shows of its own nodes, whatever happened before.
use rmw_cyclonedds_c.Common.{
  ◌≡◌, refl, sym, ap, ◌∙◌, Bool, true, false, not, map, arith, ◌==◌, filter, any, Bool-cases, inl,
  inr,
}
use rmw_cyclonedds_c.Rmw.{Ret, is_ok, is_invalid_argument, Guid}
use rmw_cyclonedds_c.GraphCache.{Cache, CachedEndpoint, add_participant, endpoint_is_associated}
use rmw_cyclonedds_c.GraphCache.Valid.{IsValid}
use rmw_cyclonedds_c.GraphCache.View
use rmw_cyclonedds_c.GraphCache.View.{view, node_of, node_view}
use rmw_cyclonedds_c.Common.Table.{contents}
use rmw_cyclonedds_c.Discovery.Untouched.{
  nodes-upsert_endpoint, nodes-remove_endpoint_guid, nodes-endpoint_data_available,
}
use rmw_cyclonedds_c.GraphCache.Participants.{add_participant_refines}
use rmw_cyclonedds_c.Discovery.Safety.{
  nodes_of, graph_data_available_local, participant_data_available_local,
}
use rmw_cyclonedds_c.Discovery.Reach.{zeroed, zeroed-IsValid, Reach-IsValid, Step, Step-IsValid}
use rmw_cyclonedds_c.LocalGraph.{Local, Address, reset_node}
use rmw_cyclonedds_c.LocalGraph.Consistent.{IsConsistent, infos}
use rmw_cyclonedds_c.LocalGraph.Nodes.{IsConsistent-same}
use rmw_cyclonedds_c.LocalGraph.Nodes.Added.{add_node-Added}
use rmw_cyclonedds_c.LocalGraph.Nodes.Removed.Outcome.{removable, remove_node-Removed}
use rmw_cyclonedds_c.LocalGraph.Endpoints.Outcome.Calls.{
  add_endpoint-Listed, remove_endpoint-Delisted, lists,
}
use rmw_cyclonedds_c.Context.Opening.{InitAnswers, reset_nodes, new_implementation}
use rmw_cyclonedds_c.Context.Opening.Created.{started}
use rmw_cyclonedds_c.Context.Lifecycle.Balanced.{started-IsConsistent, started-Reach}
use rmw_cyclonedds_c.Visibility.Announced.{
  own_nodes, IsShown, lists_endpoint, endpoint_is_associated-lists,
}
use rmw_cyclonedds_c.Visibility.Calls.{
  Announces, add_node-Announces, remove_node-Announces, add_endpoint-Announces,
  remove_endpoint-Announces,
}
use rmw_cyclonedds_c.Visibility.Course.{lags_add, lags_remove, with_cache, Course}

-- The local graph is consistent, the cache valid, and unless the cache lags behind, it shows the
-- local nodes.
record Inv (l : Local) (lags : Bool) : Type 0 where
  consistent : IsConsistent l
  valid : IsValid l.cache
  shown : lags ≡ false → IsShown l

IsShown-kept :
    (l : Local) (r : Ret × Local)
    → Announces l r
    → is_ok r.0 ≡ false
    → infos r.1 ≡ infos l
    → IsShown l
    → IsShown r.1
IsShown-kept l r a failed same shown =
    a.kept failed
    ∙ shown
    ∙ ap (λ g. map (node_of g) (infos l)) (sym a.same_guid)
    ∙ ap (map (node_of r.1.participant_guid)) (sym same)

IsShown-add :
    (l : Local) (lags : Bool) (r : Ret × Local)
    → Announces l r
    → (is_ok r.0 ≡ false → infos r.1 ≡ infos l)
    → (lags ≡ false → IsShown l)
    → lags_add lags r.0 ≡ false
    → IsShown r.1
IsShown-add l lags r a same shown h = elim (Bool-cases (is_ok r.0)) [
  | inl e ↦ a.shown e
  | inr e ↦ IsShown-kept l r a e (same e) (shown (ground arith))
]

IsShown-remove :
    (l : Local) (lags : Bool) (r : Ret × Local)
    → Announces l r
    → (is_invalid_argument r.0 ≡ true → infos r.1 ≡ infos l)
    → (lags ≡ false → IsShown l)
    → lags_remove lags r.0 ≡ false
    → IsShown r.1
IsShown-remove l lags r a same shown h = elim (Bool-cases (is_ok r.0)) [
  | inl e ↦ a.shown e
  | inr e ↦ IsShown-kept l r a e (same (ground arith)) (shown (ground arith))
]

unchanged :
    (r : Ret) (b : Bool) → is_invalid_argument r ≡ not b → is_invalid_argument r ≡ true → b ≡ false
unchanged r b h e = ground arith

-- Another cache that holds the same of the own nodes.
with_cache-Inv :
    (l : Local) (lags : Bool) (c : Cache)
    → Inv l lags
    → Step l.participant_guid l.cache c
    → nodes_of l.participant_guid (view c) ≡ own_nodes l
    → Inv (with_cache l c) lags
with_cache-Inv l lags c i s same = record {
  consistent = IsConsistent-same l (with_cache l c) refl refl refl i.consistent;
  valid = Step-IsValid s i.valid;
  shown = λ h. same ∙ i.shown h;
}

nodes_of-add_participant :
    (c : Cache) (g : Guid)
    → IsValid c
    → nodes_of g (view (add_participant c g).1) ≡ nodes_of g (view c)
unfolding View.add_participant
nodes_of-add_participant c g v =
    ap (λ r. nodes_of g r.1) (add_participant_refines c g v) ∙ ground arith

started-Inv :
    (a : InitAnswers) (self : Address) → Inv (started a (new_implementation self).local) false
unfolding new_implementation reset_nodes reset_node
started-Inv a self = record {
  consistent = started-IsConsistent a self;
  valid = Reach-IsValid (started-Reach a self);
  shown =
      λ _. nodes_of-add_participant (zeroed a.graph_guard) a.guid (zeroed-IsValid a.graph_guard);
}

-- Where the nodes stay, so do the own ones.
own_nodes_lem :
    (l : Local) (c : Cache)
    → c.nodes ≡ l.cache.nodes
    → nodes_of l.participant_guid (view c) ≡ own_nodes l
own_nodes_lem l c same =
    ap (λ t. filter (λ n. n.participant_guid == l.participant_guid) (map node_view (contents t)))
      same

with_endpoints-Inv :
    (l : Local) (lags : Bool) (c : Cache)
    → Inv l lags
    → Step l.participant_guid l.cache c
    → c.nodes ≡ l.cache.nodes
    → Inv (with_cache l c) lags
with_endpoints-Inv l lags c i s same = with_cache-Inv l lags c i s (own_nodes_lem l c same)

Course-Inv : {l : Local} {lags : Bool} → Course l lags → Inv l lags
Course-Inv (Course.begins a self) = started-Inv a self
Course-Inv (Course.node_added {l} {lags} k written node name namespace_ live fresh) =
    let i = Course-Inv k in
    let a = add_node-Announces l i.valid written node name namespace_ in
    let added = add_node-Added written l node name namespace_ i.consistent live fresh in
    record {
      consistent = added.0;
      valid = a.valid;
      shown = IsShown-add l lags _ a (λ e. added.1 ∙ rw e refl) i.shown;
    }
Course-Inv (Course.node_removed {l} {lags} k written node) =
    let i = Course-Inv k in
    let a = remove_node-Announces l i.valid written node in
    let removed = remove_node-Removed written l node i.consistent in
    record {
      consistent = removed.0;
      valid = a.valid;
      shown =
          IsShown-remove l lags _ a
            (λ e. removed.1 ∙ rw (unchanged _ (removable l node) removed.3 e) refl) i.shown;
    }
Course-Inv (Course.endpoint_added {l} {lags} k written node guid writer) =
    let i = Course-Inv k in
    let a = add_endpoint-Announces l i.valid written node guid writer in
    let listed = add_endpoint-Listed written l node guid writer i.consistent in
    record {
      consistent = listed.0;
      valid = a.valid;
      shown = IsShown-add l lags _ a (λ e. listed.2 ∙ rw e refl) i.shown;
    }
Course-Inv (Course.endpoint_removed {l} {lags} k written node guid writer) =
    let i = Course-Inv k in
    let a = remove_endpoint-Announces l i.valid written node guid writer in
    let delisted = remove_endpoint-Delisted written l node guid writer i.consistent in
    record {
      consistent = delisted.0;
      valid = a.valid;
      shown =
          IsShown-remove l lags _ a
            (λ e. delisted.2 ∙ rw (unchanged _ (lists l node guid writer) delisted.3 e) refl)
            i.shown;
    }
Course-Inv (Course.graph_samples {l} {lags} k takes) =
    let i = Course-Inv k in
    with_cache-Inv l lags _ i (Step.graph_samples takes)
      (graph_data_available_local l.participant_guid l.cache takes i.valid)
Course-Inv (Course.participant_samples {l} {lags} k takes) =
    let i = Course-Inv k in
    with_cache-Inv l lags _ i (Step.participant_samples takes)
      (participant_data_available_local l.participant_guid l.cache takes i.valid)
Course-Inv (Course.endpoint_samples {l} {lags} k writer takes) =
    let i = Course-Inv k in
    with_endpoints-Inv l lags _ i (Step.endpoint_samples writer takes)
      (nodes-endpoint_data_available l.participant_guid writer l.cache takes)
Course-Inv (Course.own_endpoint {l} {lags} k guid topic type_ writer) =
    let i = Course-Inv k in
    with_endpoints-Inv l lags _ i (Step.own_endpoint guid topic type_ writer)
      (nodes-upsert_endpoint l.cache guid l.participant_guid topic type_ writer)
Course-Inv (Course.own_endpoint_gone {l} {lags} k guid) =
    let i = Course-Inv k in
    with_endpoints-Inv l lags _ i (Step.own_endpoint_gone guid)
      (nodes-remove_endpoint_guid l.cache guid)

-- In every course of calls and samples from `rmw_init` on, where each node is added with a live
-- object that owns no node yet, the local graph is consistent and the cache valid. Unless a removal
-- was made whose announcement failed, and none was accepted since, the cache shows the own
-- participant's nodes exactly as the local graph lists them, and an endpoint of the own participant
-- is associated exactly if a local node lists it.
pub Course-IsShown :
    {l : Local} {lags : Bool}
    → Course l lags
    → IsConsistent l
      × IsValid l.cache
      × (lags ≡ false
          → IsShown l
            × ((e : CachedEndpoint)
                → e.participant_guid ≡ l.participant_guid
                → endpoint_is_associated l.cache e ≡ any (lists_endpoint e) (infos l)))
Course-IsShown {l} k =
    let i = Course-Inv k in
    (
      i.consistent,
      i.valid,
      λ h. (i.shown h, λ e own. endpoint_is_associated-lists l e (i.shown h) own),
    )
