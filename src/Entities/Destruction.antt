-- ===== src/Entities/Destruction.antt =====
-- A publisher or a subscription of rmw_cyclonedds_c/src/rmw_cyclonedds_c.c from its creation to its
-- destruction.
use rmw_cyclonedds_c.Common.{◌≡◌, refl, Bool, true, false, Option, some, ◌==◌}
use mathlib.Core.Path.{subst}
use rmw_cyclonedds_c.Rmw.{Ret, ok, is_positive, map_dds_result}
use rmw_cyclonedds_c.Handles.{NodeHandle, context_impl_from_node}
use rmw_cyclonedds_c.GraphCache.{remove_endpoint_guid}
use rmw_cyclonedds_c.LocalGraph.{Local}
use rmw_cyclonedds_c.LocalGraph.Consistent.{IsConsistent, owners, infos}
use rmw_cyclonedds_c.Entities.{
  World, Answers, Request, Endpoint, node_data_of, create_publisher, create_subscription,
}
use rmw_cyclonedds_c.Entities.Destructors.{
  Deletions, destroy_endpoint, destroy_publisher, destroy_subscription,
}
use rmw_cyclonedds_c.Entities.Ledger.{Balanced-some, owned}
use rmw_cyclonedds_c.Entities.Ledger.Creation.{
  create_publisher-Balanced, create_subscription-Balanced,
}
use rmw_cyclonedds_c.Entities.Ledger.Destruction.{
  leftovers, destroy_publisher-live, destroy_subscription-live,
}
use rmw_cyclonedds_c.Entities.Graph.{with_cache-IsConsistent, Reversible}
use rmw_cyclonedds_c.Entities.Graph.Creation.{
  Fresh, create_publisher-Outcome, create_subscription-Outcome,
}

-- The list of nodes is that of `w`, and of what was taken since only the entities are left that DDS
-- did not delete.
abbrev pub Undone : Bool → World → Deletions → World → Type 0
Undone is_writer w d w' =
    IsConsistent w'.local
    × (owners w'.local ≡ owners w.local)
    × (infos w'.local ≡ infos w.local)
    × (w'.live ≡ leftovers is_writer d w.live)

-- The part of it that is about the local graph.
abbrev Unlisted : Local → Local → Type 0
Unlisted l l' = IsConsistent l' × (owners l' ≡ owners l) × (infos l' ≡ infos l)

reversed :
    (l : Local) (is_writer : Bool) (r : Option Endpoint × World) (e : Endpoint)
    → r.0 ≡ some e
    → Reversible l is_writer r
    → Reversible l is_writer (some e, r.1)
reversed l is_writer r e h = subst (λ o. Reversible l is_writer (o, r.1)) h

destroy_endpoint-Unlisted :
    (is_writer : Bool) (result : Ret) (d : Deletions) (l : Local) (e : Endpoint) (w : World)
    → Reversible l is_writer (some e, w)
    → Unlisted l (destroy_endpoint is_writer result d e w).1.local
unfolding destroy_endpoint
destroy_endpoint-Unlisted is_writer result d l e w reversible =
    let undone = reversible d.written (remove_endpoint_guid w.local.cache e.guid) in
    (with_cache-IsConsistent _ _ undone.0, undone.1, undone.2)

module _ (d : Deletions) (n : Option NodeHandle) (e : Endpoint) (w : World)
    (ours : (context_impl_from_node n == 0) ≡ false) where
  destroy_publisher-eq : destroy_endpoint true ok d e w ≡ destroy_publisher d n (some e) w
  unfolding destroy_publisher
  destroy_publisher-eq = rw ours refl

  destroy_subscription-eq :
      destroy_endpoint false (map_dds_result d.condition) d e w
      ≡ destroy_subscription d n (some e) w
  unfolding destroy_subscription
  destroy_subscription-eq = rw ours refl

-- `rmw_destroy_publisher` on what `rmw_create_publisher` has made, where the local graph was
-- consistent and its node did not list the writer's GUID, and where the DDS entities are live: the
-- nodes are listed as before the creation, each with the endpoints that it had, and the ledger is
-- that of before. This holds whether or not the announcement can be made, and whatever DDS deletes;
-- only a writer or a topic that it fails to delete stays in the ledger.
pub destroy_publisher-create_publisher :
    (a : Answers) (r : Request) (w : World) (d : Deletions) (n : Option NodeHandle) (e : Endpoint)
    → IsConsistent w.local
    → Fresh w (node_data_of r.node) a true
    → (create_publisher a r w).0 ≡ some e
    → is_positive e.entity ≡ true
    → is_positive e.topic ≡ true
    → (context_impl_from_node n == 0) ≡ false
    → Undone true w d (destroy_publisher d n (some e) (create_publisher a r w).1).1
destroy_publisher-create_publisher a r w d n e c fresh made live_entity live_topic ours =
    let created = create_publisher a r w in
    let graph =
      subst (λ p. Unlisted w.local p.1.local) (destroy_publisher-eq d n e created.1 ours)
        (destroy_endpoint-Unlisted true ok d w.local e created.1
          (reversed w.local true created e made (create_publisher-Outcome a r w c fresh).1)) in
    let owned_by : created.1.live ≡ owned true e w.live =
      Balanced-some true a w.live created e (create_publisher-Balanced a r w) made in
    (
      graph.0,
      graph.1,
      graph.2,
      destroy_publisher-live d n e created.1 w.live ours live_entity live_topic owned_by,
    )

-- `rmw_destroy_subscription` on what `rmw_create_subscription` has made, where the local graph was
-- consistent and its node did not list the reader's GUID, and where the DDS entities are live: the
-- nodes are listed as before the creation, each with the endpoints that it had, and the ledger is
-- that of before. This holds whether or not the announcement can be made, and whatever DDS deletes;
-- only a reader or a topic that it fails to delete stays in the ledger.
pub destroy_subscription-create_subscription :
    (a : Answers) (r : Request) (w : World) (d : Deletions) (n : Option NodeHandle) (e : Endpoint)
    → IsConsistent w.local
    → Fresh w (node_data_of r.node) a false
    → (create_subscription a r w).0 ≡ some e
    → is_positive e.entity ≡ true
    → is_positive e.topic ≡ true
    → (context_impl_from_node n == 0) ≡ false
    → Undone false w d (destroy_subscription d n (some e) (create_subscription a r w).1).1
destroy_subscription-create_subscription a r w d n e c fresh made live_entity live_topic ours =
    let created = create_subscription a r w in
    let graph =
      subst (λ p. Unlisted w.local p.1.local) (destroy_subscription-eq d n e created.1 ours)
        (destroy_endpoint-Unlisted false (map_dds_result d.condition) d w.local e created.1
          (reversed w.local false created e made (create_subscription-Outcome a r w c fresh).1)) in
    let owned_by : created.1.live ≡ owned false e w.live =
      Balanced-some false a w.live created e (create_subscription-Balanced a r w) made in
    (
      graph.0,
      graph.1,
      graph.2,
      destroy_subscription-live d n e created.1 w.live ours live_entity live_topic owned_by,
    )
