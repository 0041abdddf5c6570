-- ===== src/Discovery/Safety.antt =====
-- What no stream of discovery samples can do to the graph cache.
use rmw_cyclonedds_c.Common.{
  ◌≡◌, refl, ap, ◌∙◌, Bool, true, false, not, List, [], ◌∷◌, ◌++◌, map, ◌==◌, arith, filter,
  if_elim, Option-cases, inl, inr,
}
use rmw_cyclonedds_c.Common.Keys.{without}
use rmw_cyclonedds_c.Rmw.{Guid}
use rmw_cyclonedds_c.GraphCache.{
  Cache, Snapshot, NodeInfo, apply_snapshot, add_participant, remove_participant, upsert_endpoint,
  remove_endpoint_guid,
}
use rmw_cyclonedds_c.GraphCache.Valid.{IsValid}
use rmw_cyclonedds_c.GraphCache.View
use rmw_cyclonedds_c.GraphCache.View.{View, NodeView, view, seen, owner_key, node_of}
use rmw_cyclonedds_c.GraphCache.Participants.{add_participant_refines, remove_participant_refines}
use rmw_cyclonedds_c.GraphCache.Snapshots.{apply_snapshot_refines}
use rmw_cyclonedds_c.GraphCache.Invariant.{add_participant-IsValid}
use rmw_cyclonedds_c.GraphCache.Invariant.Removal.{
  remove_participant-IsValid, remove_endpoint_guid-IsValid,
}
use rmw_cyclonedds_c.GraphCache.Invariant.Update.{apply_snapshot-IsValid, upsert_endpoint-IsValid}
use rmw_cyclonedds_c.Discovery.{
  GraphSample, ParticipantSample, EndpointSample, EndpointInfo, graph_sample, participant_sample,
  endpoint_sample, batch, drain, graph_data_available, participant_data_available,
  endpoint_data_available,
}

not-true : (b : Bool) → not b ≡ true → b ≡ false
not-true b h = ground arith

-- What each sample keeps, the whole callback keeps.
module _ {ℓ} {A : Type 0} (body : Cache → A → Cache) (P : Cache → Type ℓ)
    (keep : (c : Cache) (s : A) → P c → P (body c s)) where
  batch_keeps : (c : Cache) (samples : List A) → P c → P (batch body c samples)
  unfolding batch
  batch_keeps c [] h = h
  batch_keeps c (s ∷ samples) h = batch_keeps (body c s) samples (keep c s h)

  pub drain_keeps : (c : Cache) (takes : List (List A)) → P c → P (drain body c takes)
  unfolding drain
  drain_keeps c [] h = h
  drain_keeps c ([] ∷ takes) h = h
  drain_keeps c ((s ∷ samples) ∷ takes) h =
      drain_keeps (batch body c (s ∷ samples)) takes (batch_keeps c (s ∷ samples) h)

-- A sample changes the cache by one of the cache's operations on another participant, or not at all.
module _ {ℓ} (P : Cache → Type ℓ) (own : Guid) (c : Cache) (h : P c) where
  graph_sample_cases :
      (s : GraphSample)
      → ((s.snapshot.gid == own) ≡ false → P (apply_snapshot c s.snapshot).1)
      → P (graph_sample own c s)
  unfolding graph_sample
  graph_sample_cases s applied =
      if_elim P s.valid_data _ c
        (λ _. if_elim P (not (s.snapshot.gid == own)) _ c (λ e. applied (not-true _ e)) (λ _. h))
        (λ _. h)

  participant_sample_cases :
      (s : ParticipantSample)
      → ((g : Guid) → (g == own) ≡ false → P (add_participant c g).1)
      → ((g : Guid) → (g == own) ≡ false → P (remove_participant c g))
      → P (participant_sample own c s)
  unfolding participant_sample
  participant_sample_cases s added removed = elim (Option-cases s.key) [
    | inl e ↦ rw e h
    | inr (g, e) ↦ rw e (
        if_elim P (g == own) c _ (λ _. h)
          (λ ne.
            if_elim P s.info.valid_data _ _ (λ _. added g ne)
              (λ _. if_elim P (not s.info.is_alive) _ c (λ _. removed g ne) (λ _. h))))
  ]

  pub endpoint_sample_cases :
      (writer : Bool) (s : EndpointSample)
      → ((e : EndpointInfo)
          → P (upsert_endpoint c e.key e.participant_key e.topic_name e.type_name writer).1)
      → ((g : Guid) → P (remove_endpoint_guid c g))
      → P (endpoint_sample writer own c s)
  unfolding endpoint_sample
  endpoint_sample_cases writer s upserted removed = elim (Option-cases s.sample) [
    | inl e ↦ rw e h
    | inr (x, e) ↦ rw e (
        if_elim P (x.participant_key == own) c _ (λ _. h)
          (λ _.
            if_elim P s.info.valid_data _ _ (λ _. upserted x)
              (λ _. if_elim P (not s.info.is_alive) _ c (λ _. removed x.key) (λ _. h))))
  ]

-- Whatever samples arrive, and however many, `graph_data_available` keeps the cache valid.
pub graph_data_available-IsValid :
    (own : Guid) (c : Cache) (takes : List (List GraphSample))
    → IsValid c
    → IsValid (graph_data_available own c takes)
unfolding graph_data_available
graph_data_available-IsValid own =
    drain_keeps (graph_sample own) IsValid
      (λ c s v. graph_sample_cases IsValid own c v s (λ _. apply_snapshot-IsValid c s.snapshot v))

pub participant_data_available-IsValid :
    (own : Guid) (c : Cache) (takes : List (List ParticipantSample))
    → IsValid c
    → IsValid (participant_data_available own c takes)
unfolding participant_data_available
participant_data_available-IsValid own = drain_keeps (participant_sample own) IsValid (λ c s v.
    participant_sample_cases IsValid own c v s (λ g _. add_participant-IsValid c g v)
      (λ g _. remove_participant-IsValid c g v))

pub endpoint_data_available-IsValid :
    (own : Guid) (writer : Bool) (c : Cache) (takes : List (List EndpointSample))
    → IsValid c
    → IsValid (endpoint_data_available own writer c takes)
unfolding endpoint_data_available
endpoint_data_available-IsValid own writer =
    drain_keeps (endpoint_sample writer own) IsValid (λ c s v.
      endpoint_sample_cases IsValid own c v writer s
        (λ e. upsert_endpoint-IsValid c e.key e.participant_key e.topic_name e.type_name writer v)
        (λ g. remove_endpoint_guid-IsValid c g v))

-- The nodes of one participant.
abbrev pub nodes_of : Guid → View → List NodeView
nodes_of g v = filter (λ n. n.participant_guid == g) v.nodes

nodes_of-without :
    (g h : Guid) (ns : List NodeView)
    → (h == g) ≡ false
    → filter (λ n. n.participant_guid == g) (without owner_key h ns)
      ≡ filter (λ n. n.participant_guid == g) ns
nodes_of-without g h [] ne = refl
nodes_of-without g h (n ∷ ns) ne = ground (arith, nodes_of-without g h ns ne)

nodes_of-installed :
    (g h : Guid) (kept : List NodeView) (infos : List NodeInfo)
    → (h == g) ≡ false
    → filter (λ n. n.participant_guid == g) (kept ++ map (node_of h) infos)
      ≡ filter (λ n. n.participant_guid == g) kept
nodes_of-installed g h [] [] ne = refl
nodes_of-installed g h [] (i ∷ is) ne = ground (arith, nodes_of-installed g h [] is ne)
nodes_of-installed g h (n ∷ kept) infos ne = ground (arith, nodes_of-installed g h kept infos ne)

nodes_of-apply_snapshot :
    (g : Guid) (v : View) (s : Snapshot)
    → (s.gid == g) ≡ false
    → nodes_of g (View.apply_snapshot v s).1 ≡ nodes_of g v
unfolding View.apply_snapshot View.add_participant
nodes_of-apply_snapshot g v s ne = ground (
  arith,
  nodes_of-installed g s.gid (without owner_key s.gid v.nodes) s.node_infos ne,
  nodes_of-without g s.gid v.nodes ne,
)

-- A valid cache with the given nodes of one participant.
Keeps : Guid → List NodeView → Cache → Type 0
Keeps g ns c = IsValid c × (nodes_of g (view c) ≡ ns)

graph_sample-Keeps :
    (own : Guid) (ns : List NodeView) (c : Cache) (s : GraphSample)
    → Keeps own ns c
    → Keeps own ns (graph_sample own c s)
unfolding Keeps
graph_sample-Keeps own ns c s k = graph_sample_cases (Keeps own ns) own c k s (λ ne. (
  apply_snapshot-IsValid c s.snapshot k.0,
  ap (λ r. nodes_of own r.1) (apply_snapshot_refines c s.snapshot k.0)
      ∙ nodes_of-apply_snapshot own (view c) s.snapshot ne
      ∙ k.1,
))

-- No stream of graph samples changes what a valid cache holds of the local participant's nodes:
-- neither a sample that carries the local GUID nor one of another participant.
pub graph_data_available_local :
    (own : Guid) (c : Cache) (takes : List (List GraphSample))
    → IsValid c
    → nodes_of own (view (graph_data_available own c takes)) ≡ nodes_of own (view c)
unfolding graph_data_available Keeps
graph_data_available_local own c takes v =
    (drain_keeps (graph_sample own) (Keeps own (nodes_of own (view c)))
      (λ d s. graph_sample-Keeps own (nodes_of own (view c)) d s) c takes (v, refl)).1

participant_sample-Keeps :
    (own : Guid) (ns : List NodeView) (c : Cache) (s : ParticipantSample)
    → Keeps own ns c
    → Keeps own ns (participant_sample own c s)
unfolding Keeps View.add_participant View.remove_participant
participant_sample-Keeps own ns c s k =
    participant_sample_cases (Keeps own ns) own c k s
      (λ g ne. (add_participant-IsValid c g k.0, ground (arith, add_participant_refines c g k.0)))
      (λ g ne. (
        remove_participant-IsValid c g k.0,
        ap (nodes_of own) (remove_participant_refines c g k.0)
            ∙ nodes_of-without own g (view c).nodes ne
            ∙ k.1,
      ))

-- No stream of participant samples changes what a valid cache holds of the local participant's
-- nodes: not even one that reports the local participant as gone.
pub participant_data_available_local :
    (own : Guid) (c : Cache) (takes : List (List ParticipantSample))
    → IsValid c
    → nodes_of own (view (participant_data_available own c takes)) ≡ nodes_of own (view c)
unfolding participant_data_available Keeps
participant_data_available_local own c takes v =
    (drain_keeps (participant_sample own) (Keeps own (nodes_of own (view c)))
      (λ d s. participant_sample-Keeps own (nodes_of own (view c)) d s) c takes (v, refl)).1
