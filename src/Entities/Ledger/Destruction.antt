-- ===== src/Entities/Ledger/Destruction.antt =====
-- The ledger through `rmw_destroy_publisher` and `rmw_destroy_subscription`.
use rmw_cyclonedds_c.Common.{
  ◌≡◌, refl, ap, ◌∙◌, Bool, true, false, not, List, ◌∷◌, Option, some, ◌==◌,
}
use rmw_cyclonedds_c.Rmw.{Ret, ok, is_ok, is_positive, map_dds_result}
use rmw_cyclonedds_c.Handles.{NodeHandle, context_impl_from_node}
use rmw_cyclonedds_c.Ledger.{Resource, take_up_if, give_back_if}
use rmw_cyclonedds_c.Entities.{World, Endpoint, entity_of}
use rmw_cyclonedds_c.Entities.Destructors.{
  Deletions, give_back_memory, destroy_endpoint, destroy_publisher, destroy_subscription,
}
use rmw_cyclonedds_c.Entities.Ledger.{owned}

-- What a publisher or a subscription owns where both its DDS entities are live.
abbrev all_owned : Bool → List Resource → List Resource
all_owned is_writer rest =
    entity_of is_writer
    ∷ Resource.topic
    ∷ Resource.dds_sample
    ∷ Resource.endpoint
    ∷ Resource.topic_name
    ∷ Resource.handle
    ∷ rest

owned_lem :
    (is_writer : Bool) (e : Endpoint) (rest : List Resource)
    → is_positive e.entity ≡ true
    → is_positive e.topic ≡ true
    → owned is_writer e rest ≡ all_owned is_writer rest
owned_lem is_writer e rest p q = rw (p, q) refl

released :
    (is_writer x y : Bool) (rest : List Resource)
    → give_back_memory (
        give_back_if y Resource.topic
          (give_back_if x (entity_of is_writer) (all_owned is_writer rest)))
      ≡ take_up_if (not x) (entity_of is_writer) (take_up_if (not y) Resource.topic rest)
unfolding give_back_memory give_back_if
released true true true rest = refl
released true true false rest = refl
released true false true rest = refl
released true false false rest = refl
released false true true rest = refl
released false true false rest = refl
released false false true rest = refl
released false false false rest = refl

-- What a destruction leaves: the entities that DDS did not delete.
abbrev pub leftovers : Bool → Deletions → List Resource → List Resource
leftovers is_writer d rest =
    take_up_if (not (is_ok (map_dds_result d.entity))) (entity_of is_writer)
      (take_up_if (not (is_ok (map_dds_result d.topic))) Resource.topic rest)

destroy_endpoint-live :
    (is_writer : Bool) (condition_result : Ret) (d : Deletions) (e : Endpoint) (w : World)
    (rest : List Resource)
    → is_positive e.entity ≡ true
    → is_positive e.topic ≡ true
    → w.live ≡ owned is_writer e rest
    → (destroy_endpoint is_writer condition_result d e w).1.live ≡ leftovers is_writer d rest
unfolding destroy_endpoint
destroy_endpoint-live is_writer condition_result d e w rest p q h =
    ap
      (λ live. give_back_memory (
        give_back_if (is_ok (map_dds_result d.topic)) Resource.topic
          (give_back_if (is_ok (map_dds_result d.entity)) (entity_of is_writer) live)))
      (h ∙ owned_lem is_writer e rest p q)
    ∙ released is_writer (is_ok (map_dds_result d.entity)) (is_ok (map_dds_result d.topic)) rest

-- `rmw_destroy_publisher`, for a publisher with live DDS entities, gives back all that
-- `rmw_create_publisher` leaves with it, whatever becomes of the announcement: only a writer or a
-- topic that DDS fails to delete stays in the ledger.
pub destroy_publisher-live :
    (d : Deletions) (n : Option NodeHandle) (e : Endpoint) (w : World) (rest : List Resource)
    → (context_impl_from_node n == 0) ≡ false
    → is_positive e.entity ≡ true
    → is_positive e.topic ≡ true
    → w.live ≡ owned true e rest
    → (destroy_publisher d n (some e) w).1.live ≡ leftovers true d rest
unfolding destroy_publisher
destroy_publisher-live d n e w rest c p q h = rw c (destroy_endpoint-live true ok d e w rest p q h)

-- `rmw_destroy_subscription`, for a subscription with live DDS entities, gives back all that
-- `rmw_create_subscription` leaves with it, whatever becomes of the announcement and of the read
-- condition: only a reader or a topic that DDS fails to delete stays in the ledger.
pub destroy_subscription-live :
    (d : Deletions) (n : Option NodeHandle) (e : Endpoint) (w : World) (rest : List Resource)
    → (context_impl_from_node n == 0) ≡ false
    → is_positive e.entity ≡ true
    → is_positive e.topic ≡ true
    → w.live ≡ owned false e rest
    → (destroy_subscription d n (some e) w).1.live ≡ leftovers false d rest
unfolding destroy_subscription
destroy_subscription-live d n e w rest c p q h =
    rw c (destroy_endpoint-live false (map_dds_result d.condition) d e w rest p q h)
