-- ===== src/Discovery.antt =====
-- The discovery callbacks of rmw_cyclonedds_c/src/rmw_cyclonedds_c.c: `graph_data_available`,
-- `participant_data_available`, `publication_data_available`, `subscription_data_available`.
-- What `dds_take` hands out is a parameter: the list of the batches that it returns until it returns
-- none. The message on a failed take is not modelled.
pub mod Safety
pub mod Untouched
pub mod Reach
pub mod Tests
use rmw_cyclonedds_c.Common.{
  Bool, true, false, ◌||◌, not, List, [], ◌∷◌, Option, none, some, CString, ◌==◌, if◌then◌else◌,
}
use rmw_cyclonedds_c.Rmw.{Guid}
use rmw_cyclonedds_c.GraphCache.{
  Cache, Snapshot, apply_snapshot, add_participant, remove_participant, upsert_endpoint,
  remove_endpoint_guid,
}

-- A sample of the graph topic with the `valid_data` of its information.
pub record GraphSample : Type 0 where
  pub valid_data : Bool
  pub snapshot : Snapshot

-- What the callbacks read of `dds_sample_info_t` for the built-in topics.
pub record Info : Type 0 where
  pub valid_data : Bool
  pub is_alive : Bool

-- `dds_builtintopic_participant_t`; a null sample is `none`.
pub record ParticipantSample : Type 0 where
  pub info : Info
  pub key : Option Guid

-- `dds_builtintopic_endpoint_t`
pub record EndpointInfo : Type 0 where
  pub key : Guid
  pub participant_key : Guid
  pub topic_name : Option CString
  pub type_name : Option CString

pub record EndpointSample : Type 0 where
  pub info : Info
  pub sample : Option EndpointInfo

-- The body of the loop over a batch, for each callback. `own` is `context->participant_guid`.
unfoldable pub graph_sample : Guid → Cache → GraphSample → Cache
graph_sample own c s =
    if s.valid_data
    then (if not (s.snapshot.gid == own) then (apply_snapshot c s.snapshot).1 else c)
    else c

unfoldable pub participant_sample : Guid → Cache → ParticipantSample → Cache
participant_sample own c s = elim s.key [
  | none ↦ c
  | some key ↦
      if key == own
      then c
      else if s.info.valid_data
      then (add_participant c key).1
      else if not s.info.is_alive
      then remove_participant c key
      else c
]

unfoldable pub endpoint_sample : Bool → Guid → Cache → EndpointSample → Cache
endpoint_sample writer own c s = elim s.sample [
  | none ↦ c
  | some e ↦
      if e.participant_key == own
      then c
      else if s.info.valid_data
      then (upsert_endpoint c e.key e.participant_key e.topic_name e.type_name writer).1
      else if not s.info.is_alive
      then remove_endpoint_guid c e.key
      else c
]

module _ {A : Type 0} (body : Cache → A → Cache) where
  unfoldable pub batch : Cache → List A → Cache
  batch c [] = c
  batch c (s ∷ samples) = batch (body c s) samples

  -- `while ((count = dds_take(...)) > 0)`: an empty batch ends the loop too.
  unfoldable pub drain : Cache → List (List A) → Cache
  unfolding batch
  drain c [] = c
  drain c ([] ∷ takes) = c
  drain c ((s ∷ samples) ∷ takes) = drain (batch c (s ∷ samples)) takes

unfoldable pub graph_data_available : Guid → Cache → List (List GraphSample) → Cache
unfolding drain graph_sample
graph_data_available own = drain (graph_sample own)

unfoldable pub participant_data_available : Guid → Cache → List (List ParticipantSample) → Cache
unfolding drain participant_sample
participant_data_available own = drain (participant_sample own)

unfoldable pub endpoint_data_available : Guid → Bool → Cache → List (List EndpointSample) → Cache
unfolding drain endpoint_sample
endpoint_data_available own writer = drain (endpoint_sample writer own)

unfoldable pub publication_data_available : Guid → Cache → List (List EndpointSample) → Cache
unfolding endpoint_data_available
publication_data_available own = endpoint_data_available own true

unfoldable pub subscription_data_available : Guid → Cache → List (List EndpointSample) → Cache
unfolding endpoint_data_available
subscription_data_available own = endpoint_data_available own false
