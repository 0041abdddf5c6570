-- ===== src/Discovery/Tests.antt =====
-- Runs of the discovery callbacks on a small cache.
use rmw_cyclonedds_c.Common.{◌≡◌, true, false, List, [], ◌∷◌, some}
use rmw_cyclonedds_c.Rmw.{pos}
use rmw_cyclonedds_c.GraphCache.Valid.{IsValid}
use rmw_cyclonedds_c.GraphCache.View.{view}
use rmw_cyclonedds_c.GraphCache.Tests.{small, small-IsValid, listener}
use rmw_cyclonedds_c.GraphCache.{add_participant}
use rmw_cyclonedds_c.Discovery.{
  GraphSample, ParticipantSample, graph_data_available, participant_data_available,
}
use rmw_cyclonedds_c.Discovery.Safety.{nodes_of, graph_data_available_local}
use rmw_cyclonedds_c.Discovery.Reach.{
  Reach-IsValid, initial, next, graph_samples, participant_samples, zeroed,
}

-- A new node of participant 9, an announcement by the local participant 7, a disposed instance.
abbrev graph_takes : List (List GraphSample)
graph_takes =
    (record { valid_data = true; snapshot = listener }
      ∷ record { valid_data = true; snapshot = record { gid = 7; node_infos = [] } }
      ∷ [])
    ∷ (record { valid_data = false; snapshot = record { gid = 9; node_infos = [] } } ∷ [])
    ∷ []

-- Participants 7 and 9 are gone, participant 11 is new.
abbrev participant_takes : List (List ParticipantSample)
participant_takes =
    (record { info = record { valid_data = false; is_alive = false }; key = some 7 }
      ∷ record { info = record { valid_data = false; is_alive = false }; key = some 9 }
      ∷ record { info = record { valid_data = true; is_alive = true }; key = some 11 }
      ∷ [])
    ∷ []

graph_data_available_local_example :
    nodes_of 9 (view (graph_data_available 9 small graph_takes)) ≡ nodes_of 9 (view small)
graph_data_available_local_example = graph_data_available_local 9 small graph_takes small-IsValid

Reach-IsValid_example : IsValid (
    participant_data_available 7
      (graph_data_available 7 (add_participant (zeroed (pos 5)) 7).1 graph_takes)
      participant_takes)
Reach-IsValid_example =
    Reach-IsValid {guard = pos 5}
      (next (next initial (graph_samples graph_takes)) (participant_samples participant_takes))
