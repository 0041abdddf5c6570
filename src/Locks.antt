-- ===== src/Locks.antt =====
-- The two spin locks of a context in rmw_cyclonedds_c/src/rmw_cyclonedds_c.c, as any number of threads
-- take them: `lock_graph`, `unlock_graph`, `lock_graph_cache` and `unlock_graph_cache`, and the order
-- in which each function calls them on each of its paths. What a function does in between is left out;
-- a Boolean says which way a guard goes.
pub mod Disciplined
pub mod Owned
pub mod Tests
use rmw_cyclonedds_c.Common.{ℕ, Bool, true, false, not, List, [], ◌∷◌, ◌++◌, ◌==◌, if◌then◌else◌}

pub data Op : Type 0 where
  lock_graph unlock_graph lock_cache unlock_cache : Op

-- `graph_cache_add_participant`, `graph_cache_remove_participant` and
-- `graph_cache_remove_endpoint_guid`: one way through.
abbrev pub change_cache_ops : List Op
change_cache_ops = lock_cache ∷ unlock_cache ∷ []

-- `graph_cache_apply_snapshot`, by its checks of the sample, of the room and of the participant.
abbrev pub apply_snapshot_ops : Bool → Bool → Bool → List Op
apply_snapshot_ops accepted has_room known =
    if not accepted
    then []
    else lock_cache
      ∷ (if not has_room
          then unlock_cache ∷ []
          else if not known
          then unlock_cache ∷ []
          else unlock_cache ∷ [])

-- `graph_cache_upsert_endpoint`, by the check of the names and whether the endpoint is known or has
-- room.
abbrev pub upsert_endpoint_ops : Bool → Bool → List Op
upsert_endpoint_ops fits has_room =
    if not fits
    then []
    else lock_cache ∷ (if not has_room then unlock_cache ∷ [] else unlock_cache ∷ [])

-- What `graph_publish_locked` does, by the result of `dds_write`.
abbrev pub publish_ops : Bool → Bool → Bool → Bool → List Op
publish_ops written accepted has_room known =
    if written then apply_snapshot_ops accepted has_room known else []

-- `graph_add_node`, by the check of the names and of the room; `publish` is what
-- `graph_publish_locked` does.
abbrev pub add_node_ops : Bool → Bool → List Op → List Op
add_node_ops fits has_room publish =
    if not fits
    then []
    else lock_graph ∷ (if not has_room then unlock_graph ∷ [] else publish ++ (unlock_graph ∷ []))

-- `graph_remove_node`, `graph_add_endpoint` and `graph_remove_endpoint`: a check of the node, and a
-- second one of its endpoints.
abbrev pub change_node_ops : Bool → Bool → List Op → List Op
change_node_ops valid accepted publish =
    lock_graph
    ∷ (if not valid
        then unlock_graph ∷ []
        else if not accepted
        then unlock_graph ∷ []
        else publish ++ (unlock_graph ∷ []))

-- `rmw_get_node_names`, by its guards and the two array initialisations.
abbrev pub get_node_names_ops : Bool → Bool → Bool → List Op
get_node_names_ops accepted names namespaces =
    if not accepted
    then []
    else lock_cache
      ∷ (if not names
          then unlock_cache ∷ []
          else if not namespaces
          then unlock_cache ∷ []
          else unlock_cache ∷ [])

-- `rmw_get_topic_names_and_types`, by its guards and the initialisation of the output.
abbrev pub get_topic_names_and_types_ops : Bool → Bool → List Op
get_topic_names_and_types_ops accepted initialized =
    if not accepted
    then []
    else lock_cache ∷ (if not initialized then unlock_cache ∷ [] else unlock_cache ∷ [])

-- `graph_count_endpoints`, by its guards.
abbrev pub count_endpoints_ops : Bool → List Op
count_endpoints_ops accepted = if not accepted then [] else lock_cache ∷ unlock_cache ∷ []

-- The functions that a thread may call, and the path that it takes.
pub data Call : List Op → Type 0 where
  change_cache_call : Call change_cache_ops
  apply_snapshot_call :
      (accepted has_room known : Bool) → Call (apply_snapshot_ops accepted has_room known)
  upsert_endpoint_call : (fits has_room : Bool) → Call (upsert_endpoint_ops fits has_room)
  add_node_call :
      (fits has_room written accepted cache_room known : Bool)
      → Call (add_node_ops fits has_room (publish_ops written accepted cache_room known))
  change_node_call :
      (valid bare written accepted cache_room known : Bool)
      → Call (change_node_ops valid bare (publish_ops written accepted cache_room known))
  get_node_names_call :
      (accepted names namespaces : Bool) → Call (get_node_names_ops accepted names namespaces)
  get_topic_names_and_types_call :
      (accepted initialized : Bool) → Call (get_topic_names_and_types_ops accepted initialized)
  count_endpoints_call : (accepted : Bool) → Call (count_endpoints_ops accepted)

-- The two `atomic_flag`s.
pub record Flags : Type 0 where
  pub graph : Bool
  pub cache : Bool

-- `atomic_flag_test_and_set_explicit`: the old value, and the new one.
abbrev pub test_and_set : Bool → Bool × Bool
test_and_set flag = (flag, true)

-- One step of a thread, which has the listed operations before it: it calls a function, runs one
-- round of the loop that waits for a flag, or clears a flag.
pub data Move (f : Flags) : List Op → Flags → List Op → Type 0 where
  call : {ops : List Op} → Call ops → Move f [] f ops
  try_graph :
      {rest : List Op}
      → Move f
          (lock_graph ∷ rest)
          (record f { graph = (test_and_set f.graph).1 })
          (if (test_and_set f.graph).0 then lock_graph ∷ rest else rest)
  try_cache :
      {rest : List Op}
      → Move f
          (lock_cache ∷ rest)
          (record f { cache = (test_and_set f.cache).1 })
          (if (test_and_set f.cache).0 then lock_cache ∷ rest else rest)
  clear_graph : {rest : List Op} → Move f (unlock_graph ∷ rest) (record f { graph = false }) rest
  clear_cache : {rest : List Op} → Move f (unlock_cache ∷ rest) (record f { cache = false }) rest

-- The flags, and the operations before each thread; an idle one has none.
pub record Threads : Type 0 where
  pub flags : Flags
  pub place : ℕ → List Op

abbrev pub moved : (ℕ → List Op) → ℕ → List Op → ℕ → List Op
moved place i p j = if i == j then p else place j

pub data Step (s : Threads) : Threads → Type 0 where
  runs :
      (i : ℕ) {f : Flags} {p : List Op}
      → Move s.flags (s.place i) f p
      → Step s (record { flags = f; place = moved s.place i p })

-- `rmw_init` clears both flags.
abbrev pub initial : Threads
initial = record { flags = record { graph = false; cache = false }; place = λ i. [] }

pub data Reach : Threads → Type 0 where
  start : Reach initial
  next : {s t : Threads} → Reach s → Step s t → Reach t
