-- ===== src/Locks/Disciplined.antt =====
-- The order in which the functions of rmw_cyclonedds_c/src/rmw_cyclonedds_c.c take and release the two
-- locks.
use rmw_cyclonedds_c.Common.{◌≡◌, refl, Bool, true, false, ◌&&◌, not, List, [], ◌∷◌, arith}
use rmw_cyclonedds_c.Locks.{
  Op, lock_graph, unlock_graph, lock_cache, unlock_cache, Call, change_cache_call,
  apply_snapshot_call, upsert_endpoint_call, add_node_call, change_node_call, get_node_names_call,
  get_topic_names_and_types_call, count_endpoints_call,
}

-- A thread holds a lock if the next operation on it is to release it.
abbrev pub holds_graph : List Op → Bool
holds_graph [] = false
holds_graph (lock_graph ∷ rest) = false
holds_graph (unlock_graph ∷ rest) = true
holds_graph (lock_cache ∷ rest) = holds_graph rest
holds_graph (unlock_cache ∷ rest) = holds_graph rest

abbrev pub holds_cache : List Op → Bool
holds_cache [] = false
holds_cache (lock_cache ∷ rest) = false
holds_cache (unlock_cache ∷ rest) = true
holds_cache (lock_graph ∷ rest) = holds_cache rest
holds_cache (unlock_graph ∷ rest) = holds_cache rest

-- What is taken is released later, nothing is released twice, and the graph's lock is neither taken
-- nor released inside the cache's.
abbrev pub is_disciplined : List Op → Bool
is_disciplined [] = true
is_disciplined (lock_graph ∷ rest) =
    holds_graph rest && not (holds_cache rest) && is_disciplined rest
is_disciplined (unlock_graph ∷ rest) =
    not (holds_graph rest) && not (holds_cache rest) && is_disciplined rest
is_disciplined (lock_cache ∷ rest) = holds_cache rest && is_disciplined rest
is_disciplined (unlock_cache ∷ rest) = not (holds_cache rest) && is_disciplined rest

-- A function holds no lock when it is called.
abbrev pub Disciplined : List Op → Type 0
Disciplined ops =
    (is_disciplined ops ≡ true) × (holds_graph ops ≡ false) × (holds_cache ops ≡ false)

pub Call-Disciplined : {ops : List Op} → Call ops → Disciplined ops
Call-Disciplined change_cache_call = (refl, refl, refl)
Call-Disciplined (apply_snapshot_call accepted has_room known) = ground arith
Call-Disciplined (upsert_endpoint_call fits has_room) = ground arith
Call-Disciplined (add_node_call fits has_room written accepted cache_room known) = ground arith
Call-Disciplined (change_node_call valid bare written accepted cache_room known) = ground arith
Call-Disciplined (get_node_names_call accepted names namespaces) = ground arith
Call-Disciplined (get_topic_names_and_types_call accepted initialized) = ground arith
Call-Disciplined (count_endpoints_call accepted) = ground arith

-- What an operation in front says of the rest.
pub behind_lock_graph :
    (rest : List Op)
    → is_disciplined (lock_graph ∷ rest) ≡ true
    → (holds_graph rest ≡ true) × (holds_cache rest ≡ false) × (is_disciplined rest ≡ true)
behind_lock_graph rest d = ground (arith, d)

pub behind_unlock_graph :
    (rest : List Op)
    → is_disciplined (unlock_graph ∷ rest) ≡ true
    → (holds_graph rest ≡ false) × (is_disciplined rest ≡ true)
behind_unlock_graph rest d = ground (arith, d)

pub behind_lock_cache :
    (rest : List Op)
    → is_disciplined (lock_cache ∷ rest) ≡ true
    → (holds_cache rest ≡ true) × (is_disciplined rest ≡ true)
behind_lock_cache rest d = ground (arith, d)

pub behind_unlock_cache :
    (rest : List Op)
    → is_disciplined (unlock_cache ∷ rest) ≡ true
    → (holds_cache rest ≡ false) × (is_disciplined rest ≡ true)
behind_unlock_cache rest d = ground (arith, d)
