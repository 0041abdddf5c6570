-- ===== src/Locks/Tests.antt =====
-- Two threads at the lock of the local graph: the theorem at a concrete state.
use rmw_cyclonedds_c.Common.{ℕ, ◌≡◌, true, false, List, [], ◌∷◌}
use rmw_cyclonedds_c.Locks.{
  Op, unlock_graph, lock_cache, unlock_cache, Threads, moved, runs, Reach, start, next, call,
  try_graph, try_cache, add_node_call, add_node_ops, publish_ops,
}
use rmw_cyclonedds_c.Locks.Disciplined.{holds_graph, holds_cache}
use rmw_cyclonedds_c.Locks.Owned.{Exclusive, is_idle, Proceeds, Reach-Exclusive}

abbrev adding : List Op
adding = add_node_ops true true (publish_ops true true true true)

-- Thread 0 adds a node and holds both locks; thread 1 is about to add one.
abbrev contended : Threads
contended = record {
  flags = record { graph = true; cache = true };
  place =
      moved
        (moved (moved (moved (λ i. []) 0 adding) 0 (lock_cache ∷ unlock_cache ∷ unlock_graph ∷ []))
          0 (unlock_cache ∷ unlock_graph ∷ []))
        1 adding;
}

contended_reached : Reach contended
contended_reached =
    next
      (next
        (next (next start (runs 0 (call (add_node_call true true true true true true))))
          (runs 0 try_graph))
        (runs 0 try_cache))
      (runs 1 (call (add_node_call true true true true true true)))

Reach-Exclusive_example :
    Exclusive holds_graph true contended.place
    × Exclusive holds_cache true contended.place
    × ((i : ℕ)
        → is_idle (contended.place i) ≡ false
        → (j : ℕ) × Proceeds contended.flags (contended.place j))
Reach-Exclusive_example = Reach-Exclusive contended_reached
