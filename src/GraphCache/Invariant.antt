-- ===== src/GraphCache/Invariant.antt =====
-- Every update keeps the invariant of the graph cache.
pub mod Removal
pub mod Update
use rmw_cyclonedds_c.Common.{
  ℕ, zero, suc, ◌+◌, ◌-◌, ◌≤◌, ◌<◌, ◌≡◌, refl, sym, ap, ◌∙◌, Bool, true, false, ◌&&◌, ◌||◌, not,
  List, [], ◌∷◌, ◌++◌, map, arith, ltb, leb, ◌==◌, if◌then◌else◌, length, filter, any, set, take,
  All, inl, inr, Bool-cases, Option-cases, some, none, Option, CString, All-append, All-mono,
  All-map, All-filter_test, All-filter, length-set, leb→le, length-append,
}
use mathlib.Core.Path.{subst}
use rmw_cyclonedds_c.Common.Keys.{
  has_key, without, put, Distinct, put-Distinct, All-put, put_absent, any-append,
  has_key-without_ne, has_key-without,
}
use rmw_cyclonedds_c.Common.Table.{Table, contents, Fits, remove_at, push, empty, compact}
use rmw_cyclonedds_c.Common.Table.Contents.{
  length-contents, search_lem, ltb-search-count, push-Fits, contents-push, compact_clear-Fits,
  contents-compact_clear, compact-Fits, contents-compact, empty-Fits,
}
use rmw_cyclonedds_c.Common.Table.Keyed.{contents-remove_key, remove_key-Fits}
use rmw_cyclonedds_c.Rmw.{Ret, ok, error, is_ok, Guid, ℤ}
use rmw_cyclonedds_c.GraphCache.{
  Cache, CachedNode, CachedEndpoint, NodeInfo, Snapshot, Limit, add_participant_locked,
  add_participant, remove_participant, signal, report_limit, find_endpoint, find_participant,
  zero_node, zero_endpoint, max_participants, max_nodes, max_endpoints, cache_node, append_nodes,
  replace_nodes, apply_snapshot, upsert_endpoint, exceeded_limit, remove_endpoint_guid,
  write_endpoint,
}
use rmw_cyclonedds_c.GraphCache.Valid.{IsValid, NodeFits, EndpointFits}
use rmw_cyclonedds_c.GraphCache.Strings.{exceeded_limit_lem, string_fits_lem}
use rmw_cyclonedds_c.GraphCache.Participants.{find_participant_lem}
use rmw_cyclonedds_c.GraphCache.Snapshots.{
  other, append_nodes-Fits, contents-append_nodes, copy_gids-Fits,
}
use rmw_cyclonedds_c.GraphCache.View.{guid_key, endpoint_key, node_admissible, all_admissible}

-- The invariant speaks of the tables only.
IsValid-same :
    (c d : Cache)
    → d.participants ≡ c.participants
    → d.nodes ≡ c.nodes
    → d.endpoints ≡ c.endpoints
    → IsValid c
    → IsValid d
IsValid-same c d p n e v = record {
  participants_fit = rw p v.participants_fit;
  nodes_fit = rw n v.nodes_fit;
  endpoints_fit = rw e v.endpoints_fit;
  node_bounds = rw n v.node_bounds;
  endpoint_bounds = rw e v.endpoint_bounds;
  distinct_participants = rw p v.distinct_participants;
  distinct_endpoints = rw e v.distinct_endpoints;
  owned = rw (p, n) v.owned;
}

-- Neither a signal nor a report touches the tables.
pub signal-IsValid : (c : Cache) → IsValid c → IsValid (signal c)
unfolding signal
signal-IsValid c v = IsValid-same c (signal c) (ground arith) (ground arith) (ground arith) v

pub report_limit-IsValid : (l : Limit) (c : Cache) → IsValid c → IsValid (report_limit l c)
unfolding report_limit
report_limit-IsValid l c v = IsValid-same c (report_limit l c) refl refl refl v

-- A known owner is known with one more participant.
has_key-append :
    (k g : Guid) (ps : List Guid)
    → has_key guid_key k ps ≡ true
    → has_key guid_key k (ps ++ (g ∷ [])) ≡ true
has_key-append k g ps h = any-append (λ x. x == k) ps (g ∷ []) ∙ rw h

pushed-IsValid :
    (c : Cache) (g : Guid)
    → IsValid c
    → has_key guid_key g (contents c.participants) ≡ false
    → c.participants.count < max_participants
    → IsValid (record c { participants = push c.participants g })
pushed-IsValid c g v absent room = record {
  participants_fit = push-Fits max_participants c.participants g v.participants_fit room;
  nodes_fit = v.nodes_fit;
  endpoints_fit = v.endpoints_fit;
  node_bounds = v.node_bounds;
  endpoint_bounds = v.endpoint_bounds;
  distinct_participants =
      subst (Distinct guid_key) (put_absent guid_key g (contents c.participants) absent ∙ sym added)
        (put-Distinct guid_key g (contents c.participants) v.distinct_participants);
  distinct_endpoints = v.distinct_endpoints;
  owned =
      subst (λ ps. All (λ n. has_key guid_key n.participant_guid ps ≡ true) (contents c.nodes))
        (sym added)
        (All-mono (λ n. has_key-append n.participant_guid g (contents c.participants))
          (contents c.nodes) v.owned);
}
  where
    added : contents (push c.participants g) ≡ contents c.participants ++ (g ∷ [])
    added = contents-push max_participants c.participants g v.participants_fit room

pub add_participant_locked-IsValid :
    (c : Cache) (g : Guid) → IsValid c → IsValid (add_participant_locked c g).1
unfolding add_participant_locked
add_participant_locked-IsValid c g v =
    elim (Bool-cases (ltb (find_participant c g) c.participants.count)) [
      | inl e ↦ rw e v
      | inr e ↦ rw e (elim (Bool-cases (c.participants.count == max_participants)) [
        | inl full ↦ rw full (report_limit-IsValid Limit.participants c v)
        | inr room ↦ rw room (
            pushed-IsValid c g v (sym (find_participant_lem c g v) ∙ e)
              (omega (arith, count_lt c.participants.count (v.participants_fit.1) room)))
      ])
    ]
  where
    count_lt :
        (n : ℕ) → n ≤ max_participants → (n == max_participants) ≡ false → n < max_participants
    count_lt n h e = ground arith

pub add_participant-IsValid : (c : Cache) (g : Guid) → IsValid c → IsValid (add_participant c g).1
unfolding add_participant
add_participant-IsValid c g v = elim (Bool-cases (is_ok (add_participant_locked c g).0)) [
  | inl e ↦
      rw e (signal-IsValid (add_participant_locked c g).1 (add_participant_locked-IsValid c g v))
  | inr e ↦ rw e (add_participant_locked-IsValid c g v)
]
