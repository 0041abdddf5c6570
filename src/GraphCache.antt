-- ===== src/GraphCache.antt =====
-- The bounded inbound graph cache of rmw_cyclonedds_c/src/rmw_cyclonedds_c.c: `cached_participants`,
-- `cached_nodes` and `cached_endpoints` of `rmw_context_impl_t` and the functions `graph_cache_*`.
-- A function that locks, updates and unlocks is one step: `graph_cache_lock` is held throughout.
pub mod View
pub mod Valid
pub mod Strings
pub mod Participants
pub mod Snapshots
pub mod Endpoints
pub mod Invariant
pub mod Tests
use rmw_cyclonedds_c.Common.{
  ℕ, zero, suc, ◌+◌, ◌-◌, Bool, true, false, ◌||◌, not, List, [], ◌∷◌, Option, none, some, CString,
  is_nul, ltb, ◌==◌, if◌then◌else◌, length, set,
}
use mathlib.Core.Option
use rmw_cyclonedds_c.Common.Table.{
  Table, contents, empty, push, search, remove_at, compact, compact_clear, copy_into,
}
use rmw_cyclonedds_c.Rmw.{Ret, ok, error, is_ok, ℤ, is_positive, Guid}

-- The limits of the default build.
abbrev pub max_endpoints_per_node : ℕ
max_endpoints_per_node = 16

abbrev pub max_participants : ℕ
max_participants = 8

abbrev pub max_nodes : ℕ
max_nodes = 16

abbrev pub max_endpoints : ℕ
max_endpoints = 32

abbrev pub string_bound : ℕ
string_bound = 256

-- `graph_cache_node_t`
pub record CachedNode : Type 0 where
  pub participant_guid : Guid
  pub name : CString
  pub namespace_ : CString
  pub readers : Table Guid
  pub writers : Table Guid

-- `graph_cache_endpoint_t`
pub record CachedEndpoint : Type 0 where
  pub guid : Guid
  pub participant_guid : Guid
  pub topic_name : CString
  pub type_name : CString
  pub writer : Bool

abbrev pub zero_node : CachedNode
zero_node = record {
  participant_guid = 0;
  name = [];
  namespace_ = [];
  readers = empty 0 max_endpoints_per_node;
  writers = empty 0 max_endpoints_per_node;
}

abbrev pub zero_endpoint : CachedEndpoint
zero_endpoint = record {
  guid = 0;
  participant_guid = 0;
  topic_name = [];
  type_name = [];
  writer = false;
}

-- What `graph_cache_report_limit` writes to stderr.
pub data Limit : Type 0 where
  participants nodes_per_snapshot endpoints_per_node node_name nodes endpoint_name endpoints : Limit

-- The cache's part of `rmw_context_impl_t`. `signals` counts the calls of
-- `dds_set_guardcondition` on the graph guard, and `reports` holds the limits reported, last first.
pub record Cache : Type 0 where
  pub participants : Table Guid
  pub nodes : Table CachedNode
  pub endpoints : Table CachedEndpoint
  pub guard_entity : ℤ
  pub signals : ℕ
  pub reports : List Limit

unfoldable pub signal : Cache → Cache
signal c = if is_positive c.guard_entity then record c { signals = suc c.signals } else c

unfoldable pub report_limit : Limit → Cache → Cache
report_limit l c = record c { reports = l ∷ c.reports }

-- `for (index = i; index < i + rounds; ++index) if (value[index] == '\0') return true;`
unfoldable pub fits_from : ℕ → ℕ → CString → Bool
fits_from zero i s = false
fits_from (suc rounds) i s =
    let rest = fits_from rounds (suc i) s in if is_nul s i then true else rest

-- A null pointer is `none`.
unfoldable pub string_fits : Option CString → Bool
string_fits none = false
string_fits (some s) = fits_from (suc string_bound) 0 s

unfoldable pub find_participant : Cache → Guid → ℕ
find_participant c guid = search 0 (λ g. g == guid) c.participants

unfoldable pub add_participant_locked : Cache → Guid → Ret × Cache
unfolding find_participant report_limit
add_participant_locked c guid =
    if ltb (find_participant c guid) c.participants.count
    then (ok, c)
    else if c.participants.count == max_participants
    then (error, report_limit Limit.participants c)
    else (ok, record c { participants = push c.participants guid })

unfoldable pub add_participant : Cache → Guid → Ret × Cache
unfolding add_participant_locked signal
add_participant c guid =
    let (result, c') = add_participant_locked c guid in
    (result, if is_ok result then signal c' else c')

-- The part of `graph_cache_remove_participant` that runs under the lock.
unfoldable pub drop_participant : Cache → Guid → Cache
unfolding find_participant
drop_participant c guid = record c {
  participants =
      let i = find_participant c guid in
      if ltb i c.participants.count then remove_at 0 i c.participants else c.participants;
  nodes = compact_clear zero_node (λ n. not (n.participant_guid == guid)) c.nodes;
  endpoints = compact_clear zero_endpoint (λ e. not (e.participant_guid == guid)) c.endpoints;
}

unfoldable pub remove_participant : Cache → Guid → Cache
unfolding drop_participant signal
remove_participant c guid = signal (drop_participant c guid)

-- `NodeEntitiesInfo_`: a sequence is the list of its `_length` entries.
pub record NodeInfo : Type 0 where
  pub node_namespace : CString
  pub node_name : CString
  pub reader_gids : List Guid
  pub writer_gids : List Guid

-- `ParticipantEntitiesInfo_`
pub record Snapshot : Type 0 where
  pub gid : Guid
  pub node_infos : List NodeInfo

-- The checks on an incoming snapshot: the first limit that one of its nodes exceeds.
unfoldable pub exceeded_limit : List NodeInfo → Option Limit
exceeded_limit [] = none
exceeded_limit (n ∷ ns) =
    let rest = exceeded_limit ns in
    if ltb max_endpoints_per_node (length n.reader_gids)
      || ltb max_endpoints_per_node (length n.writer_gids)
    then some Limit.endpoints_per_node
    else if not (string_fits (some n.node_name)) || not (string_fits (some n.node_namespace))
    then some Limit.node_name
    else rest

-- The loop that counts the cached nodes that the snapshot replaces.
unfoldable pub count_owned : Guid → List CachedNode → ℕ
count_owned guid [] = 0
count_owned guid (n ∷ ns) =
    let rest = count_owned guid ns in if n.participant_guid == guid then suc rest else rest

unfoldable pub copy_gids : List Guid → Table Guid
copy_gids gids = record {
  slots = copy_into gids 0 (empty 0 max_endpoints_per_node).slots;
  count = length gids;
}

-- One node of the snapshot, as it is written into a cleared entry of `cached_nodes`.
unfoldable pub cache_node : Guid → NodeInfo → CachedNode
unfolding copy_gids
cache_node guid n = record {
  participant_guid = guid;
  name = n.node_name;
  namespace_ = n.node_namespace;
  readers = copy_gids n.reader_gids;
  writers = copy_gids n.writer_gids;
}

-- The loop that appends the snapshot's nodes.
unfoldable pub append_nodes : Guid → List NodeInfo → Table CachedNode → Table CachedNode
append_nodes guid [] t = t
append_nodes guid (n ∷ ns) t = append_nodes guid ns (push t (cache_node guid n))

-- The old nodes of the snapshot's participant go, and its new ones follow the others.
unfoldable pub install_nodes : Cache → Snapshot → Cache
install_nodes c sample = record c {
  nodes =
      append_nodes sample.gid sample.node_infos
        (compact zero_node (λ n. not (n.participant_guid == sample.gid)) c.nodes);
}

-- The part of `graph_cache_apply_snapshot` behind the checks on the sample.
unfoldable pub replace_nodes : Cache → Snapshot → Ret × Cache
unfolding add_participant_locked install_nodes report_limit signal
replace_nodes c sample =
    let replaced = count_owned sample.gid (contents c.nodes) in
    if ltb max_nodes (c.nodes.count - replaced + length sample.node_infos)
    then (error, report_limit Limit.nodes c)
    else let (result, c') = add_participant_locked c sample.gid in
      if is_ok result then (ok, signal (install_nodes c' sample)) else (error, c')

unfoldable pub apply_snapshot : Cache → Snapshot → Ret × Cache
unfolding report_limit
apply_snapshot c sample =
    if ltb max_nodes (length sample.node_infos)
    then (error, report_limit Limit.nodes_per_snapshot c)
    else elim (exceeded_limit sample.node_infos) [
      | some l ↦ (error, report_limit l c)
      | none ↦ replace_nodes c sample
    ]

unfoldable pub find_endpoint : Cache → Guid → ℕ
find_endpoint c guid = search zero_endpoint (λ e. e.guid == guid) c.endpoints

-- `gids[gid_index]` equal to `guid` for some `gid_index < gid_count`.
unfoldable pub holds_gid : Guid → List Guid → Bool
holds_gid guid [] = false
holds_gid guid (g ∷ gs) = let rest = holds_gid guid gs in if g == guid then true else rest

-- Some cached node of the endpoint's participant names the endpoint on the matching side.
unfoldable pub associated_in : List CachedNode → CachedEndpoint → Bool
unfolding holds_gid
associated_in [] e = false
associated_in (n ∷ ns) e =
    let rest = associated_in ns e in
    let gids = if e.writer then n.writers else n.readers in
    if not (n.participant_guid == e.participant_guid)
    then rest
    else if holds_gid e.guid (contents gids)
    then true
    else rest

unfoldable pub endpoint_is_associated : Cache → CachedEndpoint → Bool
unfolding associated_in
endpoint_is_associated c e = associated_in (contents c.nodes) e

-- The entry at `index` is written, and `count` is the new count.
unfoldable pub write_endpoint : Cache → ℕ → ℕ → CachedEndpoint → Cache
write_endpoint c index count e = record c {
  endpoints = record { slots = set c.endpoints.slots index e; count = count };
}

-- The part of `graph_cache_upsert_endpoint` behind the checks on the names.
unfoldable pub store_endpoint : Cache → CachedEndpoint → Ret × Cache
unfolding find_endpoint write_endpoint report_limit signal
store_endpoint c e =
    let index = find_endpoint c e.guid in
    let count = c.endpoints.count in
    if index == count
    then (if count == max_endpoints
        then (error, report_limit Limit.endpoints c)
        else (ok, signal (write_endpoint c index (suc count) e)))
    else (ok, signal (write_endpoint c index count e))

unfoldable pub upsert_endpoint :
    Cache → Guid → Guid → Option CString → Option CString → Bool → Ret × Cache
unfolding report_limit
upsert_endpoint c guid participant_guid topic_name type_name writer =
    if not (string_fits topic_name) || not (string_fits type_name)
    then (error, report_limit Limit.endpoint_name c)
    else store_endpoint c (record {
      guid = guid;
      participant_guid = participant_guid;
      topic_name = Option.get_or topic_name [];
      type_name = Option.get_or type_name [];
      writer = writer;
    })

-- The part of `graph_cache_remove_endpoint_guid` that runs under the lock.
unfoldable pub drop_endpoint : Cache → Guid → Cache
unfolding find_endpoint
drop_endpoint c guid = record c {
  endpoints =
      let i = find_endpoint c guid in
      if ltb i c.endpoints.count then remove_at zero_endpoint i c.endpoints else c.endpoints;
}

unfoldable pub remove_endpoint_guid : Cache → Guid → Cache
unfolding drop_endpoint signal
remove_endpoint_guid c guid = signal (drop_endpoint c guid)
