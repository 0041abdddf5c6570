-- ===== src/Context/Opening.antt =====
-- What `rmw_init` of rmw_cyclonedds_c/src/rmw_cyclonedds_c.c makes in its domain:
-- `create_graph_writer`, `create_discovery_reader` and `create_graph_readers`. The results of the
-- allocator and of DDS are arguments. The ledger keeps the participant, its topic, writers, readers
-- and its guard condition as the entities of the domain. No sample arrives before `rmw_init`
-- returns.
pub mod Created
use rmw_cyclonedds_c.Common.{
  ℕ, zero, suc, Bool, true, false, ◌&&◌, ◌||◌, not, List, [], ◌∷◌, Option, none, some, CString, ltb,
  if◌then◌else◌,
}
use rmw_cyclonedds_c.Common.Table.{Table, empty}
use rmw_cyclonedds_c.Rmw.{
  Ret, ok, error, bad_alloc, invalid_argument, incorrect_rmw_implementation, is_ok, ℤ, pos, negsuc,
  is_negative, is_positive, map_dds_result, Guid,
}
use rmw_cyclonedds_c.GraphCache.{Cache, add_participant}
use rmw_cyclonedds_c.Discovery.Reach.{zeroed}
use rmw_cyclonedds_c.LocalGraph.{
  Local, Slot, Address, NodeData, zero_slot, reset_node, max_local_nodes,
}
use rmw_cyclonedds_c.Handles.{identifiers_match, implementation_identifier}
use rmw_cyclonedds_c.Ledger.{Resource, take_up_if, give_back, give_back_if}
use rmw_cyclonedds_c.Context.DomainId.{get_domain_id, uint32_max}
use rmw_cyclonedds_c.Context.Options.{
  is_some, InitOptions, zero_options, CopyAnswers, Finalised, options_copy, options_fini,
}

-- What a context makes in its domain.
pub data GraphEntity : Type 0 where
  participant graph_topic graph_writer graph_guard graph_reader : GraphEntity
  participant_reader publication_reader subscription_reader : GraphEntity

-- What is live: memory, the domain, and the entities in it, last first.
pub record Holdings : Type 0 where
  pub memory : List Resource
  pub domain : Bool
  pub entities : List GraphEntity

-- The handles of `rmw_context_impl_t`; the graph guard's is in the cache, and the participant's GUID
-- in the local graph.
pub record Implementation : Type 0 where
  pub domain : ℤ
  pub participant : ℤ
  pub graph_topic : ℤ
  pub graph_writer : ℤ
  pub graph_reader : ℤ
  pub participant_reader : ℤ
  pub publication_reader : ℤ
  pub subscription_reader : ℤ
  pub local : Local
  pub shutdown : Bool

-- What `rmw_init` gets back from what it calls.
pub record InitAnswers : Type 0 where
  pub memory : Bool
  pub domain : ℤ
  pub participant : ℤ
  pub guid_result : ℤ
  pub guid : Guid
  pub graph_topic : ℤ
  pub writer_qos_made : Bool
  pub graph_writer : ℤ
  pub graph_guard : ℤ
  pub reader_qos_made : Bool
  pub graph_listener : Bool
  pub graph_reader : ℤ
  pub participant_listener : Bool
  pub participant_reader : ℤ
  pub publication_listener : Bool
  pub publication_reader : ℤ
  pub subscription_listener : Bool
  pub subscription_reader : ℤ
  pub options : CopyAnswers
  pub participant_deleted : ℤ
  pub domain_deleted : ℤ

-- A creation of DDS has made an entity if it returns a positive handle.
abbrev pub open_if : ℤ → GraphEntity → Holdings → Holdings
open_if handle entity h = record h {
  entities = if is_positive handle then entity ∷ h.entities else h.entities;
}

-- `for (index = i; index < i + rounds; ++index) graph_reset_node(implementation, index);`
unfoldable pub reset_nodes : ℕ → ℕ → Table Slot → Table Slot
reset_nodes zero i t = t
reset_nodes (suc rounds) i t = reset_nodes rounds (suc i) (reset_node i t)

-- The zeroed memory behind `self`, once its nodes are reset.
unfoldable pub new_implementation : Address → Implementation
new_implementation self = record {
  domain = pos 0;
  participant = pos 0;
  graph_topic = pos 0;
  graph_writer = pos 0;
  graph_reader = pos 0;
  participant_reader = pos 0;
  publication_reader = pos 0;
  subscription_reader = pos 0;
  local = record {
    self = self;
    participant_guid = 0;
    nodes = reset_nodes max_local_nodes 0 (empty zero_slot max_local_nodes);
    heap = λ a. record { context = 0; graph_index = 0 };
    cache = zeroed (pos 0);
    announced = [];
  };
  shutdown = false;
}

unfoldable pub create_graph_writer :
    InitAnswers → Implementation → Holdings → Ret × Implementation × Holdings
create_graph_writer a impl h =
    let impl1 = record impl { local = record impl.local { participant_guid = a.guid } } in
    let impl2 = record impl1 { graph_topic = a.graph_topic } in
    let h2 = open_if a.graph_topic GraphEntity.graph_topic h in
    let impl3 = record impl2 { graph_writer = a.graph_writer } in
    let h3 =
      open_if a.graph_writer GraphEntity.graph_writer
        (record h2 { memory = give_back Resource.dds_qos (Resource.dds_qos ∷ h2.memory) }) in
    if is_negative a.guid_result
    then (error, impl1, h)
    else if is_negative a.graph_topic
    then (error, impl2, h2)
    else if not a.writer_qos_made
    then (error, impl2, h2)
    else if is_negative a.graph_writer
    then (error, impl3, h3)
    else (ok, impl3, h3)

-- `made` says whether the listener can be made; DDS_RETCODE_OUT_OF_RESOURCES is -5.
unfoldable pub create_discovery_reader : Bool → ℤ → GraphEntity → Holdings → ℤ × Holdings
create_discovery_reader made reader entity h = if not made then (negsuc 4, h) else (
  reader,
  open_if reader entity
      (record h { memory = give_back Resource.listener (Resource.listener ∷ h.memory) }),
)

-- The readers of the built-in topics.
unfoldable pub create_builtin_readers :
    InitAnswers → Implementation → Holdings → Ret × Implementation × Holdings
create_builtin_readers a impl h =
    let (p, h1) =
      create_discovery_reader a.participant_listener a.participant_reader
        GraphEntity.participant_reader h in
    let impl1 = record impl { participant_reader = p } in
    let (w, h2) =
      create_discovery_reader a.publication_listener a.publication_reader
        GraphEntity.publication_reader h1 in
    let impl2 = record impl1 { publication_reader = w } in
    let (s, h3) =
      create_discovery_reader a.subscription_listener a.subscription_reader
        GraphEntity.subscription_reader h2 in
    let impl3 = record impl2 { subscription_reader = s } in
    if is_negative p
    then (error, impl1, h1)
    else if is_negative w
    then (error, impl2, h2)
    else if is_negative s
    then (error, impl3, h3)
    else (ok, impl3, h3)

unfoldable pub create_graph_readers :
    InitAnswers → Implementation → Holdings → Ret × Implementation × Holdings
create_graph_readers a impl h =
    let (r, h1) =
      create_discovery_reader a.graph_listener a.graph_reader GraphEntity.graph_reader
        (record h { memory = Resource.dds_qos ∷ h.memory }) in
    let impl1 = record impl { graph_reader = r } in
    let h2 = record h1 { memory = give_back Resource.dds_qos h1.memory } in
    if not a.reader_qos_made
    then (error, impl, h)
    else if is_negative r
    then (error, impl1, h2)
    else create_builtin_readers a impl1 h2

-- From `create_graph_writer` to `create_graph_readers`: each failure makes `rmw_init` give all back
-- and return RMW_RET_ERROR.
unfoldable pub open_graph :
    InitAnswers → Implementation → Holdings → Ret × Implementation × Holdings
open_graph a impl h =
    let (result, impl1, h1) = create_graph_writer a impl h in
    let cache1 = record impl1.local.cache { guard_entity = a.graph_guard } in
    let h2 = open_if a.graph_guard GraphEntity.graph_guard h1 in
    let (added, cache2) = add_participant cache1 impl1.local.participant_guid in
    let impl2 = record impl1 { local = record impl1.local { cache = cache2 } } in
    if not (is_ok result)
    then (error, impl1, h1)
    else if is_negative a.graph_guard
    then (error, impl1, h2)
    else if not (is_ok added)
    then (error, impl2, h2)
    else create_graph_readers a impl2 h2
