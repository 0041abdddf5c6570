-- ===== src/Context/Lifecycle.antt =====
-- `rmw_init`, `rmw_shutdown` and `rmw_context_fini` of rmw_cyclonedds_c/src/rmw_cyclonedds_c.c. The
-- results of the allocator, of DDS and of the rmw library are arguments. Deleting a DDS entity
-- deletes what was made in it, so deleting the participant ends all that is open in the domain.
pub mod Balanced
pub mod Finished
pub mod Tests
use rmw_cyclonedds_c.Common.{
  ℕ, zero, suc, Bool, true, false, ◌&&◌, ◌||◌, not, List, [], ◌∷◌, Option, none, some, CString, ltb,
  if◌then◌else◌,
}
use rmw_cyclonedds_c.Common.Table.{Table, empty}
use rmw_cyclonedds_c.Rmw.{
  Ret, ok, error, bad_alloc, invalid_argument, incorrect_rmw_implementation, is_ok, ℤ, pos, negsuc,
  is_negative, is_positive, map_dds_result, Guid,
}
use rmw_cyclonedds_c.GraphCache.{Cache, add_participant}
use rmw_cyclonedds_c.Discovery.Reach.{zeroed}
use rmw_cyclonedds_c.LocalGraph.{
  Local, Slot, Address, NodeData, zero_slot, reset_node, max_local_nodes,
}
use rmw_cyclonedds_c.Handles.{identifiers_match, implementation_identifier}
use rmw_cyclonedds_c.Ledger.{Resource, take_up_if, give_back, give_back_if}
use rmw_cyclonedds_c.Context.DomainId.{get_domain_id, uint32_max}
use rmw_cyclonedds_c.Context.Options.{
  is_some, InitOptions, zero_options, CopyAnswers, Finalised, options_copy, options_fini,
}
use rmw_cyclonedds_c.Context.Opening.{
  GraphEntity, Holdings, Implementation, InitAnswers, open_if, reset_nodes, new_implementation,
  create_graph_writer, create_discovery_reader, create_builtin_readers, create_graph_readers,
  open_graph,
}

-- `rmw_context_t`
pub record Context : Type 0 where
  pub instance_id : ℕ
  pub identifier : Option CString
  pub actual_domain_id : ℕ
  pub options : InitOptions
  pub impl : Option Implementation

-- `rmw_get_zero_initialized_context()`
abbrev pub zero_context : Context
zero_context = record {
  instance_id = 0;
  identifier = none;
  actual_domain_id = 0;
  options = zero_options;
  impl = none;
}

-- `dds_delete` of the participant and of the domain, and the memory of the context.
unfoldable pub abandon : ℤ → ℤ → Holdings → Holdings
abandon participant_deleted domain_deleted h =
    let deleted = is_ok (map_dds_result domain_deleted) in
    record {
      memory = give_back Resource.context_impl h.memory;
      domain = h.domain && not deleted;
      entities = if is_ok (map_dds_result participant_deleted) || deleted then [] else h.entities;
    }

-- `rmw_init` behind its guards, on a context that is not initialised; `self` is the address of the
-- new memory.
unfoldable pub create_context :
    InitAnswers → Address → ℕ → InitOptions → Context → Holdings → Ret × Context × Holdings
create_context a self domain_id options context h =
    let impl = record (new_implementation self) {
      domain = a.domain;
      participant = a.participant;
    } in
    let h1 = record h {
      memory = Resource.context_impl ∷ h.memory;
      domain = is_positive a.domain;
    } in
    let (opened, impl', h2) =
      open_graph a impl (open_if a.participant GraphEntity.participant h1) in
    let (copied, options', memory') = options_copy a.options false options zero_options h2.memory in
    let h3 = record h2 { memory = memory' } in
    if not a.memory
    then (bad_alloc, context, h)
    else if is_negative a.domain
    then (error, context, record h1 { memory = give_back Resource.context_impl h1.memory })
    else if is_negative a.participant
    then (
      error,
      context,
      record h1 {
        memory = give_back Resource.context_impl h1.memory;
        domain = h1.domain && not (is_ok (map_dds_result a.domain_deleted));
      },
    )
    else if not (is_ok opened)
    then (error, context, abandon a.participant_deleted a.domain_deleted h2)
    else if not (is_ok copied)
    then (copied, context, abandon a.participant_deleted a.domain_deleted h3)
    else (
      ok,
      record {
        instance_id = options.instance_id;
        identifier = some implementation_identifier;
        actual_domain_id = domain_id;
        options = options';
        impl = some impl';
      },
      h3,
    )

-- `rmw_init`; `environment` is the value of ROS_DOMAIN_ID. A null pointer is `none`.
unfoldable pub init :
    InitAnswers
    → Address
    → Option CString
    → Option InitOptions
    → Option Context
    → Holdings
    → Ret × Option Context × Holdings
init a self environment none context h = (invalid_argument, context, h)
init a self environment (some options) none h = (invalid_argument, none, h)
init a self environment (some options) (some context) h =
    if not (is_some options.identifier)
      || is_some context.impl
      || not options.allocator_is_valid
      || not (is_some options.enclave)
    then (invalid_argument, some context, h)
    else if not (identifiers_match options.identifier)
    then (incorrect_rmw_implementation, some context, h)
    else elim (get_domain_id options.domain_id environment) [
      | none ↦ (invalid_argument, some context, h)
      | some domain_id ↦
          let (result, context', h') = create_context a self domain_id options context h in
          if ltb uint32_max domain_id
          then (invalid_argument, some context, h)
          else (result, some context', h')
    ]

-- What `rmw_shutdown` sets; the graph guard is triggered.
abbrev pub shut_down_context : Context → Implementation → Context
shut_down_context context impl =
    let cache = impl.local.cache in
    record context {
      impl = some (record impl {
        shutdown = true;
        local = record impl.local { cache = record cache { signals = suc cache.signals } };
      });
    }

-- `rmw_shutdown` behind its test for an implementation; `guard_set` is what
-- `dds_set_guardcondition` returns.
unfoldable pub shut_down : ℤ → Context → Implementation → Ret × Context
shut_down guard_set context impl =
    if not (is_some context.identifier)
    then (invalid_argument, context)
    else if not (identifiers_match context.identifier)
    then (incorrect_rmw_implementation, context)
    else (map_dds_result guard_set, shut_down_context context impl)

unfoldable pub shut_down_with : ℤ → Context → Option Implementation → Ret × Option Context
shut_down_with guard_set context none = (invalid_argument, some context)
shut_down_with guard_set context (some impl) =
    let (result, context') = shut_down guard_set context impl in (result, some context')

unfoldable pub shutdown : ℤ → Option Context → Ret × Option Context
unfolding shut_down_with
shutdown guard_set none = (invalid_argument, none)
shutdown guard_set (some context) = shut_down_with guard_set context context.impl

-- What `rmw_context_fini` gets back from what it calls.
pub record FiniAnswers : Type 0 where
  pub participant_deleted : ℤ
  pub domain_deleted : ℤ
  pub options : Finalised

unfoldable pub finish : FiniAnswers → Context → Implementation → Holdings → Ret × Context × Holdings
finish a context impl h =
    let participant_result = map_dds_result a.participant_deleted in
    let domain_result = map_dds_result a.domain_deleted in
    let (options_result, options', memory) = options_fini a.options context.options h.memory in
    let result = if is_ok domain_result then participant_result else domain_result in
    if not (is_some context.identifier)
    then (invalid_argument, context, h)
    else if not (identifiers_match context.identifier)
    then (incorrect_rmw_implementation, context, h)
    else if not impl.shutdown
    then (invalid_argument, context, h)
    else (
      if is_ok options_result then result else options_result,
      zero_context,
      abandon a.participant_deleted a.domain_deleted (record h { memory = memory }),
    )

unfoldable pub finish_with :
    FiniAnswers → Context → Holdings → Option Implementation → Ret × Option Context × Holdings
finish_with a context h none = (invalid_argument, some context, h)
finish_with a context h (some impl) =
    let (result, context', h') = finish a context impl h in (result, some context', h')

-- `rmw_context_fini`
unfoldable pub context_fini :
    FiniAnswers → Option Context → Holdings → Ret × Option Context × Holdings
unfolding finish_with
context_fini a none h = (invalid_argument, none, h)
context_fini a (some context) h = finish_with a context h context.impl
