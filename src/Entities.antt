-- ===== src/Entities.antt =====
-- Publishers and subscriptions of rmw_cyclonedds_c/src/rmw_cyclonedds_c.c: how
-- `rmw_create_publisher` and `rmw_create_subscription` take memory and DDS entities, and what they do
-- to the two sides of the graph. A ledger lists what is live; the results of the allocator and of DDS
-- are arguments. A creation of DDS has made an entity if it returns a positive handle. A read
-- condition belongs to its reader and goes with it, so the ledger does not list it.
pub mod Destructors
pub mod Ledger
pub mod Destruction
pub mod Graph
pub mod Tests
use rmw_cyclonedds_c.Common.{
  ℕ, suc, Bool, true, false, ◌&&◌, ◌||◌, not, List, [], ◌∷◌, Option, none, some, CString, ◌==◌,
  if◌then◌else◌, find_index, erase_at,
}
use rmw_cyclonedds_c.Rmw.{
  Ret, ok, error, invalid_argument, is_ok, ℤ, pos, is_negative, is_positive, map_dds_result, Guid,
}
use rmw_cyclonedds_c.GraphCache.{Cache, upsert_endpoint, remove_endpoint_guid}
use rmw_cyclonedds_c.LocalGraph.{Local, Address, add_endpoint, remove_endpoint}
use rmw_cyclonedds_c.Handles.{NodeHandle, context_impl_from_node}
use rmw_cyclonedds_c.Ledger.{Resource, take_up_if, give_back, give_back_if}
use rmw_cyclonedds_c.Qos.{QosProfile, qos_is_supported, make_dds_topic_name}

-- `live` is the ledger. The local graph holds the cache.
pub record World : Type 0 where
  pub local : Local
  pub live : List Resource

-- What the allocator and DDS answer during a creation; for an allocation, whether it succeeds.
-- `written` and `written_back` are those of `dds_write`, the last two those of `dds_delete` at the label
-- `fail`, which the code does not look at.
pub record Answers : Type 0 where
  pub handle_memory : Bool
  pub name_memory : Bool
  pub endpoint_memory : Bool
  pub dds_name_memory : Bool
  pub qos_made : Bool
  pub sample_memory : Bool
  pub topic : ℤ
  pub entity : ℤ
  pub condition : ℤ
  pub guid_result : ℤ
  pub guid : Guid
  pub written : ℤ
  pub written_back : ℤ
  pub entity_deleted : ℤ
  pub topic_deleted : ℤ

-- `endpoint_data_t`, less its condition, its sample and its lock.
pub record Endpoint : Type 0 where
  pub topic : ℤ
  pub entity : ℤ
  pub guid : Guid
  pub node : Address
  pub qos : QosProfile

-- What a creation holds when it jumps to `fail`.
pub record Held : Type 0 where
  pub endpoint : Bool
  pub dds_name : Bool
  pub qos : Bool
  pub sample : Bool
  pub topic : ℤ
  pub entity : ℤ

abbrev pub entity_of : Bool → Resource
entity_of is_writer = if is_writer then Resource.writer else Resource.reader

-- A call of `dds_delete` that succeeds.
abbrev pub is_deleted : ℤ → Bool
is_deleted result = is_ok (map_dds_result result)

-- The label `fail`; the first argument is whether the entity is a writer. An entity that DDS does not
-- delete stays, and the handle to it is lost.
unfoldable pub fail : Bool → Answers → Held → List Resource → List Resource
unfolding give_back give_back_if
fail is_writer a h live =
    let entity_goes = is_positive h.entity && is_deleted a.entity_deleted in
    let topic_goes = is_positive h.topic && is_deleted a.topic_deleted in
    let live1 = give_back_if h.qos Resource.dds_qos live in
    let live2 = give_back_if h.dds_name Resource.dds_topic_name live1 in
    let live3 = give_back_if (h.endpoint && entity_goes) (entity_of is_writer) live2 in
    let live4 = give_back_if (h.endpoint && topic_goes) Resource.topic live3 in
    let live5 = give_back_if (h.endpoint && h.sample) Resource.dds_sample live4 in
    let live6 = give_back_if h.endpoint Resource.endpoint live5 in
    give_back Resource.handle (give_back Resource.topic_name live6)

-- `create_publisher_handle` and `create_subscription_handle`.
unfoldable pub create_handle : Answers → List Resource → Bool × List Resource
create_handle a live =
    if not a.handle_memory
    then (false, live)
    else if not a.name_memory
    then (false, give_back Resource.handle (Resource.handle ∷ live))
    else (true, Resource.topic_name ∷ Resource.handle ∷ live)

-- The end of both creations, from `endpoint->node = node_data` on.
unfoldable pub register :
    Bool
    → Answers
    → Held
    → CString
    → CString
    → QosProfile
    → Address
    → World
    → Option Endpoint × World
register is_writer a h name type_ qos node w =
    let (added, l) = add_endpoint a.written w.local node a.guid is_writer in
    if not (is_ok added)
    then (none, record { local = l; live = fail is_writer a h w.live })
    else (let (cached, c) =
          upsert_endpoint l.cache a.guid l.participant_guid (some name) (some type_) is_writer in
        let l' = record l { cache = c } in
        if not (is_ok cached)
        then (
          none,
          record {
            local = (remove_endpoint a.written_back l' node a.guid is_writer).1;
            live = fail is_writer a h w.live;
          },
        )
        else (
          some (record {
            topic = a.topic;
            entity = a.entity;
            guid = a.guid;
            node = node;
            qos = qos;
          }),
          record {
            local = record l' { cache = record c { signals = suc c.signals } };
            live = give_back Resource.dds_topic_name (give_back Resource.dds_qos w.live);
          },
        ))

-- The part of `rmw_create_publisher` from `dds_create_topic` on.
unfoldable pub open_writer :
    Answers → Held → CString → CString → QosProfile → Address → World → Option Endpoint × World
open_writer a h name type_ qos node w =
    let h1 = record h { topic = a.topic } in
    let live1 = take_up_if (is_positive a.topic) Resource.topic w.live in
    let h2 = record h1 { entity = a.entity } in
    let live2 = take_up_if (is_positive a.entity) Resource.writer live1 in
    if is_negative a.topic
    then (none, record w { live = fail true a h1 live1 })
    else if is_negative a.entity
    then (none, record w { live = fail true a h2 live2 })
    else if is_negative a.guid_result
    then (none, record w { live = fail true a h2 live2 })
    else register true a h2 name type_ qos node (record w { live = live2 })

-- The part of `rmw_create_subscription` from `dds_create_topic` on.
unfoldable pub open_reader :
    Answers → Held → CString → CString → QosProfile → Address → World → Option Endpoint × World
open_reader a h name type_ qos node w =
    let h1 = record h { topic = a.topic } in
    let live1 = take_up_if (is_positive a.topic) Resource.topic w.live in
    let h2 = record h1 { entity = a.entity } in
    let live2 = take_up_if (is_positive a.entity) Resource.reader live1 in
    if is_negative a.topic
    then (none, record w { live = fail false a h1 live1 })
    else if is_negative a.entity
    then (none, record w { live = fail false a h2 live2 })
    else if is_negative a.condition
    then (none, record w { live = fail false a h2 live2 })
    else if is_negative a.guid_result
    then (none, record w { live = fail false a h2 live2 })
    else register false a h2 name type_ qos node (record w { live = live2 })

-- The guards and the arguments of a creation. `options_are_supported` is the verdict on the options,
-- `type_name` the DDS type name of the type support that `resolve_type_support` finds.
pub record Request : Type 0 where
  pub node : Option NodeHandle
  pub type_name : Option CString
  pub topic_name : Option CString
  pub qos : Option QosProfile
  pub options_are_supported : Bool

abbrev pub node_data_of : Option NodeHandle → Address
node_data_of none = 0
node_data_of (some n) = n.node_data

-- The guards of both creations, and what they read.
unfoldable pub accepted : Request → Option (CString × CString × QosProfile)
accepted r =
    if context_impl_from_node r.node == 0
      || not r.options_are_supported
      || node_data_of r.node == 0
      || not (qos_is_supported r.qos)
    then none
    else elim r.topic_name [
      | none ↦ none
      | some name ↦ elim r.type_name [
        | none ↦ none
        | some type_ ↦ elim r.qos [ none ↦ none | some qos ↦ some (name, type_, qos) ]
      ]
    ]

-- What a creation holds in front of the sample.
abbrev pub early : Answers → Bool → Held
early a dds_name = record {
  endpoint = a.endpoint_memory;
  dds_name = dds_name;
  qos = a.qos_made;
  sample = false;
  topic = pos 0;
  entity = pos 0;
}

-- What it holds behind the sample: no pointer is null.
abbrev pub all_held : ℤ → ℤ → Held
all_held t e = record {
  endpoint = true;
  dds_name = true;
  qos = true;
  sample = true;
  topic = t;
  entity = e;
}

-- Both creations from behind the handle to the sample; `open_entity` is what follows.
unfoldable pub take_memory :
    Bool
    → (Answers → Held → CString → CString → QosProfile → Address → World → Option Endpoint × World)
    → Answers
    → CString
    → CString
    → QosProfile
    → Address
    → World
    → Option Endpoint × World
take_memory is_writer open_entity a ros_name type_ qos node w =
    let live1 = take_up_if a.endpoint_memory Resource.endpoint w.live in
    elim (make_dds_topic_name a.dds_name_memory (some ros_name)) [
      | none ↦ (
        none,
        record w {
          live = fail is_writer a (early a false) (take_up_if a.qos_made Resource.dds_qos live1);
        },
      )
      | some name ↦
          let live2 = take_up_if a.qos_made Resource.dds_qos (Resource.dds_topic_name ∷ live1) in
          if not a.endpoint_memory || not a.qos_made || not a.sample_memory
          then (none, record w { live = fail is_writer a (early a true) live2 })
          else open_entity a (all_held (pos 0) (pos 0)) name type_ qos node (record w {
            live =
                Resource.dds_sample ∷ Resource.dds_qos ∷ Resource.dds_topic_name ∷ Resource.endpoint
                ∷ w.live;
          })
    ]

unfoldable pub create_endpoint :
    Bool
    → (Answers → Held → CString → CString → QosProfile → Address → World → Option Endpoint × World)
    → Answers
    → Request
    → World
    → Option Endpoint × World
create_endpoint is_writer open_entity a r w = elim (accepted r) [
  | none ↦ (none, w)
  | some (name, type_, qos) ↦
      let (made, live) = create_handle a w.live in
      let w1 = record w { live = live } in
      if not made
      then (none, w1)
      else take_memory is_writer open_entity a name type_ qos (node_data_of r.node) w1
]

unfoldable pub create_publisher : Answers → Request → World → Option Endpoint × World
create_publisher = create_endpoint true open_writer

unfoldable pub create_subscription : Answers → Request → World → Option Endpoint × World
create_subscription = create_endpoint false open_reader
