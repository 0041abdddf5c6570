-- ===== src/Entities/Ledger.antt =====
-- What a creation and a destruction leave of the memory and the DDS entities that they take.
pub mod Creation
pub mod Destruction
use rmw_cyclonedds_c.Common.{
  ◌≡◌, refl, ap, ◌∙◌, sym, Bool, true, false, ◌||◌, ◌&&◌, not, List, [], ◌∷◌, Option, none, some,
  CString, arith, ◌==◌, if◌then◌else◌, if_elim, Bool-cases, Option-cases, inl, inr,
}
use mathlib.Core.Path.{subst}
use rmw_cyclonedds_c.Rmw.{ℤ, pos, negsuc, is_negative, is_positive, is_ok, map_dds_result}
use rmw_cyclonedds_c.GraphCache.{upsert_endpoint}
use rmw_cyclonedds_c.LocalGraph.{Address, add_endpoint}
use rmw_cyclonedds_c.Handles.{context_impl_from_node}
use rmw_cyclonedds_c.Qos.{QosProfile, qos_is_supported, make_dds_topic_name}
use rmw_cyclonedds_c.Ledger.{Resource, take_up_if, give_back, give_back_if}
use rmw_cyclonedds_c.Entities.{
  World, all_held, Answers, Endpoint, Held, Request, entity_of, is_deleted, fail, create_handle,
  register, open_writer, open_reader, create_endpoint, create_publisher, create_subscription,
  node_data_of,
}

-- What a publisher or a subscription owns, above the rest of the ledger.
abbrev pub owned : Bool → Endpoint → List Resource → List Resource
owned is_writer e live = take_up_if (is_positive e.entity) (entity_of is_writer) (
    take_up_if (is_positive e.topic) Resource.topic
      (Resource.dds_sample ∷ Resource.endpoint ∷ Resource.topic_name ∷ Resource.handle ∷ live))

-- DDS has made the entity and then refused to delete it.
abbrev pub is_stuck : ℤ → ℤ → Bool
is_stuck entity deleted = is_positive entity && not (is_deleted deleted)

-- What a creation that fails leaves: the ledger as it was, and those entities that it had made and that
-- DDS refuses to delete. `y` tells whether it came to the topic, `x` whether it came to the writer or
-- the reader behind it.
abbrev pub Failed : Bool → Answers → List Resource → List Resource → Type 0
Failed is_writer a live left =
    (x : Bool) × (y : Bool) × (left
      ≡ take_up_if (y && x && is_stuck a.entity a.entity_deleted) (entity_of is_writer)
          (take_up_if (y && is_stuck a.topic a.topic_deleted) Resource.topic live))

-- A creation that succeeds adds what its result owns.
abbrev pub Balanced : Bool → Answers → List Resource → Option Endpoint × World → Type 0
Balanced is_writer a live r = elim r.0 [
  | none ↦ Failed is_writer a live r.1.live
  | some e ↦ r.1.live ≡ owned is_writer e live
]

pub Balanced-some :
    (is_writer : Bool) (a : Answers) (live : List Resource) (r : Option Endpoint × World)
    (e : Endpoint)
    → Balanced is_writer a live r
    → r.0 ≡ some e
    → r.1.live ≡ owned is_writer e live
Balanced-some is_writer a live r e b h =
    subst
      (λ o. elim o [
        | none ↦ Failed is_writer a live r.1.live
        | some e' ↦ r.1.live ≡ owned is_writer e' live
      ])
      h b

-- The ledger in the middle of a creation.
abbrev pub taken : List Resource → List Resource
taken live =
    Resource.dds_sample ∷ Resource.dds_qos ∷ Resource.dds_topic_name ∷ Resource.endpoint
    ∷ Resource.topic_name ∷ Resource.handle ∷ live

abbrev pub opened : Bool → ℤ → ℤ → List Resource → List Resource
opened is_writer topic entity live =
    take_up_if (is_positive entity) (entity_of is_writer)
      (take_up_if (is_positive topic) Resource.topic (taken live))

pub fail-early :
    (is_writer b_endpoint b_name b_qos : Bool) (a : Answers) (live : List Resource)
    → fail is_writer a
        (record {
          endpoint = b_endpoint;
          dds_name = b_name;
          qos = b_qos;
          sample = false;
          topic = pos 0;
          entity = pos 0;
        })
        (take_up_if b_qos Resource.dds_qos (
          take_up_if b_name Resource.dds_topic_name (
            take_up_if b_endpoint Resource.endpoint
              (Resource.topic_name ∷ Resource.handle ∷ live))))
      ≡ live
unfolding fail
fail-early is_writer false false false a live = refl
fail-early is_writer false false true a live = refl
fail-early is_writer false true false a live = refl
fail-early is_writer false true true a live = refl
fail-early is_writer true false false a live = refl
fail-early is_writer true false true a live = refl
fail-early is_writer true true false a live = refl
fail-early is_writer true true true a live = refl

-- What the label `fail` does once all memory is taken.
abbrev given_back : Bool → Bool → Bool → List Resource → List Resource
given_back is_writer entity_goes topic_goes live = give_back Resource.handle (
    give_back Resource.topic_name (
      give_back Resource.endpoint (
        give_back Resource.dds_sample (
          give_back_if topic_goes Resource.topic (
            give_back_if entity_goes (entity_of is_writer)
              (give_back Resource.dds_topic_name (give_back Resource.dds_qos live)))))))

given_back_lem :
    (is_writer x u y v : Bool) (live : List Resource)
    → given_back is_writer
        (x && u)
        (y && v)
        (take_up_if x (entity_of is_writer) (take_up_if y Resource.topic (taken live)))
      ≡ take_up_if (x && not u) (entity_of is_writer) (take_up_if (y && not v) Resource.topic live)
unfolding give_back give_back_if
given_back_lem is_writer x u y v live = ground arith

pub fail-late :
    (is_writer : Bool) (a : Answers) (topic entity : ℤ) (live : List Resource)
    → fail is_writer a (all_held topic entity) (opened is_writer topic entity live)
      ≡ take_up_if
          (is_stuck entity a.entity_deleted)
          (entity_of is_writer)
          (take_up_if (is_stuck topic a.topic_deleted) Resource.topic live)
unfolding fail
fail-late is_writer a topic entity live =
    given_back_lem is_writer (is_positive entity) (is_deleted a.entity_deleted) (is_positive topic)
      (is_deleted a.topic_deleted) live

-- A creation that succeeds gives its QoS and its topic name back.
abbrev pub settled : Bool → ℤ → ℤ → List Resource → List Resource
settled is_writer topic entity live = take_up_if (is_positive entity) (entity_of is_writer) (
    take_up_if (is_positive topic) Resource.topic
      (Resource.dds_sample ∷ Resource.endpoint ∷ Resource.topic_name ∷ Resource.handle ∷ live))

register-opened :
    (is_writer x y : Bool) (topic entity : ℤ) (live : List Resource)
    → is_positive entity ≡ x
    → is_positive topic ≡ y
    → give_back Resource.dds_topic_name
        (give_back Resource.dds_qos (opened is_writer topic entity live))
      ≡ settled is_writer topic entity live
unfolding give_back
register-opened true true true topic entity live p q = rw (p, q) refl
register-opened true true false topic entity live p q = rw (p, q) refl
register-opened true false true topic entity live p q = rw (p, q) refl
register-opened true false false topic entity live p q = rw (p, q) refl
register-opened false true true topic entity live p q = rw (p, q) refl
register-opened false true false topic entity live p q = rw (p, q) refl
register-opened false false true topic entity live p q = rw (p, q) refl
register-opened false false false topic entity live p q = rw (p, q) refl

pub register-Balanced :
    (is_writer : Bool) (a : Answers) (name type_ : CString) (qos : QosProfile) (node : Address)
    (w : World) (live : List Resource)
    → w.live ≡ opened is_writer a.topic a.entity live
    → Balanced is_writer a live
        (register is_writer a (all_held a.topic a.entity) name type_ qos node w)
unfolding register
register-Balanced is_writer a name type_ qos node w live h =
    let failed : Failed is_writer a live (fail is_writer a (all_held a.topic a.entity) w.live) = (
      true,
      true,
      ap (fail is_writer a (all_held a.topic a.entity)) h
          ∙ fail-late is_writer a a.topic a.entity live,
    ) in
    let done : give_back Resource.dds_topic_name (give_back Resource.dds_qos w.live)
        ≡ settled is_writer a.topic a.entity live =
      ap (λ t. give_back Resource.dds_topic_name (give_back Resource.dds_qos t)) h
      ∙ register-opened is_writer (is_positive a.entity) (is_positive a.topic) a.topic a.entity live
          refl refl in
    let added = add_endpoint a.written w.local node a.guid is_writer in
    let cached =
      upsert_endpoint added.1.cache a.guid added.1.participant_guid (some name) (some type_)
        is_writer in
    elim (Bool-cases (is_ok added.0)) [
      | inl e ↦ elim (Bool-cases (is_ok cached.0)) [
        | inl f ↦ rw (register, e, f) done
        | inr f ↦ rw (register, e, f) failed
      ]
      | inr e ↦ rw (register, e) failed
    ]
