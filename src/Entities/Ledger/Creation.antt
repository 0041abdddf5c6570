-- ===== src/Entities/Ledger/Creation.antt =====
-- The ledger through `rmw_create_publisher` and `rmw_create_subscription`.
use rmw_cyclonedds_c.Common.{
  ◌⊎◌, ◌≡◌, refl, ap, ◌∙◌, Bool, true, false, ◌||◌, not, List, ◌∷◌, Option, some, CString,
  Bool-cases, Option-cases, inl, inr,
}
use rmw_cyclonedds_c.Rmw.{pos, is_negative, is_positive}
use rmw_cyclonedds_c.LocalGraph.{Address}
use rmw_cyclonedds_c.Qos.{QosProfile, make_dds_topic_name}
use rmw_cyclonedds_c.Ledger.{Resource, take_up_if, give_back}
use rmw_cyclonedds_c.Entities.{
  World, all_held, Answers, Endpoint, Held, Request, entity_of, fail, create_handle, open_writer,
  open_reader, create_endpoint, take_memory, accepted, early, create_publisher, create_subscription,
  node_data_of,
}
use rmw_cyclonedds_c.Entities.Ledger.{
  Balanced, Failed, taken, opened, fail-early, fail-late, register-Balanced,
}

module _ (a : Answers) (name type_ : CString) (qos : QosProfile) (node : Address) (w : World)
    (live : List Resource) (h : w.live ≡ taken live) where
  abbrev live1 : List Resource
  live1 = take_up_if (is_positive a.topic) Resource.topic w.live

  held-topic :
      (is_writer : Bool)
      → Failed is_writer a live (fail is_writer a (all_held a.topic (pos 0)) live1)
  held-topic is_writer = (
    false,
    true,
    ap
          (λ t.
            fail is_writer a (all_held a.topic (pos 0))
              (take_up_if (is_positive a.topic) Resource.topic t))
          h
        ∙ fail-late is_writer a a.topic (pos 0) live,
  )

  opens :
      (is_writer : Bool)
      → take_up_if (is_positive a.entity) (entity_of is_writer) live1
        ≡ opened is_writer a.topic a.entity live
  opens is_writer =
      ap
        (λ t.
          take_up_if (is_positive a.entity) (entity_of is_writer)
            (take_up_if (is_positive a.topic) Resource.topic t))
        h

  held-entity :
      (is_writer : Bool)
      → Failed is_writer a live (
          fail is_writer a
            (all_held a.topic a.entity)
            (take_up_if (is_positive a.entity) (entity_of is_writer) live1))
  held-entity is_writer = (
    true,
    true,
    ap (fail is_writer a (all_held a.topic a.entity)) (opens is_writer)
        ∙ fail-late is_writer a a.topic a.entity live,
  )

  open_writer-Balanced :
      Balanced true a live (open_writer a (all_held (pos 0) (pos 0)) name type_ qos node w)
  unfolding open_writer
  open_writer-Balanced = elim (Bool-cases (is_negative a.topic)) [
    | inl e ↦ rw (open_writer, e) (held-topic true)
    | inr e ↦ elim (Bool-cases (is_negative a.entity)) [
      | inl f ↦ rw (open_writer, e, f) (held-entity true)
      | inr f ↦ elim (Bool-cases (is_negative a.guid_result)) [
        | inl g ↦ rw (open_writer, e, f, g) (held-entity true)
        | inr g ↦
            rw (open_writer, e, f, g)
              (register-Balanced true a name type_ qos node (record w { live = _ }) live
                (opens true))
      ]
    ]
  ]

  open_reader-Balanced :
      Balanced false a live (open_reader a (all_held (pos 0) (pos 0)) name type_ qos node w)
  unfolding open_reader
  open_reader-Balanced = elim (Bool-cases (is_negative a.topic)) [
    | inl e ↦ rw (open_reader, e) (held-topic false)
    | inr e ↦ elim (Bool-cases (is_negative a.entity)) [
      | inl f ↦ rw (open_reader, e, f) (held-entity false)
      | inr f ↦ elim (Bool-cases (is_negative a.condition)) [
        | inl g ↦ rw (open_reader, e, f, g) (held-entity false)
        | inr g ↦ elim (Bool-cases (is_negative a.guid_result)) [
          | inl k ↦ rw (open_reader, e, f, g, k) (held-entity false)
          | inr k ↦
              rw (open_reader, e, f, g, k)
                (register-Balanced false a name type_ qos node (record w { live = _ }) live
                  (opens false))
        ]
      ]
    ]
  ]

-- A continuation that keeps the balance, from the point where all memory is taken.
abbrev Opens :
    Bool
    → (Answers → Held → CString → CString → QosProfile → Address → World → Option Endpoint × World)
    → Type 0
Opens is_writer open_entity =
    (a : Answers) (name type_ : CString) (qos : QosProfile) (node : Address) (w : World)
    (live : List Resource)
    → w.live ≡ taken live
    → Balanced is_writer a live (open_entity a (all_held (pos 0) (pos 0)) name type_ qos node w)

create_handle-cases :
    (a : Answers) (live : List Resource)
    → (create_handle a live ≡ (true, Resource.topic_name ∷ Resource.handle ∷ live))
      ⊎ (create_handle a live ≡ (false, live))
unfolding create_handle give_back
create_handle-cases a live = elim (Bool-cases a.handle_memory) [
  | inl e ↦ elim (Bool-cases a.name_memory) [
    | inl f ↦ inl (rw (create_handle, e, f) refl)
    | inr f ↦ inr (rw (create_handle, e, f) refl)
  ]
  | inr e ↦ inr (rw (create_handle, e) refl)
]

module _ (is_writer : Bool)
    (open_entity : Answers
      → Held
      → CString
      → CString
      → QosProfile
      → Address
      → World
      → Option Endpoint × World)
    (o : Opens is_writer open_entity) (a : Answers) where
  take_memory-Balanced :
      (ros_name type_ : CString) (qos : QosProfile) (node : Address) (w : World)
      (live : List Resource)
      → w.live ≡ Resource.topic_name ∷ Resource.handle ∷ live
      → Balanced is_writer a live (take_memory is_writer open_entity a ros_name type_ qos node w)
  unfolding take_memory
  take_memory-Balanced ros_name type_ qos node w live h =
      let early-failure : (has_name : Bool)
          → fail is_writer a (early a has_name) (
              take_up_if a.qos_made Resource.dds_qos (
                take_up_if has_name Resource.dds_topic_name
                  (take_up_if a.endpoint_memory Resource.endpoint w.live)))
            ≡ live =
        λ has_name.
          ap
            (λ t. fail is_writer a (early a has_name) (
              take_up_if a.qos_made Resource.dds_qos (
                take_up_if has_name Resource.dds_topic_name
                  (take_up_if a.endpoint_memory Resource.endpoint t))))
            h
          ∙ fail-early is_writer a.endpoint_memory has_name a.qos_made a live in
      elim (Option-cases (make_dds_topic_name a.dds_name_memory (some ros_name))) [
        | inl g ↦ rw (take_memory, g) (false, false, early-failure false)
        | inr g ↦
            elim (Bool-cases (not a.endpoint_memory || not a.qos_made || not a.sample_memory)) [
              | inl k ↦ rw (take_memory, g.1, k) (false, false, early-failure true)
              | inr k ↦
                  rw (take_memory, g.1, k)
                    (o a g.0 type_ qos node _ live (
                      ap
                        (λ t.
                          Resource.dds_sample ∷ Resource.dds_qos ∷ Resource.dds_topic_name
                          ∷ Resource.endpoint ∷ t)
                        h))
            ]
      ]

  create_endpoint-Balanced :
      (r : Request) (w : World)
      → Balanced is_writer a w.live (create_endpoint is_writer open_entity a r w)
  unfolding create_endpoint
  create_endpoint-Balanced r w = elim (Option-cases (accepted r)) [
    | inl e ↦ rw (create_endpoint, e) (false, false, refl)
    | inr e ↦ elim (create_handle-cases a w.live) [
      | inl f ↦
          rw (create_endpoint, e.1, f)
            (take_memory-Balanced e.0.0 e.0.1 e.0.2 (node_data_of r.node) _ w.live refl)
      | inr f ↦ rw (create_endpoint, e.1, f) (false, false, refl)
    ]
  ]

-- `rmw_create_publisher`, whatever the allocator and DDS answer, leaves the ledger as it was where it
-- fails, but for a topic or a writer that it had made and that DDS then refuses to delete. Where it
-- succeeds, the ledger has more by exactly the writer, the topic, the sample, the
-- endpoint data, the copy of the name and the handle: what is only needed on the way is given back.
pub create_publisher-Balanced :
    (a : Answers) (r : Request) (w : World) → Balanced true a w.live (create_publisher a r w)
unfolding create_publisher
create_publisher-Balanced a r w =
    create_endpoint-Balanced true open_writer open_writer-Balanced a r w

-- `rmw_create_subscription`, whatever the allocator and DDS answer, leaves the ledger as it was where
-- it fails, also where only the read condition could not be made, but for a topic or a reader that it
-- had made and that DDS then refuses to delete. Where it succeeds, the ledger has
-- more by exactly the reader, the topic, the sample, the endpoint data, the copy of the name and the
-- handle.
pub create_subscription-Balanced :
    (a : Answers) (r : Request) (w : World) → Balanced false a w.live (create_subscription a r w)
unfolding create_subscription
create_subscription-Balanced a r w =
    create_endpoint-Balanced false open_reader open_reader-Balanced a r w
