-- ===== src/Entities/Graph/Creation.antt =====
-- `rmw_create_publisher` and `rmw_create_subscription` and the local graph.
use rmw_cyclonedds_c.Common.{
  ◌≡◌, refl, Bool, true, false, ◌||◌, not, Option, some, CString, Bool-cases, Option-cases, inl,
  inr,
}
use rmw_cyclonedds_c.Common.Keys.{has_key}
use rmw_cyclonedds_c.Rmw.{is_negative, Guid}
use rmw_cyclonedds_c.LocalGraph.{Local, Address}
use rmw_cyclonedds_c.LocalGraph.Links.{self_key}
use rmw_cyclonedds_c.LocalGraph.Consistent.{IsConsistent}
use rmw_cyclonedds_c.LocalGraph.Endpoints.Row
use rmw_cyclonedds_c.LocalGraph.Endpoints.Outcome.{info_of}
use rmw_cyclonedds_c.Qos.{QosProfile, make_dds_topic_name}
use rmw_cyclonedds_c.Entities.{
  World, Answers, Endpoint, Held, Request, open_writer, open_reader, take_memory, create_endpoint,
  accepted, create_handle, create_publisher, create_subscription, node_data_of,
}
use rmw_cyclonedds_c.Entities.Graph.{Registered, Reversible, register-Registered}

-- The node does not list the GUID on that side yet.
abbrev pub Fresh : World → Address → Answers → Bool → Type 0
Fresh w node a is_writer =
    has_key self_key a.guid (Row.gids_of is_writer (info_of w.local node)) ≡ false

-- The outcome of a creation, and that it can be undone.
abbrev pub Outcome : Local → Address → Guid → Bool → Option Endpoint × World → Type 0
Outcome l node guid is_writer r = Registered l node guid is_writer r × Reversible l is_writer r

module _ (a : Answers) (h : Held) (name type_ : CString) (qos : QosProfile) (node : Address)
    (w : World) (c : IsConsistent w.local) where
  open_writer-Outcome :
      Fresh w node a true → Outcome w.local node a.guid true (open_writer a h name type_ qos node w)
  unfolding open_writer
  open_writer-Outcome fresh = elim (Bool-cases (is_negative a.topic)) [
    | inl e ↦ rw (open_writer, e) ((c, refl, refl), tt)
    | inr e ↦ elim (Bool-cases (is_negative a.entity)) [
      | inl f ↦ rw (open_writer, e, f) ((c, refl, refl), tt)
      | inr f ↦ elim (Bool-cases (is_negative a.guid_result)) [
        | inl g ↦ rw (open_writer, e, f, g) ((c, refl, refl), tt)
        | inr g ↦
            rw (open_writer, e, f, g)
              (register-Registered true a _ name type_ qos node (record w { live = _ }) c fresh)
      ]
    ]
  ]

  open_reader-Outcome :
      Fresh w node a false
      → Outcome w.local node a.guid false (open_reader a h name type_ qos node w)
  unfolding open_reader
  open_reader-Outcome fresh = elim (Bool-cases (is_negative a.topic)) [
    | inl e ↦ rw (open_reader, e) ((c, refl, refl), tt)
    | inr e ↦ elim (Bool-cases (is_negative a.entity)) [
      | inl f ↦ rw (open_reader, e, f) ((c, refl, refl), tt)
      | inr f ↦ elim (Bool-cases (is_negative a.condition)) [
        | inl k ↦ rw (open_reader, e, f, k) ((c, refl, refl), tt)
        | inr k ↦ elim (Bool-cases (is_negative a.guid_result)) [
          | inl g ↦ rw (open_reader, e, f, k, g) ((c, refl, refl), tt)
          | inr g ↦
              rw (open_reader, e, f, k, g)
                (register-Registered false a _ name type_ qos node (record w { live = _ }) c fresh)
        ]
      ]
    ]
  ]

-- A continuation with that outcome.
abbrev Registers :
    Bool
    → (Answers → Held → CString → CString → QosProfile → Address → World → Option Endpoint × World)
    → Type 0
Registers is_writer open_entity =
    (a : Answers) (h : Held) (name type_ : CString) (qos : QosProfile) (node : Address) (w : World)
    → IsConsistent w.local
    → Fresh w node a is_writer
    → Outcome w.local node a.guid is_writer (open_entity a h name type_ qos node w)

module _ (is_writer : Bool)
    (open_entity : Answers
      → Held
      → CString
      → CString
      → QosProfile
      → Address
      → World
      → Option Endpoint × World)
    (o : Registers is_writer open_entity) (a : Answers) where
  take_memory-Outcome :
      (ros_name type_ : CString) (qos : QosProfile) (node : Address) (w : World)
      → IsConsistent w.local
      → Fresh w node a is_writer
      → Outcome w.local node a.guid is_writer
          (take_memory is_writer open_entity a ros_name type_ qos node w)
  unfolding take_memory
  take_memory-Outcome ros_name type_ qos node w c fresh =
      elim (Option-cases (make_dds_topic_name a.dds_name_memory (some ros_name))) [
        | inl e ↦ rw (take_memory, e) ((c, refl, refl), tt)
        | inr e ↦
            elim (Bool-cases (not a.endpoint_memory || not a.qos_made || not a.sample_memory)) [
              | inl f ↦ rw (take_memory, e.1, f) ((c, refl, refl), tt)
              | inr f ↦
                  rw (take_memory, e.1, f)
                    (o a _ e.0 type_ qos node (record w { live = _ }) c fresh)
            ]
      ]

  create_endpoint-Outcome :
      (r : Request) (w : World)
      → IsConsistent w.local
      → Fresh w (node_data_of r.node) a is_writer
      → Outcome w.local
          (node_data_of r.node)
          a.guid
          is_writer
          (create_endpoint is_writer open_entity a r w)
  unfolding create_endpoint
  create_endpoint-Outcome r w c fresh = elim (Option-cases (accepted r)) [
    | inl e ↦ rw (create_endpoint, e) ((c, refl, refl), tt)
    | inr e ↦ elim (Bool-cases (create_handle a w.live).0) [
      | inl f ↦
          rw (create_endpoint, e.1, f)
            (take_memory-Outcome e.0.0 e.0.1 e.0.2 (node_data_of r.node) (record w { live = _ }) c
              fresh)
      | inr f ↦ rw (create_endpoint, e.1, f) ((c, refl, refl), tt)
    ]
  ]

pub create_publisher-Outcome :
    (a : Answers) (r : Request) (w : World)
    → IsConsistent w.local
    → Fresh w (node_data_of r.node) a true
    → Outcome w.local (node_data_of r.node) a.guid true (create_publisher a r w)
unfolding create_publisher
create_publisher-Outcome = create_endpoint-Outcome true open_writer open_writer-Outcome

pub create_subscription-Outcome :
    (a : Answers) (r : Request) (w : World)
    → IsConsistent w.local
    → Fresh w (node_data_of r.node) a false
    → Outcome w.local (node_data_of r.node) a.guid false (create_subscription a r w)
unfolding create_subscription
create_subscription-Outcome = create_endpoint-Outcome false open_reader open_reader-Outcome

-- `rmw_create_publisher`, given a consistent local graph whose node does not list the GUID that DDS
-- gives to the writer yet, keeps the graph consistent and every node where it was. Where it succeeds,
-- the node lists the GUID last among its writers; where it fails, at whichever point, the nodes are
-- listed as before, whether or not taking the GUID back can be announced.
pub create_publisher-Registered :
    (a : Answers) (r : Request) (w : World)
    → IsConsistent w.local
    → Fresh w (node_data_of r.node) a true
    → Registered w.local (node_data_of r.node) a.guid true (create_publisher a r w)
create_publisher-Registered a r w c fresh = (create_publisher-Outcome a r w c fresh).0

-- `rmw_create_subscription`, given a consistent local graph whose node does not list the GUID that DDS
-- gives to the reader yet, keeps the graph consistent and every node where it was. Where it succeeds,
-- the node lists the GUID last among its readers; where it fails, at whichever point, the nodes are
-- listed as before, whether or not taking the GUID back can be announced.
pub create_subscription-Registered :
    (a : Answers) (r : Request) (w : World)
    → IsConsistent w.local
    → Fresh w (node_data_of r.node) a false
    → Registered w.local (node_data_of r.node) a.guid false (create_subscription a r w)
create_subscription-Registered a r w c fresh = (create_subscription-Outcome a r w c fresh).0
