-- ===== src/Context/Opening/Created.antt =====
-- What `rmw_init` leaves behind.
use rmw_cyclonedds_c.Common.{◌≡◌, refl, ap, ◌∙◌, Bool, true, not, ◌∷◌, arith, Bool-cases, inl, inr}
use rmw_cyclonedds_c.Rmw.{Ret, is_ok, ℤ, is_negative}
use rmw_cyclonedds_c.GraphCache.{add_participant}
use rmw_cyclonedds_c.LocalGraph.{Local}
use rmw_cyclonedds_c.Ledger.{Resource, give_back}
use rmw_cyclonedds_c.Context.Opening.{
  GraphEntity, Holdings, Implementation, InitAnswers, open_if, create_graph_writer,
  create_discovery_reader, create_builtin_readers, create_graph_readers, open_graph,
}

-- What a part of `rmw_init` leaves as it is: the memory that is live, the domain, the local graph but
-- for what the part sets, and that the context is not shut down.
record Kept (local : Local) (impl : Implementation) (h : Holdings)
    (r : Ret × Implementation × Holdings) : Type 0 where
  memory : r.2.memory ≡ h.memory
  domain : r.2.domain ≡ h.domain
  local_graph : r.1.local ≡ local
  running : r.1.shutdown ≡ impl.shutdown

create_graph_writer-Kept :
    (a : InitAnswers) (impl : Implementation) (h : Holdings)
    → Kept (record impl.local { participant_guid = a.guid }) impl h (create_graph_writer a impl h)
unfolding create_graph_writer give_back
create_graph_writer-Kept a impl h = ground arith

create_discovery_reader-memory :
    (made : Bool) (reader : ℤ) (entity : GraphEntity) (h : Holdings)
    → ((create_discovery_reader made reader entity h).1.memory ≡ h.memory)
      × ((create_discovery_reader made reader entity h).1.domain ≡ h.domain)
unfolding create_discovery_reader give_back
create_discovery_reader-memory made reader entity h = ground arith

create_builtin_readers-Kept :
    (a : InitAnswers) (impl : Implementation) (h : Holdings)
    → Kept impl.local impl h (create_builtin_readers a impl h)
unfolding create_builtin_readers create_discovery_reader give_back
create_builtin_readers-Kept a impl h = ground arith

create_graph_readers-Kept :
    (a : InitAnswers) (impl : Implementation) (h : Holdings)
    → Kept impl.local impl h (create_graph_readers a impl h)
unfolding create_graph_readers give_back
create_graph_readers-Kept a impl h =
    let made : ℤ × Holdings =
      create_discovery_reader a.graph_listener a.graph_reader GraphEntity.graph_reader
        (record h { memory = Resource.dds_qos ∷ h.memory }) in
    let kept =
      create_discovery_reader-memory a.graph_listener a.graph_reader GraphEntity.graph_reader
        (record h { memory = Resource.dds_qos ∷ h.memory }) in
    let memory : give_back Resource.dds_qos made.1.memory ≡ h.memory =
      ap (give_back Resource.dds_qos) kept.0 in
    let rest =
      create_builtin_readers-Kept a (record impl { graph_reader = made.0 })
        (record made.1 { memory = give_back Resource.dds_qos made.1.memory }) in
    elim (Bool-cases (not a.reader_qos_made)) [
      | inr e ↦ elim (Bool-cases (is_negative made.0)) [
        | inl f ↦
            rw (create_graph_readers, e, f)
              (record { memory = memory; domain = kept.1; local_graph = refl; running = refl })
        | inr f ↦
            rw (create_graph_readers, e, f)
              (record {
                memory = rest.memory ∙ memory;
                domain = rest.domain ∙ kept.1;
                local_graph = rest.local_graph;
                running = rest.running;
              })
      ]
      | inl e ↦
          rw (create_graph_readers, e)
            (record { memory = refl; domain = refl; local_graph = refl; running = refl })
    ]

-- The local graph of a new context, once its cache knows the participant.
abbrev pub started : InitAnswers → Local → Local
started a local = record local {
  participant_guid = a.guid;
  cache = (add_participant (record local.cache { guard_entity = a.graph_guard }) a.guid).1;
}

-- Where all of the graph opens, and the memory and the domain in any case.
pub record Opened (a : InitAnswers) (impl : Implementation) (h : Holdings)
    (r : Ret × Implementation × Holdings) : Type 0 where
  pub memory : r.2.memory ≡ h.memory
  pub domain : r.2.domain ≡ h.domain
  pub running : r.1.shutdown ≡ impl.shutdown
  pub local_graph : is_ok r.0 ≡ true → r.1.local ≡ started a impl.local

pub open_graph-Opened :
    (a : InitAnswers) (impl : Implementation) (h : Holdings) → Opened a impl h (open_graph a impl h)
unfolding open_graph
open_graph-Opened a impl h =
    let w : Ret × Implementation × Holdings = create_graph_writer a impl h in
    let k = create_graph_writer-Kept a impl h in
    let added =
      add_participant (record w.1.local.cache { guard_entity = a.graph_guard })
        w.1.local.participant_guid in
    let same : (record w.1.local { cache = added.1 }) ≡ started a impl.local =
      ap
        (λ (l : Local). record l {
          cache =
              (add_participant (record l.cache { guard_entity = a.graph_guard })
                l.participant_guid).1;
        })
        k.local_graph in
    elim (Bool-cases (is_ok w.0)) [
      | inr e ↦
          rw (open_graph, e)
            (record {
              memory = k.memory;
              domain = k.domain;
              running = k.running;
              local_graph = λ h. cc;
            })
      | inl e ↦ elim (Bool-cases (is_negative a.graph_guard)) [
        | inl f ↦
            rw (open_graph, e, f)
              (record {
                memory = k.memory;
                domain = k.domain;
                running = k.running;
                local_graph = λ h. cc;
              })
        | inr f ↦ elim (Bool-cases (is_ok added.0)) [
          | inr g ↦
              rw (open_graph, e, f, g)
                (record {
                  memory = k.memory;
                  domain = k.domain;
                  running = k.running;
                  local_graph = λ h. cc;
                })
          | inl g ↦
              let rest =
                create_graph_readers-Kept a
                  (record w.1 { local = record w.1.local { cache = added.1 } })
                  (open_if a.graph_guard GraphEntity.graph_guard w.2) in
              rw (open_graph, e, f, g)
                (record {
                  memory = rest.memory ∙ k.memory;
                  domain = rest.domain ∙ k.domain;
                  running = rest.running ∙ k.running;
                  local_graph = λ h. rest.local_graph ∙ same;
                })
        ]
      ]
    ]
