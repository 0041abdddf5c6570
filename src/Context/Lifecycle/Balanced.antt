-- ===== src/Context/Lifecycle/Balanced.antt =====
-- `rmw_init` on every path.
use rmw_cyclonedds_c.Common.{
  ℕ, ◌≤◌, ◌≡◌, refl, ap, ◌∙◌, sym, Bool, true, false, ◌&&◌, ◌||◌, not, List, [], ◌∷◌, Option, none,
  some, CString, arith, ltb, ltb→ge, if◌then◌else◌, Bool-cases, Option-cases, inl, inr,
}
use mathlib.Core.Path.{subst}
use rmw_cyclonedds_c.Common.Table.{contents}
use rmw_cyclonedds_c.Rmw.{Ret, is_ok, ℤ, is_negative, is_positive, not_positive, map_dds_result}
use rmw_cyclonedds_c.Discovery.Reach.{Reach, zeroed}
use rmw_cyclonedds_c.GraphCache.{add_participant}
use rmw_cyclonedds_c.LocalGraph.{Local, Address, reset_node}
use rmw_cyclonedds_c.LocalGraph.Consistent.{IsConsistent}
use rmw_cyclonedds_c.Handles.{identifiers_match, identifiers_match-eq, implementation_identifier}
use rmw_cyclonedds_c.Ledger.{Resource, give_back}
use rmw_cyclonedds_c.Context.DomainId.{get_domain_id, uint32_max}
use rmw_cyclonedds_c.Context.Options.{is_some, InitOptions, zero_options, options_copy}
use rmw_cyclonedds_c.Context.Options.Copied.{owned_by_options, AllOk, options_copy-Copied}
use rmw_cyclonedds_c.Context.Opening.{
  GraphEntity, Holdings, Implementation, InitAnswers, open_if, reset_nodes, new_implementation,
  open_graph,
}
use rmw_cyclonedds_c.Context.Lifecycle.{Context, abandon, create_context, init}
use rmw_cyclonedds_c.Context.Opening.Created.{started, Opened, open_graph-Opened}

-- The memory that is live where no context is: the domain and what is in it are not.
abbrev pub without_context : List Resource → Holdings
without_context live = record { memory = live; domain = false; entities = [] }

-- What `rmw_init` leaves where it succeeds.
pub record Created (a : InitAnswers) (options : InitOptions) (live : List Resource) (c : Context)
    (h : Holdings) : Type 0 where
  pub identifier : c.identifier ≡ some implementation_identifier
  pub instance_id : c.instance_id ≡ options.instance_id
  pub domain_fits : c.actual_domain_id ≤ uint32_max
  pub same_options : c.options ≡ options
  pub own_options : c.options.identifier ≡ some implementation_identifier
  pub implementation :
      (impl : Implementation) × (c.impl ≡ some impl)
      × (impl.shutdown ≡ false)
      × IsConsistent impl.local
      × (contents impl.local.nodes ≡ [])
      × Reach a.guid a.graph_guard impl.local.cache
      × (impl.local.participant_guid ≡ a.guid)
      × (impl.local.cache ≡ (add_participant (zeroed a.graph_guard) a.guid).1)
  pub memory : h.memory ≡ owned_by_options options (Resource.context_impl ∷ live)
  pub domain : h.domain ≡ is_positive a.domain

pub abandon-fresh :
    (participant_deleted domain_deleted : ℤ) (h : Holdings) (live : List Resource)
    → h.memory ≡ Resource.context_impl ∷ live
    → is_ok (map_dds_result domain_deleted) ≡ true
    → abandon participant_deleted domain_deleted h ≡ without_context live
unfolding abandon give_back
abandon-fresh participant_deleted domain_deleted h live m d = ground arith

pub started-IsConsistent :
    (a : InitAnswers) (self : Address) → IsConsistent (started a (new_implementation self).local)
unfolding new_implementation reset_nodes reset_node
started-IsConsistent a self = record {
  nodes_fit = (refl, omega arith);
  slots_fit = tt;
  linked = tt;
  distinct = tt;
}

not_live : (x d : Bool) → d ≡ true → (x && not d) ≡ false
not_live x d h = ground arith

starts_running : (self : Address) → (new_implementation self).shutdown ≡ false
unfolding new_implementation
starts_running self = refl

pub started-Reach :
    (a : InitAnswers) (self : Address)
    → Reach a.guid a.graph_guard (started a (new_implementation self).local).cache
unfolding new_implementation
started-Reach a self = Reach.initial

started-cache :
    (a : InitAnswers) (self : Address)
    → (started a (new_implementation self).local).cache
      ≡ (add_participant (zeroed a.graph_guard) a.guid).1
unfolding new_implementation
started-cache a self = refl

started-nodes :
    (a : InitAnswers) (self : Address)
    → contents (started a (new_implementation self).local).nodes ≡ []
unfolding new_implementation reset_nodes reset_node
started-nodes a self = refl

-- The two outcomes of `rmw_init`.
abbrev pub Balanced :
    InitAnswers
    → InitOptions
    → Option Context
    → List Resource
    → Ret × Option Context × Holdings
    → Type 0
Balanced a options context live r =
    if is_ok r.0
    then ((c : Context) × (r.1 ≡ some c) × Created a options live c r.2)
    else ((r.1 ≡ context) × (r.2 ≡ without_context live))

module _ (a : InitAnswers) (self : Address) (options : InitOptions) (context : Context)
    (live : List Resource) (deleted : is_ok (map_dds_result a.domain_deleted) ≡ true)
    (cleanup : AllOk a.options.cleanup) (own : identifiers_match options.identifier ≡ true) where
  abbrev present : Ret × Context × Holdings → Ret × Option Context × Holdings
  present r = (r.0, some r.1, r.2)

  create_context-Balanced :
      (domain_id : ℕ)
      → domain_id ≤ uint32_max
      → Balanced a options
          (some context)
          live
          (present (create_context a self domain_id options context (without_context live)))
  unfolding create_context give_back
  create_context-Balanced domain_id fits =
      let impl : Implementation = record (new_implementation self) {
        domain = a.domain;
        participant = a.participant;
      } in
      let h1 : Holdings = record {
        memory = Resource.context_impl ∷ live;
        domain = is_positive a.domain;
        entities = [];
      } in
      let h2 : Holdings = open_if a.participant GraphEntity.participant h1 in
      let opened : Ret × Implementation × Holdings = open_graph a impl h2 in
      let o : Opened a impl h2 opened = open_graph-Opened a impl h2 in
      let copied = options_copy a.options false options zero_options opened.2.memory in
      let c = options_copy-Copied a.options false options zero_options opened.2.memory cleanup in
      elim (Bool-cases (not a.memory)) [
        | inl e ↦ rw (create_context, e) (refl, refl)
        | inr e ↦ elim (Bool-cases (is_negative a.domain)) [
          | inl f ↦
              rw (create_context, e, f)
                (
                  refl,
                  λ i. record { memory = live; domain = not_positive a.domain f i; entities = [] },
                )
          | inr f ↦ elim (Bool-cases (is_negative a.participant)) [
            | inl g ↦
                rw (create_context, e, f, g)
                  (
                    refl,
                    λ i. record {
                      memory = live;
                      domain = not_live (is_positive a.domain) _ deleted i;
                      entities = [];
                    },
                  )
            | inr g ↦ elim (Bool-cases (is_ok opened.0)) [
              | inr k ↦
                  rw (create_context, e, f, g, k)
                    (
                      refl,
                      abandon-fresh a.participant_deleted a.domain_deleted opened.2 live o.memory
                          deleted,
                    )
              | inl k ↦ elim (Bool-cases (is_ok copied.0)) [
                | inr l ↦
                    rw (create_context, e, f, g, k, l)
                      (rw l (
                        refl,
                        abandon-fresh a.participant_deleted a.domain_deleted
                            (record opened.2 { memory = copied.2 }) live ((rw l at c).1 ∙ o.memory)
                            deleted,
                      ))
                | inl l ↦
                    rw (create_context, e, f, g, k, l)
                      (
                        _,
                        refl,
                        record {
                          identifier = refl;
                          instance_id = refl;
                          domain_fits = fits;
                          same_options = (rw l at c).0;
                          own_options =
                              ap (λ (t : InitOptions). t.identifier) (rw l at c).0
                              ∙ identifiers_match-eq options.identifier own;
                          implementation = (
                            opened.1,
                            refl,
                            o.running ∙ starts_running self,
                            subst IsConsistent (sym (o.local_graph k))
                                (started-IsConsistent a self),
                            ap (λ (t : Local). contents t.nodes) (o.local_graph k)
                                ∙ started-nodes a self,
                            subst (λ (t : Local). Reach a.guid a.graph_guard t.cache)
                                (sym (o.local_graph k)) (started-Reach a self),
                            ap (λ (t : Local). t.participant_guid) (o.local_graph k),
                            ap (λ (t : Local). t.cache) (o.local_graph k) ∙ started-cache a self,
                          );
                          memory = (rw l at c).1 ∙ ap (owned_by_options options) o.memory;
                          domain = o.domain;
                        },
                      )
              ]
            ]
          ]
        ]
      ]

-- `rmw_init`, whatever the allocator, DDS and ROS_DOMAIN_ID answer, where the finalisers of the rmw
-- library succeed and DDS can delete the domain. If it returns OK, the context is ours, has the
-- options given, a domain that fits 32 bits and an implementation that is not shut down, with a
-- consistent local graph without nodes and the cache that `graph_cache_add_participant_locked` makes of
-- zeroed memory for the participant's GUID and the new guard condition, and the memory is that of the
-- implementation and of the options. If it returns anything else, at whichever call, the context is
-- as it was, and nothing is left of memory, domain and entities.
pub init-Balanced :
    (a : InitAnswers) (self : Address) (environment : Option CString) (options : InitOptions)
    (context : Option Context) (live : List Resource)
    → is_ok (map_dds_result a.domain_deleted) ≡ true
    → AllOk a.options.cleanup
    → Balanced a options context live
        (init a self environment (some options) context (without_context live))
unfolding init
init-Balanced a self environment options none live d h = (refl, refl)
init-Balanced a self environment options (some context) live d h =
    elim (Bool-cases (
      not (is_some options.identifier)
      || is_some context.impl
      || not options.allocator_is_valid
      || not (is_some options.enclave))) [
        | inl e ↦ rw (init, e) (refl, refl)
        | inr e ↦ elim (Bool-cases (identifiers_match options.identifier)) [
          | inr f ↦ rw (init, e, f) (refl, refl)
          | inl f ↦ elim (Option-cases (get_domain_id options.domain_id environment)) [
            | inl g ↦ rw (init, e, f, g) (refl, refl)
            | inr g ↦ elim (Bool-cases (ltb uint32_max g.0)) [
              | inl k ↦ rw (init, e, f, g.1, k) (refl, refl)
              | inr k ↦
                  rw (init, e, f, g.1, k)
                    (create_context-Balanced a self options context live d h f g.0 (ltb→ge _ _ k))
            ]
          ]
        ]
      ]
