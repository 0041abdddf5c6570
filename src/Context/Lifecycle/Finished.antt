-- ===== src/Context/Lifecycle/Finished.antt =====
-- `rmw_init`, `rmw_shutdown` and `rmw_context_fini` in turn.
use mathlib.Core.Path.{subst}
use rmw_cyclonedds_c.Common.{
  suc, ◌≡◌, refl, ap, ◌∙◌, sym, true, false, not, List, ◌∷◌, Option, some, CString, bytes_eq,
}
use rmw_cyclonedds_c.Rmw.{Ret, invalid_argument, is_ok, ℤ, map_dds_result}
use rmw_cyclonedds_c.LocalGraph.{Address}
use rmw_cyclonedds_c.Handles.{identifiers_match, implementation_identifier}
use rmw_cyclonedds_c.Ledger.{Resource}
use rmw_cyclonedds_c.Context.Options.{InitOptions, options_fini, give_back_options, is_some}
use rmw_cyclonedds_c.Context.Options.Copied.{
  owned_by_options, AllOk, options_fini-own, give_back_options-owned,
}
use rmw_cyclonedds_c.Context.Opening.{Holdings, Implementation, InitAnswers}
use rmw_cyclonedds_c.Context.Lifecycle.{
  Context, zero_context, FiniAnswers, init, shut_down, shutdown, shut_down_with, finish,
  finish_with, context_fini, shut_down_context,
}
use rmw_cyclonedds_c.Context.Lifecycle.Balanced.{
  without_context, Created, init-Balanced, abandon-fresh,
}

-- The identifier of this implementation passes the guards.
own_matches : identifiers_match (some implementation_identifier) ≡ true
unfolding identifiers_match bytes_eq
own_matches = refl

-- What the end of a context relies on.
record Ours (options : InitOptions) (live : List Resource) (c : Context) (h : Holdings)
    : Type 0 where
  identifier : c.identifier ≡ some implementation_identifier
  same_options : c.options ≡ options
  own_options : c.options.identifier ≡ some implementation_identifier
  memory : h.memory ≡ owned_by_options options (Resource.context_impl ∷ live)

module _ (options : InitOptions) (live : List Resource) (c : Context) (h : Holdings)
    (r : Ours options live c h) where
  initialised : not (is_some c.identifier) ≡ false
  initialised = ap (λ o. not (is_some o)) r.identifier

  matches : not (identifiers_match c.identifier) ≡ false
  matches = ap (λ o. not (identifiers_match o)) r.identifier ∙ ap not own_matches

  finish-running :
      (f : FiniAnswers) (impl : Implementation)
      → impl.shutdown ≡ false
      → finish f c impl h ≡ (invalid_argument, c, h)
  unfolding finish
  finish-running f impl s =
      let running : not impl.shutdown ≡ true = ap not s in
      rw (finish, initialised, matches, running) refl

  finish-shut_down :
      (f : FiniAnswers) (impl : Implementation)
      → impl.shutdown ≡ true
      → is_ok (map_dds_result f.domain_deleted) ≡ true
      → AllOk f.options
      → ((finish f c impl h).1 ≡ zero_context) × ((finish f c impl h).2 ≡ without_context live)
  unfolding finish
  finish-shut_down f impl s deleted cleanup =
      let down : not impl.shutdown ≡ false = ap not s in
      let memory : (options_fini f.options c.options h.memory).2 ≡ Resource.context_impl ∷ live =
        options_fini-own f.options c.options h.memory r.own_options
        ∙ ap (give_back_options f.options c.options) (
            r.memory
            ∙ ap (λ o. owned_by_options o (Resource.context_impl ∷ live)) (sym r.same_options))
        ∙ give_back_options-owned f.options c.options (Resource.context_impl ∷ live) cleanup in
      rw (finish, initialised, matches, down)
        (refl, abandon-fresh f.participant_deleted f.domain_deleted _ live memory deleted)

  shut_down-eq :
      (guard_set : ℤ) (impl : Implementation)
      → shut_down guard_set c impl ≡ (map_dds_result guard_set, shut_down_context c impl)
  unfolding shut_down
  shut_down-eq guard_set impl = rw (shut_down, initialised, matches) refl

-- A context refuses to be finalised while it runs. Once it is shut down, whether or not its guard
-- could be triggered, its end leaves a context of zeroes and nothing of memory, domain and entities.
abbrev pub Ends : FiniAnswers → ℤ → List Resource → Option Context → Holdings → Type 0
Ends f guard_set live context h =
    (context_fini f context h ≡ (invalid_argument, context, h))
    × ((context_fini f (shutdown guard_set context).1 h).1 ≡ some zero_context)
    × ((context_fini f (shutdown guard_set context).1 h).2 ≡ without_context live)

Created-Ends :
    (a : InitAnswers) (options : InitOptions) (live : List Resource) (c : Context) (h : Holdings)
    (f : FiniAnswers) (guard_set : ℤ)
    → Created a options live c h
    → is_ok (map_dds_result f.domain_deleted) ≡ true
    → AllOk f.options
    → Ends f guard_set live (some c) h
unfolding context_fini shutdown
Created-Ends a options live c h f guard_set r deleted cleanup =
    let impl : Implementation = r.implementation.0 in
    let ours : Ours options live c h = record {
      identifier = r.identifier;
      same_options = r.same_options;
      own_options = r.own_options;
      memory = r.memory;
    } in
    let off : Context = shut_down_context c impl in
    let ours' : Ours options live off h = record {
      identifier = r.identifier;
      same_options = r.same_options;
      own_options = r.own_options;
      memory = r.memory;
    } in
    let refused = finish-running options live c h ours f impl r.implementation.2 in
    let down : (shutdown guard_set (some c)).1 ≡ some off =
      ap (λ o. (shut_down_with guard_set c o).1) r.implementation.1
      ∙ ap (λ (t : Ret × Context). some t.1) (shut_down-eq options live c h ours guard_set impl) in
    let ended =
      finish-shut_down options live off h ours' f
        (record impl {
          shutdown = true;
          local = record impl.local {
            cache = record impl.local.cache { signals = suc impl.local.cache.signals };
          };
        })
        refl deleted cleanup in
    (
      ap (finish_with f c h) r.implementation.1
          ∙ ap (λ (t : Ret × Context × Holdings). (t.0, some t.1, t.2)) refused,
      ap (λ o. (context_fini f o h).1) down ∙ ap some ended.0,
      ap (λ o. (context_fini f o h).2) down ∙ ended.1,
    )

-- A context that `rmw_init` has made, with the finalisers of the rmw library succeeding and DDS able
-- to delete the domain, cannot be finalised while it runs: `rmw_context_fini` returns
-- RMW_RET_INVALID_ARGUMENT and changes nothing. After `rmw_shutdown`, whether or not the graph guard
-- could be triggered, `rmw_context_fini` leaves a context of zeroes, and memory, domain and entities
-- as they were before `rmw_init`, also where deleting the participant fails.
pub context_fini-init :
    (a : InitAnswers) (self : Address) (environment : Option CString) (options : InitOptions)
    (context : Option Context) (live : List Resource) (f : FiniAnswers) (guard_set : ℤ)
    → is_ok (map_dds_result a.domain_deleted) ≡ true
    → AllOk a.options.cleanup
    → is_ok (map_dds_result f.domain_deleted) ≡ true
    → AllOk f.options
    → is_ok (init a self environment (some options) context (without_context live)).0 ≡ true
    → Ends f guard_set live
        (init a self environment (some options) context (without_context live)).1
        (init a self environment (some options) context (without_context live)).2
context_fini-init a self environment options context live f guard_set d k d' k' h =
    let made : Ret × Option Context × Holdings =
      init a self environment (some options) context (without_context live) in
    let b = rw h at (init-Balanced a self environment options context live d k) in
    subst (λ o. Ends f guard_set live o made.2) (sym b.1)
      (Created-Ends a options live b.0 made.2 f guard_set b.2 d' k')
