-- ===== src/Context/Options/Copied.antt =====
-- What `rmw_init_options_copy` and `rmw_init_options_fini` do to the options and to their memory.
use rmw_cyclonedds_c.Common.{
  ◌⊎◌, bytes_eq, ◌≡◌, refl, ap, ◌∙◌, sym, Bool, true, false, ◌&&◌, ◌||◌, not, List, none, some,
  if◌then◌else◌, Bool-cases, inl, inr, &&-true,
}
use rmw_cyclonedds_c.Rmw.{Ret, ok, is_ok}
use rmw_cyclonedds_c.Handles.{identifiers_match, identifiers_match-eq, implementation_identifier}
use rmw_cyclonedds_c.Context.DomainId.{default_domain_id}
use rmw_cyclonedds_c.Ledger.{Resource, take_up_if, give_back_if}
use rmw_cyclonedds_c.Context.Options.{
  is_some, DiscoveryRange, InitOptions, zero_options, zero_discovery, has_peers, Finalised,
  give_back_options, options_init, options_fini, CopyAnswers, copy_parts, copy_from, options_copy,
}

-- The memory that options own.
abbrev pub owned_by_options : InitOptions → List Resource → List Resource
owned_by_options o live = take_up_if (is_some o.enclave) Resource.enclave (
    take_up_if (is_some o.security.security_root_path) Resource.security_options
      (take_up_if (has_peers o.discovery) Resource.discovery_options live))

abbrev pub AllOk : Finalised → Type 0
AllOk f = (f.discovery ≡ ok) × (f.security ≡ ok) × (f.enclave ≡ ok)

given_back :
    (x y z : Bool) (live : List Resource)
    → give_back_if z Resource.enclave (
        give_back_if y Resource.security_options (
          give_back_if x Resource.discovery_options (
            take_up_if z Resource.enclave (
              take_up_if y Resource.security_options
                (take_up_if x Resource.discovery_options live)))))
      ≡ live
unfolding give_back_if
given_back true true true live = refl
given_back true true false live = refl
given_back true false true live = refl
given_back true false false live = refl
given_back false true true live = refl
given_back false true false live = refl
given_back false false true live = refl
given_back false false false live = refl

-- Finalisers that succeed give back all that options own.
pub give_back_options-owned :
    (f : Finalised) (o : InitOptions) (live : List Resource)
    → AllOk f
    → give_back_options f o (owned_by_options o live) ≡ live
unfolding give_back_options
give_back_options-owned f o live h =
    rw (h.0, h.1, h.2)
      (given_back (has_peers o.discovery) (is_some o.security.security_root_path)
        (is_some o.enclave) live)

-- Options that own nothing yet, as `rmw_init_options_init` makes them.
abbrev pub IsBlank : InitOptions → Type 0
IsBlank o =
    (has_peers o.discovery ≡ false) × (o.security.security_root_path ≡ none) × (o.enclave ≡ none)

-- Wherever the copy stops, the memory is that of what has been copied; where it does not stop, all
-- has been.
record PartlyCopied (source copy : InitOptions) (live : List Resource)
    (r : Ret × InitOptions × List Resource) : Type 0 where
  owned : r.2 ≡ owned_by_options r.1 live
  identifier : r.1.identifier ≡ copy.identifier
  complete :
      is_ok r.0 ≡ true
      → r.1 ≡ record copy {
        discovery = source.discovery;
        security = source.security;
        enclave = source.enclave;
      }

copy_parts-PartlyCopied :
    (a : CopyAnswers) (source copy : InitOptions) (live : List Resource)
    → IsBlank copy
    → PartlyCopied source copy live (copy_parts a source copy live)
unfolding copy_parts
copy_parts-PartlyCopied a source copy live b = elim (Bool-cases (is_ok a.fini)) [
  | inr e ↦
      rw (copy_parts, e)
        (record {
          owned = rw (b.0, b.1, b.2) refl;
          identifier = refl;
          complete = λ h. cc (sym e ∙ h);
        })
  | inl e ↦ elim (Bool-cases (is_ok a.discovery)) [
    | inr f ↦
        rw (copy_parts, e, f)
          (record { owned = rw (b.1, b.2) refl; identifier = refl; complete = λ h. cc (sym f ∙ h) })
    | inl f ↦ elim (Bool-cases (is_ok a.security)) [
      | inr g ↦
          rw (copy_parts, e, f, g)
            (record {
              owned = rw (b.1, b.2) refl;
              identifier = refl;
              complete = λ h. cc (sym g ∙ h);
            })
      | inl g ↦ elim (Bool-cases (is_some source.enclave && not (is_ok a.enclave))) [
        | inl k ↦
            rw (copy_parts, e, f, g, k)
              (record {
                owned = rw (b.2) refl;
                identifier = refl;
                complete = λ h. cc (
                    sym (ap not h)
                    ∙ (&&-true (is_some source.enclave) (not (is_ok a.enclave)) k).1);
              })
        | inr k ↦
            rw (copy_parts, e, f, g, k)
              (record { owned = refl; identifier = refl; complete = λ h. refl })
      ]
    ]
  ]
]

-- A copy that returns OK is its source, and owns memory of its own for each part; one that fails
-- leaves the destination and the memory as they were.
abbrev pub Copied :
    InitOptions → InitOptions → List Resource → Ret × InitOptions × List Resource → Type 0
Copied source destination live r =
    if is_ok r.0
    then ((r.1 ≡ source) × (r.2 ≡ owned_by_options source live))
    else ((r.1 ≡ destination) × (r.2 ≡ live))

options_init-cases :
    (init : Ret) (valid : Bool)
    → ((valid ≡ true)
        × (options_init init valid zero_options ≡ (
          ok,
          record zero_options {
            identifier = some implementation_identifier;
            domain_id = default_domain_id;
            discovery = record zero_discovery { range = DiscoveryRange.system_default };
            allocator_is_valid = true;
          },
        )))
      ⊎ (is_ok (options_init init valid zero_options).0 ≡ false)
unfolding options_init
options_init-cases init false = inr refl
options_init-cases init true = elim (Bool-cases (is_ok init)) [
  | inl e ↦ inl (refl, rw (options_init, e) refl)
  | inr e ↦ inr (rw (options_init, e) e)
]

pub options_fini-own :
    (f : Finalised) (o : InitOptions) (live : List Resource)
    → o.identifier ≡ some implementation_identifier
    → (options_fini f o live).2 ≡ give_back_options f o live
unfolding options_fini identifiers_match bytes_eq
options_fini-own f o live h = rw h refl

module _ (a : CopyAnswers) (source destination : InitOptions) (live : List Resource)
    (match : identifiers_match source.identifier ≡ true) (cleanup : AllOk a.cleanup) where
  abbrev blank : InitOptions
  blank = record zero_options {
    identifier = some implementation_identifier;
    instance_id = source.instance_id;
    domain_id = source.domain_id;
    discovery = record zero_discovery { range = DiscoveryRange.system_default };
    allocator_is_valid = true;
  }

  copy_from-Copied : Copied source destination live (copy_from a source destination live)
  unfolding copy_from
  copy_from-Copied =
      let parts : Ret × InitOptions × List Resource = copy_parts a source blank live in
      let p : PartlyCopied source blank live parts =
        copy_parts-PartlyCopied a source blank live (refl, refl, refl) in
      elim (options_init-cases a.init source.allocator_is_valid) [
        | inl e ↦ elim (Bool-cases (is_ok parts.0)) [
          | inl f ↦
              rw (copy_from, e.1, f)
                (
                  p.complete f ∙ (λ i. record source {
                    identifier = sym (identifiers_match-eq source.identifier match) i;
                    allocator_is_valid = sym e.0 i;
                  }),
                  p.owned ∙ ap (λ o. owned_by_options o live) (p.complete f),
                )
          | inr f ↦
              rw (copy_from, e.1, f)
                (rw f (
                  refl,
                  options_fini-own a.cleanup parts.1 parts.2 p.identifier
                      ∙ ap (give_back_options a.cleanup parts.1) p.owned
                      ∙ give_back_options-owned a.cleanup parts.1 live cleanup,
                ))
        ]
        | inr e ↦ rw (copy_from, e) (rw e (refl, refl))
      ]

-- `rmw_init_options_copy`, where the finalisers of the rmw library succeed: if it returns OK, the
-- destination is equal to the source in every part, and owns memory of its own for each part that
-- needs some. If it returns anything else, at whichever call, the destination and the memory are as
-- before: what had been copied is given back.
pub options_copy-Copied :
    (a : CopyAnswers) (same : Bool) (source destination : InitOptions) (live : List Resource)
    → AllOk a.cleanup
    → Copied source destination live (options_copy a same source destination live)
unfolding options_copy
options_copy-Copied a same source destination live h =
    elim (Bool-cases (same || not (is_some source.identifier) || is_some destination.identifier)) [
      | inl e ↦ rw (options_copy, e) (refl, refl)
      | inr e ↦ elim (Bool-cases (identifiers_match source.identifier)) [
        | inl f ↦ rw (options_copy, e, f) (copy_from-Copied a source destination live f h)
        | inr f ↦ rw (options_copy, e, f) (refl, refl)
      ]
    ]
