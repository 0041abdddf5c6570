-- ===== src/Context/Options.antt =====
-- `rmw_init_options_t` in rmw_cyclonedds_c/src/rmw_cyclonedds_c.c: `rmw_init_options_init`,
-- `rmw_init_options_copy` and `rmw_init_options_fini`. What the `rmw_*_options_*` functions of the
-- rmw library return is an argument. A copy that returns OK is equal to its source, and one that
-- fails changes nothing; a finalisation that returns OK leaves zeroes and gives the memory back.
pub mod Copied
use rmw_cyclonedds_c.Common.{
  ℕ, Bool, true, false, ◌&&◌, ◌||◌, not, List, [], ◌∷◌, Option, none, some, CString, if◌then◌else◌,
}
use rmw_cyclonedds_c.Rmw.{Ret, ok, invalid_argument, incorrect_rmw_implementation, is_ok}
use rmw_cyclonedds_c.Handles.{identifiers_match, implementation_identifier}
use rmw_cyclonedds_c.Ledger.{Resource, take_up_if, give_back_if}
use rmw_cyclonedds_c.Context.DomainId.{default_domain_id}

abbrev pub is_some {ℓ} : {A : Type ℓ} → Option A → Bool
is_some none = false
is_some (some a) = true

-- `rmw_automatic_discovery_range_t`
pub data DiscoveryRange : Type 0 where
  not_set off localhost subnet system_default : DiscoveryRange

-- `rmw_discovery_options_t`; the peers are in memory of their own.
pub record DiscoveryOptions : Type 0 where
  pub range : DiscoveryRange
  pub static_peers : List CString

-- `rmw_security_options_t`
pub record SecurityOptions : Type 0 where
  pub enforce_security : ℕ
  pub security_root_path : Option CString

-- `rmw_init_options_t`. A null pointer is `none`.
pub record InitOptions : Type 0 where
  pub identifier : Option CString
  pub instance_id : ℕ
  pub domain_id : ℕ
  pub security : SecurityOptions
  pub discovery : DiscoveryOptions
  pub enclave : Option CString
  pub allocator_is_valid : Bool

abbrev pub zero_discovery : DiscoveryOptions
zero_discovery = record { range = DiscoveryRange.not_set; static_peers = [] }

abbrev pub zero_security : SecurityOptions
zero_security = record { enforce_security = 0; security_root_path = none }

-- `rmw_get_zero_initialized_init_options()`
abbrev pub zero_options : InitOptions
zero_options = record {
  identifier = none;
  instance_id = 0;
  domain_id = 0;
  security = zero_security;
  discovery = zero_discovery;
  enclave = none;
  allocator_is_valid = false;
}

abbrev pub has_peers : DiscoveryOptions → Bool
has_peers d = elim d.static_peers [ [] ↦ false | peer ∷ peers ↦ true ]

-- `rmw_init_options_init` on options that are there; `discovery_init` is what
-- `rmw_discovery_options_init` returns for no peers.
unfoldable pub options_init : Ret → Bool → InitOptions → Ret × InitOptions
options_init discovery_init allocator_is_valid options =
    if not allocator_is_valid || is_some options.identifier
    then (invalid_argument, options)
    else if not (is_ok discovery_init)
    then (discovery_init, options)
    else (
      ok,
      record zero_options {
        identifier = some implementation_identifier;
        domain_id = default_domain_id;
        discovery = record zero_discovery { range = DiscoveryRange.system_default };
        allocator_is_valid = allocator_is_valid;
      },
    )

-- What the three finalisers return.
pub record Finalised : Type 0 where
  pub discovery : Ret
  pub security : Ret
  pub enclave : Ret

-- The memory of the options that the finalisers give back.
unfoldable pub give_back_options : Finalised → InitOptions → List Resource → List Resource
give_back_options f options live =
    give_back_if (is_ok f.enclave && is_some options.enclave) Resource.enclave (
      give_back_if (is_ok f.security && is_some options.security.security_root_path)
        Resource.security_options
        (give_back_if (is_ok f.discovery && has_peers options.discovery) Resource.discovery_options
          live))

-- `rmw_init_options_fini` on options that are there.
unfoldable pub options_fini :
    Finalised → InitOptions → List Resource → Ret × InitOptions × List Resource
options_fini f options live =
    let result = if is_ok f.security then f.discovery else f.security in
    let result' = if is_some options.enclave && not (is_ok f.enclave) then f.enclave else result in
    if not (is_some options.identifier)
    then (invalid_argument, options, live)
    else if not (identifiers_match options.identifier)
    then (incorrect_rmw_implementation, options, live)
    else (result', zero_options, give_back_options f options live)

-- What the functions that a copy calls return: `fini` is that of `rmw_discovery_options_fini`.
pub record CopyAnswers : Type 0 where
  pub init : Ret
  pub fini : Ret
  pub discovery : Ret
  pub security : Ret
  pub enclave : Ret
  pub cleanup : Finalised

-- The part of a copy from `rmw_discovery_options_fini` on, until the first call fails.
unfoldable pub copy_parts :
    CopyAnswers → InitOptions → InitOptions → List Resource → Ret × InitOptions × List Resource
copy_parts a source copy live =
    let copy1 = record copy { discovery = zero_discovery } in
    let copy2 = record copy1 { discovery = source.discovery } in
    let live2 = take_up_if (has_peers source.discovery) Resource.discovery_options live in
    let copy3 = record copy2 { security = source.security } in
    let live3 =
      take_up_if (is_some source.security.security_root_path) Resource.security_options live2 in
    let copy4 = record copy3 { enclave = source.enclave } in
    let live4 = take_up_if (is_some source.enclave) Resource.enclave live3 in
    if not (is_ok a.fini)
    then (a.fini, copy, live)
    else if not (is_ok a.discovery)
    then (a.discovery, copy1, live)
    else if not (is_ok a.security)
    then (a.security, copy2, live2)
    else if is_some source.enclave && not (is_ok a.enclave)
    then (a.enclave, copy3, live3)
    else (ok, copy4, live4)

-- The part of a copy behind its guards.
unfoldable pub copy_from :
    CopyAnswers → InitOptions → InitOptions → List Resource → Ret × InitOptions × List Resource
copy_from a source destination live =
    let (started, blank) = options_init a.init source.allocator_is_valid zero_options in
    let copy = record blank { instance_id = source.instance_id; domain_id = source.domain_id } in
    let (result, copy', live') = copy_parts a source copy live in
    if not (is_ok started)
    then (started, destination, live)
    else if not (is_ok result)
    then (result, destination, (options_fini a.cleanup copy' live').2)
    else (ok, copy', live')

-- `rmw_init_options_copy` between options that are there; `same` says whether they are one object.
unfoldable pub options_copy :
    CopyAnswers
    → Bool
    → InitOptions
    → InitOptions
    → List Resource
    → Ret × InitOptions × List Resource
options_copy a same source destination live =
    if same || not (is_some source.identifier) || is_some destination.identifier
    then (invalid_argument, destination, live)
    else if not (identifiers_match source.identifier)
    then (incorrect_rmw_implementation, destination, live)
    else copy_from a source destination live

-- The three functions on pointers; a null pointer is `none`.
unfoldable pub init_options_init : Ret → Bool → Option InitOptions → Ret × Option InitOptions
init_options_init discovery_init allocator_is_valid none = (invalid_argument, none)
init_options_init discovery_init allocator_is_valid (some options) =
    let (result, options') = options_init discovery_init allocator_is_valid options in
    (result, some options')

unfoldable pub init_options_copy :
    CopyAnswers
    → Bool
    → Option InitOptions
    → Option InitOptions
    → List Resource
    → Ret × Option InitOptions × List Resource
init_options_copy a same none destination live = (invalid_argument, destination, live)
init_options_copy a same (some source) none live = (invalid_argument, none, live)
init_options_copy a same (some source) (some destination) live =
    let (result, destination', live') = options_copy a same source destination live in
    (result, some destination', live')

unfoldable pub init_options_fini :
    Finalised → Option InitOptions → List Resource → Ret × Option InitOptions × List Resource
init_options_fini f none live = (invalid_argument, none, live)
init_options_fini f (some options) live =
    let (result, options', live') = options_fini f options live in (result, some options', live')
