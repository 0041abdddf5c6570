-- ===== src/Context/Lifecycle/Tests.antt =====
-- A context over its life: the theorems at concrete inputs.
use rmw_cyclonedds_c.Common.{◌≡◌, refl, true, false, [], ◌∷◌, none, some, bytes_eq, Option, CString}
use rmw_cyclonedds_c.Common.Table.{search}
use rmw_cyclonedds_c.Rmw.{ok, error, pos, negsuc, is_ok}
use rmw_cyclonedds_c.Handles.{implementation_identifier, identifiers_match}
use rmw_cyclonedds_c.GraphCache.{add_participant}
use rmw_cyclonedds_c.Ledger.{Resource}
use rmw_cyclonedds_c.Context.DomainId.{
  default_domain_id, get_domain_id, strtoul, skip_spaces, read_digits, parse_signed, parse_digits,
  checked,
}
use rmw_cyclonedds_c.Context.DomainId.Decimal.{domain_of, get_domain_id-decimal}
use rmw_cyclonedds_c.Context.Options.{
  InitOptions, zero_options, DiscoveryRange, CopyAnswers, Finalised, options_copy, copy_from,
  copy_parts, options_init,
}
use rmw_cyclonedds_c.Context.Options.Copied.{Copied, options_copy-Copied}
use rmw_cyclonedds_c.Context.Opening.{
  InitAnswers, open_graph, create_graph_writer, create_graph_readers, create_builtin_readers,
  create_discovery_reader, new_implementation,
}
use rmw_cyclonedds_c.Context.Lifecycle.{zero_context, FiniAnswers, init, create_context}
use rmw_cyclonedds_c.Context.Lifecycle.Balanced.{without_context, Balanced, init-Balanced}
use rmw_cyclonedds_c.Context.Lifecycle.Finished.{Ends, context_fini-init}

-- "/e" is the enclave; one static peer "p".
abbrev options : InitOptions
options = record zero_options {
  identifier = some implementation_identifier;
  instance_id = 5;
  domain_id = default_domain_id;
  discovery = record { range = DiscoveryRange.subnet; static_peers = (112 ∷ []) ∷ [] };
  enclave = some (47 ∷ 101 ∷ []);
  allocator_is_valid = true;
}

abbrev all_ok : Finalised
all_ok = record { discovery = ok; security = ok; enclave = ok }

abbrev copy_answers : CopyAnswers
copy_answers = record {
  init = ok;
  fini = ok;
  discovery = ok;
  security = ok;
  enclave = ok;
  cleanup = all_ok;
}

abbrev pub answers : InitAnswers
answers = record {
  memory = true;
  domain = pos 1;
  participant = pos 2;
  guid_result = pos 0;
  guid = 7;
  graph_topic = pos 3;
  writer_qos_made = true;
  graph_writer = pos 4;
  graph_guard = pos 5;
  reader_qos_made = true;
  graph_listener = true;
  graph_reader = pos 6;
  participant_listener = true;
  participant_reader = pos 8;
  publication_listener = true;
  publication_reader = pos 9;
  subscription_listener = true;
  subscription_reader = pos 10;
  options = copy_answers;
  participant_deleted = pos 0;
  domain_deleted = pos 0;
}

abbrev fini_answers : FiniAnswers
fini_answers = record { participant_deleted = negsuc 0; domain_deleted = pos 0; options = all_ok }

-- ROS_DOMAIN_ID is "42".
abbrev forty_two : Option CString
forty_two = some (52 ∷ 50 ∷ [])

succeeds :
    is_ok (init answers 1 forty_two (some options) (some zero_context) (without_context [])).0
    ≡ true
unfolding init create_context open_graph create_graph_writer create_graph_readers
    create_builtin_readers create_discovery_reader add_participant identifiers_match bytes_eq
    get_domain_id strtoul skip_spaces read_digits parse_signed parse_digits checked options_copy
    copy_from copy_parts options_init search new_implementation
succeeds = refl

init-Balanced_example :
    Balanced answers options
      (some zero_context)
      []
      (init answers 1 forty_two (some options) (some zero_context) (without_context []))
init-Balanced_example =
    init-Balanced answers 1 forty_two options (some zero_context) [] refl (refl, refl, refl)

context_fini-init_example :
    Ends fini_answers
      (negsuc 0)
      []
      (init answers 1 forty_two (some options) (some zero_context) (without_context [])).1
      (init answers 1 forty_two (some options) (some zero_context) (without_context [])).2
context_fini-init_example =
    context_fini-init answers 1 forty_two options (some zero_context) [] fini_answers (negsuc 0)
      refl (refl, refl, refl) refl (refl, refl, refl) succeeds

-- The enclave cannot be copied: what had been copied is given back.
options_copy-Copied_example : Copied options zero_options (Resource.context_impl ∷ []) (
    options_copy
      (record copy_answers { enclave = error })
      false
      options
      zero_options
      (Resource.context_impl ∷ []))
options_copy-Copied_example =
    options_copy-Copied (record copy_answers { enclave = error }) false options zero_options
      (Resource.context_impl ∷ []) (refl, refl, refl)

get_domain_id-decimal_example :
    (get_domain_id default_domain_id (some (52 ∷ 50 ∷ [])) ≡ domain_of 42)
    × (get_domain_id default_domain_id (some (45 ∷ 52 ∷ 50 ∷ [])) ≡ none)
get_domain_id-decimal_example = get_domain_id-decimal 52 (50 ∷ []) (refl, (refl, tt))
