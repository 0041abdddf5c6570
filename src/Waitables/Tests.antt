-- ===== src/Waitables/Tests.antt =====
-- Guard conditions and wait sets made and destroyed: the theorems at concrete inputs.
use rmw_cyclonedds_c.Common.{◌≡◌, refl, true, false, [], some, bytes_eq}
use rmw_cyclonedds_c.Rmw.{pos, is_ok, map_dds_result}
use rmw_cyclonedds_c.Handles.{ContextHandle, implementation_identifier, identifiers_match}
use rmw_cyclonedds_c.Ledger.{Resource}
use rmw_cyclonedds_c.WaitSet.{capacity_of}
use rmw_cyclonedds_c.Waitables.{
  WaitSetAnswers, create_wait_set, destroy_wait_set, context_is_usable,
}
use rmw_cyclonedds_c.Waitables.Destruction.{Life, destroy_wait_set-create_wait_set}

abbrev own_context : ContextHandle
own_context = record {
  implementation_identifier = some implementation_identifier;
  impl = 1;
  shutdown = false;
}

abbrev wait_set_answers : WaitSetAnswers
wait_set_answers = record {
  handle_memory = true;
  data_memory = true;
  attached_memory = true;
  triggered_memory = true;
  waitset = pos 22;
}

own_identifier : identifiers_match (some implementation_identifier) ≡ true
unfolding identifiers_match bytes_eq
own_identifier = refl

destroy_wait_set-create_wait_set_example :
    Life Resource.waitset
      (destroy_wait_set (pos 0) (some (some implementation_identifier)))
      (is_ok (map_dds_result (pos 0)))
      []
      (create_wait_set wait_set_answers (some own_context) 4 [])
destroy_wait_set-create_wait_set_example =
    destroy_wait_set-create_wait_set wait_set_answers (some own_context) 4 (pos 0)
      implementation_identifier [] refl own_identifier

is_made : (create_wait_set wait_set_answers (some own_context) 4 []).0 ≡ some 4
unfolding create_wait_set context_is_usable capacity_of identifiers_match bytes_eq
is_made = refl
