-- ===== src/Waitables.antt =====
-- Guard conditions, and the making and destroying of wait sets, in
-- rmw_cyclonedds_c/src/rmw_cyclonedds_c.c: `rmw_create_guard_condition`,
-- `rmw_destroy_guard_condition`, `rmw_trigger_guard_condition`, `rmw_create_wait_set`,
-- `rmw_destroy_wait_set`, on the ledger. The results of the allocator and of DDS are
-- arguments.
pub mod Ledger
pub mod Destruction
pub mod Tests
use rmw_cyclonedds_c.Common.{
  ℕ, Bool, true, false, ◌&&◌, ◌||◌, not, List, [], ◌∷◌, Option, none, some, CString, ◌==◌,
  if◌then◌else◌,
}
use rmw_cyclonedds_c.Rmw.{
  Ret, ok, invalid_argument, incorrect_rmw_implementation, is_ok, ℤ, is_negative, is_positive,
  map_dds_result,
}
use rmw_cyclonedds_c.Handles.{ContextHandle, identifiers_match}
use rmw_cyclonedds_c.Ledger.{Resource, take_up_if, give_back, give_back_if}
use rmw_cyclonedds_c.WaitSet.{capacity_of}

-- The guard of both creations.
unfoldable pub context_is_usable : Option ContextHandle → Bool
context_is_usable none = false
context_is_usable (some context) = not (
    not (identifiers_match context.implementation_identifier)
    || context.impl == 0
    || context.shutdown)

pub record GuardAnswers : Type 0 where
  pub handle_memory : Bool
  pub data_memory : Bool
  pub entity : ℤ

-- The label `fail` of `rmw_create_guard_condition`.
unfoldable pub fail_guard : Bool → Bool → List Resource → List Resource
fail_guard has_handle has_data live =
    give_back_if has_handle Resource.handle (give_back_if has_data Resource.guard_data live)

-- The entity of the new guard condition, or `none`.
unfoldable pub create_guard_condition :
    GuardAnswers → Option ContextHandle → List Resource → Option ℤ × List Resource
create_guard_condition a context live =
    let live1 =
      take_up_if a.data_memory Resource.guard_data
        (take_up_if a.handle_memory Resource.handle live) in
    let live2 =
      take_up_if (is_positive a.entity) Resource.guard
        (Resource.guard_data ∷ Resource.handle ∷ live) in
    if not (context_is_usable context)
    then (none, live)
    else if not a.handle_memory || not a.data_memory
    then (none, fail_guard a.handle_memory a.data_memory live1)
    else if is_negative a.entity
    then (none, fail_guard true true live2)
    else (some a.entity, live2)

-- `deleted` is what `dds_delete` returns. A handle that is null or has no data is `none`.
unfoldable pub destroy_guard_condition :
    ℤ → Option (Option CString) → List Resource → Ret × List Resource
destroy_guard_condition deleted none live = (invalid_argument, live)
destroy_guard_condition deleted (some identifier) live =
    let result = map_dds_result deleted in
    if not (identifiers_match identifier) then (invalid_argument, live) else (
      result,
      give_back Resource.handle
          (give_back Resource.guard_data (give_back_if (is_ok result) Resource.guard live)),
    )

pub record WaitSetAnswers : Type 0 where
  pub handle_memory : Bool
  pub data_memory : Bool
  pub attached_memory : Bool
  pub triggered_memory : Bool
  pub waitset : ℤ

-- The label `fail` of `rmw_create_wait_set`.
unfoldable pub fail_wait_set : Bool → Bool → Bool → Bool → List Resource → List Resource
fail_wait_set has_handle has_data has_attached has_triggered live =
    let live1 = give_back_if (has_data && has_attached) Resource.attached live in
    let live2 = give_back_if (has_data && has_triggered) Resource.triggered live1 in
    let live3 = give_back_if has_data Resource.wait_set_data live2 in
    give_back_if has_handle Resource.handle live3

-- The capacity of the new wait set, or `none`.
unfoldable pub create_wait_set :
    WaitSetAnswers → Option ContextHandle → ℕ → List Resource → Option ℕ × List Resource
create_wait_set a context max_conditions live =
    let live1 =
      take_up_if a.data_memory Resource.wait_set_data
        (take_up_if a.handle_memory Resource.handle live) in
    let live2 = take_up_if a.triggered_memory Resource.triggered (
      take_up_if a.attached_memory Resource.attached
        (Resource.wait_set_data ∷ Resource.handle ∷ live)) in
    let live3 =
      take_up_if (is_positive a.waitset) Resource.waitset (
        Resource.triggered ∷ Resource.attached ∷ Resource.wait_set_data ∷ Resource.handle ∷ live) in
    if not (context_is_usable context) then (none, live) else elim (capacity_of max_conditions) [
      | none ↦ (none, live)
      | some capacity ↦
          if not a.handle_memory || not a.data_memory
          then (none, fail_wait_set a.handle_memory a.data_memory false false live1)
          else if not a.attached_memory || not a.triggered_memory
          then (none, fail_wait_set true true a.attached_memory a.triggered_memory live2)
          else if is_negative a.waitset
          then (none, fail_wait_set true true true true live3)
          else (some capacity, live3)
    ]

-- A handle that is null or has no data is `none`.
unfoldable pub destroy_wait_set : ℤ → Option (Option CString) → List Resource → Ret × List Resource
destroy_wait_set deleted none live = (invalid_argument, live)
destroy_wait_set deleted (some none) live = (invalid_argument, live)
destroy_wait_set deleted (some (some identifier)) live =
    let result = map_dds_result deleted in
    if not (identifiers_match (some identifier)) then (incorrect_rmw_implementation, live) else (
      result,
      give_back Resource.handle (
          give_back Resource.wait_set_data (
            give_back Resource.triggered
              (give_back Resource.attached (give_back_if (is_ok result) Resource.waitset live)))),
    )

-- `rmw_trigger_guard_condition`; `guard_set` is what `dds_set_guardcondition` returns. The second
-- part says whether it is called. A handle that is null or has no data is `none`.
unfoldable pub trigger_guard_condition : ℤ → Option (Option CString) → Ret × Bool
trigger_guard_condition guard_set none = (invalid_argument, false)
trigger_guard_condition guard_set (some identifier) =
    if not (identifiers_match identifier)
    then (invalid_argument, false)
    else (map_dds_result guard_set, true)
