-- ===== src/WaitSet.antt =====
-- Wait sets of rmw_cyclonedds_c/src/rmw_cyclonedds_c.c: `wait_set_data_t`, `attach_entity`,
-- `attachment_was_triggered` and `rmw_wait`. What DDS has attached to its wait set is part of the
-- state: a call of `dds_waitset_attach` or `dds_waitset_detach` changes it if it does not return a
-- negative code. What these calls return, for the entity and what is attached at the time, and what
-- `dds_waitset_wait` returns and writes, are arguments; the timeout only goes to the last of these and
-- is not kept. A null entry of the caller's arrays is `none`, any other entry stands for its
-- condition.
pub mod Attached
pub mod Held
pub mod Stuck
pub mod Timeout
pub mod Series
pub mod Tests
use rmw_cyclonedds_c.Common.{
  ℕ, ◌-◌, ◌/◌, ◌^◌, Bool, true, false, ◌||◌, not, List, [], ◌∷◌, Option, none, some, ltb, leb, ◌==◌,
  if◌then◌else◌, take, ◌++◌,
}
use rmw_cyclonedds_c.Common.Table.{Table, contents, push}
use rmw_cyclonedds_c.Rmw.{
  Ret, ok, error, timeout, unsupported, invalid_argument, is_ok, ℤ, pos, negsuc, is_negative,
}
use rmw_cyclonedds_c.Handles.{identifiers_match}

-- `wait_set_data_t`: `waitset`, as what DDS has attached to it, `attached` with `attached_count`, and
-- `triggered`.
pub record WaitSetData : Type 0 where
  pub waitset : List ℤ
  pub attached : Table ℤ
  pub triggered : List ℤ
  pub capacity : ℕ

-- `rmw_wait_set_t`
pub record WaitSetHandle : Type 0 where
  pub implementation_identifier : Option (List ℕ)
  pub wait_set_data : Option WaitSetData

-- `max_conditions` conditions, or 16; `none` where the arrays' sizes would overflow. A
-- `dds_entity_t` has 4 bytes, a `dds_attach_t` 8.
unfoldable pub capacity_of : ℕ → Option ℕ
capacity_of max_conditions =
    let capacity = if max_conditions == 0 then 16 else max_conditions in
    if ltb ((2 ^ 64 - 1) / 4) capacity || ltb ((2 ^ 64 - 1) / 8) capacity
    then none
    else some capacity

unfoldable pub same_entity : ℤ → ℤ → Bool
same_entity (pos m) (pos n) = m == n
same_entity (pos m) (negsuc n) = false
same_entity (negsuc m) (pos n) = false
same_entity (negsuc m) (negsuc n) = m == n

unfoldable pub triggered_in : List ℤ → ℤ → Bool
triggered_in [] attachment = false
triggered_in (t ∷ ts) attachment =
    let rest = triggered_in ts attachment in if same_entity t attachment then true else rest

unfoldable pub attachment_was_triggered : WaitSetData → ℤ → ℕ → Bool
attachment_was_triggered d attachment triggered_count =
    triggered_in (take triggered_count d.triggered) attachment

unfoldable pub attach_entity : (List ℤ → ℤ → ℤ) → WaitSetData → ℤ → Ret × WaitSetData
attach_entity attach d entity =
    if leb d.capacity d.attached.count
    then (invalid_argument, d)
    else if is_negative (attach d.waitset entity)
    then (error, d)
    else (ok, record d { waitset = d.waitset ++ (entity ∷ []); attached = push d.attached entity })

-- What `dds_waitset_detach` leaves attached.
abbrev pub without_entity : ℤ → List ℤ → List ℤ
without_entity entity [] = []
without_entity entity (x ∷ xs) =
    let rest = without_entity entity xs in if same_entity entity x then rest else x ∷ rest

-- The loop that detaches, where DDS has `waitset` attached; false where a call fails.
unfoldable pub detach_all : (List ℤ → ℤ → ℤ) → List ℤ → List ℤ → Bool × List ℤ
detach_all detach [] waitset = (true, waitset)
detach_all detach (entity ∷ entities) waitset =
    let rest = detach_all detach entities (without_entity entity waitset) in
    if is_negative (detach waitset entity) then (false, waitset) else rest

-- The loop that attaches the conditions of one of the caller's arrays.
unfoldable pub attach_all : (List ℤ → ℤ → ℤ) → List (Option ℤ) → WaitSetData → Ret × WaitSetData
attach_all attach [] d = (ok, d)
attach_all attach (none ∷ entries) d = (invalid_argument, d)
attach_all attach (some entity ∷ entries) d =
    let (result, d') = attach_entity attach d entity in
    let rest = attach_all attach entries d' in if not (is_ok result) then (result, d') else rest

-- The loop that sets the entries to null that were not triggered.
unfoldable pub keep_triggered : WaitSetData → ℕ → List (Option ℤ) → List (Option ℤ)
keep_triggered d n [] = []
keep_triggered d n (none ∷ entries) = none ∷ keep_triggered d n entries
keep_triggered d n (some entity ∷ entries) =
    (if attachment_was_triggered d entity n then some entity else none) ∷ keep_triggered d n entries

-- The guard conditions that `dds_take_guardcondition` resets.
unfoldable pub reset_guards : WaitSetData → ℕ → List (Option ℤ) → List ℤ
reset_guards d n [] = []
reset_guards d n (none ∷ entries) = reset_guards d n entries
reset_guards d n (some entity ∷ entries) =
    let rest = reset_guards d n entries in
    if attachment_was_triggered d entity n then entity ∷ rest else rest

-- What the calls of DDS return during a wait, and what `dds_waitset_wait` writes.
pub record Dds : Type 0 where
  pub detach : List ℤ → ℤ → ℤ
  pub attach : List ℤ → ℤ → ℤ
  pub wait_result : ℤ
  pub woken : List ℤ

-- The caller's arrays; a null pointer to one is an empty array.
pub record Conditions : Type 0 where
  pub subscriptions : List (Option ℤ)
  pub guard_conditions : List (Option ℤ)

-- The part of `rmw_wait` behind `dds_waitset_wait`. The list holds the guard conditions that are reset.
unfoldable pub report_triggered :
    Dds → Conditions → WaitSetData → Ret × Conditions × List ℤ × WaitSetData
report_triggered dds conditions d = elim dds.wait_result [
  | negsuc n ↦ (error, conditions, [], d)
  | pos n ↦
      let count = if ltb n d.capacity then n else d.capacity in
      let d' = record d { triggered = dds.woken } in
      (
        if n == 0 then timeout else ok,
        record {
          subscriptions = keep_triggered d' count conditions.subscriptions;
          guard_conditions = keep_triggered d' count conditions.guard_conditions;
        },
        reset_guards d' count conditions.guard_conditions,
        d',
      )
]

-- The part of `rmw_wait` behind its guards.
unfoldable pub wait_on : Dds → Conditions → WaitSetData → Ret × Conditions × List ℤ × WaitSetData
wait_on dds conditions d =
    let (detached, left) = detach_all dds.detach (contents d.attached) d.waitset in
    let d' = record d { waitset = left } in
    if not detached
    then (error, conditions, [], d')
    else (let d0 = record d' { attached = record d.attached { count = 0 } } in
        let (result, d1) = attach_all dds.attach conditions.subscriptions d0 in
        let (result', d2) = attach_all dds.attach conditions.guard_conditions d1 in
        if not (is_ok result)
        then (result, conditions, [], d1)
        else if not (is_ok result')
        then (result', conditions, [], d2)
        else report_triggered dds conditions d2)

-- `others` is the number of services, clients and events.
unfoldable pub wait :
    Dds → ℕ → Conditions → Option WaitSetHandle → Ret × Conditions × List ℤ × Option WaitSetData
wait dds others conditions none = (invalid_argument, conditions, [], none)
wait dds others conditions (some handle) = elim handle.wait_set_data [
  | none ↦ (invalid_argument, conditions, [], none)
  | some d ↦
      if not (identifiers_match handle.implementation_identifier)
      then (invalid_argument, conditions, [], some d)
      else if not (others == 0)
      then (unsupported, conditions, [], some d)
      else let (result, conditions', resets, d') = wait_on dds conditions d in
        (result, conditions', resets, some d')
]
