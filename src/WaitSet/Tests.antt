-- ===== src/WaitSet/Tests.antt =====
-- A wait on a subscription and a guard condition: the theorems at concrete inputs.
use rmw_cyclonedds_c.Common.{
  ◌≡◌, refl, Bool, true, false, if◌then◌else◌, List, [], ◌∷◌, ◌++◌, none, some, arith,
}
use rmw_cyclonedds_c.Common.Table.{contents, Fits, push}
use rmw_cyclonedds_c.Rmw.{ℤ, is_negative, pos, negsuc, error, timeout}
use rmw_cyclonedds_c.Handles.{implementation_identifier}
use rmw_cyclonedds_c.WaitSet.{
  WaitSetData, Dds, Conditions, wait_on, detach_all, attach_all, attach_entity, report_triggered,
  keep_triggered, attachment_was_triggered, triggered_in, same_entity, without_entity,
}
use rmw_cyclonedds_c.WaitSet.Attached.{is_done, entities, Waited}
use rmw_cyclonedds_c.WaitSet.Held.{covers}
use rmw_cyclonedds_c.WaitSet.Stuck.{wait_on-stuck}
use rmw_cyclonedds_c.WaitSet.Series.{Call, after_calls, new_wait_set, wait_on-after_calls}
use rmw_cyclonedds_c.WaitSet.Timeout.{cleared, wait_on-timeout}

-- Room for two conditions; 5 is attached from the wait before.
abbrev wait_set : WaitSetData
wait_set = record {
  waitset = pos 5 ∷ [];
  attached = record { slots = pos 5 ∷ pos 0 ∷ []; count = 1 };
  triggered = pos 0 ∷ pos 0 ∷ [];
  capacity = 2;
}

abbrev conditions : Conditions
conditions = record { subscriptions = some (pos 6) ∷ []; guard_conditions = some (pos 7) ∷ [] }

-- Condition 7 is triggered.
abbrev woken : Dds
woken = record {
  detach = λ _ _. pos 0;
  attach = λ _ _. pos 0;
  wait_result = pos 1;
  woken = pos 7 ∷ pos 0 ∷ [];
}

-- Nothing is triggered in time.
abbrev idle : Dds
idle = record {
  detach = λ _ _. pos 0;
  attach = λ _ _. pos 0;
  wait_result = pos 0;
  woken = pos 0 ∷ pos 0 ∷ [];
}

-- Condition 8 cannot be detached, nor one that is not attached.
abbrev broken : Dds
broken = record {
  detach = λ waitset entity.
      if same_entity entity (pos 8)
      then negsuc 0
      else if triggered_in waitset entity
      then pos 0
      else negsuc 0;
  attach = λ _ _. pos 0;
  wait_result = pos 0;
  woken = pos 0 ∷ pos 0 ∷ [];
}

-- A wait that attaches the subscription and fails at the guard condition, which a wait set of one has
-- no room for; then one that the subscription is detached in.
abbrev failed_waits : List Call
failed_waits =
    record { dds = woken; others = 0; conditions = conditions }
    ∷ record { dds = broken; others = 0; conditions = conditions }
    ∷ []

wait_on-after_calls_example :
    let d =
      after_calls (some implementation_identifier) failed_waits (new_wait_set 1 (pos 0 ∷ [])) in
    let r = wait_on idle conditions d in
    Fits 1 r.3.attached
    × Waited d conditions r
    × (covers (contents r.3.attached) r.3.waitset ≡ true)
    × (r.3.waitset ≡ (
        if is_done r.0
        then entities conditions.subscriptions ++ entities conditions.guard_conditions
        else r.3.waitset))
wait_on-after_calls_example =
    wait_on-after_calls (some implementation_identifier) failed_waits 1 (pos 0 ∷ []) idle conditions

-- 5 and 8 are attached.
abbrev full_set : WaitSetData
full_set = record {
  waitset = pos 5 ∷ pos 8 ∷ [];
  attached = record { slots = pos 5 ∷ pos 8 ∷ []; count = 2 };
  triggered = pos 0 ∷ pos 0 ∷ [];
  capacity = 2;
}

broken_refuses :
    (ws : List ℤ) (y : ℤ) → triggered_in ws y ≡ false → is_negative (broken.detach ws y) ≡ true
broken_refuses ws y h = go (same_entity y (pos 8)) (triggered_in ws y) h
  where
    go :
        (b c : Bool)
        → c ≡ false
        → is_negative (if b then negsuc 0 else if c then pos 0 else negsuc 0) ≡ true
    go true c h = refl
    go false true h = absurd (ground (arith, h))
    go false false h = refl

first_goes : is_negative (broken.detach full_set.waitset (pos 5)) ≡ false
unfolding same_entity triggered_in
first_goes = refl

second_stays :
    (detach_all broken.detach (pos 8 ∷ []) (without_entity (pos 5) full_set.waitset)).0 ≡ false
unfolding same_entity triggered_in detach_all
second_stays = refl

wait_on-stuck_example :
    let r = wait_on broken conditions full_set in
    (r.0 ≡ error)
    × (r.3.attached ≡ full_set.attached)
    × (triggered_in r.3.waitset (pos 5) ≡ false)
    × (wait_on broken conditions r.3 ≡ (error, conditions, [], r.3))
wait_on-stuck_example =
    wait_on-stuck broken conditions full_set (pos 5) (pos 8 ∷ []) refl first_goes second_stays
      broken conditions broken_refuses

idle_times_out : (wait_on idle conditions wait_set).0 ≡ timeout
unfolding wait_on detach_all attach_all attach_entity report_triggered push
idle_times_out = refl

wait_on-timeout_example :
    ((wait_on idle conditions wait_set).1.subscriptions ≡ cleared conditions.subscriptions)
    × ((wait_on idle conditions wait_set).1.guard_conditions ≡ cleared conditions.guard_conditions)
    × ((wait_on idle conditions wait_set).2 ≡ [])
wait_on-timeout_example =
    wait_on-timeout idle conditions wait_set (refl, omega arith) idle_times_out

-- The subscription's entry goes, and the guard condition's stays and is reset.
guard_wakes :
    (wait_on woken conditions wait_set).1
    ≡ record { subscriptions = none ∷ []; guard_conditions = some (pos 7) ∷ [] }
unfolding wait_on detach_all attach_all attach_entity report_triggered keep_triggered
    attachment_was_triggered triggered_in same_entity push
guard_wakes = refl
