-- ===== src/WaitSet/Series.antt =====
-- A wait set from its making on, through any number of waits.
use rmw_cyclonedds_c.Common.{
  ℕ, ◌≡◌, refl, sym, ◌∙◌, Bool, true, false, if◌then◌else◌, not, List, [], ◌∷◌, ◌++◌, Option, some,
  CString, ◌==◌, if_elim,
}
use mathlib.Core.Path.{subst}
use mathlib.Core.Option
use rmw_cyclonedds_c.Common.Table.{Fits, empty, contents}
use rmw_cyclonedds_c.Common.Table.Contents.{empty-Fits}
use rmw_cyclonedds_c.Rmw.{Ret, ℤ, pos, invalid_argument, unsupported}
use rmw_cyclonedds_c.Handles.{identifiers_match}
use rmw_cyclonedds_c.WaitSet.{WaitSetData, Dds, Conditions, wait_on, wait}
use rmw_cyclonedds_c.WaitSet.Attached.{is_done, entities, Waited, wait_on-Waited}
use rmw_cyclonedds_c.WaitSet.Held.{covers, IsHeld, wait_on-IsHeld}

-- A call of `rmw_wait`, and what DDS answers.
pub record Call : Type 0 where
  pub dds : Dds
  pub others : ℕ
  pub conditions : Conditions

-- What a call leaves of the wait set with this identifier.
abbrev pub after_call : Option CString → Call → WaitSetData → WaitSetData
after_call identifier k d =
    Option.get_or
      (wait k.dds k.others k.conditions
        (some (record { implementation_identifier = identifier; wait_set_data = some d }))).3
      d

abbrev pub after_calls : Option CString → List Call → WaitSetData → WaitSetData
after_calls identifier [] d = d
after_calls identifier (k ∷ ks) d = after_calls identifier ks (after_call identifier k d)

-- The zeroed memory of a new wait set.
abbrev pub new_wait_set : ℕ → List ℤ → WaitSetData
new_wait_set capacity triggered = record {
  waitset = [];
  attached = empty (pos 0) capacity;
  triggered = triggered;
  capacity = capacity;
}

-- The attached conditions fit, the room is that of the making, and DDS has nothing attached that the
-- program does not know of.
abbrev HasRoom : ℕ → WaitSetData → Type 0
HasRoom capacity d =
    Fits capacity d.attached
    × (d.capacity ≡ capacity)
    × (covers (contents d.attached) d.waitset ≡ true)

after_call-HasRoom :
    (identifier : Option CString) (k : Call) (capacity : ℕ) (d : WaitSetData)
    → HasRoom capacity d
    → HasRoom capacity (after_call identifier k d)
unfolding wait
after_call-HasRoom identifier k capacity d h =
    let kept : Ret × Conditions × List ℤ × Option WaitSetData → Type 0 =
      λ r. HasRoom capacity (Option.get_or r.3 d) in
    let fits = subst (λ n. Fits n d.attached) (sym h.1) h.0 in
    let waited = wait_on-Waited k.dds k.conditions d fits in
    if_elim kept (not (identifiers_match identifier)) (invalid_argument, k.conditions, [], some d) _
      (λ _. h)
      (λ _.
        if_elim kept (not (k.others == 0)) (unsupported, k.conditions, [], some d) _ (λ _. h)
          (λ _. (
            subst (λ n. Fits n (wait_on k.dds k.conditions d).3.attached) h.1 waited.0,
            waited.1 ∙ h.1,
            (wait_on-IsHeld k.dds k.conditions d fits h.2).0,
          )))

after_calls-HasRoom :
    (identifier : Option CString) (ks : List Call) (capacity : ℕ) (d : WaitSetData)
    → HasRoom capacity d
    → HasRoom capacity (after_calls identifier ks d)
after_calls-HasRoom identifier [] capacity d h = h
after_calls-HasRoom identifier (k ∷ ks) capacity d h =
    after_calls-HasRoom identifier ks capacity (after_call identifier k d)
      (after_call-HasRoom identifier k capacity d h)

-- What DDS has attached is what `attached` holds if the wait took place: the caller's conditions.
waitset_lem :
    (d : WaitSetData) (conditions : Conditions) (r : Ret × Conditions × List ℤ × WaitSetData)
    → Waited d conditions r
    → IsHeld r
    → r.3.waitset ≡ (
        if is_done r.0
        then entities conditions.subscriptions ++ entities conditions.guard_conditions
        else r.3.waitset)
waitset_lem d conditions r waited held = go (is_done r.0) held.1 waited.2
  where
    go :
        (b : Bool)
        → r.3.waitset ≡ (if b then contents r.3.attached else r.3.waitset)
        → contents r.3.attached ≡ (
            if b
            then entities conditions.subscriptions ++ entities conditions.guard_conditions
            else contents r.3.attached)
        → r.3.waitset ≡ (
            if b
            then entities conditions.subscriptions ++ entities conditions.guard_conditions
            else r.3.waitset)
    go true e g = e ∙ g
    go false e g = refl

-- `rmw_wait` behind its guards, on a wait set on which `rmw_wait` has been called any number of times,
-- with any arguments and whatever DDS answered, so also where it failed half way: it never attaches
-- more conditions than the wait set was made for, and DDS never has one attached that the program does
-- not list. Where it returns OK or a timeout, both DDS's wait set and the program's list hold exactly
-- the caller's conditions, those of the subscriptions in front; nothing of the waits before is left.
pub wait_on-after_calls :
    (identifier : Option CString) (ks : List Call) (capacity : ℕ) (triggered : List ℤ) (dds : Dds)
    (conditions : Conditions)
    → let d = after_calls identifier ks (new_wait_set capacity triggered) in
      let r = wait_on dds conditions d in
      Fits capacity r.3.attached
      × Waited d conditions r
      × (covers (contents r.3.attached) r.3.waitset ≡ true)
      × (r.3.waitset ≡ (
          if is_done r.0
          then entities conditions.subscriptions ++ entities conditions.guard_conditions
          else r.3.waitset))
wait_on-after_calls identifier ks capacity triggered dds conditions =
    let d = after_calls identifier ks (new_wait_set capacity triggered) in
    let room =
      after_calls-HasRoom identifier ks capacity (new_wait_set capacity triggered)
        (empty-Fits (pos 0) capacity, refl, refl) in
    let fits = subst (λ n. Fits n d.attached) (sym room.1) room.0 in
    let waited = wait_on-Waited dds conditions d fits in
    let held = wait_on-IsHeld dds conditions d fits room.2 in
    (
      subst (λ n. Fits n (wait_on dds conditions d).3.attached) room.1 waited.0,
      waited,
      held.0,
      waitset_lem d conditions (wait_on dds conditions d) waited held,
    )
