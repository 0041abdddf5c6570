-- ===== src/WaitSet/Timeout.antt =====
-- A wait that times out reports nothing.
use rmw_cyclonedds_c.Common.{
  ℕ, suc, ◌≡◌, refl, ap, ◌∙◌, Bool, true, false, not, ltb, List, [], ◌∷◌, map, Option, none, some,
  arith, if◌then◌else◌, if_elim, ◌==◌,
}
use rmw_cyclonedds_c.Common.Table.{contents, Fits}
use rmw_cyclonedds_c.Rmw.{
  Ret, ok, error, timeout, unsupported, bad_alloc, invalid_argument, incorrect_rmw_implementation,
  is_ok, ℤ, pos, negsuc,
}
use rmw_cyclonedds_c.WaitSet.{
  WaitSetData, Dds, Conditions, attach_all, detach_all, wait_on, report_triggered, keep_triggered,
  reset_guards, attachment_was_triggered, triggered_in,
}
use rmw_cyclonedds_c.WaitSet.Attached.{is_done, entities, attach_all-Grown, next-Fits}

-- All entries are null.
abbrev pub cleared : List (Option ℤ) → List (Option ℤ)
cleared = map (λ _. none)

keep_triggered-none :
    (d : WaitSetData) (entries : List (Option ℤ)) → keep_triggered d 0 entries ≡ cleared entries
unfolding keep_triggered attachment_was_triggered triggered_in
keep_triggered-none d [] = refl
keep_triggered-none d (none ∷ entries) = ap (λ t. none ∷ t) (keep_triggered-none d entries)
keep_triggered-none d (some entity ∷ entries) = ap (λ t. none ∷ t) (keep_triggered-none d entries)

reset_guards-none : (d : WaitSetData) (entries : List (Option ℤ)) → reset_guards d 0 entries ≡ []
unfolding reset_guards attachment_was_triggered triggered_in
reset_guards-none d [] = refl
reset_guards-none d (none ∷ entries) = reset_guards-none d entries
reset_guards-none d (some entity ∷ entries) = reset_guards-none d entries

abbrev pub is_timeout : Ret → Bool
is_timeout timeout = true
is_timeout _ = false

-- On a timeout nothing is reported.
abbrev pub Quiet : Conditions → Ret × Conditions × List ℤ × WaitSetData → Type 0
Quiet conditions r =
    is_timeout r.0 ≡ true
    → (r.1.subscriptions ≡ cleared conditions.subscriptions)
      × (r.1.guard_conditions ≡ cleared conditions.guard_conditions)
      × (r.2 ≡ [])

Quiet-not_done :
    (conditions : Conditions) (r : Ret × Conditions × List ℤ × WaitSetData)
    → is_done r.0 ≡ false
    → Quiet conditions r
Quiet-not_done conditions r h e = absurd (clash r.0 h e)
  where
    clash : (result : Ret) → is_done result ≡ false → is_timeout result ≡ true → ⊥
    clash ok h e = ground (arith, h)
    clash timeout h e = ground (arith, h)
    clash error h e = ground (arith, e)
    clash unsupported h e = ground (arith, e)
    clash bad_alloc h e = ground (arith, e)
    clash invalid_argument h e = ground (arith, e)
    clash incorrect_rmw_implementation h e = ground (arith, e)

no_room : (capacity : ℕ) → (if ltb 0 capacity then 0 else capacity) ≡ 0
no_room capacity = ground arith

report_triggered-Quiet :
    (dds : Dds) (conditions : Conditions) (d : WaitSetData)
    → Quiet conditions (report_triggered dds conditions d)
unfolding report_triggered
report_triggered-Quiet dds conditions d = go dds.wait_result refl
  where
    go : (z : ℤ) → dds.wait_result ≡ z → Quiet conditions (report_triggered dds conditions d)
    go (pos ℕ.zero) e =
        let d' = record d { triggered = dds.woken } in
        rw (report_triggered, e, no_room d.capacity)
          (λ _. (
            keep_triggered-none d' conditions.subscriptions,
            keep_triggered-none d' conditions.guard_conditions,
            reset_guards-none d' conditions.guard_conditions,
          ))
    go (pos (ℕ.suc n)) e =
        let some_woken : (suc n == 0) ≡ false = ground arith in
        rw (report_triggered, e, some_woken) (λ h. absurd (ground (arith, h)))
    go (negsuc n) e = rw (report_triggered, e) (λ h. absurd (ground (arith, h)))

-- `rmw_wait` behind its guards, where it returns RMW_RET_TIMEOUT, sets every entry of the caller's
-- arrays to null and resets no guard condition.
pub wait_on-timeout :
    (dds : Dds) (conditions : Conditions) (d : WaitSetData)
    → Fits d.capacity d.attached
    → (wait_on dds conditions d).0 ≡ timeout
    → ((wait_on dds conditions d).1.subscriptions ≡ cleared conditions.subscriptions)
      × ((wait_on dds conditions d).1.guard_conditions ≡ cleared conditions.guard_conditions)
      × ((wait_on dds conditions d).2 ≡ [])
unfolding wait_on
wait_on-timeout dds conditions d f h = quiet (ap is_timeout h)
  where
    detached : Bool × List ℤ
    detached = detach_all dds.detach (contents d.attached) d.waitset

    d0 : WaitSetData
    d0 = record d { waitset = detached.1; attached = record d.attached { count = 0 } }

    r1 : Ret × WaitSetData
    r1 = attach_all dds.attach conditions.subscriptions d0

    r2 : Ret × WaitSetData
    r2 = attach_all dds.attach conditions.guard_conditions r1.1

    failed : (b : Bool) → not b ≡ true → b ≡ false
    failed b e = ground arith

    quiet : Quiet conditions (wait_on dds conditions d)
    quiet =
        let g1 = attach_all-Grown dds.attach conditions.subscriptions d0 (f.0, omega arith) in
        let g2 =
          attach_all-Grown dds.attach conditions.guard_conditions r1.1
            (next-Fits d0 (entities conditions.subscriptions) r1 g1) in
        let rest =
          if not (is_ok r2.0)
          then (r2.0, conditions, [], r2.1)
          else report_triggered dds conditions r2.1 in
        if_elim (Quiet conditions) (not detached.0)
          (error, conditions, [], record d { waitset = detached.1 })
          (if not (is_ok r1.0) then (r1.0, conditions, [], r1.1) else rest)
          (λ _.
            Quiet-not_done conditions (error, conditions, [], record d { waitset = detached.1 })
              refl)
          (λ _.
            if_elim (Quiet conditions) (not (is_ok r1.0)) (r1.0, conditions, [], r1.1) rest
              (λ e.
                Quiet-not_done conditions (r1.0, conditions, [], r1.1)
                  (g1.3 ∙ failed (is_ok r1.0) e))
              (λ _.
                if_elim (Quiet conditions) (not (is_ok r2.0)) (r2.0, conditions, [], r2.1)
                  (report_triggered dds conditions r2.1)
                  (λ e.
                    Quiet-not_done conditions (r2.0, conditions, [], r2.1)
                      (g2.3 ∙ failed (is_ok r2.0) e))
                  (λ _. report_triggered-Quiet dds conditions r2.1)))
