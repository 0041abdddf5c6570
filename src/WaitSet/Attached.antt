-- ===== src/WaitSet/Attached.antt =====
-- What `rmw_wait` leaves attached, and what it reports.
use rmw_cyclonedds_c.Common.{
  ℕ, ◌<◌, ◌≡◌, refl, ap, ◌∙◌, sym, Bool, true, false, not, List, [], ◌∷◌, ◌++◌, Option, none, some,
  arith, if◌then◌else◌, if_elim, inl, inr, ◌⊎◌, ◌==◌, append_assoc, append-nil, leb,
}
use mathlib.Core.Path.{subst}
use rmw_cyclonedds_c.Common.Table.{contents, Fits, push}
use rmw_cyclonedds_c.Common.Table.Contents.{contents-push, push-Fits}
use rmw_cyclonedds_c.Rmw.{
  Ret, ok, error, timeout, invalid_argument, is_ok, ℤ, pos, negsuc, is_negative,
}
use rmw_cyclonedds_c.WaitSet.{
  WaitSetData, Dds, Conditions, attach_entity, attach_all, detach_all, wait_on, report_triggered,
}

-- The wait took place: OK or a timeout.
abbrev pub is_done : Ret → Bool
is_done ok = true
is_done timeout = true
is_done _ = false

-- The conditions that an array names.
abbrev pub entities : List (Option ℤ) → List ℤ
entities [] = []
entities (none ∷ entries) = entities entries
entities (some entity ∷ entries) = entity ∷ entities entries

-- Within the bounds, and with all of `more` attached if the result is OK.
abbrev pub Grown : WaitSetData → List ℤ → Ret × WaitSetData → Type 0
Grown d more r =
    Fits d.capacity r.1.attached
    × (r.1.capacity ≡ d.capacity)
    × (contents r.1.attached
        ≡ (if is_ok r.0 then contents d.attached ++ more else contents r.1.attached))
    × (is_done r.0 ≡ is_ok r.0)

pub attach_entity-Grown :
    (attach : List ℤ → ℤ → ℤ) (d : WaitSetData) (entity : ℤ)
    → Fits d.capacity d.attached
    → Grown d (entity ∷ []) (attach_entity attach d entity)
unfolding attach_entity
attach_entity-Grown attach d entity f =
    if_elim (Grown d (entity ∷ [])) (leb d.capacity d.attached.count) (invalid_argument, d) _
      (λ _. (f, refl, refl, refl))
      (λ room.
        let below : d.attached.count < d.capacity = ground (arith, room) in
        if_elim (Grown d (entity ∷ [])) (is_negative (attach d.waitset entity)) (error, d)
          (ok, record d { waitset = d.waitset ++ (entity ∷ []); attached = push d.attached entity })
          (λ _. (f, refl, refl, refl))
          (λ _. (
            push-Fits d.capacity d.attached entity f below,
            refl,
            contents-push d.capacity d.attached entity f below,
            refl,
          )))

-- What is attached first stands in front.
Grown-chain :
    (d : WaitSetData) (xs ys : List ℤ) (r s : Ret × WaitSetData)
    → Grown d xs r
    → is_ok r.0 ≡ true
    → Grown r.1 ys s
    → Grown d (xs ++ ys) s
Grown-chain d xs ys r s one e all =
    let first : contents r.1.attached ≡ contents d.attached ++ xs = one.2 ∙ rw e refl in
    (
      subst (λ n. Fits n s.1.attached) one.1 all.0,
      all.1 ∙ one.1,
      all.2
          ∙ ap (λ t. if is_ok s.0 then t else contents s.1.attached)
              (ap (λ t. t ++ ys) first ∙ append_assoc (contents d.attached) xs ys),
      all.3,
    )

-- A call that is not OK ends the loop.
Grown-stop :
    (d : WaitSetData) (xs ys : List ℤ) (r : Ret × WaitSetData)
    → Grown d xs r
    → is_ok r.0 ≡ false
    → Grown d ys r
Grown-stop d xs ys r one e = (one.0, one.1, rw e refl, one.3)

pub next-Fits :
    (d : WaitSetData) (xs : List ℤ) (r : Ret × WaitSetData)
    → Grown d xs r
    → Fits r.1.capacity r.1.attached
next-Fits d xs r one = subst (λ n. Fits n r.1.attached) (sym one.1) one.0

not-true : (b : Bool) → not b ≡ true → b ≡ false
not-true b h = ground arith

not-false : (b : Bool) → not b ≡ false → b ≡ true
not-false b h = ground arith

pub attach_all-Grown :
    (attach : List ℤ → ℤ → ℤ) (entries : List (Option ℤ)) (d : WaitSetData)
    → Fits d.capacity d.attached
    → Grown d (entities entries) (attach_all attach entries d)
unfolding attach_all
attach_all-Grown attach [] d f = (f, refl, sym (append-nil (contents d.attached)), refl)
attach_all-Grown attach (none ∷ entries) d f = (f, refl, refl, refl)
attach_all-Grown attach (some entity ∷ entries) d f =
    let one = attach_entity-Grown attach d entity f in
    let r = attach_entity attach d entity in
    let all = attach_all-Grown attach entries r.1 (next-Fits d (entity ∷ []) r one) in
    if_elim (Grown d (entity ∷ entities entries)) (not (is_ok r.0)) r
      (attach_all attach entries r.1)
      (λ e. Grown-stop d (entity ∷ []) (entity ∷ entities entries) r one (not-true (is_ok r.0) e))
      (λ e.
        Grown-chain d (entity ∷ []) (entities entries) r (attach_all attach entries r.1) one
          (not-false (is_ok r.0) e) all)

-- What a wait leaves: never more than the capacity, and after a wait that took place exactly the
-- conditions that the caller's arrays name, the subscriptions' in front.
abbrev pub Waited : WaitSetData → Conditions → Ret × Conditions × List ℤ × WaitSetData → Type 0
Waited d conditions r =
    Fits d.capacity r.3.attached
    × (r.3.capacity ≡ d.capacity)
    × (contents r.3.attached ≡ (
        if is_done r.0
        then entities conditions.subscriptions ++ entities conditions.guard_conditions
        else contents r.3.attached))

report_triggered-Waited :
    (dds : Dds) (conditions : Conditions) (d d' : WaitSetData)
    → Fits d.capacity d'.attached
    → d'.capacity ≡ d.capacity
    → contents d'.attached
      ≡ entities conditions.subscriptions ++ entities conditions.guard_conditions
    → Waited d conditions (report_triggered dds conditions d')
unfolding report_triggered
report_triggered-Waited dds conditions d d' f c e = elim (ℤ-cases dds.wait_result) [
  | inl p ↦ rw (report_triggered, p.1) (f, c, e ∙ rw (done (p.0 == 0)) refl)
  | inr p ↦ rw (report_triggered, p.1) (f, c, refl)
]
  where
    done : (b : Bool) → is_done (if b then timeout else ok) ≡ true
    done true = refl
    done false = refl

    ℤ-cases : (z : ℤ) → ((n : ℕ) × (z ≡ pos n)) ⊎ ((n : ℕ) × (z ≡ negsuc n))
    ℤ-cases (pos n) = inl (n, refl)
    ℤ-cases (negsuc n) = inr (n, refl)

-- `rmw_wait` behind its guards, whatever DDS answers, never attaches more conditions than the wait
-- set has room for. Where it returns OK or a timeout, exactly the caller's conditions are attached,
-- those of the subscriptions in front.
pub wait_on-Waited :
    (dds : Dds) (conditions : Conditions) (d : WaitSetData)
    → Fits d.capacity d.attached
    → Waited d conditions (wait_on dds conditions d)
unfolding wait_on
wait_on-Waited dds conditions d f =
    let detached = detach_all dds.detach (contents d.attached) d.waitset in
    let d' = record d { waitset = detached.1 } in
    let d0 = record d' { attached = record d.attached { count = 0 } } in
    let r1 = attach_all dds.attach conditions.subscriptions d0 in
    let r2 = attach_all dds.attach conditions.guard_conditions r1.1 in
    let g1 = attach_all-Grown dds.attach conditions.subscriptions d0 (f.0, omega arith) in
    let xs = entities conditions.subscriptions in
    let ys = entities conditions.guard_conditions in
    let g2 = attach_all-Grown dds.attach conditions.guard_conditions r1.1 (next-Fits d0 xs r1 g1) in
    let rest =
      if not (is_ok r2.0)
      then (r2.0, conditions, [], r2.1)
      else report_triggered dds conditions r2.1 in
    if_elim (Waited d conditions) (not detached.0) (error, conditions, [], d')
      (if not (is_ok r1.0) then (r1.0, conditions, [], r1.1) else rest) (λ _. (f, refl, refl))
      (λ _.
        if_elim (Waited d conditions) (not (is_ok r1.0)) (r1.0, conditions, [], r1.1) rest
          (λ e. (g1.0, g1.1, rw (g1.3 ∙ not-true (is_ok r1.0) e) refl))
          (λ e.
            let all = Grown-chain d0 xs ys r1 r2 g1 (not-false (is_ok r1.0) e) g2 in
            if_elim (Waited d conditions) (not (is_ok r2.0)) (r2.0, conditions, [], r2.1)
              (report_triggered dds conditions r2.1)
              (λ e'. (all.0, all.1, rw (all.3 ∙ not-true (is_ok r2.0) e') refl))
              (λ e'.
                report_triggered-Waited dds conditions d r2.1 all.0 all.1
                  (all.2 ∙ rw (not-false (is_ok r2.0) e') refl))))
