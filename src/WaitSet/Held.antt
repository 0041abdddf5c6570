-- ===== src/WaitSet/Held.antt =====
-- What DDS has attached during `rmw_wait`, beside `attached`, the program's list of it.
use rmw_cyclonedds_c.Common.{
  ◌<◌, ◌≡◌, refl, ap, ◌∙◌, sym, Bool, true, false, not, List, [], ◌∷◌, ◌++◌, Option, none, some,
  arith, if◌then◌else◌, if_elim, ◌&&◌, leb,
}
use rmw_cyclonedds_c.Common.Table.{contents, Fits, push}
use rmw_cyclonedds_c.Common.Table.Contents.{contents-push}
use rmw_cyclonedds_c.Rmw.{Ret, ok, error, invalid_argument, is_ok, ℤ, pos, negsuc, is_negative}
use rmw_cyclonedds_c.WaitSet.{
  WaitSetData, Dds, Conditions, attach_entity, attach_all, detach_all, wait_on, report_triggered,
  triggered_in, same_entity, without_entity,
}
use rmw_cyclonedds_c.WaitSet.Attached.{
  is_done, attach_entity-Grown, attach_all-Grown, next-Fits, entities,
}

-- Every condition of the second list is in the first.
abbrev pub covers : List ℤ → List ℤ → Bool
covers xs [] = true
covers xs (w ∷ ws) = triggered_in xs w && covers xs ws

same_entity_refl : (x : ℤ) → same_entity x x ≡ true
unfolding same_entity
same_entity_refl (pos n) = ground arith
same_entity_refl (negsuc n) = ground arith

both : {a b : Bool} → a && b ≡ true → (a ≡ true) × (b ≡ true)
both {a = true} h = (refl, h)
both {a = false} h = absurd (ground (arith, h))

and_intro : {a b : Bool} → a ≡ true → b ≡ true → a && b ≡ true
and_intro {a = true} g h = h
and_intro {a = false} g h = absurd (ground (arith, g))

module _ (x : ℤ) (xs : List ℤ) where
  triggered_in_behind : (w : ℤ) → triggered_in xs w ≡ true → triggered_in (x ∷ xs) w ≡ true
  unfolding triggered_in
  triggered_in_behind w h = go (same_entity x w)
    where
      go : (b : Bool) → (if b then true else triggered_in xs w) ≡ true
      go true = refl
      go false = h

  triggered_in_front : triggered_in (x ∷ xs) x ≡ true
  unfolding triggered_in
  triggered_in_front = rw (same_entity_refl x) refl

  covers_behind : (ws : List ℤ) → covers xs ws ≡ true → covers (x ∷ xs) ws ≡ true
  covers_behind [] h = refl
  covers_behind (w ∷ ws) h =
      let hs = both h in and_intro (triggered_in_behind w hs.0) (covers_behind ws hs.1)

  -- Once `x` is detached, the rest of the list covers what is left.
  covers-without_entity :
      (ws : List ℤ) → covers (x ∷ xs) ws ≡ true → covers xs (without_entity x ws) ≡ true
  unfolding triggered_in
  covers-without_entity [] h = refl
  covers-without_entity (w ∷ ws) h = go (same_entity x w) hs.0 (covers-without_entity ws hs.1)
    where
      hs : (triggered_in (x ∷ xs) w ≡ true) × (covers (x ∷ xs) ws ≡ true)
      hs = both h

      go :
          (b : Bool)
          → (if b then true else triggered_in xs w) ≡ true
          → covers xs (without_entity x ws) ≡ true
          → covers xs (if b then without_entity x ws else w ∷ without_entity x ws) ≡ true
      go true e rest = rest
      go false e rest = and_intro e rest

covers_refl : (xs : List ℤ) → covers xs xs ≡ true
covers_refl [] = refl
covers_refl (x ∷ xs) = and_intro (triggered_in_front x xs) (covers_behind x xs xs (covers_refl xs))

covers_less :
    (xs : List ℤ) (y : ℤ) (ws : List ℤ)
    → covers xs ws ≡ true
    → covers xs (without_entity y ws) ≡ true
covers_less xs y [] h = refl
covers_less xs y (w ∷ ws) h = go (same_entity y w) (covers_less xs y ws (both h).1)
  where
    go :
        (b : Bool)
        → covers xs (without_entity y ws) ≡ true
        → covers xs (if b then without_entity y ws else w ∷ without_entity y ws) ≡ true
    go true rest = rest
    go false rest = and_intro (both h).0 rest

-- However far the loop comes, what is left is still covered.
detach_all-covers :
    (detach : List ℤ → ℤ → ℤ) (xs ys ws : List ℤ)
    → covers xs ws ≡ true
    → covers xs (detach_all detach ys ws).1 ≡ true
unfolding detach_all
detach_all-covers detach xs [] ws h = h
detach_all-covers detach xs (y ∷ ys) ws h =
    if_elim (λ (r : Bool × List ℤ). covers xs r.1 ≡ true) (is_negative (detach ws y)) (false, ws)
      (detach_all detach ys (without_entity y ws)) (λ _. h)
      (λ _. detach_all-covers detach xs ys (without_entity y ws) (covers_less xs y ws h))

-- Where every call succeeds, nothing is left.
detach_all-nil :
    (detach : List ℤ → ℤ → ℤ) (xs ws : List ℤ)
    → covers xs ws ≡ true
    → (detach_all detach xs ws).0 ≡ true
    → (detach_all detach xs ws).1 ≡ []
unfolding detach_all triggered_in
detach_all-nil detach [] [] h e = refl
detach_all-nil detach [] (w ∷ ws) h e = absurd (ground (arith, h))
detach_all-nil detach (x ∷ xs) ws h e =
    if_elim (λ (r : Bool × List ℤ). r.0 ≡ true → r.1 ≡ []) (is_negative (detach ws x)) (false, ws)
      (detach_all detach xs (without_entity x ws)) (λ _ e'. absurd (ground (arith, e')))
      (λ _ e'. detach_all-nil detach xs (without_entity x ws) (covers-without_entity x xs ws h) e')
      e

-- DDS and the program agree on what is attached.
abbrev InStep : WaitSetData → Type 0
InStep d = d.waitset ≡ contents d.attached

attach_entity-InStep :
    (attach : List ℤ → ℤ → ℤ) (d : WaitSetData) (entity : ℤ)
    → Fits d.capacity d.attached
    → InStep d
    → InStep (attach_entity attach d entity).1
unfolding attach_entity
attach_entity-InStep attach d entity f s =
    if_elim (λ (r : Ret × WaitSetData). InStep r.1) (leb d.capacity d.attached.count)
      (invalid_argument, d) _ (λ _. s)
      (λ room.
        let below : d.attached.count < d.capacity = ground (arith, room) in
        if_elim (λ (r : Ret × WaitSetData). InStep r.1) (is_negative (attach d.waitset entity))
          (error, d)
          (ok, record d { waitset = d.waitset ++ (entity ∷ []); attached = push d.attached entity })
          (λ _. s)
          (λ _.
            ap (λ t. t ++ (entity ∷ [])) s
            ∙ sym (contents-push d.capacity d.attached entity f below)))

attach_all-InStep :
    (attach : List ℤ → ℤ → ℤ) (entries : List (Option ℤ)) (d : WaitSetData)
    → Fits d.capacity d.attached
    → InStep d
    → InStep (attach_all attach entries d).1
unfolding attach_all
attach_all-InStep attach [] d f s = s
attach_all-InStep attach (none ∷ entries) d f s = s
attach_all-InStep attach (some entity ∷ entries) d f s =
    let r = attach_entity attach d entity in
    let s' = attach_entity-InStep attach d entity f s in
    let f' = next-Fits d (entity ∷ []) r (attach_entity-Grown attach d entity f) in
    if_elim (λ (r' : Ret × WaitSetData). InStep r'.1) (not (is_ok r.0)) r
      (attach_all attach entries r.1) (λ _. s') (λ _. attach_all-InStep attach entries r.1 f' s')

-- Nothing is attached that the program does not know of, and after a wait that took place exactly what
-- it knows of.
abbrev pub IsHeld : Ret × Conditions × List ℤ × WaitSetData → Type 0
IsHeld r =
    (covers (contents r.3.attached) r.3.waitset ≡ true)
    × (r.3.waitset ≡ (if is_done r.0 then contents r.3.attached else r.3.waitset))

InStep-IsHeld : (r : Ret × Conditions × List ℤ × WaitSetData) → InStep r.3 → IsHeld r
InStep-IsHeld r s = (
  ap (covers (contents r.3.attached)) s ∙ covers_refl (contents r.3.attached),
  if_elim (λ t. r.3.waitset ≡ t) (is_done r.0) (contents r.3.attached) r.3.waitset (λ _. s)
      (λ _. refl),
)

report_triggered-InStep :
    (dds : Dds) (conditions : Conditions) (d : WaitSetData)
    → InStep d
    → InStep (report_triggered dds conditions d).3
unfolding report_triggered
report_triggered-InStep dds conditions d s = go dds.wait_result refl
  where
    go : (z : ℤ) → dds.wait_result ≡ z → InStep (report_triggered dds conditions d).3
    go (pos n) e = rw (report_triggered, e) s
    go (negsuc n) e = rw (report_triggered, e) s

pub wait_on-IsHeld :
    (dds : Dds) (conditions : Conditions) (d : WaitSetData)
    → Fits d.capacity d.attached
    → covers (contents d.attached) d.waitset ≡ true
    → IsHeld (wait_on dds conditions d)
unfolding wait_on
wait_on-IsHeld dds conditions d f h =
    let xs = contents d.attached in
    let detached = detach_all dds.detach xs d.waitset in
    let d' = record d { waitset = detached.1 } in
    let d0 = record d' { attached = record d.attached { count = 0 } } in
    let f0 : Fits d.capacity d0.attached = (f.0, omega arith) in
    let r1 = attach_all dds.attach conditions.subscriptions d0 in
    let r2 = attach_all dds.attach conditions.guard_conditions r1.1 in
    let f1 =
      next-Fits d0 (entities conditions.subscriptions) r1
        (attach_all-Grown dds.attach conditions.subscriptions d0 f0) in
    let rest =
      if not (is_ok r2.0)
      then (r2.0, conditions, [], r2.1)
      else report_triggered dds conditions r2.1 in
    if_elim IsHeld (not detached.0) (error, conditions, [], d')
      (if not (is_ok r1.0) then (r1.0, conditions, [], r1.1) else rest)
      (λ _. (detach_all-covers dds.detach xs xs d.waitset h, refl))
      (λ e.
        let s0 = detach_all-nil dds.detach xs d.waitset h (ground (arith, e)) in
        let s1 = attach_all-InStep dds.attach conditions.subscriptions d0 f0 s0 in
        let s2 = attach_all-InStep dds.attach conditions.guard_conditions r1.1 f1 s1 in
        if_elim IsHeld (not (is_ok r1.0)) (r1.0, conditions, [], r1.1) rest
          (λ _. InStep-IsHeld (r1.0, conditions, [], r1.1) s1)
          (λ _.
            if_elim IsHeld (not (is_ok r2.0)) (r2.0, conditions, [], r2.1)
              (report_triggered dds conditions r2.1)
              (λ _. InStep-IsHeld (r2.0, conditions, [], r2.1) s2)
              (λ _.
                InStep-IsHeld (report_triggered dds conditions r2.1)
                  (report_triggered-InStep dds conditions r2.1 s2))))
