-- ===== src/WaitSet/Stuck.antt =====
-- A wait set on which `rmw_wait` has failed half way through detaching.
use rmw_cyclonedds_c.Common.{
  ◌≡◌, refl, ap, ◌∙◌, sym, Bool, true, false, List, [], ◌∷◌, arith, if◌then◌else◌, if_elim,
}
use mathlib.Core.Path.{subst}
use rmw_cyclonedds_c.Common.Table.{contents}
use rmw_cyclonedds_c.Rmw.{Ret, error, ℤ, pos, negsuc, is_negative}
use rmw_cyclonedds_c.WaitSet.{
  WaitSetData, Dds, Conditions, detach_all, wait_on, triggered_in, same_entity, without_entity,
}

same_entity_sym : (x y : ℤ) → same_entity x y ≡ same_entity y x
unfolding same_entity
same_entity_sym (pos m) (pos n) = ground arith
same_entity_sym (pos m) (negsuc n) = refl
same_entity_sym (negsuc m) (pos n) = refl
same_entity_sym (negsuc m) (negsuc n) = ground arith

unmatched :
    (w x : ℤ) (ws : List ℤ)
    → same_entity w x ≡ false
    → triggered_in ws x ≡ false
    → triggered_in (w ∷ ws) x ≡ false
unfolding triggered_in
unmatched w x ws e h = rw e h

-- A condition that is not attached stays so while others are detached.
not_in_less :
    (x y : ℤ) (ws : List ℤ)
    → triggered_in ws x ≡ false
    → triggered_in (without_entity y ws) x ≡ false
unfolding triggered_in
not_in_less x y [] h = refl
not_in_less x y (w ∷ ws) h = go (same_entity y w) (same_entity w x) refl h (not_in_less x y ws)
  where
    go :
        (b c : Bool)
        → same_entity w x ≡ c
        → (if c then true else triggered_in ws x) ≡ false
        → (triggered_in ws x ≡ false → triggered_in (without_entity y ws) x ≡ false)
        → triggered_in (if b then without_entity y ws else w ∷ without_entity y ws) x ≡ false
    go b true e g rest = absurd (ground (arith, g))
    go true false e g rest = rest g
    go false false e g rest = unmatched w x (without_entity y ws) e (rest g)

not_in-without_entity : (x : ℤ) (ws : List ℤ) → triggered_in (without_entity x ws) x ≡ false
unfolding triggered_in
not_in-without_entity x [] = refl
not_in-without_entity x (w ∷ ws) = go (same_entity x w) refl (not_in-without_entity x ws)
  where
    go :
        (b : Bool)
        → same_entity x w ≡ b
        → triggered_in (without_entity x ws) x ≡ false
        → triggered_in (if b then without_entity x ws else w ∷ without_entity x ws) x ≡ false
    go true e rest = rest
    go false e rest = unmatched w x (without_entity x ws) (same_entity_sym w x ∙ e) rest

detach_all-not_in :
    (detach : List ℤ → ℤ → ℤ) (x : ℤ) (ys ws : List ℤ)
    → triggered_in ws x ≡ false
    → triggered_in (detach_all detach ys ws).1 x ≡ false
unfolding detach_all
detach_all-not_in detach x [] ws h = h
detach_all-not_in detach x (y ∷ ys) ws h =
    if_elim (λ (r : Bool × List ℤ). triggered_in r.1 x ≡ false) (is_negative (detach ws y))
      (false, ws) (detach_all detach ys (without_entity y ws)) (λ _. h)
      (λ _. detach_all-not_in detach x ys (without_entity y ws) (not_in_less x y ws h))

wait_on-refused :
    (dds : Dds) (conditions : Conditions) (d : WaitSetData)
    → (detach_all dds.detach (contents d.attached) d.waitset).0 ≡ false
    → wait_on dds conditions d ≡ (
      error,
      conditions,
      [],
      record d { waitset = (detach_all dds.detach (contents d.attached) d.waitset).1 },
    )
unfolding wait_on
wait_on-refused dds conditions d e = rw e refl

detach_all-next :
    (detach : List ℤ → ℤ → ℤ) (x : ℤ) (xs ws : List ℤ)
    → is_negative (detach ws x) ≡ false
    → detach_all detach (x ∷ xs) ws ≡ detach_all detach xs (without_entity x ws)
unfolding detach_all
detach_all-next detach x xs ws e = rw e refl

detach_all-refused :
    (detach : List ℤ → ℤ → ℤ) (x : ℤ) (xs ws : List ℤ)
    → is_negative (detach ws x) ≡ true
    → detach_all detach (x ∷ xs) ws ≡ (false, ws)
unfolding detach_all
detach_all-refused detach x xs ws e = rw e refl

-- `rmw_wait` behind its guards, where DDS detaches the first of the attached conditions and then
-- refuses one of the others: the wait returns an error, keeps its list of attached conditions, and the
-- first condition is no longer attached. Where DDS refuses to detach what is not attached, the next
-- wait, whatever it asks for and whatever DDS answers otherwise, returns an error too and leaves the
-- wait set, the caller's arrays and the guard conditions as they are, so that no wait ever succeeds
-- again.
pub wait_on-stuck :
    (dds : Dds) (conditions : Conditions) (d : WaitSetData) (x : ℤ) (xs : List ℤ)
    → contents d.attached ≡ x ∷ xs
    → is_negative (dds.detach d.waitset x) ≡ false
    → (detach_all dds.detach xs (without_entity x d.waitset)).0 ≡ false
    → (dds' : Dds) (conditions' : Conditions)
    → ((ws : List ℤ) (y : ℤ) → triggered_in ws y ≡ false → is_negative (dds'.detach ws y) ≡ true)
    → let r = wait_on dds conditions d in
      (r.0 ≡ error)
      × (r.3.attached ≡ d.attached)
      × (triggered_in r.3.waitset x ≡ false)
      × (wait_on dds' conditions' r.3 ≡ (error, conditions', [], r.3))
wait_on-stuck dds conditions d x xs c first stop dds' conditions' refuses =
    let ws = without_entity x d.waitset in
    let left = detach_all dds.detach xs ws in
    let tried =
      ap (λ t. detach_all dds.detach t d.waitset) c
      ∙ detach_all-next dds.detach x xs d.waitset first in
    let failed = wait_on-refused dds conditions d (ap (λ t. t.0) tried ∙ stop) in
    let after : WaitSetData = record d { waitset = left.1 } in
    let kept =
      failed
      ∙ ap (λ (t : Bool × List ℤ). (error, conditions, [], record d { waitset = t.1 })) tried in
    let gone = detach_all-not_in dds.detach x xs ws (not_in-without_entity x d.waitset) in
    let refused =
      ap (λ t. detach_all dds'.detach t left.1) c
      ∙ detach_all-refused dds'.detach x xs left.1 (refuses left.1 x gone) in
    let again =
      wait_on-refused dds' conditions' after (ap (λ t. t.0) refused)
      ∙ ap (λ (t : Bool × List ℤ). (error, conditions', [], record d { waitset = t.1 })) refused in
    subst
      (λ (r : Ret × Conditions × List ℤ × WaitSetData).
        (r.0 ≡ error)
        × (r.3.attached ≡ d.attached)
        × (triggered_in r.3.waitset x ≡ false)
        × (wait_on dds' conditions' r.3 ≡ (error, conditions', [], r.3)))
      (sym kept) (refl, refl, gone, again)
