-- ===== src/Waitables/Ledger.antt =====
-- What the creations and destructions of guard conditions and wait sets leave live.
use rmw_cyclonedds_c.Common.{
  ℕ, ◌≡◌, refl, ap, ◌∙◌, Bool, true, false, ◌||◌, not, List, ◌∷◌, Option, none, some, Bool-cases,
  Option-cases, inl, inr,
}
use rmw_cyclonedds_c.Rmw.{ℤ, is_negative, is_positive, not_positive}
use rmw_cyclonedds_c.Handles.{ContextHandle}
use rmw_cyclonedds_c.Ledger.{Resource, take_up_if, give_back_if}
use rmw_cyclonedds_c.WaitSet.{capacity_of}
use rmw_cyclonedds_c.Waitables.{
  GuardAnswers, WaitSetAnswers, context_is_usable, fail_guard, create_guard_condition,
  fail_wait_set, create_wait_set,
}

-- What a guard condition owns, above the rest of the ledger.
abbrev pub owned_by_guard : ℤ → List Resource → List Resource
owned_by_guard entity live =
    take_up_if (is_positive entity) Resource.guard (Resource.guard_data ∷ Resource.handle ∷ live)

-- What a wait set owns.
abbrev pub owned_by_wait_set : ℤ → List Resource → List Resource
owned_by_wait_set waitset live =
    take_up_if (is_positive waitset) Resource.waitset
      (Resource.triggered ∷ Resource.attached ∷ Resource.wait_set_data ∷ Resource.handle ∷ live)

guard-early :
    (has_handle has_data : Bool) (live : List Resource)
    → fail_guard has_handle has_data
        (take_up_if has_data Resource.guard_data (take_up_if has_handle Resource.handle live))
      ≡ live
unfolding fail_guard give_back_if
guard-early false false live = refl
guard-early false true live = refl
guard-early true false live = refl
guard-early true true live = refl

wait_set-early :
    (has_handle has_data : Bool) (live : List Resource)
    → fail_wait_set has_handle has_data false false
        (take_up_if has_data Resource.wait_set_data (take_up_if has_handle Resource.handle live))
      ≡ live
unfolding fail_wait_set give_back_if
wait_set-early false false live = refl
wait_set-early false true live = refl
wait_set-early true false live = refl
wait_set-early true true live = refl

wait_set-arrays :
    (has_attached has_triggered : Bool) (live : List Resource)
    → fail_wait_set true true has_attached has_triggered (
        take_up_if has_triggered Resource.triggered (
          take_up_if has_attached Resource.attached
            (Resource.wait_set_data ∷ Resource.handle ∷ live)))
      ≡ live
unfolding fail_wait_set give_back_if
wait_set-arrays false false live = refl
wait_set-arrays false true live = refl
wait_set-arrays true false live = refl
wait_set-arrays true true live = refl

-- A failure of DDS leaves no entity, so all that is live is memory.
guard-late :
    (entity : ℤ) (live : List Resource)
    → is_negative entity ≡ true
    → fail_guard true true (owned_by_guard entity live) ≡ live
guard-late entity live h =
    ap
      (λ b.
        fail_guard true true
          (take_up_if b Resource.guard (Resource.guard_data ∷ Resource.handle ∷ live)))
      (not_positive entity h)
    ∙ guard-early true true live

wait_set-late :
    (waitset : ℤ) (live : List Resource)
    → is_negative waitset ≡ true
    → fail_wait_set true true true true (owned_by_wait_set waitset live) ≡ live
wait_set-late waitset live h =
    ap
      (λ b. fail_wait_set true true true true (
        take_up_if b Resource.waitset (
          Resource.triggered ∷ Resource.attached ∷ Resource.wait_set_data ∷ Resource.handle
          ∷ live)))
      (not_positive waitset h)
    ∙ wait_set-arrays true true live

-- `rmw_create_guard_condition`, whatever the allocator and DDS answer, leaves the ledger as it was
-- where it fails; where it succeeds, the ledger has more by exactly the guard condition's entity, its
-- data and its handle.
pub create_guard_condition-live :
    (a : GuardAnswers) (context : Option ContextHandle) (live : List Resource)
    → (create_guard_condition a context live).1 ≡ elim (create_guard_condition a context live).0 [
      | none ↦ live
      | some entity ↦ owned_by_guard entity live
    ]
unfolding create_guard_condition
create_guard_condition-live a context live = elim (Bool-cases (context_is_usable context)) [
  | inl e ↦ elim (Bool-cases (not a.handle_memory || not a.data_memory)) [
    | inl f ↦ rw (create_guard_condition, e, f) (guard-early a.handle_memory a.data_memory live)
    | inr f ↦ elim (Bool-cases (is_negative a.entity)) [
      | inl g ↦ rw (create_guard_condition, e, f, g) (guard-late a.entity live g)
      | inr g ↦ rw (create_guard_condition, e, f, g) refl
    ]
  ]
  | inr e ↦ rw (create_guard_condition, e) refl
]

-- `rmw_create_wait_set`, whatever the allocator and DDS answer, leaves the ledger as it was where it
-- fails, also where the sizes of the arrays would overflow; where it succeeds, the ledger has more by
-- exactly the wait set's entity, its two arrays, its data and its handle.
pub create_wait_set-live :
    (a : WaitSetAnswers) (context : Option ContextHandle) (max_conditions : ℕ)
    (live : List Resource)
    → (create_wait_set a context max_conditions live).1
      ≡ elim (create_wait_set a context max_conditions live).0 [
        | none ↦ live
        | some capacity ↦ owned_by_wait_set a.waitset live
      ]
unfolding create_wait_set
create_wait_set-live a context max_conditions live = elim (Bool-cases (context_is_usable context)) [
  | inl e ↦ elim (Option-cases (capacity_of max_conditions)) [
    | inl k ↦ rw (create_wait_set, e, k) refl
    | inr k ↦ elim (Bool-cases (not a.handle_memory || not a.data_memory)) [
      | inl f ↦ rw (create_wait_set, e, k.1, f) (wait_set-early a.handle_memory a.data_memory live)
      | inr f ↦ elim (Bool-cases (not a.attached_memory || not a.triggered_memory)) [
        | inl g ↦
            rw (create_wait_set, e, k.1, f, g)
              (wait_set-arrays a.attached_memory a.triggered_memory live)
        | inr g ↦ elim (Bool-cases (is_negative a.waitset)) [
          | inl h ↦ rw (create_wait_set, e, k.1, f, g, h) (wait_set-late a.waitset live h)
          | inr h ↦ rw (create_wait_set, e, k.1, f, g, h) refl
        ]
      ]
    ]
  ]
  | inr e ↦ rw (create_wait_set, e) refl
]
