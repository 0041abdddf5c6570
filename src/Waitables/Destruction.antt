-- ===== src/Waitables/Destruction.antt =====
-- Guard conditions and wait sets from their making to their destruction.
use rmw_cyclonedds_c.Common.{
  ◌≡◌, refl, Bool, true, false, not, List, ◌∷◌, Option, some, CString, ℕ, none, ◌||◌, ap, ◌∙◌,
  arith,
}
use rmw_cyclonedds_c.Rmw.{ℤ, is_positive, is_ok, map_dds_result, Ret, is_negative}
use rmw_cyclonedds_c.Handles.{identifiers_match, ContextHandle}
use rmw_cyclonedds_c.Ledger.{Resource, take_up_if, give_back, give_back_if}
use rmw_cyclonedds_c.Waitables.{
  GuardAnswers, WaitSetAnswers, create_guard_condition, create_wait_set, destroy_guard_condition,
  destroy_wait_set,
}
use rmw_cyclonedds_c.Waitables.Ledger.{
  owned_by_guard, owned_by_wait_set, create_guard_condition-live, create_wait_set-live,
}

guard-released :
    (deleted : Bool) (rest : List Resource)
    → give_back Resource.handle (
        give_back Resource.guard_data (
          give_back_if deleted Resource.guard
            (Resource.guard ∷ Resource.guard_data ∷ Resource.handle ∷ rest)))
      ≡ take_up_if (not deleted) Resource.guard rest
unfolding give_back give_back_if
guard-released false rest = refl
guard-released true rest = refl

wait_set-released :
    (deleted : Bool) (rest : List Resource)
    → give_back Resource.handle (
        give_back Resource.wait_set_data (
          give_back Resource.triggered (
            give_back Resource.attached (
              give_back_if deleted Resource.waitset (
                Resource.waitset ∷ Resource.triggered ∷ Resource.attached ∷ Resource.wait_set_data
                ∷ Resource.handle ∷ rest)))))
      ≡ take_up_if (not deleted) Resource.waitset rest
unfolding give_back give_back_if
wait_set-released false rest = refl
wait_set-released true rest = refl

-- `rmw_destroy_guard_condition`, for a guard condition of this implementation with a live entity,
-- gives back all that `rmw_create_guard_condition` leaves with it; only an entity that DDS fails to
-- delete stays in the ledger.
destroy_guard_condition-live :
    (deleted entity : ℤ) (identifier : Option CString) (rest : List Resource)
    → identifiers_match identifier ≡ true
    → is_positive entity ≡ true
    → (destroy_guard_condition deleted (some identifier) (owned_by_guard entity rest)).1
      ≡ take_up_if (not (is_ok (map_dds_result deleted))) Resource.guard rest
unfolding destroy_guard_condition
destroy_guard_condition-live deleted entity identifier rest h p =
    rw (h, p) (guard-released (is_ok (map_dds_result deleted)) rest)

-- `rmw_destroy_wait_set`, for a wait set of this implementation with a live entity, gives back all that
-- `rmw_create_wait_set` leaves with it; only an entity that DDS fails to delete stays in the ledger.
destroy_wait_set-live :
    (deleted waitset : ℤ) (identifier : CString) (rest : List Resource)
    → identifiers_match (some identifier) ≡ true
    → is_positive waitset ≡ true
    → (destroy_wait_set deleted (some (some identifier)) (owned_by_wait_set waitset rest)).1
      ≡ take_up_if (not (is_ok (map_dds_result deleted))) Resource.waitset rest
unfolding destroy_wait_set
destroy_wait_set-live deleted waitset identifier rest h p =
    rw (h, p) (wait_set-released (is_ok (map_dds_result deleted)) rest)

-- A creation that fails leaves the ledger as it was; what a creation makes, a destruction gives back,
-- but for an entity that DDS fails to delete.
abbrev pub Life :
    {A : Type 0}
    → Resource
    → (List Resource → Ret × List Resource)
    → Bool
    → List Resource
    → Option A × List Resource
    → Type 0
Life entity destroy deleted live r = elim r.0 [
  | none ↦ r.1 ≡ live
  | some a ↦ (destroy r.1).1 ≡ take_up_if (not deleted) entity live
]

life_lem :
    {A : Type 0} (entity : Resource) (destroy : List Resource → Ret × List Resource)
    (deleted : Bool) (live : List Resource) (owned : A → List Resource) (o : Option A)
    (l : List Resource)
    → l ≡ elim o [ none ↦ live | some a ↦ owned a ]
    → ((a : A) → o ≡ some a → (destroy (owned a)).1 ≡ take_up_if (not deleted) entity live)
    → Life entity destroy deleted live (o, l)
life_lem entity destroy deleted live owned none l h k = h
life_lem entity destroy deleted live owned (some a) l h k = ap (λ m. (destroy m).1) h ∙ k a refl

made_guard :
    (a : GuardAnswers) (context : Option ContextHandle) (live : List Resource) (e : ℤ)
    → (is_negative a.entity || is_positive a.entity) ≡ true
    → (create_guard_condition a context live).0 ≡ some e
    → is_positive e ≡ true
unfolding create_guard_condition
made_guard a context live e z h = ground (arith, z, h)

made_wait_set :
    (a : WaitSetAnswers) (context : Option ContextHandle) (max_conditions : ℕ)
    (live : List Resource) (capacity : ℕ)
    → (is_negative a.waitset || is_positive a.waitset) ≡ true
    → (create_wait_set a context max_conditions live).0 ≡ some capacity
    → is_positive a.waitset ≡ true
unfolding create_wait_set
made_wait_set a context max_conditions live capacity z h = ground (arith, z, h)

-- `rmw_create_guard_condition`, whatever the allocator and DDS answer, where a handle of DDS is never
-- zero, leaves the ledger as it was where it fails. What it makes, `rmw_destroy_guard_condition` gives
-- back, but for an entity that DDS fails to delete.
destroy_guard_condition-create_guard_condition :
    (a : GuardAnswers) (context : Option ContextHandle) (deleted : ℤ) (identifier : Option CString)
    (live : List Resource)
    → (is_negative a.entity || is_positive a.entity) ≡ true
    → identifiers_match identifier ≡ true
    → Life Resource.guard
        (destroy_guard_condition deleted (some identifier))
        (is_ok (map_dds_result deleted))
        live
        (create_guard_condition a context live)
destroy_guard_condition-create_guard_condition a context deleted identifier live z h =
    let r = create_guard_condition a context live in
    life_lem Resource.guard (destroy_guard_condition deleted (some identifier))
      (is_ok (map_dds_result deleted)) live (λ e. owned_by_guard e live) r.0 r.1
      (create_guard_condition-live a context live)
      (λ e made.
        destroy_guard_condition-live deleted e identifier live h
          (made_guard a context live e z made))

-- `rmw_create_wait_set`, whatever the allocator and DDS answer, where a handle of DDS is never zero,
-- leaves the ledger as it was where it fails, also where the sizes of the arrays would overflow. What it
-- makes, `rmw_destroy_wait_set` gives back, but for an entity that DDS fails to delete.
pub destroy_wait_set-create_wait_set :
    (a : WaitSetAnswers) (context : Option ContextHandle) (max_conditions : ℕ) (deleted : ℤ)
    (identifier : CString) (live : List Resource)
    → (is_negative a.waitset || is_positive a.waitset) ≡ true
    → identifiers_match (some identifier) ≡ true
    → Life Resource.waitset
        (destroy_wait_set deleted (some (some identifier)))
        (is_ok (map_dds_result deleted))
        live
        (create_wait_set a context max_conditions live)
destroy_wait_set-create_wait_set a context max_conditions deleted identifier live z h =
    let r = create_wait_set a context max_conditions live in
    life_lem Resource.waitset (destroy_wait_set deleted (some (some identifier)))
      (is_ok (map_dds_result deleted)) live (λ _. owned_by_wait_set a.waitset live) r.0 r.1
      (create_wait_set-live a context max_conditions live)
      (λ capacity made.
        destroy_wait_set-live deleted a.waitset identifier live h
          (made_wait_set a context max_conditions live capacity z made))
