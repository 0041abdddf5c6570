-- ===== src/Queries/Topics.antt =====
-- The loop of `rmw_get_topic_names_and_types` that picks one endpoint for each topic.
use rmw_cyclonedds_c.Common.{
  ℕ, suc, ◌≡◌, refl, ap, ◌∙◌, sym, Bool, true, false, List, [], ◌∷◌, ◌++◌, map, some, CString,
  bytes_eq, get_or, take, All, All-append, Option-cases, inl, inr, Bool-cases,
}
use mathlib.Core.Option
use mathlib.Core.List.{map-append}
use rmw_cyclonedds_c.GraphCache.{Cache, CachedEndpoint, endpoint_is_associated, zero_endpoint}
use rmw_cyclonedds_c.GraphCache.View.{view}
use rmw_cyclonedds_c.GraphCache.Endpoints.{endpoint_is_associated_lem}
use rmw_cyclonedds_c.Queries.{
  topic_output_name, endpoint_has_topic, represented, represent_one, represent,
}
use rmw_cyclonedds_c.Queries.Listing.{member, add, collect, topics_in, visible}

-- `f` gives the entries of the list, from `i` on.
abbrev pub Aligned : (ℕ → CachedEndpoint) → ℕ → List CachedEndpoint → Type 0
Aligned f i [] = Unit
Aligned f i (e ∷ es) = (f i ≡ e) × Aligned f (suc i) es

shift-Aligned :
    (f : ℕ → CachedEndpoint) (i : ℕ) (es : List CachedEndpoint)
    → Aligned (λ k. f (suc k)) i es
    → Aligned f (suc i) es
shift-Aligned f i [] a = tt
shift-Aligned f i (e ∷ es) a = (a.0, shift-Aligned f (suc i) es a.1)

pub take-Aligned :
    (n : ℕ) (es : List CachedEndpoint) → Aligned (λ k. get_or es k zero_endpoint) 0 (take n es)
take-Aligned ℕ.zero es = tt
take-Aligned (ℕ.suc n) [] = tt
take-Aligned (ℕ.suc n) (e ∷ es) =
    (refl, shift-Aligned (λ k. get_or (e ∷ es) k zero_endpoint) 0 (take n es) (take-Aligned n es))

module _ (c : Cache) (no_demangle : Bool) where
  abbrev pub entry : ℕ → CachedEndpoint
  entry i = get_or c.endpoints.slots i zero_endpoint

  -- The name that the second loop reads off a representative.
  abbrev pub topic_at : ℕ → CString
  topic_at i = Option.get_or (topic_output_name no_demangle (entry i)) []

  abbrev pub Named : ℕ → Type 0
  Named i = topic_output_name no_demangle (entry i) ≡ some (topic_at i)

  has_topic_lem :
      (e : CachedEndpoint) (topic name : CString)
      → topic_output_name no_demangle e ≡ some name
      → endpoint_has_topic e topic no_demangle ≡ bytes_eq name topic
  unfolding endpoint_has_topic
  has_topic_lem e topic name h = rw (h, endpoint_has_topic) refl

  represented_lem :
      (topic : CString) (reps : List ℕ)
      → All Named reps
      → represented c no_demangle topic reps ≡ member topic (map topic_at reps)
  unfolding represented
  represented_lem topic [] h = refl
  represented_lem topic (i ∷ reps) h =
      rw (has_topic_lem (entry i) topic (topic_at i) h.0, represented_lem topic reps h.1) refl

  -- What one round and all rounds do to the representatives.
  abbrev pub Grown : List ℕ → List CString → Type 0
  Grown reps topics = All Named reps × (map topic_at reps ≡ topics)

  represent_one-Grown :
      (e : CachedEndpoint) (i : ℕ) (reps : List ℕ) (es : List CachedEndpoint)
      → entry i ≡ e
      → All Named reps
      → (All Named (represent_one c no_demangle e i reps))
        × (collect
              (map topic_at (represent_one c no_demangle e i reps))
              (topics_in (view c) no_demangle es)
            ≡ collect (map topic_at reps) (topics_in (view c) no_demangle (e ∷ es)))
  unfolding represent_one
  represent_one-Grown e i reps es a h = elim (Bool-cases (endpoint_is_associated c e)) [
    | inl seen ↦
        let visible_too : visible (view c) e ≡ true = sym (endpoint_is_associated_lem c e) ∙ seen in
        elim (Option-cases (topic_output_name no_demangle e)) [
          | inl hidden ↦ rw (seen, visible_too, hidden) (h, refl)
          | inr shown ↦
              rw (seen, visible_too, shown.1, represented_lem shown.0 reps h)
                (elim (Bool-cases (member shown.0 (map topic_at reps))) [
                  | inl known ↦
                      let kept : add (map topic_at reps) shown.0 ≡ map topic_at reps =
                        rw known refl in
                      rw known (h, ap continue_with (sym kept))
                  | inr new ↦
                      let named : topic_output_name no_demangle (entry i) ≡ some shown.0 =
                        rw a shown.1 in
                      let same : topic_at i ≡ shown.0 = rw named refl in
                      let grown : add (map topic_at reps) shown.0
                          ≡ map topic_at reps ++ (shown.0 ∷ []) =
                        rw new refl in
                      rw new (
                        All-append Named reps (i ∷ []) h (rw same named, tt),
                        ap continue_with (
                            map-append topic_at reps (i ∷ [])
                            ∙ ap (λ t. map topic_at reps ++ (t ∷ [])) same
                            ∙ sym grown),
                      )
                ])
        ]
    | inr unseen ↦
        let hidden : visible (view c) e ≡ false = sym (endpoint_is_associated_lem c e) ∙ unseen in
        rw (unseen, hidden) (h, refl)
  ]
    where
      continue_with : List CString → List CString
      continue_with known = collect known (topics_in (view c) no_demangle es)

  pub represent-Grown :
      (es : List CachedEndpoint) (i : ℕ) (reps : List ℕ)
      → Aligned entry i es
      → All Named reps
      → Grown
          (represent c no_demangle es i reps)
          (collect (map topic_at reps) (topics_in (view c) no_demangle es))
  unfolding represent
  represent-Grown [] i reps a h = (h, refl)
  represent-Grown (e ∷ es) i reps a h =
      let one = represent_one-Grown e i reps es a.0 h in
      let all = represent-Grown es (suc i) (represent_one c no_demangle e i reps) a.1 one.0 in
      (all.0, all.1 ∙ one.1)
