-- ===== src/Queries/Result.antt =====
-- `rmw_get_topic_names_and_types`: what the query returns.
use rmw_cyclonedds_c.Common.{
  ℕ, suc, ◌≡◌, refl, ap, ◌∙◌, sym, Bool, true, ◌||◌, not, List, [], ◌∷◌, map, Option, some, false,
  arith, if◌then◌else◌, length, All, CString, Bool-cases, inl, inr, if_elim,
}
use mathlib.Core.Path.{ap₂}
use rmw_cyclonedds_c.Common.Table.{contents, empty}
use rmw_cyclonedds_c.Common.Table.Contents.{empty-Fits}
use rmw_cyclonedds_c.Rmw.{Ret, ok, invalid_argument, is_ok}
use rmw_cyclonedds_c.GraphCache.{Cache}
use rmw_cyclonedds_c.GraphCache.View.{view}
use rmw_cyclonedds_c.Handles.{NodeHandle, graph_context_from_node}
use rmw_cyclonedds_c.Queries.{
  TopicTypes, represent, fill_topics, count_types, write_types, get_topic_names_and_types,
}
use rmw_cyclonedds_c.Queries.Listing.{collect, types_in, topics_and_types}
use rmw_cyclonedds_c.Queries.Topics.{take-Aligned, Named, topic_at, represent-Grown}
use rmw_cyclonedds_c.Queries.Types.{
  count_types_lem, string_array_lem, write_types-Written, write_types-ok,
}

module _ (c : Cache) (no_demangle : Bool) where
  abbrev types_of_topic : CString → List CString
  types_of_topic topic = collect [] (types_in (view c) topic no_demangle (contents c.endpoints))

  abbrev listed : CString → TopicTypes
  listed topic = record { name = some topic; types = map some (types_of_topic topic) }

  -- Where nothing fails, the output has an entry for each representative.
  abbrev Filled : List ℕ → Ret × List TopicTypes → Type 0
  Filled reps r = is_ok r.0 ≡ true → r.1 ≡ map (λ i. listed (topic_at c no_demangle i)) reps

  module _ (memory : ℕ → Bool) where
    fill_topics-Filled :
        (reps : List ℕ) (k : ℕ)
        → All (Named c no_demangle) reps
        → Filled reps (fill_topics memory c no_demangle reps k)
    unfolding fill_topics
    fill_topics-Filled [] k h = λ _. refl
    fill_topics-Filled (i ∷ reps) k h =
        let topic = topic_at c no_demangle i in
        let es = contents c.endpoints in
        let n = count_types c topic no_demangle es 0 0 in
        let counted : n ≡ length (types_of_topic topic) =
          count_types_lem c topic no_demangle es [] refl in
        let wrote = write_types memory c topic no_demangle es (empty [] n) (suc (suc k)) in
        let types =
          write_types-Written c topic no_demangle memory n es (empty [] n) (suc (suc k))
            (empty-Fits {A = CString} [] n) (omega (arith, counted)) in
        let rest = fill_topics-Filled reps wrote.2 h.1 in
        elim (Bool-cases (memory k)) [
          | inr a ↦ rw (fill_topics, a) (λ e. absurd (ground (arith, e)))
          | inl a ↦ elim (Bool-cases (memory (suc k))) [
            | inr a' ↦ rw (fill_topics, a, a') (λ e. absurd (ground (arith, e)))
            | inl a' ↦ elim (Bool-cases (is_ok wrote.0)) [
              | inr b ↦ rw (fill_topics, a, a', b) (λ e. absurd (ground (arith, e, b)))
              | inl b ↦
                  let full =
                    string_array_lem c topic no_demangle n wrote.1 (types_of_topic topic)
                      (types b).0 (types b).1 counted in
                  rw (fill_topics, a, a', b)
                    (λ e.
                      ap₂
                        (λ (ts : List (Option CString)) (o : List TopicTypes).
                          record { name = some topic; types = ts } ∷ o)
                        full (rest e))
            ]
          ]
        ]

    fill_topics-ok :
        (reps : List ℕ) (k : ℕ)
        → ((j : ℕ) → memory j ≡ true)
        → (fill_topics memory c no_demangle reps k).0 ≡ ok
    unfolding fill_topics
    fill_topics-ok [] k m = refl
    fill_topics-ok (i ∷ reps) k m =
        let topic = topic_at c no_demangle i in
        let es = contents c.endpoints in
        let out = empty [] (count_types c topic no_demangle es 0 0) in
        rw
          (
            fill_topics,
            m k,
            m (suc k),
            write_types-ok c topic no_demangle memory es out (suc (suc k)) m,
            fill_topics-ok reps (write_types memory c topic no_demangle es out (suc (suc k))).2 m,
          )
          refl

  abbrev reps : List ℕ
  reps = represent c no_demangle (contents c.endpoints) 0 []

  reps_lem :
      All (Named c no_demangle) reps
      × (map (λ i. listed (topic_at c no_demangle i)) reps ≡ topics_and_types (view c) no_demangle)
  reps_lem =
      let all =
        represent-Grown c no_demangle (contents c.endpoints) 0 []
          (take-Aligned c.endpoints.count c.endpoints.slots) tt in
      (all.0, sym (map-map reps) ∙ ap (map listed) all.1)
    where
      map-map :
          (is : List ℕ)
          → map listed (map (topic_at c no_demangle) is)
            ≡ map (λ i. listed (topic_at c no_demangle i)) is
      map-map [] = refl
      map-map (i ∷ is) = ap (λ t. listed (topic_at c no_demangle i) ∷ t) (map-map is)

  filled :
      (memory : ℕ → Bool)
      → is_ok (fill_topics memory c no_demangle reps 0).0 ≡ true
      → (fill_topics memory c no_demangle reps 0).1 ≡ topics_and_types (view c) no_demangle
  filled memory e = fill_topics-Filled memory reps 0 reps_lem.0 e ∙ reps_lem.1

  -- The output lists the topics of the view, or is empty.
  abbrev pub TopicsOf : Ret × List TopicTypes → Type 0
  TopicsOf r = r.1 ≡ (if is_ok r.0 then topics_and_types (view c) no_demangle else [])

  -- `rmw_get_topic_names_and_types`, whatever its arguments and wherever memory runs out, where
  -- `rmw_names_and_types_fini` empties what it is given: it either returns OK and lists each visible
  -- topic once, in the order of the first appearances, with each type of its endpoints once, or leaves
  -- the output empty, also where entries had been written before the failure.
  pub get_topic_names_and_types-TopicsOf :
      (memory : ℕ → Bool) (fini : List TopicTypes → List TopicTypes) (initialized : Ret)
      (handle : Option NodeHandle) (arguments_are_valid output_is_zero : Bool)
      → ((output : List TopicTypes) → fini output ≡ [])
      → TopicsOf (
          get_topic_names_and_types memory fini initialized c handle arguments_are_valid
            output_is_zero no_demangle)
  unfolding get_topic_names_and_types
  get_topic_names_and_types-TopicsOf memory fini initialized handle arguments_are_valid
        output_is_zero empties =
      let r = fill_topics memory c no_demangle reps 0 in
      if_elim TopicsOf (not (is_ok (graph_context_from_node handle)))
        (graph_context_from_node handle, []) _ (λ e. refused (graph_context_from_node handle) e)
        (λ _.
          if_elim TopicsOf (not arguments_are_valid || not output_is_zero) (invalid_argument, []) _
            (λ _. refl)
            (λ _.
              if_elim TopicsOf (not (is_ok initialized)) (initialized, []) _
                (λ e. refused initialized e)
                (λ _.
                  if_elim TopicsOf (not (is_ok r.0)) (r.0, fini r.1) (r.0, r.1)
                    (λ e. empties r.1 ∙ refused r.0 e)
                    (λ e.
                      let done = not-false (is_ok r.0) e in filled memory done ∙ rw done refl))))
    where
      refused : (r : Ret) → not (is_ok r) ≡ true → TopicsOf (r, [])
      refused r e = ground (arith, e)

      not-false : (b : Bool) → not b ≡ false → b ≡ true
      not-false b h = ground arith

-- `rmw_get_topic_names_and_types`, where its arguments are accepted and memory does not run out,
-- returns OK and lists each visible topic once, in the order of the first appearances, with each
-- type of its endpoints once. The array that holds a topic's types has an entry for each of them and
-- no other: no null pointer is left at its end.
pub get_topic_names_and_types_refines :
    (memory : ℕ → Bool) (fini : List TopicTypes → List TopicTypes)
    → ((j : ℕ) → memory j ≡ true)
    → (c : Cache) (no_demangle : Bool) (handle : Option NodeHandle)
    → graph_context_from_node handle ≡ ok
    → get_topic_names_and_types memory fini ok c handle true true no_demangle
      ≡ (ok, topics_and_types (view c) no_demangle)
unfolding get_topic_names_and_types
get_topic_names_and_types_refines memory fini m c no_demangle handle h =
    let done = fill_topics-ok c no_demangle memory (reps c no_demangle) 0 m in
    let all = filled c no_demangle memory (ap is_ok done) in
    rw (h, done) (ap (λ (ts : List TopicTypes). (ok, ts)) all)
