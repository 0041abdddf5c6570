-- ===== src/Queries/NodeNames.antt =====
-- `rmw_get_node_names`: what the query returns.
use rmw_cyclonedds_c.Common.{
  ℕ, suc, ◌≡◌, refl, ap, ◌∙◌, Bool, true, false, ◌||◌, not, List, [], ◌∷◌, map, Option, some, arith,
  if◌then◌else◌, CString, if_elim,
}
use rmw_cyclonedds_c.Common.Table.{contents}
use rmw_cyclonedds_c.Rmw.{Ret, bad_alloc, invalid_argument, is_ok}
use rmw_cyclonedds_c.GraphCache.{Cache, CachedNode}
use rmw_cyclonedds_c.GraphCache.View.{view, node_view, NodeView}
use rmw_cyclonedds_c.Handles.{NodeHandle, graph_context_from_node}
use rmw_cyclonedds_c.Queries.{blank_names, copy_names, get_node_names}

-- Both outputs list the nodes of the view.
abbrev Listed : List NodeView → Ret × List (Option CString) × List (Option CString) → Type 0
Listed nodes r = (r.1 ≡ map (λ n. some n.name) nodes) × (r.2 ≡ map (λ n. some n.namespace_) nodes)

-- Both outputs list the nodes of the view, or both are empty.
abbrev pub NamesOf : List NodeView → Ret × List (Option CString) × List (Option CString) → Type 0
NamesOf nodes r =
    (r.1 ≡ (if is_ok r.0 then map (λ n. some n.name) nodes else []))
    × (r.2 ≡ (if is_ok r.0 then map (λ n. some n.namespace_) nodes else []))

copy_names-Listed :
    (memory : ℕ → Bool) (ns : List CachedNode) (k : ℕ)
    → is_ok (copy_names memory ns k).0 ≡ true
    → Listed (map node_view ns) (copy_names memory ns k)
unfolding copy_names
copy_names-Listed memory [] k h = (refl, refl)
copy_names-Listed memory (n ∷ ns) k h =
    copied (memory k) (memory (suc k)) h (copy_names-Listed memory ns (suc (suc k)))
  where
    rest : Ret × List (Option CString) × List (Option CString)
    rest = copy_names memory ns (suc (suc k))

    round : Bool → Bool → Ret × List (Option CString) × List (Option CString)
    round a b = elim a [
      | false ↦ (bad_alloc, blank_names (n ∷ ns), blank_names (n ∷ ns))
      | true ↦ elim b [
        | false ↦ (bad_alloc, some n.name ∷ blank_names ns, blank_names (n ∷ ns))
        | true ↦ (rest.0, some n.name ∷ rest.1, some n.namespace_ ∷ rest.2)
      ]
    ]

    copied :
        (a b : Bool)
        → (let r = round a b in is_ok r.0 ≡ true)
        → (is_ok rest.0 ≡ true → Listed (map node_view ns) rest)
        → Listed (map node_view (n ∷ ns)) (round a b)
    copied true true h l =
        (ap (λ t. some n.name ∷ t) (l h).0, ap (λ t. some n.namespace_ ∷ t) (l h).1)
    copied true false h l = absurd (ground (arith, h))
    copied false b h l = absurd (ground (arith, h))

-- `rmw_get_node_names`, whatever its arguments and wherever memory runs out, where
-- `rcutils_string_array_fini` empties what it is given: it either returns OK with the names and the
-- namespaces of all cached nodes, in their order, or leaves both outputs empty, also where one of them
-- had been initialised or entries had been written before the failure.
pub get_node_names-NamesOf :
    (memory : ℕ → Bool) (fini : List (Option CString) → List (Option CString)) (c : Cache)
    (handle : Option NodeHandle) (has_outputs outputs_are_zero : Bool)
    → ((output : List (Option CString)) → fini output ≡ [])
    → NamesOf (view c).nodes (get_node_names memory fini c handle has_outputs outputs_are_zero)
unfolding get_node_names
get_node_names-NamesOf memory fini c handle has_outputs outputs_are_zero empties =
    let P = NamesOf (view c).nodes in
    let ns = contents c.nodes in
    let r = copy_names memory ns 2 in
    let copied : Ret × List (Option CString) × List (Option CString) =
      if not (is_ok r.0) then (r.0, fini r.1, fini r.2) else (r.0, r.1, r.2) in
    let started : Ret × List (Option CString) × List (Option CString) =
      if not (memory 1) then (bad_alloc, fini (blank_names ns), []) else copied in
    let allocated : Ret × List (Option CString) × List (Option CString) =
      if not (memory 0) then (bad_alloc, [], []) else started in
    if_elim P _ (graph_context_from_node handle, [], []) _
      (λ e. (
        refused _ (graph_context_from_node handle) e,
        refused _ (graph_context_from_node handle) e,
      ))
      (λ _.
        if_elim P (not has_outputs || not outputs_are_zero) (invalid_argument, [], []) allocated
          (λ _. (refl, refl))
          (λ _.
            if_elim P (not (memory 0)) (bad_alloc, [], []) started (λ _. (refl, refl))
              (λ _.
                if_elim P (not (memory 1)) (bad_alloc, fini (blank_names ns), []) copied
                  (λ _. (empties (blank_names ns), refl))
                  (λ _.
                    if_elim P (not (is_ok r.0)) (r.0, fini r.1, fini r.2) (r.0, r.1, r.2)
                      (λ e. (empties r.1 ∙ refused _ r.0 e, empties r.2 ∙ refused _ r.0 e))
                      (λ e.
                        let done = not-false (is_ok r.0) e in
                        let all = copy_names-Listed memory ns 2 done in
                        (all.0 ∙ rw done refl, all.1 ∙ rw done refl))))))
  where
    refused :
        (xs : List (Option CString)) (r : Ret)
        → not (is_ok r) ≡ true
        → [] ≡ (if is_ok r then xs else [])
    refused xs r e = ground (arith, e)

    not-false : (b : Bool) → not b ≡ false → b ≡ true
    not-false b h = ground arith
