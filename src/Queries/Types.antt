-- ===== src/Queries/Types.antt =====
-- The two passes of `rmw_get_topic_names_and_types` over the endpoints of a topic: the first counts
-- its types, the second writes them.
use rmw_cyclonedds_c.Common.{
  ℕ, suc, ◌≤◌, ◌<◌, ◌≡◌, refl, ap, ◌∙◌, sym, Bool, true, false, ◌&&◌, not, List, [], ◌∷◌, ◌++◌,
  CString, map, some, ◌-◌, arith, if◌then◌else◌, take, take-length, length, length-append,
  append_assoc, append-nil, Bool-cases, inl, inr,
}
use mathlib.Core.Path.{subst}
use rmw_cyclonedds_c.Common.Table.{Table, contents, Fits, push}
use rmw_cyclonedds_c.Common.Table.Contents.{contents-push, push-Fits, length-contents}
use rmw_cyclonedds_c.Rmw.{Ret, ok, bad_alloc, is_ok}
use rmw_cyclonedds_c.GraphCache.{Cache, CachedEndpoint}
use rmw_cyclonedds_c.GraphCache.View.{view}
use rmw_cyclonedds_c.GraphCache.Endpoints.{endpoint_is_associated_lem}
use rmw_cyclonedds_c.Queries.{
  string_array, on_topic, previous_has_type, count_types, holds_string, write_types,
  type_output_name, endpoint_has_topic,
}
use rmw_cyclonedds_c.Queries.Listing.{
  member, add, collect, visible, types_in, member-collect, collect-append,
}

holds_string_lem : (s : CString) (ss : List CString) → holds_string s ss ≡ member s ss
unfolding holds_string
holds_string_lem s [] = refl
holds_string_lem s (t ∷ ss) = rw (holds_string_lem s ss) refl

length-add-le : (known : List CString) (s : CString) → length known ≤ length (add known s)
length-add-le known s = ground (arith, length-append known (s ∷ []))

length-collect-le : (known ss : List CString) → length known ≤ length (collect known ss)
length-collect-le known [] = omega arith
length-collect-le known (s ∷ ss) =
    omega (arith, length-add-le known s, length-collect-le (add known s) ss)

module _ (c : Cache) (topic : CString) (no_demangle : Bool) where
  abbrev types_of : List CachedEndpoint → List CString
  types_of = types_in (view c) topic no_demangle

  abbrev type_of : CachedEndpoint → CString
  type_of e = type_output_name e.type_name no_demangle

  on_topic_lem :
      (e : CachedEndpoint)
      → on_topic c topic no_demangle e
        ≡ (visible (view c) e && endpoint_has_topic e topic no_demangle)
  unfolding on_topic
  on_topic_lem e = rw (endpoint_is_associated_lem c e) refl

  types_in-append : (es fs : List CachedEndpoint) → types_of (es ++ fs) ≡ types_of es ++ types_of fs
  types_in-append [] fs = refl
  types_in-append (e ∷ es) fs = ground (arith, types_in-append es fs)

  previous_has_type_lem :
      (type_ : CString) (es : List CachedEndpoint)
      → previous_has_type c topic no_demangle type_ es ≡ member type_ (types_of es)
  unfolding previous_has_type
  previous_has_type_lem type_ [] = refl
  previous_has_type_lem type_ (e ∷ es) =
      ground (arith, on_topic_lem e, previous_has_type_lem type_ es)

  abbrev distinct : List CachedEndpoint → List CString
  distinct es = collect [] (types_of es)

  -- One more endpoint gives one more type exactly where the first pass counts it.
  length-distinct-snoc :
      (es : List CachedEndpoint) (e : CachedEndpoint)
      → length (distinct (es ++ (e ∷ []))) ≡ (
          if on_topic c topic no_demangle e
            && not (previous_has_type c topic no_demangle (type_of e) es)
          then suc (length (distinct es))
          else length (distinct es))
  length-distinct-snoc es e =
      let step : distinct (es ++ (e ∷ [])) ≡ collect (distinct es) (types_of (e ∷ [])) =
        ap (collect []) (types_in-append es (e ∷ []))
        ∙ collect-append [] (types_of es) (types_of (e ∷ [])) in
      ap length step
      ∙ ground (
        arith,
        on_topic_lem e,
        previous_has_type_lem (type_of e) es,
        member-collect (type_of e) [] (types_of es),
        length-append (distinct es) (type_of e ∷ []),
      )

  pub count_types_lem :
      (es seen : List CachedEndpoint)
      → contents c.endpoints ≡ seen ++ es
      → count_types c topic no_demangle es (length seen) (length (distinct seen))
        ≡ length (distinct (seen ++ es))
  unfolding count_types
  count_types_lem [] seen h = ap (λ t. length (distinct t)) (sym (append-nil seen))
  count_types_lem (e ∷ es) seen h =
      let taken : take (length seen) (contents c.endpoints) ≡ seen =
        ap (take (length seen)) h ∙ take-length seen (e ∷ es) in
      let longer : suc (length seen) ≡ length (seen ++ (e ∷ [])) =
        omega (arith, length-append seen (e ∷ [])) in
      let split : seen ++ (e ∷ es) ≡ (seen ++ (e ∷ [])) ++ es =
        sym (append_assoc seen (e ∷ []) es) in
      rw (taken, ← length-distinct-snoc seen e, longer, split)
        (count_types_lem es (seen ++ (e ∷ [])) (h ∙ split))

  module _ (memory : ℕ → Bool) (e : CachedEndpoint) (es : List CachedEndpoint) (out : Table CString)
      (k : ℕ) where
    abbrev new_type : Bool
    new_type = on_topic c topic no_demangle e && not (holds_string (type_of e) (contents out))

    write_types-skip :
        new_type ≡ false
        → write_types memory c topic no_demangle (e ∷ es) out k
          ≡ write_types memory c topic no_demangle es out k
    unfolding write_types
    write_types-skip h = rw (h, write_types) refl

    write_types-write :
        new_type ≡ true
        → memory k ≡ true
        → write_types memory c topic no_demangle (e ∷ es) out k
          ≡ write_types memory c topic no_demangle es (push out (type_of e)) (suc k)
    unfolding write_types
    write_types-write h m = rw (h, m, write_types) refl

    write_types-full :
        new_type ≡ true
        → memory k ≡ false
        → write_types memory c topic no_demangle (e ∷ es) out k ≡ (bad_alloc, out, suc k)
    unfolding write_types
    write_types-full h m = rw (h, m, write_types) refl

  -- A new type is what the specification adds.
  collect-types_in :
      (known : List CString) (e : CachedEndpoint) (es : List CachedEndpoint)
      → collect known (types_of (e ∷ es))
        ≡ collect
            (if on_topic c topic no_demangle e && not (holds_string (type_of e) known)
              then known ++ (type_of e ∷ [])
              else known)
            (types_of es)
  collect-types_in known e es = ground (arith, on_topic_lem e, holds_string_lem (type_of e) known)

  -- Where memory does not run out, the array holds the types of the rest behind those that it had.
  -- The array is as large as before.
  abbrev pub Written : ℕ → Ret × Table CString × ℕ → List CString → Type 0
  Written bound r types = is_ok r.0 ≡ true → (contents r.1 ≡ types) × Fits bound r.1

  pub write_types-Written :
      (memory : ℕ → Bool) (bound : ℕ) (es : List CachedEndpoint) (out : Table CString) (k : ℕ)
      → Fits bound out
      → length (collect (contents out) (types_of es)) ≤ bound
      → Written bound
          (write_types memory c topic no_demangle es out k)
          (collect (contents out) (types_of es))
  unfolding write_types
  write_types-Written memory bound [] out k f h = λ _. (refl, f)
  write_types-Written memory bound (e ∷ es) out k f h =
      let spec = collect-types_in (contents out) e es in
      elim (Bool-cases (new_type memory e es out k)) [
        | inl new ↦
            let longer : collect (contents out) (types_of (e ∷ es))
                ≡ collect (contents out ++ (type_of e ∷ [])) (types_of es) =
              spec ∙ rw new refl in
            let room : out.count < bound = omega (
              arith,
              ap length longer,
              h,
              length-collect-le (contents out ++ (type_of e ∷ [])) (types_of es),
              length-append (contents out) (type_of e ∷ []),
              length-contents bound out f,
            ) in
            let pushed = contents-push bound out (type_of e) f room in
            let same : collect (contents (push out (type_of e))) (types_of es)
                ≡ collect (contents out) (types_of (e ∷ es)) =
              ap (λ t. collect t (types_of es)) pushed ∙ sym longer in
            elim (Bool-cases (memory k)) [
              | inl m ↦
                  rw (write_types-write memory e es out k new m, ← same)
                    (write_types-Written memory bound es (push out (type_of e)) (suc k)
                      (push-Fits bound out (type_of e) f room)
                      (subst (λ t. length t ≤ bound) (sym same) h))
              | inr m ↦
                  rw (write_types-full memory e es out k new m)
                    (λ failed. absurd (ground (arith, failed)))
            ]
        | inr old ↦
            let same : collect (contents out) (types_of (e ∷ es))
                ≡ collect (contents out) (types_of es) =
              spec ∙ rw old refl in
            rw (write_types-skip memory e es out k old, same)
              (write_types-Written memory bound es out k f (subst (λ t. length t ≤ bound) same h))
      ]

  -- An array that was made for just these types is full.
  pub string_array_lem :
      (bound : ℕ) (out : Table CString) (types : List CString)
      → contents out ≡ types
      → Fits bound out
      → bound ≡ length types
      → string_array out ≡ map some types
  string_array_lem bound out types h f n =
      let full : length out.slots - out.count ≡ 0 =
        omega (arith, f.0, n, ap length h, length-contents bound out f) in
      rw (full, h) (append-nil (map some types))

  pub write_types-ok :
      (memory : ℕ → Bool) (es : List CachedEndpoint) (out : Table CString) (k : ℕ)
      → ((j : ℕ) → memory j ≡ true)
      → (write_types memory c topic no_demangle es out k).0 ≡ ok
  unfolding write_types
  write_types-ok memory [] out k m = refl
  write_types-ok memory (e ∷ es) out k m = elim (Bool-cases (new_type memory e es out k)) [
    | inl new ↦
        rw (write_types-write memory e es out k new (m k))
          (write_types-ok memory es (push out (type_of e)) (suc k) m)
    | inr old ↦ rw (write_types-skip memory e es out k old) (write_types-ok memory es out k m)
  ]
