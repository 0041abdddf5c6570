-- ===== src/Queries/Listing.antt =====
-- What the graph queries promise, over the view of the cache: lists with no entry twice, in the order
-- of the first appearances.
use rmw_cyclonedds_c.Common.{
  ◌≡◌, refl, ap, ◌∙◌, sym, Bool, true, false, ◌&&◌, ◌||◌, List, [], ◌∷◌, ◌++◌, map, none, some,
  CString, bytes_eq, bytes_eq_iff, bytes_eq_refl, arith, if◌then◌else◌, if_elim, any, Bool-cases,
  inl, inr,
}
use rmw_cyclonedds_c.GraphCache.{CachedEndpoint}
use rmw_cyclonedds_c.GraphCache.View.{View}
use rmw_cyclonedds_c.GraphCache.Endpoints.{names_endpoint}
use rmw_cyclonedds_c.Queries.{
  TopicTypes, topic_output_name, type_output_name, endpoint_has_topic, topic_prefix,
}

abbrev pub member : CString → List CString → Bool
member s = any (λ t. bytes_eq t s)

abbrev pub add : List CString → CString → List CString
add known s = if member s known then known else known ++ (s ∷ [])

-- Each string once, behind those that are known.
abbrev pub collect : List CString → List CString → List CString
collect known [] = known
collect known (s ∷ ss) = collect (add known s) ss

-- Some node of the endpoint's participant names it.
abbrev pub visible : View → CachedEndpoint → Bool
visible v e = any (names_endpoint e) v.nodes

abbrev pub topics_in : View → Bool → List CachedEndpoint → List CString
topics_in v no_demangle [] = []
topics_in v no_demangle (e ∷ es) =
    let rest = topics_in v no_demangle es in
    if visible v e
    then elim (topic_output_name no_demangle e) [ none ↦ rest | some topic ↦ topic ∷ rest ]
    else rest

abbrev pub types_in : View → CString → Bool → List CachedEndpoint → List CString
types_in v topic no_demangle [] = []
types_in v topic no_demangle (e ∷ es) =
    let rest = types_in v topic no_demangle es in
    if visible v e && endpoint_has_topic e topic no_demangle
    then type_output_name e.type_name no_demangle ∷ rest
    else rest

-- The visible topics, each with the types of its endpoints.
abbrev pub topics_and_types : View → Bool → List TopicTypes
topics_and_types v no_demangle =
    map
      (λ topic. record {
        name = some topic;
        types = map some (collect [] (types_in v topic no_demangle v.endpoints));
      })
      (collect [] (topics_in v no_demangle v.endpoints))

-- The endpoint is a visible one of the DDS topic, on the side asked for.
abbrev pub counted : View → CString → Bool → CachedEndpoint → Bool
counted v topic writers e =
    visible v e
    && (if writers then e.writer else (if e.writer then false else true))
    && bytes_eq e.topic_name (topic_prefix ++ topic)

any-snoc {ℓ} :
    {A : Type ℓ} (p : A → Bool) (xs : List A) (x : A) → any p (xs ++ (x ∷ [])) ≡ any p xs || p x
any-snoc p [] x = ground arith
any-snoc p (y ∷ xs) x = ground (arith, any-snoc p xs x)

member-add :
    (s t : CString) (known : List CString) → member s (add known t) ≡ member s known || bytes_eq t s
member-add s t known = elim (Bool-cases (member t known)) [
  | inl e ↦ rw e (elim (Bool-cases (bytes_eq t s)) [
    | inl same ↦ ground (arith, sym (ap (λ u. member u known) ((bytes_eq_iff t s).0 same)) ∙ e)
    | inr other ↦ ground arith
  ])
  | inr e ↦ rw e (any-snoc (λ u. bytes_eq u s) known t)
]

pub member-collect :
    (s : CString) (known ss : List CString)
    → member s (collect known ss) ≡ member s known || member s ss
member-collect s known [] = ground arith
member-collect s known (t ∷ ss) =
    member-collect s (add known t) ss
    ∙ ap (λ b. b || member s ss) (member-add s t known)
    ∙ ground arith

pub collect-append :
    (known xs ys : List CString) → collect known (xs ++ ys) ≡ collect (collect known xs) ys
collect-append known [] ys = refl
collect-append known (x ∷ xs) ys = collect-append (add known x) xs ys

-- No string stands twice.
abbrev pub NoDuplicate : List CString → Type 0
NoDuplicate [] = Unit
NoDuplicate (s ∷ ss) = (member s ss ≡ false) × NoDuplicate ss

snoc-NoDuplicate :
    (known : List CString) (s : CString)
    → NoDuplicate known
    → member s known ≡ false
    → NoDuplicate (known ++ (s ∷ []))
snoc-NoDuplicate [] s d h = (refl, tt)
snoc-NoDuplicate (t ∷ known) s d h = (
  any-snoc (λ u. bytes_eq u t) known s
      ∙ ground (arith, d.0, bytes_eq_iff s t, bytes_eq_iff t s, bytes_eq_refl s, h),
  snoc-NoDuplicate known s d.1 (ground (arith, h)),
)

collect-NoDuplicate : (known ss : List CString) → NoDuplicate known → NoDuplicate (collect known ss)
collect-NoDuplicate known [] d = d
collect-NoDuplicate known (s ∷ ss) d = collect-NoDuplicate (add known s) ss (
    if_elim NoDuplicate (member s known) known (known ++ (s ∷ [])) (λ _. d)
      (λ e. snoc-NoDuplicate known s d e))
