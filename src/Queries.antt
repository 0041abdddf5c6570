-- ===== src/Queries.antt =====
-- The graph queries of rmw_cyclonedds_c/src/rmw_cyclonedds_c.c: `rmw_count_publishers`,
-- `rmw_count_subscribers`, `rmw_get_node_names`, `rmw_get_topic_names_and_types` and their helpers.
-- Each reads the cache of the node's context under `graph_cache_lock`. `memory` answers the
-- allocations and array initialisations of a query, in their order: true is a success. What
-- `rmw_validate_full_topic_name` makes of a name is an argument, and so is what
-- `rcutils_string_array_fini` and `rmw_names_and_types_fini` make of an output. An output is a list with
-- an entry for each place of the array; a null pointer in it is `none`.
pub mod Listing
pub mod Counts
pub mod Topics
pub mod Types
pub mod Result
pub mod NodeNames
pub mod TypeName
pub mod Tests
use rmw_cyclonedds_c.Common.{
  ℕ, suc, ◌+◌, ◌-◌, ◌%◌, ◌^◌, Bool, true, false, ◌&&◌, ◌||◌, not, List, [], ◌∷◌, ◌++◌, Option, none,
  some, CString, bytes_eq, ltb, ◌==◌, if◌then◌else◌, length, get_or, take, drop, map, replicate,
}
use mathlib.Core.Option
use rmw_cyclonedds_c.Common.Table.{Table, contents, empty, push}
use rmw_cyclonedds_c.Rmw.{Ret, ok, bad_alloc, invalid_argument, is_ok}
use rmw_cyclonedds_c.GraphCache.{
  Cache, CachedNode, CachedEndpoint, endpoint_is_associated, zero_endpoint, string_bound,
}
use rmw_cyclonedds_c.Handles.{NodeHandle, graph_context_from_node}

-- "rt"
abbrev pub topic_prefix : CString
topic_prefix = 114 ∷ 116 ∷ []

-- "ros_discovery_info"
abbrev pub discovery_topic : CString
discovery_topic =
    114 ∷ 111 ∷ 115 ∷ 95 ∷ 100 ∷ 105 ∷ 115 ∷ 99 ∷ 111 ∷ 118 ∷ 101 ∷ 114 ∷ 121 ∷ 95 ∷ 105 ∷ 110 ∷ 102
    ∷ 111 ∷ []

-- "dds_::"
abbrev pub type_marker : CString
type_marker = 100 ∷ 100 ∷ 115 ∷ 95 ∷ 58 ∷ 58 ∷ []

-- `validation` is the code and the verdict of `rmw_validate_full_topic_name`.
unfoldable pub validate_topic_count_arguments :
    Ret × Bool → Option NodeHandle → Option CString → Bool → Ret
validate_topic_count_arguments validation node topic_name has_count =
    let node_result = graph_context_from_node node in
    if not (is_ok node_result) then node_result else elim topic_name [
      | none ↦ invalid_argument
      | some name ↦
          if not has_count
          then invalid_argument
          else if not (is_ok validation.0)
          then validation.0
          else if not validation.1
          then invalid_argument
          else ok
    ]

-- The loop that counts.
unfoldable pub count_matching : Cache → CString → Bool → List CachedEndpoint → ℕ → ℕ
count_matching c topic writers [] n = n
count_matching c topic writers (e ∷ es) n =
    let writer_matches = if writers then e.writer else not e.writer in
    count_matching c topic writers es (
      if endpoint_is_associated c e && writer_matches && bytes_eq e.topic_name topic
      then suc n
      else n)

-- `none` is an output that is not written.
unfoldable pub count_endpoints :
    Ret × Bool → Cache → Option NodeHandle → Option CString → Bool → Bool → Ret × Option ℕ
count_endpoints validation c node topic_name has_count writers =
    let result = validate_topic_count_arguments validation node topic_name has_count in
    if not (is_ok result) then (result, none) else elim topic_name [
      | none ↦ (invalid_argument, none)
      | some name ↦
          let dds_topic = topic_prefix ++ name in
          if ltb string_bound (length dds_topic)
          then (invalid_argument, none)
          else (ok, some (count_matching c dds_topic writers (contents c.endpoints) 0))
    ]

unfoldable pub count_publishers :
    Ret × Bool → Cache → Option NodeHandle → Option CString → Bool → Ret × Option ℕ
count_publishers validation c node topic_name has_count =
    count_endpoints validation c node topic_name has_count true

unfoldable pub count_subscribers :
    Ret × Bool → Cache → Option NodeHandle → Option CString → Bool → Ret × Option ℕ
count_subscribers validation c node topic_name has_count =
    count_endpoints validation c node topic_name has_count false

-- `strncmp(s, prefix, strlen(prefix)) == 0`
unfoldable pub starts_with : CString → CString → Bool
starts_with [] s = true
starts_with (x ∷ prefix) [] = false
starts_with (x ∷ prefix) (y ∷ s) = x == y && starts_with prefix s

unfoldable pub topic_output_name : Bool → CachedEndpoint → Option CString
topic_output_name no_demangle e =
    if bytes_eq e.topic_name discovery_topic
    then none
    else if no_demangle
    then some e.topic_name
    else if starts_with (topic_prefix ++ (47 ∷ [])) e.topic_name
    then some (drop 2 e.topic_name)
    else none

-- `strstr`: the index of the first occurrence.
unfoldable pub strstr : CString → CString → Option ℕ
strstr [] pattern_ = if starts_with pattern_ [] then some 0 else none
strstr (x ∷ s) pattern_ =
    let rest = strstr s pattern_ in
    if starts_with pattern_ (x ∷ s)
    then some 0
    else elim rest [ none ↦ none | some i ↦ some (suc i) ]

-- The loop that turns each "::" in front of the marker into "/".
unfoldable pub slashes : CString → CString
slashes [] = []
slashes (a ∷ []) = a ∷ []
slashes (a ∷ b ∷ rest) =
    let (taken, kept) : CString × CString = (slashes rest, slashes (b ∷ rest)) in
    if a == 58 && b == 58 then 47 ∷ taken else a ∷ kept

-- `a - b` of type `size_t`
abbrev pub size_sub : ℕ → ℕ → ℕ
size_sub a b = (a + 2 ^ 64 - b) % 2 ^ 64

-- "pkg::msg::dds_::Name_" becomes "pkg/msg/Name".
unfoldable pub type_output_name : CString → Bool → CString
type_output_name source no_demangle = elim (strstr source type_marker) [
  | none ↦ source
  | some marker ↦
      if no_demangle || length source == 0 || not (get_or source (length source - 1) 0 == 95)
      then source
      else (let type_name = marker + 6 in
          slashes (take marker source)
          ++ take (size_sub (size_sub (length source) type_name) 1) (drop type_name source))
]

unfoldable pub endpoint_has_topic : CachedEndpoint → CString → Bool → Bool
endpoint_has_topic e topic no_demangle = elim (topic_output_name no_demangle e) [
  | none ↦ false
  | some candidate ↦ bytes_eq candidate topic
]

-- Some representative has the topic.
unfoldable pub represented : Cache → Bool → CString → List ℕ → Bool
represented c no_demangle topic [] = false
represented c no_demangle topic (i ∷ representatives) =
    let rest = represented c no_demangle topic representatives in
    if endpoint_has_topic (get_or c.endpoints.slots i zero_endpoint) topic no_demangle
    then true
    else rest

-- One round of the loop that collects an endpoint for each topic.
unfoldable pub represent_one : Cache → Bool → CachedEndpoint → ℕ → List ℕ → List ℕ
represent_one c no_demangle e i representatives =
    if not (endpoint_is_associated c e)
    then representatives
    else elim (topic_output_name no_demangle e) [
      | none ↦ representatives
      | some topic ↦
          if represented c no_demangle topic representatives
          then representatives
          else representatives ++ (i ∷ [])
    ]

unfoldable pub represent : Cache → Bool → List CachedEndpoint → ℕ → List ℕ → List ℕ
represent c no_demangle [] i representatives = representatives
represent c no_demangle (e ∷ es) i representatives =
    represent c no_demangle es (suc i) (represent_one c no_demangle e i representatives)

-- The guard of the loops over the endpoints of one topic.
unfoldable pub on_topic : Cache → CString → Bool → CachedEndpoint → Bool
on_topic c topic no_demangle e =
    endpoint_is_associated c e && endpoint_has_topic e topic no_demangle

-- A previous endpoint of the topic has the type.
unfoldable pub previous_has_type : Cache → CString → Bool → CString → List CachedEndpoint → Bool
previous_has_type c topic no_demangle type_ [] = false
previous_has_type c topic no_demangle type_ (e ∷ es) =
    let rest = previous_has_type c topic no_demangle type_ es in
    if on_topic c topic no_demangle e && bytes_eq (type_output_name e.type_name no_demangle) type_
    then true
    else rest

-- The first pass: the number of the topic's types, where `i` endpoints have been seen.
unfoldable pub count_types : Cache → CString → Bool → List CachedEndpoint → ℕ → ℕ → ℕ
count_types c topic no_demangle [] i n = n
count_types c topic no_demangle (e ∷ es) i n =
    let type_ = type_output_name e.type_name no_demangle in
    count_types c topic no_demangle es (suc i) (
      if on_topic c topic no_demangle e
        && not (previous_has_type c topic no_demangle type_ (take i (contents c.endpoints)))
      then suc n
      else n)

-- One of the types that have been written.
unfoldable pub holds_string : CString → List CString → Bool
holds_string s [] = false
holds_string s (t ∷ ts) = let rest = holds_string s ts in if bytes_eq t s then true else rest

-- The second pass: the types are written into an array that the first pass measured. `k` counts the
-- answers of `memory` that have been used.
unfoldable pub write_types :
    (ℕ → Bool)
    → Cache
    → CString
    → Bool
    → List CachedEndpoint
    → Table CString
    → ℕ
    → Ret × Table CString × ℕ
write_types memory c topic no_demangle [] out k = (ok, out, k)
write_types memory c topic no_demangle (e ∷ es) out k =
    let type_ = type_output_name e.type_name no_demangle in
    elim (on_topic c topic no_demangle e && not (holds_string type_ (contents out))) [
      | false ↦ write_types memory c topic no_demangle es out k
      | true ↦ elim (memory k) [
        | false ↦ (bad_alloc, out, suc k)
        | true ↦ write_types memory c topic no_demangle es (push out type_) (suc k)
      ]
    ]

-- An entry of `rmw_names_and_types_t`: a name and the array of its types.
pub record TopicTypes : Type 0 where
  pub name : Option CString
  pub types : List (Option CString)

-- The array that `rcutils_string_array_init` makes for a topic: the entries written, then null pointers.
abbrev pub string_array : Table CString → List (Option CString)
string_array t = map some (contents t) ++ replicate (length t.slots - t.count) none

-- What `rmw_names_and_types_init` leaves in each entry.
abbrev pub unwritten : List ℕ → List TopicTypes
unwritten = map (λ _. record { name = none; types = [] })

-- The loop over the topics. The name is that of the topic's representative. A failure leaves the entries
-- behind it unwritten.
unfoldable pub fill_topics : (ℕ → Bool) → Cache → Bool → List ℕ → ℕ → Ret × List TopicTypes
fill_topics memory c no_demangle [] k = (ok, [])
fill_topics memory c no_demangle (i ∷ representatives) k =
    let topic =
      Option.get_or (topic_output_name no_demangle (get_or c.endpoints.slots i zero_endpoint)) [] in
    let es = contents c.endpoints in
    elim (memory k) [
      | false ↦ (bad_alloc, unwritten (i ∷ representatives))
      | true ↦ elim (memory (suc k)) [
        | false ↦ (bad_alloc, record { name = some topic; types = [] } ∷ unwritten representatives)
        | true ↦
            let type_count = count_types c topic no_demangle es 0 0 in
            let (result, types, k') =
              write_types memory c topic no_demangle es (empty [] type_count) (suc (suc k)) in
            let (others_result, others) = fill_topics memory c no_demangle representatives k' in
            let entry : TopicTypes = record { name = some topic; types = string_array types } in
            if not (is_ok result)
            then (result, entry ∷ unwritten representatives)
            else (others_result, entry ∷ others)
      ]
    ]

-- `initialized` is what `rmw_names_and_types_init` returns, `output_is_zero` what
-- `rmw_names_and_types_check_zero` finds, `fini` what `rmw_names_and_types_fini` makes of an output.
unfoldable pub get_topic_names_and_types :
    (ℕ → Bool)
    → (List TopicTypes → List TopicTypes)
    → Ret
    → Cache
    → Option NodeHandle
    → Bool
    → Bool
    → Bool
    → Ret × List TopicTypes
get_topic_names_and_types memory fini initialized c node arguments_are_valid output_is_zero
      no_demangle =
    let node_result = graph_context_from_node node in
    if not (is_ok node_result)
    then (node_result, [])
    else if not arguments_are_valid || not output_is_zero
    then (invalid_argument, [])
    else let representatives = represent c no_demangle (contents c.endpoints) 0 [] in
      if not (is_ok initialized)
      then (initialized, [])
      else let (result, output) = fill_topics memory c no_demangle representatives 0 in
        if not (is_ok result) then (result, fini output) else (result, output)

-- Null pointers, one for each node.
abbrev pub blank_names : List CachedNode → List (Option CString)
blank_names = map (λ _. none)

-- The loop of `rmw_get_node_names`: names and namespaces, index by index. A failure leaves the entries
-- behind it null.
unfoldable pub copy_names :
    (ℕ → Bool) → List CachedNode → ℕ → Ret × List (Option CString) × List (Option CString)
copy_names memory [] k = (ok, [], [])
copy_names memory (n ∷ ns) k = elim (memory k) [
  | false ↦ (bad_alloc, blank_names (n ∷ ns), blank_names (n ∷ ns))
  | true ↦ elim (memory (suc k)) [
    | false ↦ (bad_alloc, some n.name ∷ blank_names ns, blank_names (n ∷ ns))
    | true ↦
        let (result, names, namespaces) = copy_names memory ns (suc (suc k)) in
        (result, some n.name ∷ names, some n.namespace_ ∷ namespaces)
  ]
]

-- The first two answers of `memory` are those of `rcutils_string_array_init`; `fini` is what
-- `rcutils_string_array_fini` makes of an output.
unfoldable pub get_node_names :
    (ℕ → Bool)
    → (List (Option CString) → List (Option CString))
    → Cache
    → Option NodeHandle
    → Bool
    → Bool
    → Ret × List (Option CString) × List (Option CString)
get_node_names memory fini c node has_outputs outputs_are_zero =
    let node_result = graph_context_from_node node in
    if not (is_ok node_result)
    then (node_result, [], [])
    else if not has_outputs || not outputs_are_zero
    then (invalid_argument, [], [])
    else if not (memory 0)
    then (bad_alloc, [], [])
    else if not (memory 1)
    then (bad_alloc, fini (blank_names (contents c.nodes)), [])
    else let (result, names, namespaces) = copy_names memory (contents c.nodes) 2 in
      if not (is_ok result)
      then (result, fini names, fini namespaces)
      else (result, names, namespaces)
