-- ===== src/Queries/TypeName.antt =====
-- `graph_type_output_name`: the DDS name of a ROS type is turned back into the ROS name.
use rmw_cyclonedds_c.Common.{
  ℕ, suc, ◌+◌, ◌-◌, ◌<◌, ◌≡◌, refl, ap, ◌∙◌, sym, Bool, true, false, ◌&&◌, not, List, [], ◌∷◌, ◌++◌,
  some, CString, arith, ◌==◌, take, drop, length, length-append, append_assoc, get_or, All,
  take-length, drop-length, get_or-length, ◌^◌,
}
use rmw_cyclonedds_c.Queries.{type_output_name, strstr, starts_with, slashes, size_sub, type_marker}

-- Identifier characters: no colon.
abbrev pub no_colon : CString → Bool
no_colon [] = true
no_colon (x ∷ s) = not (x == 58) && no_colon s

-- "::" behind each part.
abbrev pub dds_path : List CString → CString
dds_path [] = []
dds_path (part ∷ path) = part ++ (58 ∷ 58 ∷ dds_path path)

-- "/" behind each part.
abbrev pub ros_path : List CString → CString
ros_path [] = []
ros_path (part ∷ path) = part ++ (47 ∷ ros_path path)

-- A part of a path: no colon, and no "_" at the end.
abbrev pub is_part : CString → Bool
is_part [] = true
is_part (x ∷ []) = not (x == 58) && not (x == 95)
is_part (x ∷ y ∷ s) = not (x == 58) && is_part (y ∷ s)

-- What rosidl names the type in DDS: "pkg::msg::dds_::Name_".
abbrev pub dds_type_name : List CString → CString → CString
dds_type_name path name = dds_path path ++ (type_marker ++ (name ++ (95 ∷ [])))

slashes_part :
    (part rest : CString)
    → is_part part ≡ true
    → slashes (part ++ (58 ∷ 58 ∷ rest)) ≡ part ++ (47 ∷ slashes rest)
unfolding slashes
slashes_part [] rest h = refl
slashes_part (x ∷ []) rest h = ground (arith, h)
slashes_part (x ∷ y ∷ part) rest h = ground (arith, h, slashes_part (y ∷ part) rest)

slashes-dds_path :
    (path : List CString)
    → All (λ p. is_part p ≡ true) path
    → slashes (dds_path path) ≡ ros_path path
unfolding slashes
slashes-dds_path [] h = refl
slashes-dds_path (part ∷ path) h =
    slashes_part part (dds_path path) h.0 ∙ ap (λ t. part ++ (47 ∷ t)) (slashes-dds_path path h.1)

-- No occurrence of the marker starts in a part.
no_marker :
    (x : ℕ) (part rest : CString)
    → is_part (x ∷ part) ≡ true
    → starts_with type_marker (x ∷ part ++ (58 ∷ 58 ∷ rest)) ≡ false
unfolding starts_with
no_marker x [] rest h = ground arith
no_marker x (y ∷ []) rest h = ground arith
no_marker x (y ∷ z ∷ []) rest h = ground arith
no_marker x (y ∷ z ∷ w ∷ []) rest h = ground (arith, h)
no_marker x (y ∷ z ∷ w ∷ v ∷ []) rest h = ground (arith, h)
no_marker x (y ∷ z ∷ w ∷ v ∷ u ∷ part) rest h = ground (arith, h)

strstr-cons :
    (x n : ℕ) (s : CString)
    → starts_with type_marker (x ∷ s) ≡ false
    → strstr s type_marker ≡ some n
    → strstr (x ∷ s) type_marker ≡ some (suc n)
unfolding strstr
strstr-cons x n s h e = rw (h, e) refl

colon : (s : CString) → starts_with type_marker (58 ∷ s) ≡ false
unfolding starts_with
colon s = refl

strstr_part :
    (part rest : CString) (n : ℕ)
    → is_part part ≡ true
    → strstr rest type_marker ≡ some n
    → strstr (part ++ (58 ∷ 58 ∷ rest)) type_marker ≡ some (length part + (2 + n))
strstr_part [] rest n p h =
    strstr-cons 58 (suc n) (58 ∷ rest) (colon (58 ∷ rest)) (strstr-cons 58 n rest (colon rest) h)
    ∙ ap some (omega arith)
strstr_part (x ∷ part) rest n p h =
    strstr-cons x (length part + (2 + n)) (part ++ (58 ∷ 58 ∷ rest)) (no_marker x part rest p)
      (strstr_part part rest n (tail part p) h)
    ∙ ap some (omega arith)
  where
    tail : (part : CString) → is_part (x ∷ part) ≡ true → is_part part ≡ true
    tail [] h = refl
    tail (y ∷ part) h = ground (arith, h)

strstr-dds_path :
    (path : List CString) (name : CString)
    → All (λ p. is_part p ≡ true) path
    → strstr (dds_type_name path name) type_marker ≡ some (length (dds_path path))
unfolding strstr starts_with
strstr-dds_path [] name h = refl
strstr-dds_path (part ∷ path) name h =
    ap (λ s. strstr s type_marker) (append_assoc part (58 ∷ 58 ∷ dds_path path) _)
    ∙ strstr_part part (dds_type_name path name) (length (dds_path path)) h.0
        (strstr-dds_path path name h.1)
    ∙ ap some (omega (arith, length-append part (58 ∷ 58 ∷ dds_path path)))

-- `graph_type_output_name` turns the DDS name "pkg::msg::dds_::Name_" of a ROS type into
-- "pkg/msg/Name", for every path whose parts have no ":" and do not end in "_" and every name, if the
-- name's length fits a `size_t`.
pub type_output_name-dds_type_name :
    (path : List CString) (name : CString)
    → All (λ p. is_part p ≡ true) path
    → length (dds_type_name path name) < 2 ^ 64
    → type_output_name (dds_type_name path name) false ≡ ros_path path ++ name
unfolding type_output_name
type_output_name-dds_type_name path name h fits =
    let prefix = dds_path path in
    let rest = type_marker ++ (name ++ (95 ∷ [])) in
    let source = dds_type_name path name in
    let total : length source ≡ length prefix + 6 + length name + 1 =
      omega (arith, length-append prefix rest, length-append name (95 ∷ [])) in
    let init = prefix ++ (type_marker ++ name) in
    let whole : source ≡ init ++ (95 ∷ []) =
      sym (append_assoc prefix (type_marker ++ name) (95 ∷ [])) in
    let index : length source - 1 ≡ length init =
      omega (arith, total, length-append prefix (type_marker ++ name)) in
    let last : get_or source (length source - 1) 0 ≡ 95 =
      ap (λ i. get_or source i 0) index
      ∙ ap (λ s. get_or s (length init) 0) whole
      ∙ get_or-length init 95 0 in
    let nonempty : (length source == 0) ≡ false = ground (arith, total) in
    let front : take (length prefix) source ≡ prefix = take-length prefix rest in
    let back : drop (length prefix + 6) source ≡ name ++ (95 ∷ []) = drop-length prefix rest 6 in
    let size : size_sub (size_sub (length source) (length prefix + 6)) 1 ≡ length name =
      omega (arith, total, fits) in
    rw (type_output_name, strstr-dds_path path name h, nonempty, last, front, back, size)
      (ap (λ t. t ++ take (length name) (name ++ (95 ∷ []))) (slashes-dds_path path h)
        ∙ ap (λ t. ros_path path ++ t) (take-length name (95 ∷ [])))
