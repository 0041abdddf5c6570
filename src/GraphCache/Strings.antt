-- ===== src/GraphCache/Strings.antt =====
-- `graph_string_fits` and the checks on an incoming snapshot.
use rmw_cyclonedds_c.Common.{
  ℕ, zero, suc, ◌+◌, ◌≤◌, ◌≡◌, refl, ◌∙◌, Bool, true, false, not, List, [], ◌∷◌, Option, none, some,
  arith, CString, is_nul, ltb, leb, length,
}
use rmw_cyclonedds_c.GraphCache.{
  fits_from, string_fits, string_bound, exceeded_limit, NodeInfo, Limit,
}
use rmw_cyclonedds_c.GraphCache.View.{all_admissible}

is_nul-ltb : (s : CString) (i : ℕ) → is_nul s i ≡ not (ltb i (length s))
is_nul-ltb [] i = ground arith
is_nul-ltb (b ∷ s) zero = ground arith
is_nul-ltb (b ∷ s) (suc i) = is_nul-ltb s i ∙ ground arith

fits_from_lem : (n i : ℕ) (s : CString) → i ≤ length s → fits_from n i s ≡ ltb (length s) (i + n)
unfolding fits_from
fits_from_lem zero i s h = ground arith
fits_from_lem (suc n) i s h = ground (arith, is_nul-ltb s i, fits_from_lem n (suc i) s)

-- A string fits exactly if it has at most 256 bytes in front of its NUL.
pub string_fits_lem : (s : CString) → string_fits (some s) ≡ leb (length s) string_bound
unfolding string_fits
string_fits_lem s = fits_from_lem (suc string_bound) 0 s (omega arith) ∙ bound (length s)
  where
    bound : (n : ℕ) → ltb n (0 + suc string_bound) ≡ leb n string_bound
    bound n = ground arith

abbrev pub accepted : Option Limit → Bool
accepted none = true
accepted (some l) = false

pub exceeded_limit_lem : (ns : List NodeInfo) → accepted (exceeded_limit ns) ≡ all_admissible ns
unfolding exceeded_limit
exceeded_limit_lem [] = refl
exceeded_limit_lem (n ∷ ns) =
    ground
      (arith, string_fits_lem n.node_name, string_fits_lem n.node_namespace, exceeded_limit_lem ns)
