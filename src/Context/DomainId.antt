-- ===== src/Context/DomainId.antt =====
-- `get_domain_id` of rmw_cyclonedds_c/src/rmw_cyclonedds_c.c, with the part of the C library's
-- `strtoul` that it uses: base 10, `unsigned long` of 64 bits. The build sets no
-- RMW_CYCLONEDDS_C_DEFAULT_DOMAIN_ID.
pub mod Decimal
use rmw_cyclonedds_c.Common.{
  ℕ, ◌+◌, ◌-◌, ◌*◌, ◌%◌, ◌^◌, Bool, true, false, ◌&&◌, ◌||◌, not, List, [], ◌∷◌, Option, none, some,
  CString, ltb, leb, ◌==◌, if◌then◌else◌,
}

-- `isspace` in the C locale.
abbrev pub is_space : ℕ → Bool
is_space c = c == 32 || leb 9 c && leb c 13

abbrev pub is_digit : ℕ → Bool
is_digit c = leb 48 c && leb c 57

unfoldable pub skip_spaces : CString → CString
skip_spaces [] = []
skip_spaces (c ∷ s) = let rest = skip_spaces s in if is_space c then rest else c ∷ s

-- The value of the digits in front, on top of `value`, and what stands behind them.
unfoldable pub read_digits : ℕ → CString → ℕ × CString
read_digits value [] = (value, [])
read_digits value (c ∷ s) =
    let rest = read_digits (value * 10 + (c - 48)) s in if is_digit c then rest else (value, c ∷ s)

-- What `strtoul` leaves: `end` is the string at `*endptr`, `converted` is false where that is the
-- start, `out_of_range` says that `errno` is ERANGE.
pub record Parsed : Type 0 where
  pub value : ℕ
  pub end : CString
  pub converted : Bool
  pub out_of_range : Bool

abbrev pub ulong_max : ℕ
ulong_max = 2 ^ 64 - 1

abbrev pub starts_with_digit : CString → Bool
starts_with_digit [] = false
starts_with_digit (c ∷ s) = is_digit c

-- The digits of a number with its sign. A minus sign negates within `unsigned long`.
unfoldable pub parse_digits : Bool → CString → CString → Parsed
parse_digits negative s start =
    let (magnitude, end) = read_digits 0 s in
    if not (starts_with_digit s)
    then (record { value = 0; end = start; converted = false; out_of_range = false })
    else (if ltb ulong_max magnitude
        then (record { value = ulong_max; end = end; converted = true; out_of_range = true })
        else (record {
          value = if negative then (2 ^ 64 - magnitude) % 2 ^ 64 else magnitude;
          end = end;
          converted = true;
          out_of_range = false;
        }))

unfoldable pub parse_signed : CString → CString → Parsed
parse_signed [] start = parse_digits false [] start
parse_signed (c ∷ s) start =
    if c == 45
    then parse_digits true s start
    else if c == 43
    then parse_digits false s start
    else parse_digits false (c ∷ s) start

-- `strtoul(s, &end, 10)`
unfoldable pub strtoul : CString → Parsed
strtoul s = parse_signed (skip_spaces s) s

-- `RMW_DEFAULT_DOMAIN_ID`, which is `SIZE_MAX`.
abbrev pub default_domain_id : ℕ
default_domain_id = 2 ^ 64 - 1

abbrev pub is_empty : CString → Bool
is_empty [] = true
is_empty (c ∷ s) = false

abbrev pub uint32_max : ℕ
uint32_max = 2 ^ 32 - 1

-- The test of what `strtoul` found.
unfoldable pub checked : Parsed → Option ℕ
checked parsed =
    if parsed.out_of_range
      || not parsed.converted
      || not (is_empty parsed.end)
      || ltb uint32_max parsed.value
    then none
    else some parsed.value

-- `environment` is the value of ROS_DOMAIN_ID. The domain, or `none` where the function returns
-- false.
unfoldable pub get_domain_id : ℕ → Option CString → Option ℕ
get_domain_id domain_id environment =
    if not (domain_id == default_domain_id) then some domain_id else elim environment [
      | none ↦ some 0
      | some text ↦ if is_empty text then some 0 else checked (strtoul text)
    ]
