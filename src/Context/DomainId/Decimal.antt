-- ===== src/Context/DomainId/Decimal.antt =====
-- What numbers ROS_DOMAIN_ID can name.
use rmw_cyclonedds_c.Common.{
  ℕ, ◌+◌, ◌-◌, ◌*◌, ◌%◌, ◌^◌, ◌≤◌, ◌≡◌, refl, ap, ◌∙◌, Bool, true, false, [], ◌∷◌, Option, none,
  some, CString, arith, ltb, leb, ◌==◌, if◌then◌else◌, All,
}
use rmw_cyclonedds_c.Context.DomainId.{
  is_space, is_digit, skip_spaces, read_digits, Parsed, parse_digits, parse_signed, strtoul,
  default_domain_id, uint32_max, get_domain_id, ulong_max, checked,
}

-- The number that decimal digits spell, from the left.
abbrev pub decimal : ℕ → CString → ℕ
decimal value [] = value
decimal value (c ∷ s) = decimal (value * 10 + (c - 48)) s

abbrev pub AllDigits : CString → Type 0
AllDigits = All (λ c. is_digit c ≡ true)

read_digits_lem :
    (value : ℕ) (s : CString) → AllDigits s → read_digits value s ≡ (decimal value s, [])
unfolding read_digits
read_digits_lem value [] h = refl
read_digits_lem value (c ∷ s) h = rw h.0 (read_digits_lem (value * 10 + (c - 48)) s h.1)

-- What becomes of a number: itself or negated, where it is in range.
abbrev pub parsed_as : Bool → ℕ → Parsed
parsed_as negative m =
    if ltb ulong_max m
    then (record { value = ulong_max; end = []; converted = true; out_of_range = true })
    else (record {
      value = if negative then (2 ^ 64 - m) % 2 ^ 64 else m;
      end = [];
      converted = true;
      out_of_range = false;
    })

module _ (c : ℕ) (s : CString) (h : AllDigits (c ∷ s)) where
  parse_digits_lem :
      (negative : Bool) (start : CString)
      → parse_digits negative (c ∷ s) start ≡ parsed_as negative (decimal 0 (c ∷ s))
  unfolding parse_digits
  parse_digits_lem negative start = rw (parse_digits, read_digits_lem 0 (c ∷ s) h, h.0) refl

  strtoul-digits : strtoul (c ∷ s) ≡ parsed_as false (decimal 0 (c ∷ s))
  unfolding strtoul skip_spaces parse_signed
  strtoul-digits =
      let space : is_space c ≡ false = ground (arith, h.0) in
      let minus : (c == 45) ≡ false = ground (arith, h.0) in
      let plus : (c == 43) ≡ false = ground (arith, h.0) in
      rw (space, minus, plus) (parse_digits_lem false (c ∷ s))

  strtoul-minus : strtoul (45 ∷ c ∷ s) ≡ parsed_as true (decimal 0 (c ∷ s))
  unfolding strtoul skip_spaces parse_signed
  strtoul-minus = parse_digits_lem true (45 ∷ c ∷ s)

-- The number that `get_domain_id` makes of a parsed one.
abbrev pub domain_of : ℕ → Option ℕ
domain_of m = if leb m uint32_max then some m else none

checked_plain : (m : ℕ) → checked (parsed_as false m) ≡ domain_of m
unfolding checked
checked_plain m = ground arith

checked_minus :
    (m : ℕ)
    → checked (parsed_as true m)
      ≡ (if ltb ulong_max m then none else domain_of ((2 ^ 64 - m) % 2 ^ 64))
unfolding checked
checked_minus m = ground arith

checked-le : (p : Parsed) {d : ℕ} → checked p ≡ some d → d ≤ uint32_max
unfolding checked
checked-le p h = ground arith

-- `get_domain_id`, where the options leave the domain open: a ROS_DOMAIN_ID of decimal digits names
-- the domain that it spells, up to 2^32 - 1, and is refused above, also where the number does not fit
-- `unsigned long`. Behind a minus sign, `strtoul` wraps the number round: one up to 2^64 - 1 names
-- its complement to 2^64 if that is at most 2^32 - 1, so some negative numbers are taken for a domain.
pub get_domain_id-decimal :
    (c : ℕ) (s : CString)
    → AllDigits (c ∷ s)
    → (get_domain_id default_domain_id (some (c ∷ s)) ≡ domain_of (decimal 0 (c ∷ s)))
      × (get_domain_id default_domain_id (some (45 ∷ c ∷ s)) ≡ (
          if ltb ulong_max (decimal 0 (c ∷ s))
          then none
          else domain_of ((2 ^ 64 - decimal 0 (c ∷ s)) % 2 ^ 64)))
unfolding get_domain_id
get_domain_id-decimal c s h = (
  ap checked (strtoul-digits c s h) ∙ checked_plain (decimal 0 (c ∷ s)),
  ap checked (strtoul-minus c s h) ∙ checked_minus (decimal 0 (c ∷ s)),
)

-- Whatever ROS_DOMAIN_ID holds, a domain that `get_domain_id` takes from it fits 32 bits.
get_domain_id-le :
    (environment : Option CString) {d : ℕ}
    → get_domain_id default_domain_id environment ≡ some d
    → d ≤ uint32_max
unfolding get_domain_id
get_domain_id-le none h = ground arith
get_domain_id-le (some []) h = ground arith
get_domain_id-le (some (c ∷ s)) h = checked-le (strtoul (c ∷ s)) h
