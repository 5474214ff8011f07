-- ===== src/Units/Parse.antt =====
-- HX_strtoull_unit and HX_strtod_unit of src/string.c: a number with the prefix of a unit. Doubles are a
-- parameter.
pub mod Exact
use libhx.Period.{
  ullong_max, is_digit, toupper, skip_space, scan_digits, Scanned, scan_unsigned, Parsed, finished,
  out_of_range,
}
use libhx.Prelude.{
  ℕ, zero, suc, ◌+◌, ◌-◌, ◌*◌, ◌/◌, ◌%◌, ◌^◌, Bool, true, false, Option, none, some, List, [], ◌∷◌,
  length, drop, get_or, leb, ◌==◌, if◌then◌else◌,
}

-- `suffix_power`
unfoldable pub suffix_power : ℕ → ℕ
suffix_power u =
    let c = toupper u in
    if c == b'K'
    then 1
    else if c == b'M'
    then 2
    else if c == b'G'
    then 3
    else if c == b'T'
    then 4
    else if c == b'P'
    then 5
    else if c == b'E'
    then 6
    else if c == b'Z'
    then 7
    else if c == b'Y'
    then 8
    else if c == b'R'
    then 9
    else if c == b'Q'
    then 10
    else 0

-- `-x` of an unsigned long long
abbrev pub negate : ℕ → ℕ
negate x = (2 ^ 64 - x) % 2 ^ 64

abbrev pub negate_scanned : Scanned → Scanned
negate_scanned r = if r.range then r else record r { value = negate r.value }

-- `strtoull(s, &end, 10)` with errno cleared before it; without digits `end` is `s`.
unfoldable pub strtoull_any : List ℕ → Scanned
unfolding skip_space
strtoull_any s =
    let t = skip_space s in
    if get_or t 0 0 == b'-'
    then negate_scanned (scan_unsigned s (drop 1 t))
    else if get_or t 0 0 == b'+'
    then scan_unsigned s (drop 1 t)
    else scan_unsigned s t

-- The doubles: strtod, the product with a power, and the value as an unsigned long long, or `none` if it
-- is out of the range.
pub record UnitDoubles : Type 1 where
  pub Double : Type 0
  pub strtod : List ℕ → Double × List ℕ
  pub times_power : Double → (exponent pwr : ℕ) → Double
  pub to_ull : Double → Option ℕ

abbrev pub exponent_of : ℕ → ℕ
exponent_of exponent = if exponent == 0 then 1000 else exponent

-- The loop of HX_strtoull_unit, with `pwr` rounds left; `none` is ERANGE.
unfoldable pub power_loop : ℕ → ℕ → ℕ → Option ℕ
power_loop zero exponent ipart = some ipart
power_loop (suc pwr) exponent ipart =
    let rest = power_loop pwr exponent (ipart * exponent % 2 ^ 64) in
    if leb (ullong_max / exponent) ipart then none else rest

module _ (d : UnitDoubles) where
  -- `HX_strtod_unit`: the number and `*out_end`
  unfoldable pub strtod_unit : List ℕ → ℕ → d.Double × List ℕ
  unfolding skip_space suffix_power
  strtod_unit s exponent =
      let t = skip_space s in
      let r = d.strtod t in
      let end = skip_space r.1 in
      let pwr = suffix_power (get_or end 0 0) in
      if length r.1 == length t
      then (r.0, r.1)
      else if pwr == 0
      then (r.0, end)
      else (d.times_power r.0 (exponent_of exponent) pwr, drop 1 end)

  -- the number with a fraction, behind the sign
  unfoldable pub with_fraction : Bool → List ℕ → ℕ → Parsed
  unfolding strtod_unit
  with_fraction neg s exponent =
      let q = strtod_unit s exponent in
      elim (d.to_ull q.0) [
        | none ↦ out_of_range (some q.1)
        | some r ↦ finished (if neg then negate r else r) q.1
      ]

  -- the number without one, and the suffix at `end`
  unfoldable pub with_suffix : Bool → ℕ → List ℕ → ℕ → Parsed
  unfolding power_loop suffix_power
  with_suffix neg ipart end exponent =
      let pwr = suffix_power (get_or end 0 0) in
      if pwr == 0
      then finished (if neg then negate ipart else ipart) end
      else elim (power_loop pwr (exponent_of exponent) ipart) [
        | none ↦ out_of_range (some (drop 1 end))
        | some r ↦ finished (if neg then negate r else r) (drop 1 end)
      ]

  -- behind the sign
  unfoldable pub unit_number : Bool → List ℕ → ℕ → Parsed
  unit_number neg s exponent =
      let r = strtoull_any s in
      if r.range
      then out_of_range none
      else if get_or r.end 0 0 == b'.'
      then with_fraction neg s exponent
      else with_suffix neg r.value (skip_space r.end) exponent

  -- `HX_strtoull_unit`
  unfoldable pub strtoull_unit : List ℕ → ℕ → Parsed
  strtoull_unit s exponent =
      let t = skip_space s in
      if get_or t 0 0 == b'-'
      then unit_number true (drop 1 t) exponent
      else unit_number false t exponent
