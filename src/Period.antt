-- ===== src/Period.antt =====
-- Periods of time in src/string.c: HX_strtoull_period, HX_strtoull_iso8601p_2, HX_strtoull_sec,
-- HX_strtoull_nsec, HX_strtoull8601p_sec and HX_unit_seconds. A pointer into a string is the suffix it
-- points to. Doubles and strtod are parameters.
pub mod Scan
pub mod Ends
pub mod Print
pub mod Tests
unfoldable pub use libhx.Period.Scan.{
  ullong_max, is_digit, tolower, toupper, skip_space, starts_by, scan_digits, scan_unsigned,
  strtoull,
}
pub use libhx.Period.Scan.{Scanned}
use libhx.Bytes.{codes, count_while}
use libhx.Opt.Dequote.{is_alpha}
use libhx.Prelude.{
  ℕ, zero, suc, ◌+◌, ◌-◌, ◌*◌, ◌/◌, ◌%◌, ◌^◌, Bool, true, false, not, ◌&&◌, ◌||◌, Option, none,
  some, List, [], ◌∷◌, ◌++◌, length, drop, get_or, ltb, leb, ◌==◌, if◌then◌else◌,
}
use libhx.Text.{is_space}

-- PERIDX_YEARS and the others
pub data Pidx : Type 0 where
  years months weeks days hours min sec msec musec nsec : Pidx

-- `struct HX_unit_desc`; `len` is the length of the name
pub record UnitDesc : Type 0 where
  pub name : List ℕ
  pub pidx : Pidx

abbrev pub desc : List ℕ → Pidx → UnitDesc
desc name pidx = record { name = name; pidx = pidx }

abbrev pub txtperiod_utab : List UnitDesc
txtperiod_utab =
    desc (codes "seconds") sec
    ∷ desc (codes "second") sec
    ∷ desc (codes "sec") sec
    ∷ desc (codes "s") sec
    ∷ desc (codes "minutes") min
    ∷ desc (codes "minute") min
    ∷ desc (codes "min") min
    ∷ desc (codes "hours") hours
    ∷ desc (codes "hour") hours
    ∷ desc (codes "h") hours
    ∷ desc (codes "days") days
    ∷ desc (codes "day") days
    ∷ desc (codes "d") days
    ∷ desc (codes "weeks") weeks
    ∷ desc (codes "week") weeks
    ∷ desc (codes "months") months
    ∷ desc (codes "month") months
    ∷ desc (codes "years") years
    ∷ desc (codes "year") years
    ∷ desc (codes "y") years
    ∷ desc (codes "msec") msec
    ∷ desc (codes "ms") msec
    ∷ desc (194 ∷ 181 ∷ codes "sec") musec
    ∷ desc (194 ∷ 181 ∷ codes "s") musec
    ∷ desc (codes "nsec") nsec
    ∷ desc (codes "ns") nsec
    ∷ []

abbrev pub iso8601p_dtab : List UnitDesc
iso8601p_dtab = desc (codes "D") days ∷ desc (codes "M") months ∷ desc (codes "Y") years ∷ []

abbrev pub iso8601p_ttab : List UnitDesc
iso8601p_ttab = desc (codes "S") sec ∷ desc (codes "M") min ∷ desc (codes "H") hours ∷ []

abbrev pub seconds_per_year : ℕ
seconds_per_year = 31557600

abbrev pub seconds_per_month : ℕ
seconds_per_month = 2629800

unfoldable pub sec_mult : Pidx → ℕ
sec_mult years = seconds_per_year
sec_mult months = seconds_per_month
sec_mult weeks = 604800
sec_mult days = 86400
sec_mult hours = 3600
sec_mult min = 60
sec_mult sec = 1
sec_mult msec = 0
sec_mult musec = 0
sec_mult nsec = 0

unfoldable pub nsec_mult : Pidx → ℕ
unfolding sec_mult
nsec_mult msec = 1000000
nsec_mult musec = 1000
nsec_mult nsec = 1
nsec_mult p = 1000000000 * sec_mult p

-- The test of the search for the unit: ignoring case, and at the end of a word.
abbrev pub txt_matches : List ℕ → List ℕ → Bool
txt_matches s name = starts_by tolower s name && not (is_alpha (get_or s (length name) 0))

abbrev pub iso_matches : List ℕ → List ℕ → Bool
iso_matches s name = starts_by (λ c. c) s name

unfoldable pub find_unit : (List ℕ → List ℕ → Bool) → List UnitDesc → List ℕ → Option UnitDesc
find_unit matches [] s = none
find_unit matches (d ∷ utab) s = if matches s d.name then some d else find_unit matches utab s

-- What the parsers leave: the result, `*out_end`, or `none` if it is not written, and whether errno is
-- 0 or ERANGE.
pub record Parsed : Type 0 where
  pub value : ℕ
  pub out_end : Option (List ℕ)
  pub success : Bool

abbrev pub finished : ℕ → List ℕ → Parsed
finished quant s = record { value = quant; out_end = some s; success = true }

abbrev pub out_of_range : Option (List ℕ) → Parsed
out_of_range out_end = record { value = ullong_max; out_end = out_end; success = false }

-- The doubles: strtod, with whether it sets errno to ERANGE; the test for 0; and the product with a
-- multiplier, cut to an integer, or `none` from ULLONG_MAX on.
pub record Doubles : Type 1 where
  pub Double : Type 0
  pub strtod : List ℕ → Double × List ℕ × Bool
  pub is_zero : Double → Bool
  pub scaled : Double → ℕ → Option ℕ

unfoldable pub looks_like_iso8601 : List ℕ → Bool
looks_like_iso8601 s =
    get_or s 0 0 == b'P'
    && (is_digit (get_or s 1 0) || (get_or s 1 0 == b'T' && is_digit (get_or s 2 0)))

module _ (d : Doubles) where
  -- `num`, or `frac` if there is a point, `end`, and whether errno is ERANGE
  pub record Number : Type 0 where
    pub num : ℕ
    pub frac : Option d.Double
    pub end : List ℕ
    pub range : Bool

  -- the number behind which a point stands is read again
  unfoldable pub read_number : Bool → List ℕ → Scanned → Number
  read_number range s r =
      if get_or r.end 0 0 == b'.'
      then (let f = d.strtod s in
          record { num = r.value; frac = some f.0; end = f.1; range = range || f.2 })
      else record { num = r.value; frac = none; end = r.end; range = range }

  abbrev pub number_zero : Number → Bool
  number_zero n = elim n.frac [ none ↦ n.num == 0 | some f ↦ d.is_zero f ]

  -- the product with the multiplier, or `none` for an overflow
  unfoldable pub amount : Number → ℕ → Option ℕ
  amount n mult = elim n.frac [
    | none ↦
        if ltb 0 mult && ltb (ullong_max / mult) n.num then none else some (n.num * mult % 2 ^ 64)
    | some f ↦ d.scaled f mult
  ]

  -- the number and its unit are added to `quant`, or do not fit
  unfoldable pub add_amount : ℕ → Option ℕ → Option ℕ
  add_amount quant none = none
  add_amount quant (some num) = if ltb (ullong_max - quant) num then none else some (quant + num)

  -- a round of the loops has found a number, and perhaps a unit: the sum and the rest, or the return
  pub data Round : Type 0 where
    go_on : (quant : ℕ) (range : Bool) → List ℕ → Round
    return_ : Parsed → Round

  unfoldable pub with_unit : ℕ → List ℕ → Number → List ℕ → (Pidx → ℕ) → Option UnitDesc → Round
  unfolding amount add_amount
  with_unit quant numbegin n s mult none =
      if number_zero n then go_on quant n.range s else return_ (finished quant numbegin)
  with_unit quant numbegin n s mult (some u) = elim (add_amount quant (amount n (mult u.pidx))) [
    | none ↦ return_ (out_of_range (some numbegin))
    | some quant' ↦ go_on quant' n.range (drop (length u.name) s)
  ]

  -- The part of a round from strtoull on; `range` is whether errno is ERANGE before it, and `test` the
  -- test of the search for the unit.
  unfoldable pub number_round :
      (List ℕ → List ℕ → Bool) → List UnitDesc → (Pidx → ℕ) → ℕ → Bool → List ℕ → Round
  unfolding strtoull skip_space find_unit read_number
  number_round test utab mult quant range s =
      let r = strtoull s in
      let n = read_number (range || r.range) s r in
      let rest = skip_space n.end in
      if r.value == ullong_max && (range || r.range)
      then return_ (out_of_range none)
      else if length n.end == length s
      then return_ (finished quant s)
      else with_unit quant s n rest mult (find_unit test utab rest)

  abbrev pub is_minus : List ℕ → Bool
  is_minus s = get_or s 0 0 == b'-'

  -- The loop of HX_strtoull_period on fuel.
  unfoldable pub period_loop : ℕ → List UnitDesc → (Pidx → ℕ) → ℕ → Bool → List ℕ → Option Parsed
  unfolding number_round
  period_loop zero utab mult quant range s = none
  period_loop (suc n) utab mult quant range [] = some (finished quant [])
  period_loop (suc n) utab mult quant range (c ∷ s) =
      let t = skip_space (c ∷ s) in
      if is_minus t
      then some (finished quant t)
      else elim (number_round txt_matches utab mult quant range t) [
        | return_ p ↦ some p
        | go_on quant' range' rest ↦ period_loop n utab mult quant' range' rest
      ]

  abbrev pub is_t : List ℕ → Bool
  is_t s = toupper (get_or s 0 0) == b'T'

  -- The loop of HX_strtoull_iso8601p_2 on fuel; `time` says that `utab` is the table behind the T.
  unfoldable pub iso_loop : ℕ → Bool → (Pidx → ℕ) → ℕ → Bool → List ℕ → Option Parsed
  unfolding number_round
  iso_loop zero time mult quant range s = none
  iso_loop (suc n) time mult quant range [] = some (finished quant [])
  iso_loop (suc n) time mult quant range (c ∷ s) =
      let t = skip_space (c ∷ s) in
      let behind = iso_loop n true mult quant range (drop 1 t) in
      let utab = if time then iso8601p_ttab else iso8601p_dtab in
      if is_minus t
      then some (finished quant t)
      else if is_t t
      then (if time then some (finished quant t) else behind)
      else elim (number_round iso_matches utab mult quant range t) [
        | return_ p ↦ some p
        | go_on quant' range' rest ↦ iso_loop n time mult quant' range' rest
      ]

  -- `HX_strtoull_period` and `HX_strtoull_iso8601p_2`, with errno before the call
  unfoldable pub strtoull_period : (Pidx → ℕ) → Bool → List ℕ → Option Parsed
  unfolding period_loop
  strtoull_period mult range s = period_loop (suc (length s)) txtperiod_utab mult 0 range s

  unfoldable pub strtoull_iso8601p_2 : (Pidx → ℕ) → Bool → List ℕ → Option Parsed
  unfolding iso_loop
  strtoull_iso8601p_2 mult range s = iso_loop (suc (length s)) false mult 0 range s

  -- `HX_strtoull_sec` and `HX_strtoull_nsec`, by the table of multipliers
  unfoldable pub strtoull_by : (Pidx → ℕ) → Bool → List ℕ → Option Parsed
  unfolding strtoull_period strtoull_iso8601p_2 looks_like_iso8601
  strtoull_by mult range s =
      if looks_like_iso8601 s
      then strtoull_iso8601p_2 mult range (drop 1 s)
      else strtoull_period mult range s

  -- `HX_strtoull8601p_sec`; errno is not written for a string that is no period
  unfoldable pub strtoull8601p_sec : Bool → List ℕ → Option Parsed
  unfolding strtoull_iso8601p_2 sec_mult
  strtoull8601p_sec range s =
      if get_or s 0 0 == b'P'
      then strtoull_iso8601p_2 sec_mult range (drop 1 s)
      else some (record { value = 0; out_end = some s; success = not range })
