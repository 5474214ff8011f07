-- ===== src/Period/Print.antt =====
-- HX_unit_seconds of src/string.c.
pub mod Decimal
pub mod Units
pub mod Pieces
pub mod Roundtrip
use libhx.Bytes.{codes}
use libhx.Period.{seconds_per_year, seconds_per_month}
use libhx.Prelude.{
  ℕ, zero, suc, ◌+◌, ◌*◌, ◌/◌, ◌%◌, ◌^◌, Bool, ◌&&◌, ◌||◌, List, [], ◌∷◌, ◌++◌, take, ltb, ◌==◌,
  if◌then◌else◌,
}
use libhx.Text.{strlcat}

-- The decimal digits of a number, as printf writes them; 20 digits are enough for 64 bits.
unfoldable pub digits : ℕ → ℕ → List ℕ
digits zero n = []
digits (suc k) n =
    let front = digits k (n / 10) in if ltb n 10 then (48 + n) ∷ [] else front ++ (48 + n % 10) ∷ []

-- `snprintf(buf, ARRAY_SIZE(buf), "%lluNAME", n)` for a `buf` of HXSIZEOF_Z64 + 4 bytes
unfoldable pub print_number : ℕ → List ℕ → List ℕ
unfolding digits
print_number n name = take 24 (digits 20 n ++ name)

abbrev pub flag_set : ℕ → ℕ → Bool
flag_set flags bit = flags / bit % 2 == 1

-- The numbers that HX_unit_seconds breaks `secs` down to.
pub record Parts : Type 0 where
  pub years : ℕ
  pub months : ℕ
  pub weeks : ℕ
  pub days : ℕ
  pub hours : ℕ
  pub mins : ℕ
  pub secs : ℕ

-- a unit that is taken if the flag is set: its number and what is left
abbrev pub taken : Bool → ℕ → ℕ → ℕ × ℕ
taken c secs unit = (if c then secs / unit else 0, if c then secs % unit else secs)

unfoldable pub break_down : ℕ → ℕ → Parts
break_down secs flags =
    let y = taken (flag_set flags 1) secs seconds_per_year in
    let m = taken (flag_set flags 2) y.1 seconds_per_month in
    let w = taken (flag_set flags 4) m.1 604800 in
    record {
      years = y.0;
      months = m.0;
      weeks = w.0;
      days = w.1 / 86400;
      hours = w.1 % 86400 / 3600;
      mins = w.1 % 86400 % 3600 / 60;
      secs = w.1 % 86400 % 3600 % 60;
    }

-- One `HX_strlcat(out, buf, outsize)` under its test.
abbrev pub cat_if : ℕ → Bool → List ℕ → List ℕ → List ℕ
cat_if outsize c text out = if c then strlcat out text outsize else out

-- a unit with a word for one of it
abbrev pub cat_word : ℕ → ℕ → List ℕ → List ℕ → List ℕ → List ℕ
cat_word outsize n one name out =
    if n == 1 then strlcat out one outsize else cat_if outsize (ltb 0 n) (print_number n name) out

unfoldable pub print_parts : ℕ → Parts → List ℕ
unfolding strlcat print_number
print_parts outsize p =
    let none_above =
      p.years == 0 && p.months == 0 && p.weeks == 0 && p.days == 0 && p.hours == 0 && p.mins == 0 in
    let out1 = cat_if outsize (ltb 0 p.years) (print_number p.years (codes "y")) [] in
    let out2 = cat_word outsize p.months (codes "1month") (codes "months") out1 in
    let out3 = cat_word outsize p.weeks (codes "1week") (codes "weeks") out2 in
    let out4 = cat_if outsize (ltb 0 p.days) (print_number p.days (codes "d")) out3 in
    let out5 = cat_if outsize (ltb 0 p.hours) (print_number p.hours (codes "h")) out4 in
    let out6 = cat_if outsize (ltb 0 p.mins) (print_number p.mins (codes "min")) out5 in
    cat_if outsize (ltb 0 p.secs || none_above) (print_number p.secs (codes "s")) out6

-- `HX_unit_seconds`
unfoldable pub unit_seconds : ℕ → ℕ → ℕ → List ℕ
unfolding break_down print_parts
unit_seconds outsize secs flags = print_parts outsize (break_down secs flags)
