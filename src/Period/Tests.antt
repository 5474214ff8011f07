-- ===== src/Period/Tests.antt =====
-- The parsers of periods of src/string.c on concrete strings.
use libhx.Bytes.{codes}
use libhx.Period.Ends.{Ends, strtoull_by-Ends}
use libhx.Period.Print.Roundtrip.{strtoull_sec-unit_seconds}
use libhx.Period.Print.{digits, print_number, break_down, print_parts, unit_seconds}
use libhx.Period.{
  Doubles, strtoull, scan_digits, skip_space, find_unit, sec_mult, nsec_mult, finished, read_number,
  amount, add_amount, with_unit, number_round, period_loop, iso_loop, strtoull_period,
  strtoull_iso8601p_2, looks_like_iso8601, strtoull_by,
}
use libhx.Text.{strlcat}
use libhx.Prelude.{ℕ, ◌*◌, ◌≡◌, refl, arith, true, false, some, [], ◌==◌}

-- doubles that are whole numbers
abbrev whole : Doubles
whole = record {
  Double = ℕ;
  strtod = λ s. (0, s, false);
  is_zero = λ x. x == 0;
  scaled = λ x m. some (x * m);
}

run_strtoull_sec :
    strtoull_by whole sec_mult false (codes "1 hour 5min 3s") ≡ some (finished 3903 [])
unfolding strtoull_by looks_like_iso8601 strtoull_period period_loop number_round strtoull
    scan_digits skip_space find_unit read_number with_unit amount add_amount sec_mult
run_strtoull_sec = refl

run_strtoull_iso : strtoull_by whole sec_mult false (codes "P1DT2M") ≡ some (finished 86520 [])
unfolding strtoull_by looks_like_iso8601 strtoull_iso8601p_2 iso_loop number_round strtoull
    scan_digits skip_space find_unit read_number with_unit amount add_amount sec_mult
run_strtoull_iso = refl

strtoull_sec-unit_seconds_example :
    strtoull_by whole sec_mult true (unit_seconds 200 40000000 7) ≡ some (finished 40000000 [])
strtoull_sec-unit_seconds_example =
    strtoull_sec-unit_seconds whole true 200 40000000 7 (omega arith) (omega arith) (omega arith)

run_unit_seconds : unit_seconds 200 40000000 7 ≡ codes "1y3months6d9h36min40s"
unfolding unit_seconds break_down print_parts print_number digits strlcat
run_unit_seconds = refl

strtoull_by-Ends_example :
    Ends whole (λ s. omega arith) (strtoull_by whole nsec_mult false (codes "P1D x"))
strtoull_by-Ends_example = strtoull_by-Ends whole (λ s. omega arith) nsec_mult false (codes "P1D x")
