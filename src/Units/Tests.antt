-- ===== src/Units/Tests.antt =====
-- Runs of HX_unit_size and HX_strtoull_unit of src/string.c, and a theorem at a concrete number.
use libhx.Bytes.{codes}
use libhx.Period.Print.{digits}
use libhx.Period.{finished, skip_space, scan_digits}
use libhx.Prelude.{ℕ, ◌-◌, ◌*◌, ◌^◌, ◌≡◌, refl, false, some, ◌∷◌, ◌++◌, arith}
use libhx.Units.Cu.RoundsUp.{RoundsUp, unit_size_cu-RoundsUp}
use libhx.Units.Cu.{
  unit_size_cu, print_size, print_size_cu, p_90, scale_loop, scale_down, cu_adjust, rounded,
  next_unit,
}
use libhx.Units.Parse.Exact.{power, strtoull_unit-power}
use libhx.Units.Parse.{
  UnitDoubles, strtoull_unit, unit_number, strtoull_any, with_suffix, power_loop, suffix_power,
}
use libhx.Units.{unit_loop, divisor_of, unit_size}

run_default : unit_size 1234567 0 0 ≡ (1, 1234)
unfolding unit_size
run_default = refl

-- The index of the NUL behind the last unit.
run_past_last : unit_size 4096 2 1 ≡ (11, 2)
unfolding unit_size
run_past_last = refl

run_print_size : print_size 8 1234567 0 0 ≡ some (codes "1234k")
unfolding print_size unit_size unit_loop digits
run_print_size = refl

run_print_size_cu : print_size_cu 8 1234567 0 ≡ some (codes "1.3M")
unfolding print_size_cu unit_size_cu scale_loop scale_down cu_adjust rounded next_unit p_90 digits
run_print_size_cu = refl

-- 1363944 is more than 1.3 times 1024 * 1024.
run_shown_below : print_size_cu 8 1363944 1024 ≡ some (codes "1.3M")
unfolding print_size_cu unit_size_cu scale_loop scale_down cu_adjust rounded next_unit p_90 digits
run_shown_below = refl

-- doubles that are whole numbers
abbrev whole : UnitDoubles
whole = record {
  Double = ℕ;
  strtod = λ s. (0, s);
  times_power = λ x e p. x * e ^ p;
  to_ull = λ x. some x;
}

run_strtoull_unit : strtoull_unit whole (codes " -5k,") 1024 ≡ finished (2 ^ 64 - 5120) (codes ",")
unfolding strtoull_unit unit_number strtoull_any with_suffix power_loop suffix_power skip_space
    scan_digits
run_strtoull_unit = refl

-- the product fits into 64 bits
run_refused : (strtoull_unit whole (codes "18446744073709551k") 1000).success ≡ false
unfolding strtoull_unit unit_number strtoull_any with_suffix power_loop suffix_power skip_space
    scan_digits
run_refused = refl

mega : suffix_power b'm' ≡ 2
unfolding suffix_power
mega = refl

strtoull_unit-power_example :
    strtoull_unit whole (digits 20 123 ++ b'm' ∷ codes " left") 0
    ≡ finished (123 * power 1000 2) (codes " left")
strtoull_unit-power_example =
    strtoull_unit-power whole 123 0 b'm' 1 (codes " left") mega (omega arith)

unit_size_cu-RoundsUp_example : RoundsUp 1234567 (divisor_of 0) (unit_size_cu 1234567 0)
unit_size_cu-RoundsUp_example = unit_size_cu-RoundsUp 1234567 0 100 (omega arith) refl (omega arith)
