-- ===== src/Units/Cu.antt =====
-- HX_unit_size_cu of src/string.c, with the loop's variables as a record, and the text that it and
-- HX_unit_size print.

pub mod Divided
pub mod RoundsUp
use libhx.Bytes.{codes}
use libhx.Period.Print.{digits}
use libhx.Prelude.{
  ℕ, zero, suc, ◌+◌, ◌-◌, ◌*◌, ◌/◌, ◌%◌, ◌^◌, ◌&&◌, ◌||◌, Option, none, some, List, ◌∷◌, ◌++◌, take,
  drop, ltb, leb, ◌==◌, if◌then◌else◌,
}
use libhx.Units.{divisor_of, unit_size}

-- `p_90`
unfoldable pub p_90 : ℕ → ℕ
p_90 x = x - x / 10 - (if x % 10 == 0 then 0 else 1)

-- the variables of HX_unit_size_cu that its loop changes
pub record Scale : Type 0 where
  pub unit_idx : ℕ
  pub size : ℕ
  pub last_rem : ℕ
  pub gpow : ℕ

-- the body of the loop
unfoldable pub scale_down : ℕ → Scale → Scale
scale_down divisor u = record {
  unit_idx = suc u.unit_idx;
  size = u.size / divisor;
  last_rem = u.size % divisor % 2 ^ 32;
  gpow = u.gpow * divisor % 2 ^ 64;
}

-- The loop, with the rounds that `unit_idx` still leaves.
unfoldable pub scale_loop : ℕ → ℕ → Scale → Scale
unfolding scale_down
scale_loop divisor zero u = u
scale_loop divisor (suc n) u =
    let rest = scale_loop divisor n (scale_down divisor u) in if leb divisor u.size then rest else u

abbrev pub round_up : Scale → Scale
round_up u = record u { size = (u.size + 1) % 2 ^ 64; last_rem = 0 }

-- the digit behind the point
abbrev pub tenths : ℕ → Scale → ℕ
tenths divisor u = (u.last_rem * 10 % 2 ^ 32 / divisor + 1) % 2 ^ 32

unfoldable pub rounded : ℕ → ℕ → Scale → Scale
unfolding p_90
rounded divisor grand_rem u =
    let t = tenths divisor u in
    if ltb (p_90 u.gpow) grand_rem
    then round_up u
    else if t == 10 || (leb 10 u.size && ltb 0 t)
    then round_up u
    else record u { last_rem = t }

-- a size that has come to the divisor again
unfoldable pub next_unit : ℕ → Scale → Scale
next_unit divisor u =
    if ltb u.unit_idx 11 && u.size == divisor
    then record u { unit_idx = suc u.unit_idx; size = u.size / divisor }
    else u

-- The part of HX_unit_size_cu between the loop and the calls of snprintf.
unfoldable pub cu_adjust : ℕ → ℕ → Scale → Scale
unfolding rounded next_unit
cu_adjust orig_size divisor u =
    let grand_rem = (orig_size + 2 ^ 64 - u.size * u.gpow % 2 ^ 64) % 2 ^ 64 in
    if u.unit_idx == 0 || grand_rem == 0 then u else next_unit divisor (rounded divisor grand_rem u)

-- `HX_unit_size_cu` up to the calls of snprintf
unfoldable pub unit_size_cu : ℕ → ℕ → Scale
unfolding scale_loop cu_adjust
unit_size_cu orig_size divisor =
    let u : Scale = record { unit_idx = 0; size = orig_size; last_rem = 0; gpow = 1 } in
    cu_adjust orig_size (divisor_of divisor) (scale_loop (divisor_of divisor) 11 u)

-- `"%.1s"` of `&unit_names[unit_idx]`
abbrev pub unit_name : ℕ → List ℕ
unit_name unit_idx =
    if unit_idx == 0 then codes "" else take 1 (drop (unit_idx - 1) (codes "kMGTPEZYRQ"))

-- `snprintf(buf, bufsize, ...)` of a text; without room nothing is written
abbrev pub printed : ℕ → List ℕ → Option (List ℕ)
printed bufsize text = if bufsize == 0 then none else some (take (bufsize - 1) text)

-- what HX_unit_size writes to `buf`
unfoldable pub print_size : ℕ → ℕ → ℕ → ℕ → Option (List ℕ)
unfolding unit_size digits
print_size bufsize size divisor cutoff =
    let r = unit_size size divisor cutoff in printed bufsize (digits 20 r.1 ++ unit_name r.0)

-- what HX_unit_size_cu writes to `buf`
unfoldable pub print_size_cu : ℕ → ℕ → ℕ → Option (List ℕ)
unfolding unit_size_cu digits
print_size_cu bufsize orig_size divisor =
    let r = unit_size_cu orig_size divisor in
    let whole = r.unit_idx == 0 || (leb 10 r.size && r.last_rem == 0) in
    printed bufsize (
      digits 20 r.size
      ++ ((if whole then codes "" else b'.' ∷ digits 20 r.last_rem) ++ unit_name r.unit_idx))
