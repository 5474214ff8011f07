-- ===== src/Units.antt =====
-- HX_unit_size of src/string.c: a size with a unit prefix, as the two numbers from which snprintf makes
-- the text.
pub mod Cu
pub mod Loop
pub mod Parse
pub mod Tests
use libhx.Prelude.{ℕ, zero, suc, ◌+◌, ◌/◌, ltb, leb, ◌==◌, if◌then◌else◌}

-- The loop, with the rounds that `unit_idx` still leaves.
unfoldable pub unit_loop : ℕ → ℕ → ℕ → ℕ → ℕ → ℕ × ℕ
unit_loop divisor cutoff zero unit_idx size = (unit_idx, size)
unit_loop divisor cutoff (suc n) unit_idx size =
    let rest = unit_loop divisor cutoff n (unit_idx + 1) (size / divisor) in
    if leb cutoff size then rest else (unit_idx, size)

-- The defaults for a divisor and a cutoff of 0.
abbrev pub divisor_of : ℕ → ℕ
divisor_of divisor = if divisor == 0 then 1000 else divisor

abbrev pub cutoff_of : ℕ → ℕ → ℕ
cutoff_of divisor cutoff =
    if cutoff == 0
    then (if ltb 10000 (divisor_of divisor) then divisor_of divisor else 10000)
    else cutoff

-- `HX_unit_size`: the index of the unit and the number
unfoldable pub unit_size : ℕ → ℕ → ℕ → ℕ × ℕ
unfolding unit_loop
unit_size size divisor cutoff = unit_loop (divisor_of divisor) (cutoff_of divisor cutoff) 11 0 size
