-- ===== src/Units/Loop.antt =====
-- What the loop of HX_unit_size in src/string.c computes.
use libhx.Prelude.{
  ℕ, zero, suc, ◌+◌, ◌/◌, ◌≤◌, ◌<◌, ◌≡◌, ◌⊎◌, refl, inl, inr, Bool-cases, leb, arith,
}
use libhx.Units.{unit_loop, divisor_of, cutoff_of, unit_size}

-- a number of divisions
unfoldable pub divide : ℕ → ℕ → ℕ → ℕ
divide divisor zero size = size
divide divisor (suc n) size = divide divisor n (size / divisor)

-- The size divided once for each step of the index, and for no more steps than needed; below the
-- cutoff, or with all units used up.
pub record Scaled (divisor cutoff size first last : ℕ) (r : ℕ × ℕ) : Type 0 where
  pub steps : ℕ
  pub index : r.0 ≡ first + steps
  pub within : r.0 ≤ last
  pub number : r.1 ≡ divide divisor steps size
  pub needed : (i : ℕ) → i < steps → cutoff ≤ divide divisor i size
  pub small : (r.1 < cutoff) ⊎ (r.0 ≡ last)

more-needed :
    (divisor cutoff size steps : ℕ)
    → cutoff ≤ size
    → ((i : ℕ) → i < steps → cutoff ≤ divide divisor i (size / divisor))
    → (i : ℕ) → i < suc steps
    → cutoff ≤ divide divisor i size
unfolding divide
more-needed divisor cutoff size steps l needed zero h = l
more-needed divisor cutoff size steps l needed (suc i) h = needed i (omega arith)

unit_loop-Scaled :
    (divisor cutoff n first last size : ℕ)
    → first + n ≡ last
    → Scaled divisor cutoff size first last (unit_loop divisor cutoff n first size)
unfolding unit_loop divide
unit_loop-Scaled divisor cutoff zero first last size e = record {
  steps = 0;
  index = omega arith;
  within = omega arith;
  number = refl;
  needed = λ i h. absurd (omega arith);
  small = inr (omega arith);
}
unit_loop-Scaled divisor cutoff (suc n) first last size e = elim (Bool-cases (leb cutoff size)) [
  | inl t ↦
      let r = unit_loop-Scaled divisor cutoff n (first + 1) last (size / divisor) (omega arith) in
      let large : cutoff ≤ size = ground arith in
      rw t (record {
        steps = suc r.steps;
        index = omega (arith, r.index);
        within = r.within;
        number = r.number;
        needed = more-needed divisor cutoff size r.steps large r.needed;
        small = r.small;
      })
  | inr f ↦
      let below : size < cutoff = ground arith in
      rw f (record {
        steps = 0;
        index = omega arith;
        within = omega arith;
        number = refl;
        needed = λ i h. absurd (omega arith);
        small = inl below;
      })
]

-- HX_unit_size divides the size by the divisor once for each step of the unit, while it is not below
-- the cutoff, and at most eleven times.
pub unit_size-Scaled :
    (size divisor cutoff : ℕ)
    → Scaled
        (divisor_of divisor)
        (cutoff_of divisor cutoff)
        size
        0
        11
        (unit_size size divisor cutoff)
unfolding unit_size
unit_size-Scaled size divisor cutoff =
    unit_loop-Scaled (divisor_of divisor) (cutoff_of divisor cutoff) 11 0 11 size (omega arith)
