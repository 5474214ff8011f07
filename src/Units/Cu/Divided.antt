-- ===== src/Units/Cu/Divided.antt =====
-- What the loop of HX_unit_size_cu in src/string.c keeps.
use libhx.Prelude.{
  ℕ, zero, suc, ◌+◌, ◌*◌, ◌/◌, ◌%◌, ◌^◌, ◌≤◌, ◌<◌, ◌≡◌, ◌⊎◌, refl, ap, sym, ◌∙◌, subst, inl, inr,
  Bool-cases, leb, arith,
}
use libhx.Units.Cu.{Scale, scale_down, scale_loop}
use libhx.Units.Parse.Exact.{power}
use native.Mathlib.Nat.{div-add-mod, mod-lt, mul-le-mul_right}

-- the loop has come to an end
abbrev pub Small : ℕ → Scale → Type 0
Small divisor u = (u.size < divisor) ⊎ (11 ≤ u.unit_idx)

-- The size is what has been divided, times the power, and a rest.
pub record Tracks (orig divisor : ℕ) (u : Scale) : Type 0 where
  pub rest : ℕ
  pub sum : u.size * u.gpow + rest ≡ orig
  pub below : rest < u.gpow
  pub powers : u.gpow ≡ power divisor u.unit_idx

-- After a division the rest is the last remainder, times the power before, and a rest below that.
pub record Divided (orig divisor : ℕ) (u : Scale) : Type 0 where
  pub before : ℕ
  pub low : ℕ
  pub sum : u.size * u.gpow + (u.last_rem * before + low) ≡ orig
  pub below : low < before
  pub rem_below : u.last_rem < divisor
  pub gpow_is : u.gpow ≡ divisor * before
  pub powers : u.gpow ≡ power divisor u.unit_idx
  pub started : 0 < u.unit_idx

regrouped :
    (q divisor g r rest : ℕ) → q * (g * divisor) + (r * g + rest) ≡ (divisor * q + r) * g + rest
regrouped q divisor g r rest = grind arith

module _ (orig divisor : ℕ) (wide : orig < 2 ^ 64) (large : 0 < divisor)
    (narrow : divisor ≤ 2 ^ 32) where
  scale_down-Divided :
      (u : Scale)
      → Tracks orig divisor u
      → divisor ≤ u.size
      → Divided orig divisor (scale_down divisor u)
  unfolding scale_down
  scale_down-Divided u t l =
      let q = u.size / divisor in
      let r = u.size % divisor in
      let whole : divisor * q + r ≡ u.size = div-add-mod u.size divisor in
      let r_below : r < divisor = mod-lt u.size large in
      let r_whole : r % 2 ^ 32 ≡ r = omega arith in
      let fits : u.gpow * divisor ≤ u.gpow * u.size = grind arith in
      let g_whole : u.gpow * divisor % 2 ^ 64 ≡ u.gpow * divisor = grind (arith, t.sum) in
      record {
        before = u.gpow;
        low = t.rest;
        sum =
            rw (r_whole, g_whole)
              (regrouped q divisor u.gpow r t.rest ∙ ap (λ x. x * u.gpow + t.rest) whole ∙ t.sum);
        below = t.below;
        rem_below = rw r_whole r_below;
        gpow_is = g_whole ∙ grind arith;
        powers = g_whole ∙ grind (arith, t.powers);
        started = omega arith;
      }

  pub Divided-below :
      (u : Scale) (d : Divided orig divisor u) → u.last_rem * d.before + d.low < u.gpow
  Divided-below u d =
      let many : (u.last_rem + 1) * d.before ≤ divisor * d.before =
        mul-le-mul_right d.before (omega (arith, d.rem_below)) in
      let split : (u.last_rem + 1) * d.before ≡ u.last_rem * d.before + d.before = grind arith in
      omega (arith, many, split, d.below, d.gpow_is)

  Divided-Tracks : (u : Scale) → Divided orig divisor u → Tracks orig divisor u
  Divided-Tracks u d = record {
    rest = u.last_rem * d.before + d.low;
    sum = d.sum;
    below = Divided-below u d;
    powers = d.powers;
  }

  pub scale_loop-Divided :
      (n : ℕ) (u : Scale)
      → Tracks orig divisor u
      → u.unit_idx + n ≡ 11
      → Small divisor (scale_loop divisor n u)
        × ((scale_loop divisor n u ≡ u) ⊎ Divided orig divisor (scale_loop divisor n u))
  unfolding scale_loop
  scale_loop-Divided zero u t e = (inr (omega arith), inl refl)
  scale_loop-Divided (suc n) u t e = elim (Bool-cases (leb divisor u.size)) [
    | inr f ↦ (let below : u.size < divisor = ground arith in rw f (inl below, inl refl))
    | inl h ↦
        let d = scale_down-Divided u t (ground arith) in
        let more =
          scale_loop-Divided n (scale_down divisor u) (Divided-Tracks (scale_down divisor u) d)
            (omega arith) in
        rw h (more.0, inr (divided d more.1))
  ]
    where
      divided :
          Divided orig divisor (scale_down divisor u)
          → (scale_loop divisor n (scale_down divisor u) ≡ scale_down divisor u)
            ⊎ Divided orig divisor (scale_loop divisor n (scale_down divisor u))
          → Divided orig divisor (scale_loop divisor n (scale_down divisor u))
      divided d (inl e) = subst (Divided orig divisor) (sym e) d
      divided d (inr d') = d'
