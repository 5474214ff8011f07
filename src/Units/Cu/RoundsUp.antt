-- ===== src/Units/Cu/RoundsUp.antt =====
-- The number that HX_unit_size_cu of src/string.c shows is not below the size.
use libhx.Units.Cu.Divided.{Small, Tracks, Divided, Divided-below, scale_loop-Divided}
use libhx.Prelude.{
  ℕ, ◌+◌, ◌-◌, ◌*◌, ◌/◌, ◌%◌, ◌^◌, ◌≤◌, ◌<◌, ◌≡◌, if_both, refl, ap, sym, ◌∙◌, subst, inl, inr,
  ◌&&◌, ◌||◌, ltb, leb, ◌==◌, arith,
}
use libhx.Units.Cu.{
  Scale, scale_loop, p_90, round_up, tenths, rounded, next_unit, cu_adjust, unit_size_cu,
}
use libhx.Units.Parse.Exact.{power}
use libhx.Units.{divisor_of}
use native.Mathlib.Nat.{
  div-add-mod, mod-lt, div-lt_iff_lt-mul, div_self, mul-le-mul_left, mul-le-mul_right,
}

-- The number shown, in tenths of its unit, is not below the size, and by less than a unit above it.
abbrev pub RoundsUp : ℕ → ℕ → Scale → Type 0
RoundsUp orig divisor u =
    (orig * 10 ≤ (u.size * 10 + u.last_rem) * power divisor u.unit_idx)
    × ((u.size * 10 + u.last_rem) * power divisor u.unit_idx
        < (orig + power divisor u.unit_idx) * 10)

-- a number that is rounded up
up-RoundsUp :
    (s g rest orig : ℕ)
    → s * g + rest ≡ orig
    → 0 < rest
    → rest < g
    → (orig * 10 ≤ ((s + 1) * 10 + 0) * g) × (((s + 1) * 10 + 0) * g < (orig + g) * 10)
up-RoundsUp s g rest orig e pos l = (grind arith, grind arith)

-- a number whose tenths are rounded up, where the divisor is a multiple of ten
tenth-RoundsUp :
    (s k r before low q orig : ℕ)
    → s * (k * 10 * before) + (r * before + low) ≡ orig
    → low < before
    → r < (q + 1) * k
    → q * k ≤ r
    → 0 < k
    → (orig * 10 ≤ (s * 10 + (q + 1)) * (k * 10 * before))
      × ((s * 10 + (q + 1)) * (k * 10 * before) < (orig + k * 10 * before) * 10)
tenth-RoundsUp s k r before low q orig e l above below large =
    let one : (r + 1) * before ≤ (q + 1) * k * before =
      mul-le-mul_right before (omega (arith, above)) in
    let less : q * k * before ≤ r * before = mul-le-mul_right before below in
    let split : (q + 1) * k * before ≡ q * k * before + k * before = grind arith in
    let some_unit : 1 * before ≤ k * before = mul-le-mul_right before large in
    let shown : (s * 10 + (q + 1)) * (k * 10 * before)
        ≡ s * (k * 10 * before) * 10 + (q + 1) * k * before * 10 =
      grind arith in
    let unit : k * 10 * before ≡ k * before * 10 = grind arith in
    let next : (r + 1) * before ≡ r * before + before = grind arith in
    (omega (arith, one, shown, next, e, l), omega (arith, less, split, some_unit, shown, unit, e))

-- the digit behind the point
record Tenths (k r t : ℕ) : Type 0 where
  pub number : ℕ
  pub digit : t ≡ number + 1
  pub above : r < (number + 1) * k
  pub below : number * k ≤ r

tenths-Tenths :
    (k : ℕ) (u : Scale)
    → 0 < k
    → k * 100 ≤ 2 ^ 32
    → u.last_rem < k * 10
    → Tenths k u.last_rem (tenths (k * 10) u)
tenths-Tenths k u large narrow l =
    let q = u.last_rem * 10 / (k * 10) in
    let whole : k * 10 * q + u.last_rem * 10 % (k * 10) ≡ u.last_rem * 10 =
      div-add-mod (u.last_rem * 10) (k * 10) in
    let below : u.last_rem * 10 % (k * 10) < k * 10 = mod-lt (u.last_rem * 10) (omega arith) in
    let short : q < 10 =
      (div-lt_iff_lt-mul {k = k * 10} {x = u.last_rem * 10} {y = 10} (omega arith)).1
        (omega arith) in
    let no_wrap : u.last_rem * 10 % 2 ^ 32 ≡ u.last_rem * 10 = omega arith in
    let t_is : (q + 1) % 2 ^ 32 ≡ q + 1 = omega arith in
    let order : k * 10 * q ≡ q * k * 10 = grind arith in
    let more : (q + 1) * k ≡ q * k + k = grind arith in
    record {
      number = q;
      digit = rw no_wrap t_is;
      above = omega (arith, whole, below, order, more);
      below = omega (arith, whole, order);
    }

module _ (orig k : ℕ) (wide : orig < 2 ^ 64) (large : 0 < k) (narrow : k * 100 ≤ 2 ^ 32) where
  -- what rounding up leaves for the next unit
  abbrev Rounded : Scale → Type 0
  Rounded r = RoundsUp orig (k * 10) r × ((r.unit_idx < 11) → r.size ≡ k * 10 → r.last_rem ≡ 0)

  round_up-Rounded :
      (u : Scale) (rest : ℕ)
      → u.size * u.gpow + rest ≡ orig
      → 0 < rest
      → rest < u.gpow
      → u.gpow ≡ power (k * 10) u.unit_idx
      → Rounded (round_up u)
  round_up-Rounded u rest sum pos below powers =
      let least : u.size * 1 ≤ u.size * u.gpow = mul-le-mul_left u.size (omega (arith, below)) in
      let whole : (u.size + 1) % 2 ^ 64 ≡ u.size + 1 = omega (arith, least, sum) in
      (rw whole (rw (sym powers) (up-RoundsUp u.size u.gpow rest orig sum pos below)), λ i e. refl)

  tenths-RoundsUp :
      (u : Scale) (d : Divided orig (k * 10) u) (t : Tenths k u.last_rem (tenths (k * 10) u))
      → RoundsUp orig (k * 10) (record u { last_rem = tenths (k * 10) u })
  tenths-RoundsUp u d t =
      let sum = subst (λ g. u.size * g + (u.last_rem * d.before + d.low) ≡ orig) d.gpow_is d.sum in
      rw t.digit (
        subst
          (λ g.
            (orig * 10 ≤ (u.size * 10 + (t.number + 1)) * g)
            × ((u.size * 10 + (t.number + 1)) * g < (orig + g) * 10))
          (sym d.gpow_is ∙ d.powers)
          (tenth-RoundsUp u.size k u.last_rem d.before d.low t.number orig sum d.below t.above
            t.below large))

  tenths-apart :
      (u : Scale) → Small (k * 10) u → u.unit_idx < 11 → u.size ≡ k * 10 → tenths (k * 10) u ≡ 0
  tenths-apart u (inl l) i e = absurd (omega arith)
  tenths-apart u (inr l) i e = absurd (omega arith)

  rounded-Rounded :
      (u : Scale) (d : Divided orig (k * 10) u)
      → Small (k * 10) u
      → 0 < u.last_rem * d.before + d.low
      → Rounded (rounded (k * 10) (u.last_rem * d.before + d.low) u)
  unfolding rounded
  rounded-Rounded u d small pos =
      let below = Divided-below orig (k * 10) wide (omega arith) (omega arith) u d in
      let up = round_up-Rounded u (u.last_rem * d.before + d.low) d.sum pos below d.powers in
      let t = tenths-Tenths k u large narrow d.rem_below in
      if_both Rounded (ltb (p_90 u.gpow) (u.last_rem * d.before + d.low)) (λ _. up)
        (λ _.
          if_both Rounded (tenths (k * 10) u == 10 || (leb 10 u.size && ltb 0 (tenths (k * 10) u)))
            (λ _. up) (λ _. (tenths-RoundsUp u d t, tenths-apart u small)))

  next_unit-RoundsUp : (r : Scale) → Rounded r → RoundsUp orig (k * 10) (next_unit (k * 10) r)
  unfolding next_unit
  next_unit-RoundsUp r h =
      if_both (RoundsUp orig (k * 10)) (ltb r.unit_idx 11 && r.size == k * 10)
        (λ b.
          let same : r.size ≡ k * 10 = ground (arith, b) in
          let none_left : r.last_rem ≡ 0 = h.1 (ground (arith, b)) same in
          let one : r.size / (k * 10) ≡ 1 = ap (λ s. s / (k * 10)) same ∙ div_self (omega arith) in
          let p = power (k * 10) r.unit_idx in
          let shown : (r.size * 10 + r.last_rem) * p ≡ k * 10 * p * 10 =
            rw (same, none_left) (grind arith) in
          let more : 1 * p ≤ k * 10 * p = mul-le-mul_right p (omega arith) in
          rw one (rw none_left (omega (arith, h.0.0, shown), omega (arith, h.0.1, shown, more))))
        (λ _. h.0)

  -- what is left of the size, in 64 bits
  rest_is : (m rest : ℕ) → m + rest ≡ orig → (orig + 2 ^ 64 - m % 2 ^ 64) % 2 ^ 64 ≡ rest
  rest_is m rest e = omega arith

  exact-RoundsUp :
      (u : Scale)
      → u.size * power (k * 10) u.unit_idx ≡ orig
      → 0 < power (k * 10) u.unit_idx
      → u.last_rem ≡ 0
      → RoundsUp orig (k * 10) u
  exact-RoundsUp u e pos z =
      let shown : (u.size * 10 + u.last_rem) * power (k * 10) u.unit_idx
          ≡ u.size * power (k * 10) u.unit_idx * 10 =
        rw z (grind arith) in
      (omega (arith, shown, e), omega (arith, shown, e, pos))

  exact-cu :
      (u : Scale) (d : Divided orig (k * 10) u)
      → u.last_rem * d.before + d.low ≡ 0
      → RoundsUp orig (k * 10) u
  exact-cu u d z =
      let least : u.last_rem * 1 ≤ u.last_rem * d.before =
        mul-le-mul_left u.last_rem (omega (arith, d.below)) in
      let below = Divided-below orig (k * 10) wide (omega arith) (omega arith) u d in
      exact-RoundsUp u (ap (λ g. u.size * g) (sym d.powers) ∙ omega (arith, d.sum, z))
        (omega (arith, below, d.powers)) (omega (arith, least, z))

  cu_adjust-RoundsUp :
      (u : Scale) (d : Divided orig (k * 10) u)
      → Small (k * 10) u
      → RoundsUp orig (k * 10) (cu_adjust orig (k * 10) u)
  unfolding cu_adjust
  cu_adjust-RoundsUp u d small =
      let rest = u.last_rem * d.before + d.low in
      let below = Divided-below orig (k * 10) wide (omega arith) (omega arith) u d in
      rw (rest_is (u.size * u.gpow) rest d.sum) (
        if_both (RoundsUp orig (k * 10)) (u.unit_idx == 0 || rest == 0)
          (λ b. exact-cu u d (ground (arith, b, d.started)))
          (λ b.
            next_unit-RoundsUp (rounded (k * 10) rest u)
              (rounded-Rounded u d small (ground (arith, b)))))

  abbrev undivided : Scale
  undivided = record { unit_idx = 0; size = orig; last_rem = 0; gpow = 1 }

  undivided-Tracks : Tracks orig (k * 10) undivided
  undivided-Tracks = record { rest = 0; sum = omega arith; below = omega arith; powers = refl }

  undivided-cu : RoundsUp orig (k * 10) (cu_adjust orig (k * 10) undivided)
  unfolding cu_adjust
  undivided-cu = exact-RoundsUp undivided (omega arith) (omega arith) refl

  loop-RoundsUp :
      RoundsUp orig (k * 10) (cu_adjust orig (k * 10) (scale_loop (k * 10) 11 undivided))
  loop-RoundsUp =
      let (small, end) =
        scale_loop-Divided orig (k * 10) wide (omega arith) (omega arith) 11 undivided
          undivided-Tracks refl in
      elim end [
        | inl e ↦
            subst (λ u. RoundsUp orig (k * 10) (cu_adjust orig (k * 10) u)) (sym e) undivided-cu
        | inr d ↦ cu_adjust-RoundsUp (scale_loop (k * 10) 11 undivided) d small
      ]

-- HX_unit_size_cu shows a number that is not below the size, and less than one unit above it, where the
-- divisor is a multiple of ten and a tenth of 2^32 at most; 1000 stands for a divisor of 0.
pub unit_size_cu-RoundsUp :
    (orig divisor k : ℕ)
    → orig < 2 ^ 64
    → divisor_of divisor ≡ k * 10
    → k * 100 ≤ 2 ^ 32
    → RoundsUp orig (divisor_of divisor) (unit_size_cu orig divisor)
unfolding unit_size_cu
unit_size_cu-RoundsUp orig divisor k wide e narrow =
    let u : Scale = record { unit_idx = 0; size = orig; last_rem = 0; gpow = 1 } in
    subst (λ d. RoundsUp orig d (cu_adjust orig d (scale_loop d 11 u))) (sym e)
      (loop-RoundsUp orig k wide (ground (arith, e)) narrow)
