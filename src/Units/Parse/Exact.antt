-- ===== src/Units/Parse/Exact.antt =====
-- What HX_strtoull_unit of src/string.c returns for a number with a suffix that fits.
use libhx.Period.Print.Decimal.{StartsDigit, digits-StartsDigit, scan_unsigned-digits}
use libhx.Period.Print.{digits}
use libhx.Period.{ullong_max, is_digit, skip_space, scan_unsigned, finished}
use libhx.Prelude.{
  ℕ, zero, suc, ◌+◌, ◌*◌, ◌/◌, ◌%◌, ◌^◌, ◌<◌, ◌≤◌, ◌≡◌, refl, ap, sym, ◌∙◌, subst, false, some,
  List, [], ◌∷◌, ◌++◌, get_or, leb, ◌==◌, arith,
}
use libhx.Text.{is_space}
use libhx.Units.Parse.{
  suffix_power, strtoull_any, UnitDoubles, exponent_of, power_loop, with_suffix, unit_number,
  strtoull_unit,
}
use native.Mathlib.Nat.{le-div_iff_mul-le}

-- `base ^ k`
abbrev pub power : ℕ → ℕ → ℕ
power base zero = 1
power base (suc k) = base * power base k

power_pos : (e k : ℕ) → 0 < e → 0 < power e k
power_pos e zero h = omega arith
power_pos e (suc k) h = grind (arith, power_pos e k h)

-- one round of the loop multiplies
room_for : (e x : ℕ) → 0 < e → (x + 1) * e ≤ ullong_max → leb (ullong_max / e) x ≡ false
room_for e x h l =
    let below : x < ullong_max / e =
      (le-div_iff_mul-le {k = e} {x = suc x} {y = ullong_max} h).1 (omega arith) in
    ground (arith, below)

power_loop-power :
    (k e x : ℕ) → 0 < e → (x + 1) * power e k ≤ ullong_max → power_loop k e x ≡ some (x * power e k)
unfolding power_loop
power_loop-power zero e x h l = ap some (omega arith)
power_loop-power (suc k) e x h l =
    let pos = power_pos e k h in
    let step : (x * e + 1) * power e k ≤ (x + 1) * (e * power e k) = grind arith in
    let one : (x + 1) * e ≤ (x + 1) * (e * power e k) = grind arith in
    let whole : x * e % 2 ^ 64 ≡ x * e = grind arith in
    rw (room_for e x h (omega arith))
      (rw whole (power_loop-power k e (x * e) h (omega arith) ∙ ap some (grind arith)))

-- a text that starts with a digit has neither white space nor a sign in front
skip_space-digit : (s : List ℕ) → StartsDigit s → skip_space s ≡ s
unfolding skip_space
skip_space-digit [] h = absurd h
skip_space-digit (c ∷ s) h = let solid : is_space c ≡ false = ground (arith, h) in rw solid refl

no_sign :
    (s : List ℕ)
    → StartsDigit s
    → ((get_or s 0 0 == b'-') ≡ false) × ((get_or s 0 0 == b'+') ≡ false)
no_sign [] h = absurd h
no_sign (c ∷ s) h = (ground (arith, h), ground (arith, h))

strtoull_any-digit : (s : List ℕ) → StartsDigit s → strtoull_any s ≡ scan_unsigned s s
unfolding strtoull_any
strtoull_any-digit s h =
    rw (skip_space-digit s h) (rw ((no_sign s h).0, strtoull_any) (rw ((no_sign s h).1) refl))

-- a letter that stands for a power
suffix_byte :
    (c p : ℕ)
    → suffix_power c ≡ suc p
    → (is_space c ≡ false) × (is_digit c ≡ false) × ((c == b'.') ≡ false)
unfolding suffix_power
suffix_byte c p h = (ground (arith, h), ground (arith, h), ground (arith, h))

letter-skip : (c : ℕ) (rest : List ℕ) → is_space c ≡ false → skip_space (c ∷ rest) ≡ c ∷ rest
unfolding skip_space
letter-skip c rest h = rw h refl

exponent_pos : (e : ℕ) → 0 < exponent_of e
exponent_pos e = ground arith

number_le : (e k n : ℕ) → 0 < e → (n + 1) * power e k ≤ ullong_max → n ≤ ullong_max
number_le e k n h l = let pos = power_pos e k h in grind arith

module _ (d : UnitDoubles) where
  with_suffix-power :
      (n exponent c p : ℕ) (rest : List ℕ)
      → suffix_power c ≡ suc p
      → (n + 1) * power (exponent_of exponent) (suc p) ≤ ullong_max
      → with_suffix d false n (c ∷ rest) exponent
        ≡ finished (n * power (exponent_of exponent) (suc p)) rest
  unfolding with_suffix
  with_suffix-power n exponent c p rest s l =
      rw (s, with_suffix)
        (rw
          (power_loop-power (suc p) (exponent_of exponent) n (exponent_pos exponent) l, with_suffix)
          (let more : (suc p == 0) ≡ false = ground arith in rw more refl))

  unit_number-power :
      (n exponent c p : ℕ) (rest : List ℕ)
      → suffix_power c ≡ suc p
      → (n + 1) * power (exponent_of exponent) (suc p) ≤ ullong_max
      → unit_number d false (digits 20 n ++ c ∷ rest) exponent
        ≡ finished (n * power (exponent_of exponent) (suc p)) rest
  unfolding unit_number
  unit_number-power n exponent c p rest s l =
      let bytes = suffix_byte c p s in
      let small = number_le (exponent_of exponent) (suc p) n (exponent_pos exponent) l in
      let scanned =
        strtoull_any-digit (digits 20 n ++ c ∷ rest)
          (digits-StartsDigit 19 n (c ∷ rest) (omega arith))
        ∙ scan_unsigned-digits n (c ∷ rest) small bytes.1 in
      rw scanned (
        rw bytes.2 (
          subst
            (λ t.
              with_suffix d false n t exponent
              ≡ finished (n * power (exponent_of exponent) (suc p)) rest)
            (sym (letter-skip c rest bytes.0)) (with_suffix-power n exponent c p rest s l)))

  -- HX_strtoull_unit on a decimal number and a letter for a power, where the next larger number times the
  -- power still fits into 64 bits, returns the product exactly, leaves what follows, and clears errno; an
  -- exponent of 0 is 1000.
  pub strtoull_unit-power :
      (n exponent c p : ℕ) (rest : List ℕ)
      → suffix_power c ≡ suc p
      → (n + 1) * power (exponent_of exponent) (suc p) ≤ ullong_max
      → strtoull_unit d (digits 20 n ++ c ∷ rest) exponent
        ≡ finished (n * power (exponent_of exponent) (suc p)) rest
  unfolding strtoull_unit
  strtoull_unit-power n exponent c p rest s l =
      let small = number_le (exponent_of exponent) (suc p) n (exponent_pos exponent) l in
      let starts = digits-StartsDigit 19 n (c ∷ rest) (omega arith) in
      rw (skip_space-digit (digits 20 n ++ c ∷ rest) starts) (
        rw ((no_sign (digits 20 n ++ c ∷ rest) starts).0, strtoull_unit)
          (unit_number-power n exponent c p rest s l))
