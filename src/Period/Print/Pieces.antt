-- ===== src/Period/Print/Pieces.antt =====
-- Texts of numbers with units, and what HX_strtoull_period of src/string.c reads in them.
use native.Mathlib.Nat.{le-div_iff_mul-le}
use libhx.Period.Print.Decimal.{StartsDigit, digits-StartsDigit, digits_pos, strtoull-digits}
use libhx.Period.Print.Units.{Boundary, IsUnit}
use libhx.Period.Print.{digits}
use libhx.Period.{
  ullong_max, skip_space, Pidx, desc, txtperiod_utab, txt_matches, Doubles, read_number, amount,
  add_amount, with_unit, go_on, number_round, period_loop, finished,
}
use libhx.Text.{is_space}
use libhx.Prelude.{
  ℕ, zero, suc, ◌+◌, ◌-◌, ◌*◌, ◌/◌, ◌%◌, ◌^◌, ◌<◌, ◌≤◌, ◌≡◌, refl, ap, sym, ◌∙◌, subst, Bool, true,
  false, ◌&&◌, ◌||◌, none, some, List, [], ◌∷◌, ◌++◌, append_assoc, length, length-append, drop,
  ltb, ◌==◌, arith,
}

-- A text of numbers with units, and the sum that it stands for.
pub data Written (mult : Pidx → ℕ) : List ℕ → ℕ → Type 0 where
  nothing : Written mult [] 0
  item :
      {rest : List ℕ} {total : ℕ} (n : ℕ) (name : List ℕ) (p : Pidx)
      → IsUnit name p
      → n < 10 ^ 18
      → Written mult rest total
      → Written mult (digits 20 n ++ (name ++ rest)) (n * mult p + total)

pub Written-append :
    {mult : Pidx → ℕ} {s t : List ℕ} {a b : ℕ}
    → Written mult s a
    → Written mult t b
    → Written mult (s ++ t) (a + b)
Written-append nothing w = subst (Written _ _) (omega arith) w
Written-append {mult} {b} (item {rest} {total} n name p unit small w) v =
    let rest' = Written-append w v in
    subst (λ x. Written mult x (n * mult p + total + b)) (regroup _)
      (subst (Written mult _) (omega arith) (item n name p unit small rest'))
  where
    regroup :
        (t : List ℕ) → digits 20 n ++ (name ++ (rest ++ t)) ≡ (digits 20 n ++ (name ++ rest)) ++ t
    regroup t =
        ap (λ x. digits 20 n ++ x) (sym (append_assoc name rest t))
        ∙ sym (append_assoc (digits 20 n) (name ++ rest) t)

pub Written-Boundary : {mult : Pidx → ℕ} {s : List ℕ} {a : ℕ} → Written mult s a → Boundary s
Written-Boundary nothing = tt
Written-Boundary (item {rest} n name p unit small w) =
    starts _ (digits-StartsDigit 19 n (name ++ rest) (omega arith))
  where
    starts : (s : List ℕ) → StartsDigit s → Boundary s
    starts [] h = absurd h
    starts (c ∷ s) h = h

drop-length : (name rest : List ℕ) → drop (length name) (name ++ rest) ≡ rest
drop-length [] rest = refl
drop-length (c ∷ name) rest = drop-length name rest

or_false : (b : Bool) → (b || false) ≡ b
or_false true = refl
or_false false = refl

module _ (d : Doubles) (mult : Pidx → ℕ) where
  product_fits : (quant n m : ℕ) → quant + n * suc m ≤ ullong_max → n ≤ ullong_max / suc m
  product_fits quant n m h =
      (le-div_iff_mul-le {k = suc m} {x = n} {y = ullong_max} (omega arith)).1 (omega arith)

  -- the number and the unit in front of a boundary
  amount_fits :
      (quant n : ℕ) (range : Bool) (end : List ℕ) (m : ℕ)
      → quant + n * m ≤ ullong_max
      → add_amount d quant (amount d (record { num = n; frac = none; end = end; range = range }) m)
        ≡ some (quant + n * m)
  unfolding add_amount amount
  amount_fits quant n range end zero h = ground arith
  amount_fits quant n range end (suc m) h =
      let quotient = product_fits quant n m h in
      let product : (ltb 0 (suc m) && ltb (ullong_max / suc m) n) ≡ false = ground arith in
      let whole : n * suc m % 2 ^ 64 ≡ n * suc m = grind arith in
      let sum : ltb (ullong_max - quant) (n * suc m) ≡ false = ground arith in
      rw product (rw whole (rw sum refl))

  unit_added :
      (quant n : ℕ) (name : List ℕ) (p : Pidx) (range : Bool) (begin end rest : List ℕ)
      → quant + n * mult p ≤ ullong_max
      → with_unit d quant begin
          (record { num = n; frac = none; end = end; range = range })
          (name ++ rest)
          mult
          (some (desc name p))
        ≡ go_on (quant + n * mult p) range rest
  unfolding with_unit
  unit_added quant n name p range begin end rest fits =
      rw (amount_fits quant n range end (mult p) fits, with_unit)
        (ap (λ r. go_on (quant + n * mult p) range r) (drop-length name rest))

  round_of :
      (quant n : ℕ) (name : List ℕ) (p : Pidx) (range : Bool) (rest : List ℕ)
      → IsUnit name p
      → n < 10 ^ 18
      → Boundary rest
      → quant + n * mult p ≤ ullong_max
      → number_round d txt_matches txtperiod_utab mult quant range (digits 20 n ++ (name ++ rest))
        ≡ go_on (quant + n * mult p) range rest
  unfolding number_round read_number
  round_of quant n name p range rest unit small end fits =
      let scanned = strtoull-digits n (name ++ rest) (omega arith) (unit.no_digit rest) in
      let not_max : (n == ullong_max) ≡ false = ground arith in
      let longer : (length (name ++ rest) == length (digits 20 n ++ (name ++ rest))) ≡ false =
        ground (arith, digits_pos 19 n, length-append (digits 20 n) (name ++ rest)) in
      rw scanned (
        rw (unit.no_point rest) (
          rw not_max (
            rw longer (
              rw (unit.no_space rest) (
                rw (unit.found rest end) (
                  unit_added quant n name p (range || false) (digits 20 n ++ (name ++ rest))
                    (name ++ rest) rest fits
                  ∙ ap (λ r. go_on (quant + n * mult p) r rest) (or_false range)))))))

  step_of :
      (k quant quant' : ℕ) (range : Bool) (s rest : List ℕ)
      → StartsDigit s
      → number_round d txt_matches txtperiod_utab mult quant range s ≡ go_on quant' range rest
      → period_loop d (suc k) txtperiod_utab mult quant range s
        ≡ period_loop d k txtperiod_utab mult quant' range rest
  unfolding period_loop skip_space
  step_of k quant quant' range [] rest h e = absurd h
  step_of k quant quant' range (c ∷ s) rest h e =
      let solid : is_space c ≡ false = ground (arith, h) in
      let no_minus : (c == b'-') ≡ false = ground (arith, h) in
      rw solid (rw no_minus (rw (e, period_loop) refl))

  -- The loop of HX_strtoull_period on such a text, with enough fuel and a sum that fits, ends at the end
  -- of the text with the sum.
  pub period_loop-Written :
      (k quant sum : ℕ) (range : Bool) (s : List ℕ)
      → Written mult s sum
      → quant + sum ≤ ullong_max
      → length s < k
      → period_loop d k txtperiod_utab mult quant range s ≡ some (finished (quant + sum) [])
  unfolding period_loop
  period_loop-Written zero quant sum range s w fits h = absurd (omega arith)
  period_loop-Written (suc k) quant sum range _ nothing fits h =
      ap (λ q. some (finished q [])) (omega arith)
  period_loop-Written (suc k) quant sum range _ (item {rest} {total} n name p unit small w) fits h =
      let round =
        round_of quant n name p range rest unit small (Written-Boundary w) (omega arith) in
      step_of k quant (quant + n * mult p) range (digits 20 n ++ (name ++ rest)) rest
        (digits-StartsDigit 19 n (name ++ rest) (omega arith)) round
      ∙ period_loop-Written k (quant + n * mult p) total range rest w (omega arith) (
          omega (
            arith,
            digits_pos 19 n,
            length-append (digits 20 n) (name ++ rest),
            length-append name rest,
          ))
      ∙ ap (λ q. some (finished q [])) (omega arith)
