-- ===== src/Period/Print/Roundtrip.antt =====
-- HX_strtoull_sec of src/string.c reads what HX_unit_seconds has written.
use native.Mathlib.Nat.{div-add-mod, mul_comm, div-lt_iff_lt-mul}
use libhx.Bytes.{codes}
use libhx.Period.Print.Decimal.{length-digits}
use libhx.Period.Print.Pieces.{
  Written, nothing, item, Written-append, Written-Boundary, period_loop-Written,
}
use libhx.Period.Print.Units.{
  Boundary, IsUnit, y-IsUnit, month-IsUnit, months-IsUnit, week-IsUnit, weeks-IsUnit, d-IsUnit,
  h-IsUnit, min-IsUnit, s-IsUnit,
}
use libhx.Period.Print.{
  digits, print_number, flag_set, Parts, taken, break_down, cat_if, cat_word, print_parts,
  unit_seconds,
}
use libhx.Period.{
  ullong_max, Pidx, years, months, weeks, days, hours, min, sec, sec_mult, Doubles, finished,
  strtoull_period, looks_like_iso8601, strtoull_by, seconds_per_year, seconds_per_month,
}
use libhx.Prelude.{
  ℕ, zero, suc, ◌+◌, ◌-◌, ◌*◌, ◌/◌, ◌^◌, ◌<◌, ◌≤◌, ◌≡◌, refl, ap, sym, ◌∙◌, subst, Bool, true,
  false, some, List, [], ◌∷◌, ◌++◌, append-nil, length, length-append, take, ltb, ◌==◌, if_both,
  arith,
}
use libhx.Text.{strlcat, room, is_positive}

-- the text stands for the sum, and has a limited length
record Wrote (out : List ℕ) (total size : ℕ) : Type 0 where
  pub written : Written sec_mult out total
  pub short : length out ≤ size

take-all : (n : ℕ) (s : List ℕ) → length s ≤ n → take n s ≡ s
take-all zero [] h = refl
take-all zero (c ∷ s) h = absurd (omega arith)
take-all (suc n) [] h = refl
take-all (suc n) (c ∷ s) h = ap (λ t. c ∷ t) (take-all n s (omega arith))

print_number-Wrote :
    (n : ℕ) (name : List ℕ) (p : Pidx)
    → IsUnit name p
    → n < 10 ^ 18
    → Wrote (print_number n name) (n * sec_mult p) 24
unfolding print_number
print_number-Wrote n name p unit small =
    let fits : length (digits 20 n ++ name) ≤ 24 =
      omega (
        arith,
        length-append (digits 20 n) name,
        length-digits 20 17 n (omega arith),
        unit.short,
      ) in
    let whole = take-all 24 (digits 20 n ++ name) fits in
    let text : digits 20 n ++ (name ++ []) ≡ digits 20 n ++ name =
      ap (λ t. digits 20 n ++ t) (append-nil name) in
    let total : n * sec_mult p + 0 ≡ n * sec_mult p = omega arith in
    record {
      written =
          subst (λ t. Written sec_mult t (n * sec_mult p)) (text ∙ sym whole)
            (subst (Written sec_mult (digits 20 n ++ (name ++ []))) total
              (item n name p unit small nothing));
      short = subst (λ t. length t ≤ 24) (sym whole) fits;
    }

module _ (outsize : ℕ) (small : outsize < 2 ^ 63) where
  strlcat-Wrote :
      (out text : List ℕ) (a b l : ℕ)
      → l + 24 < outsize
      → Wrote out a l
      → Wrote text b 24
      → Wrote (strlcat out text outsize) (a + b) (l + 24)
  unfolding strlcat
  strlcat-Wrote out text a b l fits w v =
      let there : room outsize (length out) ≡ outsize - length out - 1 = ground (arith, w.short) in
      let positive : is_positive (room outsize (length out)) ≡ true =
        ground (arith, w.short, there) in
      let all =
        take-all (room outsize (length out)) text (omega (arith, v.short, w.short, there)) in
      rw positive (
        rw all (record {
          written = Written-append w.written v.written;
          short = omega (arith, length-append out text, v.short, w.short);
        }))

  cat_if-Wrote :
      (c : Bool) (out text : List ℕ) (a b l : ℕ)
      → l + 24 < outsize
      → (c ≡ false → b ≡ 0)
      → Wrote out a l
      → Wrote text b 24
      → Wrote (cat_if outsize c text out) (a + b) (l + 24)
  cat_if-Wrote c out text a b l fits none w v =
      if_both (λ o. Wrote o (a + b) (l + 24)) c (λ t. strlcat-Wrote out text a b l fits w v)
        (λ f.
          let zero : b ≡ 0 = none f in
          record {
            written = subst (Written sec_mult out) (omega arith) w.written;
            short = omega (arith, w.short);
          })

  cat_number-Wrote :
      (n : ℕ) (name : List ℕ) (p : Pidx) (out : List ℕ) (a l : ℕ)
      → l + 24 < outsize
      → IsUnit name p
      → n < 10 ^ 18
      → Wrote out a l
      → Wrote (cat_if outsize (ltb 0 n) (print_number n name) out) (a + n * sec_mult p) (l + 24)
  cat_number-Wrote n name p out a l fits unit less w =
      cat_if-Wrote (ltb 0 n) out (print_number n name) a (n * sec_mult p) l fits
        (λ f. let zero : n ≡ 0 = ground arith in rw zero (omega arith)) w
        (print_number-Wrote n name p unit less)

  cat_word-Wrote :
      (n : ℕ) (one name : List ℕ) (p : Pidx) (out : List ℕ) (a l : ℕ)
      → l + 24 < outsize
      → Wrote one (1 * sec_mult p) 24
      → IsUnit name p
      → n < 10 ^ 18
      → Wrote out a l
      → Wrote (cat_word outsize n one name out) (a + n * sec_mult p) (l + 24)
  cat_word-Wrote n one name p out a l fits single unit less w =
      if_both (λ o. Wrote o (a + n * sec_mult p) (l + 24)) (n == 1)
        (λ t.
          let e : 1 ≡ n = ground arith in
          subst (λ k. Wrote (strlcat out one outsize) (a + k * sec_mult p) (l + 24)) e
            (strlcat-Wrote out one a (1 * sec_mult p) l fits w single))
        (λ f. cat_number-Wrote n name p out a l fits unit less w)

one_month : Wrote (codes "1month") (1 * sec_mult months) 24
unfolding digits sec_mult
one_month = record {
  written = item 1 (codes "month") months month-IsUnit (omega arith) nothing;
  short = omega arith;
}

one_week : Wrote (codes "1week") (1 * sec_mult weeks) 24
unfolding digits sec_mult
one_week = record {
  written = item 1 (codes "week") weeks week-IsUnit (omega arith) nothing;
  short = omega arith;
}

-- the seconds that the parts are
abbrev seconds_of : Parts → ℕ
seconds_of p =
    0
    + p.years * sec_mult years
    + p.months * sec_mult months
    + p.weeks * sec_mult weeks
    + p.days * sec_mult days
    + p.hours * sec_mult hours
    + p.mins * sec_mult min
    + p.secs * sec_mult sec

-- each part has at most 18 digits
record AreSmall (p : Parts) : Type 0 where
  pub years : p.years < 10 ^ 18
  pub months : p.months < 10 ^ 18
  pub weeks : p.weeks < 10 ^ 18
  pub days : p.days < 10 ^ 18
  pub hours : p.hours < 10 ^ 18
  pub mins : p.mins < 10 ^ 18
  pub secs : p.secs < 10 ^ 18

print_parts-Wrote :
    (outsize : ℕ) (p : Parts)
    → 168 < outsize
    → outsize < 2 ^ 63
    → AreSmall p
    → Wrote (print_parts outsize p) (seconds_of p) 168
unfolding print_parts
print_parts-Wrote outsize p large small k =
    let w1 =
      cat_number-Wrote outsize small p.years (codes "y") years [] 0 0 (omega arith) y-IsUnit k.years
        (record { written = nothing; short = omega arith }) in
    let w2 =
      cat_word-Wrote outsize small p.months (codes "1month") (codes "months") months _ _ 24
        (omega arith) one_month months-IsUnit k.months w1 in
    let w3 =
      cat_word-Wrote outsize small p.weeks (codes "1week") (codes "weeks") weeks _ _ 48
        (omega arith) one_week weeks-IsUnit k.weeks w2 in
    let w4 =
      cat_number-Wrote outsize small p.days (codes "d") days _ _ 72 (omega arith) d-IsUnit k.days
        w3 in
    let w5 =
      cat_number-Wrote outsize small p.hours (codes "h") hours _ _ 96 (omega arith) h-IsUnit k.hours
        w4 in
    let w6 =
      cat_number-Wrote outsize small p.mins (codes "min") min _ _ 120 (omega arith) min-IsUnit
        k.mins w5 in
    cat_if-Wrote outsize small _ _ (print_number p.secs (codes "s")) _ (p.secs * sec_mult sec) 144
      (omega arith) (λ f. let zero : p.secs ≡ 0 = ground (arith, f) in rw zero (omega arith)) w6
      (print_number-Wrote p.secs (codes "s") sec s-IsUnit k.secs)

taken_lem : (c : Bool) (secs unit : ℕ) → (taken c secs unit).0 * unit + (taken c secs unit).1 ≡ secs
taken_lem true secs unit = omega (arith, div-add-mod secs unit, mul_comm unit (secs / unit))
taken_lem false secs unit = omega arith

taken_small :
    (c : Bool) (secs k : ℕ)
    → secs ≤ ullong_max
    → 17 < k
    → ((taken c secs (suc k)).0 < 10 ^ 18) × ((taken c secs (suc k)).1 ≤ ullong_max)
taken_small true secs k h l = (less, omega (arith, div-add-mod secs (suc k)))
  where
    less : secs / suc k < 10 ^ 18
    less = (div-lt_iff_lt-mul {k = suc k} {x = secs} {y = 10 ^ 18} (omega arith)).1 (omega arith)
taken_small false secs k h l = (omega arith, h)

break_down-seconds_of : (secs flags : ℕ) → seconds_of (break_down secs flags) ≡ secs
unfolding break_down sec_mult
break_down-seconds_of secs flags =
    let y = taken (flag_set flags 1) secs seconds_per_year in
    let m = taken (flag_set flags 2) y.1 seconds_per_month in
    omega (
      arith,
      taken_lem (flag_set flags 1) secs seconds_per_year,
      taken_lem (flag_set flags 2) y.1 seconds_per_month,
      taken_lem (flag_set flags 4) m.1 604800,
    )

-- every part is small, when the seconds fit into 64 bits
break_down-AreSmall : (secs flags : ℕ) → secs ≤ ullong_max → AreSmall (break_down secs flags)
unfolding break_down
break_down-AreSmall secs flags h =
    let y = taken (flag_set flags 1) secs seconds_per_year in
    let m = taken (flag_set flags 2) y.1 seconds_per_month in
    let year = taken_small (flag_set flags 1) secs 31557599 h (omega arith) in
    let month = taken_small (flag_set flags 2) y.1 2629799 year.1 (omega arith) in
    let week = taken_small (flag_set flags 4) m.1 604799 month.1 (omega arith) in
    record {
      years = year.0;
      months = month.0;
      weeks = week.0;
      days = omega (arith, week.1);
      hours = omega (arith, week.1);
      mins = omega arith;
      secs = omega arith;
    }

starts_no_p : (s : List ℕ) → Boundary s → looks_like_iso8601 s ≡ false
unfolding looks_like_iso8601
starts_no_p [] h = refl
starts_no_p (c ∷ s) h = ground (arith, h)

-- HX_strtoull_sec reads the text that HX_unit_seconds writes, for any flags and any number of seconds
-- below 2 ^ 64, into a buffer of more than 168 bytes: it returns the same number, stops at the end of
-- the text and clears errno, whatever errno was before.
pub strtoull_sec-unit_seconds :
    (d : Doubles) (range : Bool) (outsize secs flags : ℕ)
    → 168 < outsize
    → outsize < 2 ^ 63
    → secs ≤ ullong_max
    → strtoull_by d sec_mult range (unit_seconds outsize secs flags) ≡ some (finished secs [])
unfolding strtoull_by strtoull_period unit_seconds
strtoull_sec-unit_seconds d range outsize secs flags large small h =
    let p = break_down secs flags in
    let w = print_parts-Wrote outsize p large small (break_down-AreSmall secs flags h) in
    let s = print_parts outsize p in
    let total = break_down-seconds_of secs flags in
    let read =
      period_loop-Written d sec_mult (suc (length s)) 0 (seconds_of p) range s w.written
        (omega (arith, total)) (omega arith) in
    rw (starts_no_p s (Written-Boundary w.written))
      (read ∙ ap (λ n. some (finished n [])) (omega (arith, total)))
