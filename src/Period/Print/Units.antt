-- ===== src/Period/Print/Units.antt =====
-- The names of units that HX_unit_seconds of src/string.c writes, as HX_strtoull_period finds them.
use libhx.Bytes.{codes}
use libhx.Period.Print.Decimal.{NoDigit}
use libhx.Period.{
  is_digit, skip_space, Pidx, years, months, weeks, days, hours, min, sec, desc, txtperiod_utab,
  txt_matches, find_unit,
}
use libhx.Prelude.{
  ℕ, zero, suc, ◌+◌, ◌-◌, ◌<◌, ◌≤◌, ◌≡◌, refl, subst, true, false, some, List, [], ◌∷◌, ◌++◌,
  length, get_or, ◌==◌, inl, inr, Bool-cases, arith,
}

-- the end of the text, or a digit
abbrev pub Boundary : List ℕ → Type 0
Boundary [] = Unit
Boundary (c ∷ s) = is_digit c ≡ true

-- A property of bytes holds at every digit if it does at each of them.
abbrev AtAll : (ℕ → Type 0) → ℕ → Type 0
AtAll P zero = Unit
AtAll P (suc n) = P (48 + n) × AtAll P n

at_all : (P : ℕ → Type 0) (n : ℕ) → AtAll P n → (i : ℕ) → i < n → P (48 + i)
at_all P zero all i h = absurd (omega arith)
at_all P (suc n) all i h = elim (Bool-cases (i == n)) [
  | inl e ↦ subst (λ j. P (48 + j)) (let q : n ≡ i = ground (arith, e) in q) all.0
  | inr e ↦ at_all P n all.1 i (ground arith)
]

at_digit : (P : ℕ → Type 0) → AtAll P 10 → (c : ℕ) → is_digit c ≡ true → P c
at_digit P all c h =
    let low : 48 ≤ c = ground arith in
    let back : 48 + (c - 48) ≡ c = omega arith in
    subst P back (at_all P 10 all (c - 48) (ground arith))

-- The name of a unit: it starts with a letter, and in front of a boundary it is found in the table.
pub record IsUnit (name : List ℕ) (p : Pidx) : Type 0 where
  pub short : length name ≤ 6
  pub no_space : (rest : List ℕ) → skip_space (name ++ rest) ≡ name ++ rest
  pub no_digit : (rest : List ℕ) → NoDigit (name ++ rest)
  pub no_point : (rest : List ℕ) → (get_or (name ++ rest) 0 0 == b'.') ≡ false
  pub found :
      (rest : List ℕ)
      → Boundary rest
      → find_unit txt_matches txtperiod_utab (name ++ rest) ≡ some (desc name p)

-- the search in front of a boundary, from its ten digits
abbrev Finds : List ℕ → Pidx → List ℕ → Type 0
Finds name p rest = find_unit txt_matches txtperiod_utab (name ++ rest) ≡ some (desc name p)

found_before :
    (name : List ℕ) (p : Pidx)
    → Finds name p []
    → ((rest : List ℕ) → AtAll (λ c. Finds name p (c ∷ rest)) 10)
    → (rest : List ℕ) → Boundary rest
    → Finds name p rest
found_before name p alone all [] h = alone
found_before name p alone all (c ∷ rest) h = at_digit (λ x. Finds name p (x ∷ rest)) (all rest) c h

pub y-IsUnit : IsUnit (codes "y") years
unfolding find_unit skip_space
y-IsUnit = record {
  short = omega arith;
  no_space = λ rest. refl;
  no_digit = λ rest. refl;
  no_point = λ rest. refl;
  found =
      found_before (codes "y") years refl (λ rest.
        (refl, (refl, (refl, (refl, (refl, (refl, (refl, (refl, (refl, (refl, tt)))))))))));
}

pub month-IsUnit : IsUnit (codes "month") months
unfolding find_unit skip_space
month-IsUnit = record {
  short = omega arith;
  no_space = λ rest. refl;
  no_digit = λ rest. refl;
  no_point = λ rest. refl;
  found =
      found_before (codes "month") months refl (λ rest.
        (refl, (refl, (refl, (refl, (refl, (refl, (refl, (refl, (refl, (refl, tt)))))))))));
}

pub months-IsUnit : IsUnit (codes "months") months
unfolding find_unit skip_space
months-IsUnit = record {
  short = omega arith;
  no_space = λ rest. refl;
  no_digit = λ rest. refl;
  no_point = λ rest. refl;
  found =
      found_before (codes "months") months refl (λ rest.
        (refl, (refl, (refl, (refl, (refl, (refl, (refl, (refl, (refl, (refl, tt)))))))))));
}

pub week-IsUnit : IsUnit (codes "week") weeks
unfolding find_unit skip_space
week-IsUnit = record {
  short = omega arith;
  no_space = λ rest. refl;
  no_digit = λ rest. refl;
  no_point = λ rest. refl;
  found =
      found_before (codes "week") weeks refl (λ rest.
        (refl, (refl, (refl, (refl, (refl, (refl, (refl, (refl, (refl, (refl, tt)))))))))));
}

pub weeks-IsUnit : IsUnit (codes "weeks") weeks
unfolding find_unit skip_space
weeks-IsUnit = record {
  short = omega arith;
  no_space = λ rest. refl;
  no_digit = λ rest. refl;
  no_point = λ rest. refl;
  found =
      found_before (codes "weeks") weeks refl (λ rest.
        (refl, (refl, (refl, (refl, (refl, (refl, (refl, (refl, (refl, (refl, tt)))))))))));
}

pub d-IsUnit : IsUnit (codes "d") days
unfolding find_unit skip_space
d-IsUnit = record {
  short = omega arith;
  no_space = λ rest. refl;
  no_digit = λ rest. refl;
  no_point = λ rest. refl;
  found =
      found_before (codes "d") days refl (λ rest.
        (refl, (refl, (refl, (refl, (refl, (refl, (refl, (refl, (refl, (refl, tt)))))))))));
}

pub h-IsUnit : IsUnit (codes "h") hours
unfolding find_unit skip_space
h-IsUnit = record {
  short = omega arith;
  no_space = λ rest. refl;
  no_digit = λ rest. refl;
  no_point = λ rest. refl;
  found =
      found_before (codes "h") hours refl (λ rest.
        (refl, (refl, (refl, (refl, (refl, (refl, (refl, (refl, (refl, (refl, tt)))))))))));
}

pub min-IsUnit : IsUnit (codes "min") min
unfolding find_unit skip_space
min-IsUnit = record {
  short = omega arith;
  no_space = λ rest. refl;
  no_digit = λ rest. refl;
  no_point = λ rest. refl;
  found =
      found_before (codes "min") min refl (λ rest.
        (refl, (refl, (refl, (refl, (refl, (refl, (refl, (refl, (refl, (refl, tt)))))))))));
}

pub s-IsUnit : IsUnit (codes "s") sec
unfolding find_unit skip_space
s-IsUnit = record {
  short = omega arith;
  no_space = λ rest. refl;
  no_digit = λ rest. refl;
  no_point = λ rest. refl;
  found =
      found_before (codes "s") sec refl (λ rest.
        (refl, (refl, (refl, (refl, (refl, (refl, (refl, (refl, (refl, (refl, tt)))))))))));
}
