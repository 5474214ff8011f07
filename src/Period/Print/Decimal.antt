-- ===== src/Period/Print/Decimal.antt =====
-- The digits that printf writes are the number that strtoull of src/string.c's parsers reads.
use libhx.Period.Print.{digits}
use libhx.Period.{ullong_max, is_digit, scan_digits, scan_unsigned, strtoull}
use libhx.Prelude.{
  ℕ, zero, suc, ◌+◌, ◌-◌, ◌*◌, ◌/◌, ◌%◌, ◌<◌, ◌≤◌, ◌≡◌, refl, ap, sym, ◌∙◌, subst, true, false,
  List, [], ◌∷◌, ◌++◌, append_assoc, length, length-append, ltb, ◌==◌, inl, inr, Bool-cases, arith,
}

-- 10 ^ k
abbrev pub power_of_ten : ℕ → ℕ
power_of_ten zero = 1
power_of_ten (suc k) = 10 * power_of_ten k

-- the text does not start with a digit
abbrev pub NoDigit : List ℕ → Type 0
NoDigit [] = Unit
NoDigit (c ∷ s) = is_digit c ≡ false

-- the text starts with a digit
abbrev pub StartsDigit : List ℕ → Type 0
StartsDigit [] = ⊥
StartsDigit (c ∷ s) = is_digit c ≡ true

digit-is_digit : (n : ℕ) → n < 10 → is_digit (48 + n) ≡ true
digit-is_digit n h = ground arith

scan_rest : (rest : List ℕ) (v : ℕ) → NoDigit rest → scan_digits rest v ≡ (v, rest)
unfolding scan_digits
scan_rest [] v h = refl
scan_rest (c ∷ s) v h = rw h refl

scan_digit :
    (n v : ℕ) (s : List ℕ) → n < 10 → scan_digits ((48 + n) ∷ s) v ≡ scan_digits s (v * 10 + n)
unfolding scan_digits
scan_digit n v s h =
    let value : v * 10 + (48 + n - 48) ≡ v * 10 + n = omega arith in
    rw (digit-is_digit n h) (ap (λ m. scan_digits s m) value)

-- what follows the digits is read with the number before it multiplied
pub scan-digits :
    (k n : ℕ) (rest : List ℕ)
    → n < power_of_ten k
    → scan_digits (digits k n ++ rest) 0 ≡ scan_digits rest n
unfolding digits
scan-digits zero n rest h = let e : 0 ≡ n = omega arith in ap (scan_digits rest) e
scan-digits (suc k) n rest h = elim (Bool-cases (ltb n 10)) [
  | inl e ↦ rw e (scan_digit n 0 rest (ground arith) ∙ ap (scan_digits rest) (omega arith))
  | inr e ↦
      let back : n / 10 * 10 + n % 10 ≡ n = omega arith in
      rw e (
        ap (λ s. scan_digits s 0) (append_assoc (digits k (n / 10)) ((48 + n % 10) ∷ []) rest)
        ∙ scan-digits k (n / 10) ((48 + n % 10) ∷ rest) (omega arith)
        ∙ scan_digit (n % 10) (n / 10) rest (omega arith)
        ∙ ap (scan_digits rest) back)
]

pub digits-StartsDigit :
    (k n : ℕ) (rest : List ℕ) → n < power_of_ten (suc k) → StartsDigit (digits (suc k) n ++ rest)
unfolding digits
digits-StartsDigit zero n rest h = ground arith
digits-StartsDigit (suc k) n rest h = elim (Bool-cases (ltb n 10)) [
  | inl e ↦ rw e (digit-is_digit n (ground arith))
  | inr e ↦ rw e (
      subst StartsDigit (sym (append_assoc (digits (suc k) (n / 10)) ((48 + n % 10) ∷ []) rest))
        (digits-StartsDigit k (n / 10) ((48 + n % 10) ∷ rest) (omega arith)))
]

pub length-digits : (k j n : ℕ) → n < power_of_ten (suc j) → length (digits k n) ≤ suc j
unfolding digits
length-digits zero j n h = omega arith
length-digits (suc k) zero n h = let e : ltb n 10 ≡ true = ground arith in rw e (omega arith)
length-digits (suc k) (suc j) n h = elim (Bool-cases (ltb n 10)) [
  | inl e ↦ rw e (omega arith)
  | inr e ↦ rw e (
      omega (
        arith,
        length-append (digits k (n / 10)) ((48 + n % 10) ∷ []),
        length-digits k j (n / 10) (omega arith),
      ))
]

pub digits_pos : (k n : ℕ) → 0 < length (digits (suc k) n)
unfolding digits
digits_pos k n = elim (Bool-cases (ltb n 10)) [
  | inl e ↦ rw e (omega arith)
  | inr e ↦ rw e (omega (arith, length-append (digits k (n / 10)) ((48 + n % 10) ∷ [])))
]

scan_unsigned_digit :
    (s : List ℕ) (n : ℕ) (rest : List ℕ)
    → StartsDigit s
    → scan_digits s 0 ≡ (n, rest)
    → n ≤ ullong_max
    → scan_unsigned s s ≡ record { value = n; end = rest; range = false }
scan_unsigned_digit [] n rest h e l = absurd h
scan_unsigned_digit (c ∷ s) n rest h e l =
    let small : ltb ullong_max n ≡ false = ground arith in rw h (rw e (rw small refl))

-- the number that printf has written, up to what follows
pub scan_unsigned-digits :
    (n : ℕ) (rest : List ℕ)
    → n ≤ ullong_max
    → NoDigit rest
    → scan_unsigned (digits 20 n ++ rest) (digits 20 n ++ rest)
      ≡ record { value = n; end = rest; range = false }
scan_unsigned-digits n rest l h =
    scan_unsigned_digit (digits 20 n ++ rest) n rest (digits-StartsDigit 19 n rest (omega arith))
      (scan-digits 20 n rest (omega arith) ∙ scan_rest rest n h) l

strtoull-unsigned : (s : List ℕ) → StartsDigit s → strtoull s ≡ scan_unsigned s s
unfolding strtoull
strtoull-unsigned [] h = absurd h
strtoull-unsigned (c ∷ s) h = let sign : (c == b'+') ≡ false = ground (arith, h) in rw sign refl

-- strtoull reads the number that printf has written, up to what follows.
pub strtoull-digits :
    (n : ℕ) (rest : List ℕ)
    → n ≤ ullong_max
    → NoDigit rest
    → strtoull (digits 20 n ++ rest) ≡ record { value = n; end = rest; range = false }
strtoull-digits n rest l h =
    strtoull-unsigned (digits 20 n ++ rest) (digits-StartsDigit 19 n rest (omega arith))
    ∙ scan_unsigned-digits n rest l h
