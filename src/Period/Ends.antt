-- ===== src/Period/Ends.antt =====
-- The parsers of periods of src/string.c end on every string, with a number of 64 bits.
use libhx.Period.{
  ullong_max, skip_space, scan_digits, Scanned, scan_unsigned, strtoull, Pidx, UnitDesc, find_unit,
  txt_matches, Parsed, finished, out_of_range, iso_matches, iso8601p_dtab, iso8601p_ttab,
  txtperiod_utab, Doubles, Number, read_number, number_zero, amount, add_amount, Round, go_on,
  return_, with_unit, number_round, is_minus, period_loop, is_t, iso_loop, strtoull_period,
  strtoull_iso8601p_2, looks_like_iso8601, strtoull_by,
}
use libhx.Prelude.{
  ℕ, zero, suc, ◌+◌, ◌-◌, ◌*◌, ◌<◌, ◌≤◌, ◌≡◌, refl, Bool, true, false, ◌&&◌, ◌||◌, Option, none,
  some, List, [], ◌∷◌, length, length-drop, drop, get_or, ◌==◌, if◌then◌else◌, if_both,
  Option-cases, inl, inr, arith,
}

pub skip_space-le : (s : List ℕ) → length (skip_space s) ≤ length s
unfolding skip_space
skip_space-le [] = omega arith
skip_space-le (c ∷ s) = ground (arith, skip_space-le s)

scan_digits-le : (s : List ℕ) (v : ℕ) → length (scan_digits s v).1 ≤ length s
unfolding scan_digits
scan_digits-le [] v = omega arith
scan_digits-le (c ∷ s) v = ground (arith, scan_digits-le s (v * 10 + (c - 48)))

scan_unsigned-le : (s t : List ℕ) → length t ≤ length s → length (scan_unsigned s t).end ≤ length s
scan_unsigned-le s [] h = omega arith
scan_unsigned-le s (c ∷ t) h = ground (arith, scan_digits-le (c ∷ t) 0)

strtoull-le : (s : List ℕ) → length (strtoull s).end ≤ length s
unfolding strtoull
strtoull-le [] = omega arith
strtoull-le (c ∷ s) =
    if_both (λ (r : Scanned). length r.end ≤ length (c ∷ s)) (c == b'+')
      (λ t. scan_unsigned-le (c ∷ s) s (omega arith))
      (λ f. scan_unsigned-le (c ∷ s) (c ∷ s) (omega arith))

-- The result has 64 bits, and is the largest such number on an error.
pub record IsClipped (p : Parsed) : Type 0 where
  pub bound : p.value ≤ ullong_max
  pub largest : p.success ≡ false → p.value ≡ ullong_max

finished-IsClipped : (quant : ℕ) (s : List ℕ) → quant ≤ ullong_max → IsClipped (finished quant s)
finished-IsClipped quant s h = record { bound = h; largest = λ e. absurd (ground (arith, e)) }

out_of_range-IsClipped : (e : Option (List ℕ)) → IsClipped (out_of_range e)
out_of_range-IsClipped e = record { bound = omega arith; largest = λ _. refl }

module _ (d : Doubles) where
  -- a round ends the loop, or leaves a shorter text and a sum of 64 bits
  abbrev Progress : ℕ → Round d → Type 0
  Progress n (return_ p) = IsClipped p
  Progress n (go_on quant range rest) = (length rest < n) × (quant ≤ ullong_max)

  added :
      (quant : ℕ) (a : Option ℕ) (r : ℕ)
      → quant ≤ ullong_max
      → add_amount d quant a ≡ some r
      → r ≤ ullong_max
  unfolding add_amount
  added quant none r h e = absurd (ground (arith, e))
  added quant (some num) r h e = ground arith

  with_unit-Progress :
      (quant : ℕ) (begin : List ℕ) (n : Number d) (s : List ℕ) (mult : Pidx → ℕ)
      (u : Option UnitDesc) (size : ℕ)
      → quant ≤ ullong_max
      → length s < size
      → Progress size (with_unit d quant begin n s mult u)
  unfolding with_unit
  with_unit-Progress quant begin n s mult none size h l =
      if_both (Progress size) (number_zero d n) (λ t. (l, h))
        (λ f. finished-IsClipped quant begin h)
  with_unit-Progress quant begin n s mult (some u) size h l =
      elim (Option-cases (add_amount d quant (amount d n (mult u.pidx)))) [
        | inl e ↦ rw (e, with_unit) (out_of_range-IsClipped (some begin))
        | inr (q, e) ↦
            rw (e, with_unit)
              (
                omega (arith, length-drop (length u.name) s),
                added quant (amount d n (mult u.pidx)) q h e,
              )
      ]

  module _ (shorter : (s : List ℕ) → length (d.strtod s).1 ≤ length s) where
    read_number-le :
        (range : Bool) (s : List ℕ) (r : Scanned)
        → length r.end ≤ length s
        → length (read_number d range s r).end ≤ length s
    unfolding read_number
    read_number-le range s r h =
        if_both (λ (n : Number d). length n.end ≤ length s) (get_or r.end 0 0 == b'.')
          (λ t. shorter s) (λ f. h)

    number_round-Progress :
        (test : List ℕ → List ℕ → Bool) (utab : List UnitDesc) (mult : Pidx → ℕ) (quant : ℕ)
        (range : Bool) (s : List ℕ)
        → quant ≤ ullong_max
        → Progress (length s) (number_round d test utab mult quant range s)
    unfolding number_round
    number_round-Progress test utab mult quant range s h =
        let r = strtoull s in
        let n = read_number d (range || r.range) s r in
        let short = read_number-le (range || r.range) s r (strtoull-le s) in
        if_both (Progress (length s)) (r.value == ullong_max && (range || r.range))
          (λ t. out_of_range-IsClipped none)
          (λ f.
            if_both (Progress (length s)) (length n.end == length s)
              (λ t. finished-IsClipped quant s h)
              (λ g.
                with_unit-Progress quant s n (skip_space n.end) mult
                  (find_unit test utab (skip_space n.end)) (length s) h
                  (ground (arith, skip_space-le n.end, short, g))))

    abbrev pub Ends : Option Parsed → Type 0
    Ends r = (p : Parsed) × (r ≡ some p) × IsClipped p

    -- what a loop makes of a round
    after_round :
        (k : ℕ) (f : ℕ → Bool → List ℕ → Option Parsed) (r : Round d)
        → Progress k r
        → ((q : ℕ) (range : Bool) (t : List ℕ) → length t < k → q ≤ ullong_max → Ends (f q range t))
        → Ends
            (elim r as (λ _. Option Parsed) [ return_ p ↦ some p | go_on q range t ↦ f q range t ])
    after_round k f (return_ p) h ends = (p, refl, h)
    after_round k f (go_on q range t) h ends = ends q range t h.0 h.1

    period_loop-Ends :
        (k : ℕ) (utab : List UnitDesc) (mult : Pidx → ℕ) (quant : ℕ) (range : Bool) (s : List ℕ)
        → length s < k
        → quant ≤ ullong_max
        → Ends (period_loop d k utab mult quant range s)
    unfolding period_loop
    period_loop-Ends zero utab mult quant range s l h = absurd (omega arith)
    period_loop-Ends (suc k) utab mult quant range [] l h =
        (finished quant [], refl, finished-IsClipped quant [] h)
    period_loop-Ends (suc k) utab mult quant range (c ∷ s) l h =
        let t = skip_space (c ∷ s) in
        if_both Ends (is_minus d t) (λ _. (finished quant t, refl, finished-IsClipped quant t h))
          (λ _.
            after_round (length t) (period_loop d k utab mult)
              (number_round d txt_matches utab mult quant range t)
              (number_round-Progress txt_matches utab mult quant range t h)
              (λ q r rest lt b.
                period_loop-Ends k utab mult q r rest (omega (arith, skip_space-le (c ∷ s))) b))

    iso_loop-Ends :
        (k : ℕ) (time : Bool) (mult : Pidx → ℕ) (quant : ℕ) (range : Bool) (s : List ℕ)
        → length s < k
        → quant ≤ ullong_max
        → Ends (iso_loop d k time mult quant range s)
    unfolding iso_loop
    iso_loop-Ends zero time mult quant range s l h = absurd (omega arith)
    iso_loop-Ends (suc k) time mult quant range [] l h =
        (finished quant [], refl, finished-IsClipped quant [] h)
    iso_loop-Ends (suc k) time mult quant range (c ∷ s) l h =
        let t = skip_space (c ∷ s) in
        let utab = if time then iso8601p_ttab else iso8601p_dtab in
        let stop : Ends (some (finished quant t)) =
          (finished quant t, refl, finished-IsClipped quant t h) in
        if_both Ends (is_minus d t) (λ _. stop)
          (λ _.
            if_both Ends (is_t d t)
              (λ at_t.
                if_both Ends time (λ _. stop)
                  (λ _.
                    iso_loop-Ends k true mult quant range (drop 1 t)
                      (after_t t at_t (omega (arith, skip_space-le (c ∷ s)))) h))
              (λ _.
                after_round (length t) (iso_loop d k time mult)
                  (number_round d iso_matches utab mult quant range t)
                  (number_round-Progress iso_matches utab mult quant range t h)
                  (λ q r rest lt b.
                    iso_loop-Ends k time mult q r rest (omega (arith, skip_space-le (c ∷ s))) b)))
      where
        after_t : (t : List ℕ) → is_t d t ≡ true → length t < suc k → length (drop 1 t) < k
        after_t [] at_t lt = absurd (ground (arith, at_t))
        after_t (x ∷ t) at_t lt = omega arith

    -- HX_strtoull_sec and HX_strtoull_nsec end on every string, for any doubles where strtod does not
    -- leave the string; what they return has 64 bits, and is ULLONG_MAX if errno is ERANGE.
    pub strtoull_by-Ends :
        (mult : Pidx → ℕ) (range : Bool) (s : List ℕ) → Ends (strtoull_by d mult range s)
    unfolding strtoull_by strtoull_period strtoull_iso8601p_2
    strtoull_by-Ends mult range s =
        if_both Ends (looks_like_iso8601 s)
          (λ _.
            iso_loop-Ends (suc (length (drop 1 s))) false mult 0 range (drop 1 s) (omega arith)
              (omega arith))
          (λ _.
            period_loop-Ends (suc (length s)) txtperiod_utab mult 0 range s (omega arith)
              (omega arith))
