-- ===== src/Text/Trim.antt =====
-- The trimming, splitting and path functions of src/string.c against their results.
use libhx.Bytes.{count_while}
use libhx.Prelude.{
  ℕ, zero, suc, ◌+◌, ◌≤◌, ◌<◌, ◌≡◌, refl, ap, sym, ◌∙◌, subst, Bool, true, false, inl, inr,
  Bool-cases, List, [], ◌∷◌, ◌++◌, length, length-take, take, take-append-drop, drop, get_or, ◌==◌,
  arith,
}
use libhx.Text.{trim_end, is_space, is_newline, chomp, strrtrim, strltrim}

module _ (test : ℕ → Bool) (s : List ℕ) where
  trim_end-le : (n : ℕ) → trim_end test s n ≤ n
  unfolding trim_end
  trim_end-le zero = omega arith
  trim_end-le (suc n) = ground (arith, trim_end-le n)

  trim_end-drop : (n : ℕ) → test (get_or s n 0) ≡ true → trim_end test s (suc n) ≡ trim_end test s n
  unfolding trim_end
  trim_end-drop n t = ground arith

  trim_end-stop : (n : ℕ) → test (get_or s n 0) ≡ false → trim_end test s (suc n) ≡ suc n
  unfolding trim_end
  trim_end-stop n f = ground arith

  trim_end-cut : (n i : ℕ) → trim_end test s n ≤ i → i < n → test (get_or s i 0) ≡ true
  trim_end-cut zero i l h = absurd (omega arith)
  trim_end-cut (suc n) i l h = elim (Bool-cases (test (get_or s n 0))) [
    | inl t ↦ elim (Bool-cases (i == n)) [
      | inl e ↦ let at : i ≡ n = ground arith in subst (λ j. test (get_or s j 0) ≡ true) (sym at) t
      | inr d ↦
          let apart : i < n = ground arith in
          trim_end-cut n i (subst (λ m. m ≤ i) (trim_end-drop n t) l) apart
    ]
    | inr f ↦ absurd (omega (arith, trim_end-stop n f))
  ]

  trim_end-kept : (n m : ℕ) → trim_end test s n ≡ suc m → test (get_or s m 0) ≡ false
  trim_end-kept zero m e = absurd (omega (arith, trim_end-le 0))
  trim_end-kept (suc n) m e = elim (Bool-cases (test (get_or s n 0))) [
    | inl t ↦ trim_end-kept n m (sym (trim_end-drop n t) ∙ e)
    | inr f ↦
        let at : n ≡ m = omega (arith, trim_end-stop n f) in
        subst (λ j. test (get_or s j 0) ≡ false) at f
  ]

-- A string without the longest end that passes the test.
pub record IsTrimmed (test : ℕ → Bool) (s out : List ℕ) : Type 0 where
  pub prefix : out ≡ take (length out) s
  pub shorter : length out ≤ length s
  pub cut : (i : ℕ) → length out ≤ i → i < length s → test (get_or s i 0) ≡ true
  pub kept : (m : ℕ) → length out ≡ suc m → test (get_or s m 0) ≡ false

trim_end-IsTrimmed :
    (test : ℕ → Bool) (s : List ℕ) → IsTrimmed test s (take (trim_end test s (length s)) s)
trim_end-IsTrimmed test s =
    let short = trim_end-le test s (length s) in
    let size : length (take (trim_end test s (length s)) s) ≡ trim_end test s (length s) =
      omega (arith, length-take (trim_end test s (length s)) s) in
    record {
      prefix = ap (λ n. take n s) (sym size);
      shorter = omega arith;
      cut = λ i l h. trim_end-cut test s (length s) i (subst (λ n. n ≤ i) size l) h;
      kept = λ m e. trim_end-kept test s (length s) m (sym size ∙ e);
    }

chomp-IsTrimmed : (s : List ℕ) → IsTrimmed is_newline s (chomp s)
unfolding chomp
chomp-IsTrimmed s = trim_end-IsTrimmed is_newline s

strrtrim-IsTrimmed :
    (s : List ℕ)
    → IsTrimmed is_space s ((strrtrim s).1) × ((strrtrim s).0 + length ((strrtrim s).1) ≡ length s)
unfolding strrtrim
strrtrim-IsTrimmed s = (
  trim_end-IsTrimmed is_space s,
  omega (arith, trim_end-le is_space s (length s), length-take (trim_end is_space s (length s)) s),
)

count_while-drop : (p : ℕ → Bool) (s : List ℕ) → count_while p (drop (count_while p s) s) ≡ 0
unfolding count_while
count_while-drop p [] = refl
count_while-drop p (c ∷ s) = ground (arith, count_while-drop p s)

count_while-take :
    (p : ℕ → Bool) (s : List ℕ) → count_while p (take (count_while p s) s) ≡ count_while p s
unfolding count_while
count_while-take p [] = refl
count_while-take p (c ∷ s) = ground (arith, count_while-take p s)

-- HX_chomp cuts the longest end of line feeds and carriage returns, and nothing else. HX_strrtrim
-- does so for white space, and returns how many bytes that was. HX_strltrim cuts a prefix of white
-- space of the size that it returns, and what is left does not start with white space.
pub trims-IsTrimmed :
    (s : List ℕ)
    → let (n, out) = strltrim s in
      IsTrimmed is_newline s (chomp s)
      × IsTrimmed is_space s ((strrtrim s).1)
      × ((strrtrim s).0 + length ((strrtrim s).1) ≡ length s)
      × (take n s ++ out ≡ s)
      × (count_while is_space (take n s) ≡ n)
      × (count_while is_space out ≡ 0)
unfolding strltrim
trims-IsTrimmed s = (
  chomp-IsTrimmed s,
  (strrtrim-IsTrimmed s).0,
  (strrtrim-IsTrimmed s).1,
  take-append-drop (count_while is_space s) s,
  count_while-take is_space s,
  count_while-drop is_space s,
)
