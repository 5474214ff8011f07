-- ===== src/Text/Basename.antt =====
-- HX_basename_exact of src/string.c: the last component of a path.
use mathlib.Core.Option.{some-injective}
use libhx.Bytes.{codes}
use libhx.Prelude.{
  ℕ, zero, suc, ◌+◌, ◌-◌, ◌<◌, ◌≡◌, ◌⊎◌, refl, sym, ◌∙◌, subst, Bool, true, false, inl, inr,
  Bool-cases, Option, none, some, List, [], ◌∷◌, length, length-take, take, drop, get_or,
  get_or-take, get_or-drop, ◌==◌, if◌then◌else◌, arith,
}
use libhx.Text.{trim_end, strbchr, is_slash, basename_exact}

strbchr-none : (s : List ℕ) (n d j : ℕ) → strbchr s n d ≡ none → j < n → (get_or s j 0 == d) ≡ false
unfolding strbchr
strbchr-none s zero d j e h = absurd (omega arith)
strbchr-none s (suc n) d j e h = elim (Bool-cases (j == n)) [
  | inl t ↦
      let at : j ≡ n = ground arith in
      subst (λ m. (get_or s m 0 == d) ≡ false) (sym at) (ground arith)
  | inr f ↦ let below : j < n = ground arith in strbchr-none s n d j (ground arith) below
]

strbchr-some :
    (s : List ℕ) (n d i j : ℕ)
    → strbchr s n d ≡ some i
    → i < j
    → j < n
    → (get_or s j 0 == d) ≡ false
unfolding strbchr
strbchr-some s zero d i j e l h = absurd (omega arith)
strbchr-some s (suc n) d i j e l h = elim (Bool-cases (get_or s n 0 == d)) [
  | inl t ↦ let at : n ≡ i = some-injective n i (ground arith) in absurd (omega arith)
  | inr f ↦ elim (Bool-cases (j == n)) [
    | inl t ↦ let at : j ≡ n = ground arith in subst (λ m. (get_or s m 0 == d) ≡ false) (sym at) f
    | inr g ↦ let below : j < n = ground arith in strbchr-some s n d i j (ground arith) l below
  ]
]

-- HX_basename_exact of any string is a slash, or has no slash in it.
pub basename_exact-is_slash :
    (s : List ℕ) (j : ℕ)
    → j < length (basename_exact s)
    → (basename_exact s ≡ codes "/") ⊎ (is_slash (get_or (basename_exact s) j 0) ≡ false)
unfolding basename_exact
basename_exact-is_slash [] zero h = inr refl
basename_exact-is_slash [] (suc j) h = absurd (omega arith)
basename_exact-is_slash (c ∷ s) j h = go (n == 0) (strbchr (c ∷ s) n b'/') refl h
  where
    n : ℕ
    n = trim_end is_slash (c ∷ s) (length (c ∷ s))

    go :
        (root : Bool) (o : Option ℕ)
        → strbchr (c ∷ s) n b'/' ≡ o
        → let out =
            (if root then codes "/" else elim o as (λ _. List ℕ) [
              | none ↦ take n (c ∷ s)
              | some i ↦ take (n - (i + 1)) (drop (i + 1) (c ∷ s))
            ]) in
          j < length out → (out ≡ codes "/") ⊎ (is_slash (get_or out j 0) ≡ false)
    go true o f h = inl refl
    go false none f h =
        let below : j < n = omega (arith, length-take n (c ∷ s)) in
        inr (
          subst (λ x. is_slash x ≡ false) (sym (get_or-take n j (c ∷ s) 0 below))
            (strbchr-none (c ∷ s) n b'/' j f below))
    go false (some i) f h =
        let tail = drop (i + 1) (c ∷ s) in
        let below : j < n - (i + 1) = omega (arith, length-take (n - (i + 1)) tail) in
        inr (
          subst (λ x. is_slash x ≡ false)
            (sym (get_or-take (n - (i + 1)) j tail 0 below ∙ get_or-drop (i + 1) j (c ∷ s) 0))
            (strbchr-some (c ∷ s) n b'/' i (i + 1 + j) f (omega arith) (omega arith)))
