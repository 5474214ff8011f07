-- ===== src/Quote/Loop.antt =====
-- The quoting loops and the size loops of src/string.c against plain recursions over the bytes.
use libhx.Bytes.{count_while, find_suffix, mem, strspn, strcspn}
use libhx.Prelude.{
  ℕ, zero, suc, ◌+◌, ◌<◌, ◌≡◌, refl, ap, sym, subst, ◌∙◌, Bool, true, false, not, inl, inr,
  Bool-cases, Option, none, some, List, [], ◌∷◌, ◌++◌, append-nil, length, length-append, take,
  drop, if◌then◌else◌, arith,
}
use libhx.Quote.{size_loop, quote_loop, strchr2, quote_backslash, backslash_escape}

-- each byte kept or escaped
unfoldable pub escape_each : (ℕ → Bool) → (ℕ → List ℕ) → List ℕ → List ℕ
escape_each keep escape [] = []
escape_each keep escape (c ∷ s) =
    if keep c then c ∷ escape_each keep escape s else escape c ++ escape_each keep escape s

-- what the escaped bytes cost
unfoldable pub total_cost : (ℕ → Bool) → (ℕ → ℕ) → List ℕ → ℕ
total_cost keep cost [] = 0
total_cost keep cost (c ∷ s) = (if keep c then 0 else cost c) + total_cost keep cost s

module _ (keep : ℕ → Bool) (escape : ℕ → List ℕ) where
  -- the kept prefix is copied
  escape_each-take :
      (s : List ℕ)
      → let n = count_while keep s in
        escape_each keep escape s ≡ take n s ++ escape_each keep escape (drop n s)
  unfolding escape_each count_while
  escape_each-take [] = refl
  escape_each-take (c ∷ s) = elim (Bool-cases (keep c)) [
    | inl k ↦ rw k (ap (λ m. c ∷ m) (escape_each-take s))
    | inr n ↦ rw n (rw n)
  ]

  -- what follows the kept prefix is not kept, and shorter
  drop-keep :
      (s : List ℕ) (d : ℕ) (rest : List ℕ)
      → drop (count_while keep s) s ≡ d ∷ rest
      → (keep d ≡ false) × (length rest < length s)
  unfolding count_while
  drop-keep [] d rest h = cc
  drop-keep (c ∷ s) d rest h = ground (arith, drop-keep s d rest)

  pub quote_loop-escape_each :
      (fuel : ℕ) (s : List ℕ)
      → length s < fuel
      → quote_loop (count_while keep) escape fuel s ≡ some (escape_each keep escape s)
  unfolding quote_loop escape_each
  quote_loop-escape_each zero s h = absurd (omega arith)
  quote_loop-escape_each (suc fuel) [] h = refl
  quote_loop-escape_each (suc fuel) (c ∷ s) h =
      go (drop n (c ∷ s)) refl (quote_loop-escape_each fuel)
      ∙ ap some (sym (escape_each-take (c ∷ s)))
    where
      n : ℕ
      n = count_while keep (c ∷ s)

      go :
          (l : List ℕ)
          → drop n (c ∷ s) ≡ l
          → ((r : List ℕ)
              → length r < fuel
              → quote_loop (count_while keep) escape fuel r ≡ some (escape_each keep escape r))
          → elim l as (λ _. Option (List ℕ)) [
            | [] ↦ some (take n (c ∷ s))
            | d ∷ rest ↦ elim (quote_loop (count_while keep) escape fuel rest) [
              | none ↦ none
              | some out ↦ some (take n (c ∷ s) ++ (escape d ++ out))
            ]
          ]
            ≡ some (take n (c ∷ s) ++ escape_each keep escape l)
      go [] e ih = ap some (sym (append-nil _))
      go (d ∷ rest) e ih =
          let (unkept, shorter) = drop-keep (c ∷ s) d rest e in rw (ih rest (omega arith), unkept)

-- A suffix starts with the first byte that is not kept, and the bytes in front of it cost nothing.
abbrev Found : (ℕ → Bool) → (ℕ → ℕ) → List ℕ → Option (List ℕ) → Type 0
Found keep cost s none = total_cost keep cost s ≡ 0
Found keep cost s (some []) = ⊥
Found keep cost s (some (c ∷ r)) =
    (total_cost keep cost s ≡ cost c + total_cost keep cost r) × (length r < length s)

module _ (keep : ℕ → Bool) (cost : ℕ → ℕ) where
  Found-later :
      (c : ℕ) (s : List ℕ) (o : Option (List ℕ))
      → keep c ≡ true
      → Found keep cost s o
      → Found keep cost (c ∷ s) o
  unfolding total_cost
  Found-later c s none k h = rw k (omega (arith, h))
  Found-later c s (some []) k h = elim h [ ]
  Found-later c s (some (d ∷ r)) k (e, l) = (rw k (omega (arith, e)), omega arith)

  find_suffix-Found : (s : List ℕ) → Found keep cost s (find_suffix (λ c. not (keep c)) s)
  unfolding find_suffix total_cost
  find_suffix-Found [] = refl
  find_suffix-Found (c ∷ s) = elim (Bool-cases (keep c)) [
    | inl k ↦
        subst
          (λ b.
            Found keep cost (c ∷ s)
              (if not b then some (c ∷ s) else find_suffix (λ d. not (keep d)) s))
          (sym k) (Found-later c s _ k (find_suffix-Found s))
    | inr n ↦
        subst
          (λ b.
            Found keep cost (c ∷ s)
              (if not b then some (c ∷ s) else find_suffix (λ d. not (keep d)) s))
          (sym n) (rw n, omega arith)
  ]

  -- the loop over the bytes that are not kept adds their cost
  pub size_loop-total_cost :
      (find : List ℕ → Option (List ℕ)) (fuel : ℕ) (s : List ℕ) (n : ℕ)
      → ((t : List ℕ) → find t ≡ find_suffix (λ c. not (keep c)) t)
      → length s < fuel
      → size_loop find cost fuel s n ≡ some (n + total_cost keep cost s)
  unfolding size_loop
  size_loop-total_cost find zero s n same h = absurd (omega arith)
  size_loop-total_cost find (suc fuel) s n same h =
      go (find s) (subst (λ o. Found keep cost s o) (sym (same s)) (find_suffix-Found s))
        (λ t m. size_loop-total_cost find fuel t m same)
    where
      go :
          (o : Option (List ℕ))
          → Found keep cost s o
          → ((t : List ℕ) (m : ℕ)
              → length t < fuel
              → size_loop find cost fuel t m ≡ some (m + total_cost keep cost t))
          → elim o as (λ o. Option ℕ) [
            | none ↦ some n
            | some [] ↦ some n
            | some (c ∷ r) ↦ size_loop find cost fuel r (n + cost c)
          ]
            ≡ some (n + total_cost keep cost s)
      go none f ih = ap some (omega arith)
      go (some []) f ih = elim f [ ]
      go (some (c ∷ r)) (e, l) ih = ih r (n + cost c) (omega arith) ∙ ap some (omega arith)

-- the size that is computed is the length of what is written
pub length-escape_each :
    (keep : ℕ → Bool) (cost : ℕ → ℕ) (escape : ℕ → List ℕ) (s : List ℕ)
    → ((c : ℕ) → keep c ≡ false → length (escape c) ≡ suc (cost c))
    → length (escape_each keep escape s) ≡ length s + total_cost keep cost s
unfolding escape_each total_cost
length-escape_each keep cost escape [] sized = refl
length-escape_each keep cost escape (c ∷ s) sized = elim (Bool-cases (keep c)) [
  | inl k ↦ rw k (omega (arith, length-escape_each keep cost escape s sized))
  | inr n ↦ rw n (
      omega (
        arith,
        length-escape_each keep cost escape s sized,
        length-append (escape c) (escape_each keep escape s),
        sized c n,
      ))
]

-- HX_strchr2 finds the first byte outside of the set
pub strchr2-find_suffix :
    (accepted s : List ℕ) → strchr2 s accepted ≡ find_suffix (λ c. not (mem c accepted)) s
unfolding strchr2 strspn count_while find_suffix
strchr2-find_suffix accepted = by_drop
  where
    by_drop :
        (s : List ℕ)
        → elim (drop (count_while (λ c. mem c accepted) s) s) as (λ _. Option (List ℕ)) [
          | [] ↦ none
          | c ∷ r ↦ some (c ∷ r)
        ]
          ≡ find_suffix (λ c. not (mem c accepted)) s
    by_drop [] = refl
    by_drop (c ∷ s) = ground (arith, by_drop s)

-- nothing to escape
pub escape_each-none :
    (keep : ℕ → Bool) (escape : ℕ → List ℕ) (s : List ℕ)
    → find_suffix (λ c. not (keep c)) s ≡ none
    → escape_each keep escape s ≡ s
unfolding escape_each find_suffix
escape_each-none keep escape [] e = refl
escape_each-none keep escape (c ∷ s) e = ground (arith, escape_each-none keep escape s)

-- HX_quote_backslash puts a backslash before each byte of the set.
pub quote_backslash-escape_each :
    (src qc : List ℕ)
    → quote_backslash src qc ≡ some (escape_each (λ c. not (mem c qc)) backslash_escape src)
unfolding quote_backslash strcspn
quote_backslash-escape_each src qc =
    quote_loop-escape_each (λ c. not (mem c qc)) backslash_escape (length src + 1) src (omega arith)
