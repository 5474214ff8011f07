-- ===== src/Text/Split.antt =====
-- HX_split_fixed and HX_basename_exact of src/string.c.
use libhx.Bytes.{mem, count_while, find_suffix, strpbrk, strcspn}
use libhx.Prelude.{
  ℕ, zero, suc, ◌≤◌, ◌≡◌, ◌⊎◌, refl, ap, true, inl, inr, Bool-cases, Option, none, some, List, [],
  ◌∷◌, ◌++◌, length, take, drop, arith,
}
use libhx.Text.{split_fixed}

-- The fields with one byte of `delim` between them are the string, and no field but the last has a
-- byte of `delim`.
abbrev pub Joined : List ℕ → List (List ℕ) → List ℕ → Type 0
Joined delim [] s = ⊥
Joined delim (f ∷ fs) s =
    ((fs ≡ []) × (s ≡ f))
    ⊎ ((d : ℕ) × (rest : List ℕ) × (s ≡ f ++ d ∷ rest)
        × (mem d delim ≡ true)
        × (strpbrk f delim ≡ none)
        × Joined delim fs rest)

-- the string around its first byte of a set
strpbrk-split :
    (s set : List ℕ) (p : List ℕ)
    → strpbrk s set ≡ some p
    → (d : ℕ) × (s ≡ take (strcspn s set) s ++ d ∷ drop (suc (strcspn s set)) s)
      × (mem d set ≡ true)
      × (strpbrk (take (strcspn s set) s) set ≡ none)
unfolding strpbrk strcspn find_suffix count_while
strpbrk-split [] set p e = cc
strpbrk-split (c ∷ s) set p e = elim (Bool-cases (mem c set)) [
  | inl t ↦ rw t (c, refl, t, refl)
  | inr f ↦
      let (d, split, m, free) = strpbrk-split s set p (ground arith) in
      rw f (d, ap (λ r. c ∷ r) split, m, rw f free)
]

-- the last field has no byte of `delim`
abbrev pub LastFree : List ℕ → List (List ℕ) → Type 0
LastFree delim [] = ⊥
LastFree delim (f ∷ []) = strpbrk f delim ≡ none
LastFree delim (f ∷ g ∷ fs) = LastFree delim (g ∷ fs)

-- at most this many fields; a `max` of 0 is like one of 1
abbrev pub limit : ℕ → ℕ
limit zero = 1
limit (suc max) = suc max

-- the fields of a string, as many as there are or as `max` admits
pub record IsSplit (delim : List ℕ) (max : ℕ) (fs : List (List ℕ)) (s : List ℕ) : Type 0 where
  pub joined : Joined delim fs s
  pub short : length fs ≤ limit max
  pub complete : (length fs ≡ limit max) ⊎ LastFree delim fs

-- HX_split_fixed, for any string, delimiters and `max`: the fields with one delimiter between them are
-- the string, no field but the last has a delimiter, there are at most `max` of them (one for a `max` of
-- 0), and the last field has a delimiter only if there are `max` of them.
pub split_fixed-Joined :
    (s delim : List ℕ) (max : ℕ) → IsSplit delim max (split_fixed s delim max) s
unfolding split_fixed
split_fixed-Joined s delim zero = record {
  joined = inl (refl, refl);
  short = omega arith;
  complete = inl refl;
}
split_fixed-Joined s delim (suc zero) = record {
  joined = inl (refl, refl);
  short = omega arith;
  complete = inl refl;
}
split_fixed-Joined s delim (suc (suc max)) =
    go (strpbrk s delim) refl (split_fixed-Joined (drop (suc (strcspn s delim)) s) delim (suc max))
  where
    rest : List (List ℕ)
    rest = split_fixed (drop (suc (strcspn s delim)) s) delim (suc max)

    fields : Option (List ℕ) → List (List ℕ)
    fields o = elim o [ none ↦ s ∷ [] | some p ↦ take (strcspn s delim) s ∷ rest ]

    -- the last of more fields
    behind :
        (f : List ℕ) (fs : List (List ℕ))
        → (length fs ≡ suc max) ⊎ LastFree delim fs
        → (length (f ∷ fs) ≡ suc (suc max)) ⊎ LastFree delim (f ∷ fs)
    behind f fs (inl e) = inl (ap suc e)
    behind f [] (inr h) = absurd h
    behind f (g ∷ fs) (inr h) = inr h

    go :
        (o : Option (List ℕ))
        → strpbrk s delim ≡ o
        → IsSplit delim (suc max) rest (drop (suc (strcspn s delim)) s)
        → IsSplit delim (suc (suc max)) (fields o) s
    go none e ih = record { joined = inl (refl, refl); short = omega arith; complete = inr e }
    go (some p) e ih =
        let (d, split, m, free) = strpbrk-split s delim p e in
        record {
          joined = inr (d, _, split, m, free, ih.joined);
          short = omega (arith, ih.short);
          complete = behind (take (strcspn s delim) s) rest ih.complete;
        }
