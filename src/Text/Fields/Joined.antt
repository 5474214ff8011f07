-- ===== src/Text/Fields/Joined.antt =====
-- What HX_split and HX_split_inplace of src/string.c makes of fields that are joined.
use libhx.Bytes.{mem, count_while, strspn, strcspn, strpbrk, find_suffix}
use libhx.Opt.Dequote.Shconf.{AllPass, count_while-append, take-length}
use libhx.Prelude.{
  ℕ, suc, ◌+◌, ◌-◌, ◌≡◌, refl, ap, sym, ◌∙◌, true, false, not, Option, some, List, [], ◌∷◌, ◌++◌,
  append-nil, length, drop, arith,
}
use libhx.Text.Fields.{count_fields, cut_token, strtok_r, split_rounds, split, split_inplace}
use libhx.Text.{split_fixed}

-- a field that is not empty and has no delimiter
abbrev pub IsField : List ℕ → List ℕ → Type 0
IsField delim [] = ⊥
IsField delim (c ∷ f) = AllPass (λ x. not (mem x delim)) (c ∷ f)

abbrev pub AreFields : List ℕ → List (List ℕ) → Type 0
AreFields delim [] = Unit
AreFields delim (f ∷ fs) = IsField delim f × AreFields delim fs

-- the fields with a byte between them
abbrev pub joined : ℕ → List ℕ → List (List ℕ) → List ℕ
joined d f [] = f
joined d f (g ∷ fs) = f ++ d ∷ joined d g fs

abbrev pub somes : List (List ℕ) → List (Option (List ℕ))
somes [] = []
somes (f ∷ fs) = some f ∷ somes fs

drop-whole : (f : List ℕ) (d : ℕ) (rest : List ℕ) → drop (suc (length f)) (f ++ d ∷ rest) ≡ rest
drop-whole [] d rest = refl
drop-whole (c ∷ f) d rest = drop-whole f d rest

module _ (delim : List ℕ) (d : ℕ) (delimits : mem d delim ≡ true) where
  cut_token-joined :
      (f rest : List ℕ) → IsField delim f → cut_token delim (f ++ d ∷ rest) ≡ (some f, rest)
  unfolding cut_token strcspn
  cut_token-joined [] rest h = absurd h
  cut_token-joined (c ∷ f) rest h =
      let stop : not (mem d delim) ≡ false = ap not delimits in
      rw (count_while-append (λ x. not (mem x delim)) d rest stop (c ∷ f) h) (
        ap (λ t. (some (c ∷ t), drop (suc (length f)) (f ++ d ∷ rest))) (take-length f (d ∷ rest))
        ∙ ap (λ t. (some (c ∷ f), t)) (drop-whole f d rest))

  strtok_r-joined :
      (f rest : List ℕ) → IsField delim f → strtok_r delim (f ++ d ∷ rest) ≡ (some f, rest)
  unfolding strtok_r strspn count_while
  strtok_r-joined [] rest h = absurd h
  strtok_r-joined (c ∷ f) rest h =
      let apart : mem c delim ≡ false = ground (arith, h.0) in
      rw apart (cut_token-joined (c ∷ f) rest h)

  split_rounds-joined :
      (f : List ℕ) (fs : List (List ℕ))
      → AreFields delim (f ∷ fs)
      → split_rounds delim (length fs) (joined d f fs) ≡ somes (f ∷ fs)
  unfolding split_rounds
  split_rounds-joined f [] h = refl
  split_rounds-joined f (g ∷ fs) h =
      rw (strtok_r-joined f (joined d g fs) h.0)
        (ap (λ r. some f ∷ r) (split_rounds-joined g fs h.1))

  count_fields-field :
      (cp : ℕ) (f rest : List ℕ)
      → AllPass (λ x. not (mem x delim)) f
      → count_fields delim 0 cp (f ++ rest) ≡ count_fields delim 0 cp rest
  unfolding count_fields
  count_fields-field cp [] rest h = refl
  count_fields-field cp (c ∷ f) rest h =
      let apart : mem c delim ≡ false = ground (arith, h.0) in
      rw apart (count_fields-field cp f rest h.1)

  IsField-AllPass : (f : List ℕ) → IsField delim f → AllPass (λ x. not (mem x delim)) f
  IsField-AllPass [] h = absurd h
  IsField-AllPass (c ∷ f) h = h

  count_fields-joined :
      (cp : ℕ) (f : List ℕ) (fs : List (List ℕ))
      → AreFields delim (f ∷ fs)
      → count_fields delim 0 cp (joined d f fs) ≡ cp + length fs
  unfolding count_fields
  count_fields-joined cp f [] h =
      ap (count_fields delim 0 cp) (sym (append-nil f))
      ∙ count_fields-field cp f [] (IsField-AllPass f h.0)
      ∙ omega arith
  count_fields-joined cp f (g ∷ fs) h =
      count_fields-field cp f (d ∷ joined d g fs) (IsField-AllPass f h.0)
      ∙ rw delimits (rw (count_fields-joined (suc cp) g fs h.1) (grind arith))

  strpbrk-joined :
      (f rest : List ℕ)
      → AllPass (λ x. not (mem x delim)) f
      → strpbrk (f ++ d ∷ rest) delim ≡ some (d ∷ rest)
  unfolding strpbrk find_suffix
  strpbrk-joined [] rest h = rw delimits refl
  strpbrk-joined (c ∷ f) rest h =
      let apart : mem c delim ≡ false = ground (arith, h.0) in rw apart (strpbrk-joined f rest h.1)

  split_fixed-joined :
      (f : List ℕ) (fs : List (List ℕ))
      → AreFields delim (f ∷ fs)
      → split_fixed (joined d f fs) delim (suc (length fs)) ≡ f ∷ fs
  unfolding split_fixed strcspn
  split_fixed-joined f [] h = refl
  split_fixed-joined f (g ∷ fs) h =
      let rest = joined d g fs in
      let pass = IsField-AllPass f h.0 in
      let stop : not (mem d delim) ≡ false = ap not delimits in
      rw (strpbrk-joined f rest pass, split_fixed)
        (rw (count_while-append (λ x. not (mem x delim)) d rest stop f pass) (
          rw (take-length f (d ∷ rest), drop-whole f d rest)
            (ap (λ r. f ∷ r) (split_fixed-joined g fs h.1))))

-- HX_split and HX_split_inplace without a `max` give back fields that are not empty and have no delimiter,
-- and that are joined by one of the delimiters.
pub split-joined :
    (delim : List ℕ) (d : ℕ) (f : List ℕ) (fs : List (List ℕ))
    → mem d delim ≡ true
    → AreFields delim (f ∷ fs)
    → (split (joined d f fs) delim 0 ≡ somes (f ∷ fs))
      × (split_inplace (joined d f fs) delim 0 ≡ f ∷ fs)
unfolding split split_inplace
split-joined delim d f fs delimits h =
    let count = count_fields-joined delim d delimits 1 f fs h in
    let less : 1 + length fs - 1 ≡ length fs = omega arith in
    let one_more : 1 + length fs ≡ suc (length fs) = omega arith in
    (
      rw count (rw less (split_rounds-joined delim d delimits f fs h)),
      rw (count, one_more) (split_fixed-joined delim d delimits f fs h),
    )
