-- ===== src/Opt/Dequote/Shconf.antt =====
-- HX_shconf_break of src/opt.c: it ends, and it reads back lines whose values HX_quote_backslash of
-- src/string.c has quoted.
use libhx.Bytes.{count_while}
use libhx.Opt.Dequote.Quoted.{InPlace, dequote_int-InPlace}
use libhx.Opt.Dequote.{
  dequote_int, is_alpha, is_gap, is_name, value_end, value_of, name_value, break_loop,
}
use libhx.Prelude.{
  ℕ, zero, suc, ◌≤◌, ◌<◌, ◌≡◌, refl, ap, Bool, true, false, not, ◌&&◌, Option, none, some, List, [],
  ◌∷◌, ◌++◌, length, length-drop, take, drop, if◌then◌else◌, ◌==◌, arith,
}

-- every byte passes the test
abbrev pub AllPass : (ℕ → Bool) → List ℕ → Type 0
AllPass p [] = Unit
AllPass p (c ∷ s) = (p c ≡ true) × AllPass p s

module _ (p : ℕ → Bool) (b : ℕ) (rest : List ℕ) (stop : p b ≡ false) where
  pub count_while-append : (a : List ℕ) → AllPass p a → count_while p (a ++ b ∷ rest) ≡ length a
  unfolding count_while
  count_while-append [] h = rw stop refl
  count_while-append (c ∷ a) h = rw (h.0, count_while-append a h.1) refl

pub take-length : (a b : List ℕ) → take (length a) (a ++ b) ≡ a
take-length [] b = refl
take-length (c ∷ a) b = ap (λ m. c ∷ m) (take-length a b)

pub drop-length : (a b : List ℕ) → drop (length a) (a ++ b) ≡ b
drop-length [] b = refl
drop-length (c ∷ a) b = drop-length a b

-- a value is shorter than the text from its name on
abbrev Shorter : ℕ → Option (List ℕ × List ℕ) → Type 0
Shorter n none = Unit
Shorter n (some kv) = length kv.1 < n

value_of-Shorter : (n : ℕ) (key rest : List ℕ) → length rest ≤ n → Shorter n (value_of key rest)
value_of-Shorter n key [] h = tt
value_of-Shorter n key (e ∷ val) h = go (not (e == b'='))
  where
    go : (b : Bool) → Shorter n (if b then none else some (key, val))
    go true = tt
    go false = omega arith

name_value-Shorter : (line : List ℕ) → Shorter (length line) (name_value line)
unfolding name_value
name_value-Shorter [] = tt
name_value-Shorter (c ∷ s) = go (c == b'#') (not (is_alpha c) && not (c == b'_'))
  where
    k : ℕ
    k = count_while is_name (c ∷ s)

    go :
        (a b : Bool)
        → Shorter (suc (length s)) (
            if a
            then none
            else if b
            then none
            else value_of
                (take (count_while is_name (c ∷ s)) (c ∷ s))
                (drop (count_while is_name (c ∷ s)) (c ∷ s)))
    go true b = tt
    go false true = tt
    go false false =
        value_of-Shorter (suc (length s)) _ (drop (count_while is_name (c ∷ s)) (c ∷ s))
          (omega (arith, length-drop (count_while is_name (c ∷ s)) (c ∷ s)))

-- HX_shconf_break ends on any line: each round of its loop reads a part of it.
pub break_loop-length :
    (n : ℕ) (line : List ℕ)
    → length line < n
    → (r : List (List ℕ × List ℕ)) × (break_loop n line ≡ some r)
unfolding break_loop
break_loop-length zero line h = absurd (omega arith)
break_loop-length (suc n) line h =
    named (name_value lp) (name_value-Shorter lp) (λ rest k. break_loop-length n rest k)
  where
    lp : List ℕ
    lp = drop (count_while is_gap line) line

    parsed :
        (kv : List ℕ × List ℕ) (r : List ℕ × Option (List ℕ))
        → InPlace (length kv.1) r
        → length kv.1 < suc (length line)
        → ((rest : List ℕ)
            → length rest < n
            → (x : List (List ℕ × List ℕ)) × (break_loop n rest ≡ some x))
        → (x : List (List ℕ × List ℕ)) × (elim r.1 as (λ _. Option (List (List ℕ × List ℕ))) [
          | none ↦ some ((kv.0, r.0) ∷ [])
          | some rest ↦ elim (break_loop n rest) [
            | none ↦ none
            | some more ↦ some ((kv.0, r.0) ∷ more)
          ]
        ]
            ≡ some x)
    parsed kv (out, none) i k again = (_, refl)
    parsed kv (out, some rest) i k again =
        let (x, e) = again rest (omega (arith, i, k, h)) in
        (
          (kv.0, out) ∷ x,
          ap
              (λ (o : Option (List (List ℕ × List ℕ))).
                elim o as (λ _. Option (List (List ℕ × List ℕ))) [
                  | none ↦ none
                  | some more ↦ some ((kv.0, out) ∷ more)
                ])
              e,
        )

    named :
        (o : Option (List ℕ × List ℕ))
        → Shorter (length lp) o
        → ((rest : List ℕ)
            → length rest < n
            → (x : List (List ℕ × List ℕ)) × (break_loop n rest ≡ some x))
        → (x : List (List ℕ × List ℕ)) × (elim o as (λ _. Option (List (List ℕ × List ℕ))) [
          | none ↦ some []
          | some kv ↦
              let r = dequote_int value_end 0 kv.1 in
              elim r.1 [
                | none ↦ some ((kv.0, r.0) ∷ [])
                | some rest ↦ elim (break_loop n rest) [
                  | none ↦ none
                  | some more ↦ some ((kv.0, r.0) ∷ more)
                ]
              ]
        ]
            ≡ some x)
    named none k again = ([], refl)
    named (some kv) k again =
        parsed kv (dequote_int value_end 0 kv.1) (dequote_int-InPlace value_end 0 kv.1)
          (omega (arith, k, length-drop (count_while is_gap line) line)) again
