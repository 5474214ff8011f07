-- ===== src/Format/Dequoted.antt =====
-- What HXparse_dequote_fmt reads of a string and what is left of it, for src/format.c.
use libhx.Format.{Run, done, failed, overrun, hangs, no_fuel, ◌>>=◌, dequote}
use libhx.Opt.Dequote.Quoted.{dequote_int-InPlace}
use libhx.Opt.Dequote.{
  FmtKind, f_opens, f_escapes, f_nests, f_ends, f_unnests, f_skips, f_closes, f_quoted_escape,
  fmt_kind, fmt_scan, dequote_fmt,
}
use libhx.Prelude.{
  ℕ, zero, suc, ◌+◌, ◌-◌, ◌≤◌, ◌≡◌, refl, subst, Option, none, some, List, [], ◌∷◌, length,
  length-take, take, Option-cases, inl, inr, arith,
}

-- a pointer into a string of the given length
abbrev Within : ℕ → Option (List ℕ) → Type 0
Within k none = Unit
Within k (some i) = length i ≤ k

Within-le : (j k : ℕ) (r : Option (List ℕ)) → j ≤ k → Within j r → Within k r
Within-le j k none l h = tt
Within-le j k (some i) l h = omega arith

module _ (end : Option (List ℕ)) where
  round-Within :
      (n quot level c : ℕ) (s : List ℕ) (k : FmtKind)
      → fmt_kind end quot level c ≡ k
      → ((q l : ℕ) (t : List ℕ)
          → length t ≤ suc (length s)
          → Within (suc (length s)) (fmt_scan n end q l t))
      → Within (suc (length s)) (fmt_scan (suc n) end quot level (c ∷ s))
  unfolding fmt_scan
  round-Within n quot level c s f_opens h ih = rw (h, fmt_scan) (ih c level s (omega arith))
  round-Within n quot level c [] f_escapes h ih =
      rw (h, fmt_scan) (ih quot level (c ∷ []) (omega arith))
  round-Within n quot level c (d ∷ t) f_escapes h ih =
      rw (h, fmt_scan) (ih quot level t (omega arith))
  round-Within n quot level c s f_nests h ih =
      rw (h, fmt_scan) (ih quot (suc level) s (omega arith))
  round-Within n quot level c s f_ends h ih = rw (h, fmt_scan) (omega arith)
  round-Within n quot level c s f_unnests h ih =
      rw (h, fmt_scan) (ih quot (level - 1) s (omega arith))
  round-Within n quot level c s f_skips h ih = rw (h, fmt_scan) (ih quot level s (omega arith))
  round-Within n quot level c s f_closes h ih = rw (h, fmt_scan) (ih 0 level s (omega arith))
  round-Within n quot level c [] f_quoted_escape h ih =
      rw (h, fmt_scan) (ih quot level [] (omega arith))
  round-Within n quot level c (d ∷ t) f_quoted_escape h ih =
      rw (h, fmt_scan) (ih quot level t (omega arith))

  fmt_scan-Within :
      (n quot level : ℕ) (s : List ℕ) → Within (length s) (fmt_scan n end quot level s)
  unfolding fmt_scan
  fmt_scan-Within zero quot level s = tt
  fmt_scan-Within (suc n) quot level [] = omega arith
  fmt_scan-Within (suc n) quot level (c ∷ s) =
      round-Within n quot level c s (fmt_kind end quot level c) refl (λ q l t h.
        Within-le (length t) (suc (length s)) (fmt_scan n end q l t) h (fmt_scan-Within n q l t))

-- The run has not run out of fuel, and a result has the property.
abbrev pub Ensures {ℓ} : {A : Type ℓ} → (A → Type 0) → Run A → Type 0
Ensures P (done a) = P a
Ensures P failed = Unit
Ensures P overrun = Unit
Ensures P hangs = Unit
Ensures P no_fuel = ⊥

pub Ensures-bind {ℓ ℓ'} :
    {A : Type ℓ} {B : Type ℓ'} (P : A → Type 0) (Q : B → Type 0) (r : Run A) (f : A → Run B)
    → Ensures P r
    → ((a : A) → P a → Ensures Q (f a))
    → Ensures Q (r >>= f)
Ensures-bind P Q (done a) f h k = k a h
Ensures-bind P Q failed f h k = tt
Ensures-bind P Q overrun f h k = tt
Ensures-bind P Q hangs f h k = tt
Ensures-bind P Q no_fuel f h k = absurd h

-- what is read of a string and what is left of it
abbrev pub Splits : ℕ → List ℕ × List ℕ → Type 0
Splits k r = length r.0 + length r.1 ≤ k

pub dequote-Splits : (s end : List ℕ) → Ensures (Splits (length s)) (dequote s end)
unfolding dequote dequote_fmt
dequote-Splits s end = elim (Option-cases (fmt_scan (suc (length s)) (some end) 0 0 s)) [
  | inl e ↦ rw (e, dequote) tt
  | inr (i, e) ↦
      let within : Within (length s) (some i) =
        subst (Within (length s)) e (fmt_scan-Within (some end) (suc (length s)) 0 0 s) in
      rw (e, dequote)
        (omega (
          arith,
          within,
          dequote_int-InPlace none 0 (take (length s - length i) s),
          length-take (length s - length i) s,
        ))
]
