-- ===== src/Format/Plain.antt =====
-- Names and arguments without quotation marks, as HXparse_dequote_fmt reads them for src/format.c.
use libhx.Bytes.{mem, count_while, strcspn}
use libhx.Format.{done, dequote, has_opener}
use libhx.Opt.Dequote.Quoted.{step_copies}
use libhx.Opt.Dequote.Shconf.{AllPass, take-length}
use libhx.Opt.Dequote.{
  f_ends, f_skips, fmt_kind, fmt_scan, copies, byte_kind, put, dequote_int, dequote_fmt,
}
use libhx.Prelude.{
  ℕ, zero, suc, ◌-◌, ◌<◌, ◌≡◌, refl, ap, ◌∙◌, Bool, true, false, not, ◌&&◌, none, some, List, [],
  ◌∷◌, ◌++◌, length, length-append, ◌==◌, arith,
}

-- a byte that is neither a delimiter nor special
abbrev pub plain : List ℕ → ℕ → Bool
plain delim c =
    not (mem c delim)
    && not (c == b'"')
    && not (c == b'\'')
    && not (c == b'\\')
    && not (c == b'(')
    && not (c == b'%')

plain-skips :
    (delim : List ℕ) (c : ℕ) → plain delim c ≡ true → fmt_kind (some delim) 0 0 c ≡ f_skips
unfolding fmt_kind
plain-skips delim c h = ground (arith, h)

plain-copies : (delim : List ℕ) (c : ℕ) → plain delim c ≡ true → byte_kind none 0 c ≡ copies
unfolding byte_kind
plain-copies delim c h = ground (arith, h)

scan-plain :
    (delim : List ℕ) (e : ℕ) (rest : List ℕ)
    → fmt_kind (some delim) 0 0 e ≡ f_ends
    → (n : ℕ) (s : List ℕ) → AllPass (plain delim) s
    → length s < n
    → fmt_scan n (some delim) 0 0 (s ++ e ∷ rest) ≡ some (e ∷ rest)
unfolding fmt_scan
scan-plain delim e rest stop zero s h l = absurd (omega arith)
scan-plain delim e rest stop (suc n) [] h l = rw (stop, fmt_scan) refl
scan-plain delim e rest stop (suc n) (c ∷ s) h l =
    rw (plain-skips delim c h.0, fmt_scan) (scan-plain delim e rest stop n s h.1 (omega arith))

int-plain : (delim s : List ℕ) → AllPass (plain delim) s → dequote_int none 0 s ≡ (s, none)
unfolding dequote_int
int-plain delim [] h = refl
int-plain delim (c ∷ s) h =
    step_copies none 0 c s (plain-copies delim c h.0) ∙ ap (put c) (int-plain delim s h.1)

-- A plain text in front of a delimiter is read up to it.
pub dequote-plain :
    (delim s : List ℕ) (e : ℕ) (rest : List ℕ)
    → fmt_kind (some delim) 0 0 e ≡ f_ends
    → AllPass (plain delim) s
    → dequote (s ++ e ∷ rest) delim ≡ done (s, e ∷ rest)
unfolding dequote dequote_fmt
dequote-plain delim s e rest stop h =
    let size = length-append s (e ∷ rest) in
    let found =
      scan-plain delim e rest stop (suc (length (s ++ e ∷ rest))) s h (omega (arith, size)) in
    let front : length (s ++ e ∷ rest) - length (e ∷ rest) ≡ length s = omega (arith, size) in
    rw (found, dequote) (rw front (rw (take-length s (e ∷ rest)) (rw (int-plain delim s h) refl)))

pub has_opener-plain : (delim s : List ℕ) → AllPass (plain delim) s → has_opener s ≡ false
unfolding has_opener
has_opener-plain delim [] h = refl
has_opener-plain delim (c ∷ s) h =
    let no_percent : (c == b'%') ≡ false = ground (arith, h.0) in
    rw no_percent (has_opener-plain delim s h.1)

pub strcspn-plain : (delim s : List ℕ) → AllPass (plain delim) s → strcspn s (b'%' ∷ []) ≡ length s
unfolding strcspn count_while
strcspn-plain delim [] h = refl
strcspn-plain delim (c ∷ s) h =
    let no_percent : (c == b'%') ≡ false = ground (arith, h.0) in
    rw no_percent (ap suc (strcspn-plain delim s h.1))
