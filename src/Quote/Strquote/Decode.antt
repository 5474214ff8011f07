-- ===== src/Quote/Strquote/Decode.antt =====
-- What HX_strquote of src/string.c writes, read back: decoders for each type of quoting.
use libhx.Bytes.{codes, mem}
use libhx.Prelude.{
  all_below, all_below-at, ℕ, zero, suc, ◌+◌, ◌*◌, ◌/◌, ◌%◌, ◌<◌, ◌≡◌, refl, ap, ◌∙◌, Bool, true,
  false, not, inl, inr, Bool-cases, List, [], ◌∷◌, ◌++◌, length, get_or, if◌then◌else◌, ◌==◌, arith,
}
use libhx.Quote.{hexenc, hex_escape, backslash_escape, html_escape, html_chars}
use libhx.Quote.Loop.{escape_each}

-- every byte below 256
abbrev pub IsBytes : List ℕ → Type 0
IsBytes [] = Unit
IsBytes (c ∷ s) = (c < 256) × IsBytes s

-- Behind a marker stands the code for a byte: `value` reads it and `width` measures it. The first
-- argument counts the bytes to skip.
unfoldable pub unescape : ℕ → (List ℕ → ℕ) → (List ℕ → ℕ) → ℕ → List ℕ → List ℕ
unescape marker value width skip [] = []
unescape marker value width (suc skip) (c ∷ s) = unescape marker value width skip s
unescape marker value width zero (c ∷ s) =
    if c == marker
    then value s ∷ unescape marker value width (width s) s
    else c ∷ unescape marker value width zero s

module _ (marker : ℕ) (value width : List ℕ → ℕ) where
  -- the code behind a marker is skipped
  unescape-skip :
      (e t : List ℕ)
      → unescape marker value width (length e) (e ++ t) ≡ unescape marker value width zero t
  unfolding unescape
  unescape-skip [] t = refl
  unescape-skip (c ∷ e) t = unescape-skip e t

  marker_refl : (marker == marker) ≡ true
  marker_refl = ground arith

  kept-marker :
      (keep : ℕ → Bool) (c : ℕ) → keep marker ≡ false → keep c ≡ true → (c == marker) ≡ false
  kept-marker keep c m k = elim (Bool-cases (c == marker)) [
    | inl e ↦ let same : c ≡ marker = ground arith in cc
    | inr n ↦ n
  ]

  -- escaping is undone when the marker is escaped and each code is read as its byte
  pub unescape-escape_each :
      (keep : ℕ → Bool) (code : ℕ → List ℕ)
      → keep marker ≡ false
      → ((c : ℕ) (t : List ℕ) → c < 256 → keep c ≡ false → value (code c ++ t) ≡ c)
      → ((c : ℕ) (t : List ℕ) → keep c ≡ false → width (code c ++ t) ≡ length (code c))
      → (s : List ℕ) → IsBytes s
      → unescape marker value width zero (escape_each keep (λ c. marker ∷ code c) s) ≡ s
  unfolding escape_each unescape
  unescape-escape_each keep code m v w [] b = refl
  unescape-escape_each keep code m v w (c ∷ s) (byte, b) = elim (Bool-cases (keep c)) [
    | inl k ↦
        rw (k, kept-marker keep c m k) (ap (λ t. c ∷ t) (unescape-escape_each keep code m v w s b))
    | inr n ↦
        let rest = escape_each keep (λ d. marker ∷ code d) s in
        rw (n, v c rest byte n, w c rest n, marker_refl, unescape-skip (code c) rest)
          (ap (λ t. c ∷ t) (unescape-escape_each keep code m v w s b))
  ]

-- position in a table
unfoldable pub index_of : List ℕ → ℕ → ℕ
index_of [] c = 0
index_of (d ∷ table) c = if c == d then 0 else suc (index_of table c)

unfoldable pub unbackslash : List ℕ → List ℕ
unfolding unescape
unbackslash = unescape b'\\' (λ s. get_or s 0 0) (λ _. 1) 0

-- two hexadecimal digits behind a marker
unfoldable pub unhex : ℕ → List ℕ → List ℕ
unfolding unescape index_of
unhex marker =
    unescape marker
      (λ s.
        index_of (codes "0123456789ABCDEF") (get_or s 0 0) * 16
        + index_of (codes "0123456789ABCDEF") (get_or s 1 0))
      (λ _. 2) 0

-- the entities of the four characters, told apart by their first letter
unfoldable pub unhtml : List ℕ → List ℕ
unfolding unescape
unhtml =
    unescape b'&'
      (λ s.
        let c = get_or s 0 0 in
        if c == b'q' then b'"' else if c == b'a' then b'&' else if c == b'l' then b'<' else b'>')
      (λ s. let c = get_or s 0 0 in if c == b'q' then 5 else if c == b'a' then 4 else 3) 0

hexval : ℕ → ℕ
unfolding index_of
hexval c = index_of (codes "0123456789ABCDEF") c

hexval-hexenc : (n : ℕ) → n < 16 → hexval (hexenc n) ≡ n
unfolding hexval index_of all_below
hexval-hexenc n l =
    let found = all_below-at 16 (λ i. hexval (hexenc i) == i) n refl l in ground arith

-- The digits of a byte are read back as the byte.
pub unhex-hex_escape :
    (marker : ℕ) (keep : ℕ → Bool) (s : List ℕ)
    → keep marker ≡ false
    → IsBytes s
    → unhex marker (escape_each keep (hex_escape marker) s) ≡ s
unfolding unhex hexval
unhex-hex_escape marker keep s m b =
    unescape-escape_each marker _ _ keep (λ c. hexenc (c / 16 % 16) ∷ hexenc (c % 16) ∷ []) m
      (λ c t l k.
        rw (hexval-hexenc (c / 16 % 16) (omega arith), hexval-hexenc (c % 16) (omega arith))
          (omega arith))
      (λ c t k. refl) s b

pub unbackslash-backslash_escape :
    (keep : ℕ → Bool) (s : List ℕ)
    → keep b'\\' ≡ false
    → IsBytes s
    → unbackslash (escape_each keep backslash_escape s) ≡ s
unfolding unbackslash
unbackslash-backslash_escape keep s m b =
    unescape-escape_each _ _ _ keep (λ c. c ∷ []) m (λ c t l k. refl) (λ c t k. refl) s b

-- an escape of the bytes that are not kept
escape_each-same :
    (keep : ℕ → Bool) (f g : ℕ → List ℕ) (s : List ℕ)
    → ((c : ℕ) → keep c ≡ false → f c ≡ g c)
    → escape_each keep f s ≡ escape_each keep g s
unfolding escape_each
escape_each-same keep f g [] same = refl
escape_each-same keep f g (c ∷ s) same = elim (Bool-cases (keep c)) [
  | inl k ↦ rw (k, escape_each-same keep f g s same)
  | inr n ↦ rw (n, same c n, escape_each-same keep f g s same)
]

html_entity : ℕ → List ℕ
html_entity c =
    if c == b'"'
    then codes "quot;"
    else if c == b'&'
    then codes "amp;"
    else if c == b'<'
    then codes "lt;"
    else codes "gt;"

html_entity-html_escape :
    (c : ℕ) → not (mem c html_chars) ≡ false → html_escape c ≡ b'&' ∷ html_entity c
unfolding html_entity
html_entity-html_escape c h = ground arith

pub unhtml-html_escape :
    (s : List ℕ) → IsBytes s → unhtml (escape_each (λ c. not (mem c html_chars)) html_escape s) ≡ s
unfolding unhtml html_entity
unhtml-html_escape s b =
    ap unhtml (escape_each-same _ html_escape (λ c. b'&' ∷ html_entity c) s html_entity-html_escape)
    ∙ unescape-escape_each _ _ _ _ html_entity refl (λ c t l k. ground arith)
        (λ c t k. ground arith) s b
