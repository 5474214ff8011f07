-- ===== src/Opt/Dequote/Quoted.antt =====
-- HXparse_dequote_int of src/opt.c: its output fits in place, and it reads back what
-- HX_quote_backslash of src/string.c has quoted.
use libhx.Bytes.{mem}
use libhx.Opt.Dequote.{ByteKind, opens, closes, escapes, ends, copies, byte_kind, put, dequote_int}
use libhx.Prelude.{
  ℕ, suc, ◌+◌, ◌≤◌, ◌≡◌, refl, ap, ◌∙◌, true, false, not, ◌||◌, inl, inr, Bool-cases, Option, none,
  some, List, [], ◌∷◌, ◌++◌, length, ◌==◌, arith,
}
use libhx.Quote.Loop.{escape_each, quote_backslash-escape_each}
use libhx.Quote.{quote_backslash, backslash_escape}

-- what the returned pointer leaves of the string, with the byte in front of it
abbrev pub left_over : Option (List ℕ) → ℕ
left_over none = 0
left_over (some s) = suc (length s)

abbrev pub InPlace : ℕ → List ℕ × Option (List ℕ) → Type 0
InPlace n r = length r.0 + left_over r.1 ≤ n

-- HXparse_dequote_int does not write behind its own reading position: what it writes and what it has
-- not read yet are together at most as long as the string, the terminating character included.
pub dequote_int-InPlace :
    (end : Option (List ℕ)) (quot : ℕ) (s : List ℕ) → InPlace (length s) (dequote_int end quot s)
unfolding dequote_int
dequote_int-InPlace end quot [] = omega arith
dequote_int-InPlace end quot (c ∷ []) = go (byte_kind end quot c)
  where
    go :
        (k : ByteKind)
        → InPlace 1 (elim k as (λ _. List ℕ × Option (List ℕ)) [
          | opens ↦ ([], none)
          | closes ↦ ([], none)
          | escapes ↦ ([], none)
          | ends ↦ ([], some [])
          | copies ↦ (c ∷ [], none)
        ])
    go opens = omega arith
    go closes = omega arith
    go escapes = omega arith
    go ends = omega arith
    go copies = omega arith
dequote_int-InPlace end quot (c ∷ d ∷ s) =
    go (byte_kind end quot c) (dequote_int-InPlace end c (d ∷ s))
      (dequote_int-InPlace end 0 (d ∷ s)) (dequote_int-InPlace end quot s)
      (dequote_int-InPlace end quot (d ∷ s))
  where
    go :
        (k : ByteKind)
        → InPlace (suc (length s)) (dequote_int end c (d ∷ s))
        → InPlace (suc (length s)) (dequote_int end 0 (d ∷ s))
        → InPlace (length s) (dequote_int end quot s)
        → InPlace (suc (length s)) (dequote_int end quot (d ∷ s))
        → InPlace (suc (suc (length s))) (elim k as (λ _. List ℕ × Option (List ℕ)) [
          | opens ↦ dequote_int end c (d ∷ s)
          | closes ↦ dequote_int end 0 (d ∷ s)
          | escapes ↦ put d (dequote_int end quot s)
          | ends ↦ ([], some (d ∷ s))
          | copies ↦ put c (dequote_int end quot (d ∷ s))
        ])
    go opens a b e f = omega (arith, a)
    go closes a b e f = omega (arith, b)
    go escapes a b e f = omega (arith, e)
    go ends a b e f = omega arith
    go copies a b e f = omega (arith, f)

-- text in front of what a run gives
abbrev pub prefixed : List ℕ → List ℕ × Option (List ℕ) → List ℕ × Option (List ℕ)
prefixed s r = (s ++ r.0, r.1)

module _ (end : Option (List ℕ)) (quot c : ℕ) where
  pub step_copies :
      (s : List ℕ)
      → byte_kind end quot c ≡ copies
      → dequote_int end quot (c ∷ s) ≡ put c (dequote_int end quot s)
  unfolding dequote_int
  step_copies [] h = rw (h, dequote_int) refl
  step_copies (d ∷ s) h = rw (h, dequote_int) refl

  step_closes :
      (s : List ℕ)
      → byte_kind end quot c ≡ closes
      → dequote_int end quot (c ∷ s) ≡ dequote_int end 0 s
  unfolding dequote_int
  step_closes [] h = rw (h, dequote_int) refl
  step_closes (d ∷ s) h = rw (h, dequote_int) refl

  step_opens :
      (s : List ℕ)
      → byte_kind end quot c ≡ opens
      → dequote_int end quot (c ∷ s) ≡ dequote_int end c s
  unfolding dequote_int
  step_opens [] h = rw (h, dequote_int) refl
  step_opens (d ∷ s) h = rw (h, dequote_int) refl

  step_escapes :
      (d : ℕ) (s : List ℕ)
      → byte_kind end quot c ≡ escapes
      → dequote_int end quot (c ∷ d ∷ s) ≡ put d (dequote_int end quot s)
  unfolding dequote_int
  step_escapes d s h = rw (h, dequote_int) refl

  pub step_ends :
      (s : List ℕ) → byte_kind end quot c ≡ ends → dequote_int end quot (c ∷ s) ≡ ([], some s)
  unfolding dequote_int
  step_ends [] h = rw (h, dequote_int) refl
  step_ends (d ∷ s) h = rw (h, dequote_int) refl

module _ (end : Option (List ℕ)) (q : ℕ) (qc : List ℕ) (tail : List ℕ)
    (is_quote : (q == b'"' || q == b'\'') ≡ true) (has_quote : mem q qc ≡ true)
    (has_backslash : mem b'\\' qc ≡ true) where
  abbrev escaped : List ℕ → List ℕ
  escaped s = escape_each (λ c. not (mem c qc)) backslash_escape s ++ q ∷ tail

  quote_closes : byte_kind end q q ≡ closes
  unfolding byte_kind
  quote_closes = ground (arith, is_quote)

  plain_copies : (c : ℕ) → mem c qc ≡ false → byte_kind end q c ≡ copies
  unfolding byte_kind
  plain_copies c h =
      let other : (c == q) ≡ false = ground (arith, has_quote, h) in
      let no_backslash : (c == b'\\') ≡ false = ground (arith, has_backslash, h) in
      let inside : (q == 0) ≡ false = ground (arith, is_quote) in
      rw (inside, other, no_backslash) refl

  backslash_escapes : byte_kind end q b'\\' ≡ escapes
  unfolding byte_kind
  backslash_escapes = ground (arith, is_quote)

  quote_opens : byte_kind end 0 q ≡ opens
  unfolding byte_kind
  quote_opens = rw is_quote refl

  dequote_inside :
      (s : List ℕ) → dequote_int end q (escaped s) ≡ prefixed s (dequote_int end 0 tail)
  unfolding escape_each
  dequote_inside [] = step_closes end q q tail quote_closes
  dequote_inside (c ∷ s) = elim (Bool-cases (mem c qc)) [
    | inl special ↦
        rw special
          (step_escapes end q b'\\' c (escaped s) backslash_escapes ∙ ap (put c) (dequote_inside s))
    | inr plain ↦
        rw plain
          (step_copies end q c (escaped s) (plain_copies c plain) ∙ ap (put c) (dequote_inside s))
  ]

  -- HXparse_dequote_int on a string that HX_quote_backslash has quoted, between two quotation marks:
  -- HX_quote_backslash succeeds, the string is read back, and what follows the second mark is read on.
  -- The mark and the backslash are among the bytes that were quoted.
  pub dequote_int-quote_backslash :
      (s : List ℕ)
      → (quoted : List ℕ) × (quote_backslash s qc ≡ some quoted)
        × (dequote_int end 0 (q ∷ (quoted ++ q ∷ tail)) ≡ prefixed s (dequote_int end 0 tail))
  dequote_int-quote_backslash s = (
    escape_each (λ c. not (mem c qc)) backslash_escape s,
    quote_backslash-escape_each s qc,
    step_opens end 0 q (escaped s) quote_opens ∙ dequote_inside s,
  )
