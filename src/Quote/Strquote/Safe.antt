-- ===== src/Quote/Strquote/Safe.antt =====
-- The characters that the quoting functions of src/string.c leave in their output.
use libhx.Bytes.{codes, mem, find_suffix, strpbrk, strcspn, strspn}
use libhx.Prelude.{
  all_below, all_below-at, ℕ, ◌+◌, ◌%◌, ◌/◌, ◌<◌, ◌≡◌, refl, ap, ◌∙◌, Bool, true, false, not, ◌||◌,
  inl, inr, Bool-cases, none, some, List, [], ◌∷◌, ◌++◌, length, ◌==◌, arith,
}
use libhx.Quote.{
  html, uriencode, html_chars, html_escape, uri_chars, hexenc, hex_escape, strchr2, quote_html,
  quote_urlenc,
}
use libhx.Quote.Loop.{escape_each, quote_loop-escape_each, strchr2-find_suffix}
use libhx.Quote.Strquote.{quote_into}

module _ (bad : ℕ → Bool) where
  find_suffix-append :
      (a b : List ℕ)
      → find_suffix bad a ≡ none
      → find_suffix bad b ≡ none
      → find_suffix bad (a ++ b) ≡ none
  unfolding find_suffix
  find_suffix-append [] b l r = r
  find_suffix-append (c ∷ a) b l r = ground (arith, find_suffix-append a b)

  find_suffix-escape_each :
      (keep : ℕ → Bool) (escape : ℕ → List ℕ) (s : List ℕ)
      → ((c : ℕ) → keep c ≡ true → bad c ≡ false)
      → ((c : ℕ) → keep c ≡ false → find_suffix bad (escape c) ≡ none)
      → find_suffix bad (escape_each keep escape s) ≡ none
  unfolding find_suffix escape_each
  find_suffix-escape_each keep escape [] kept escaped = refl
  find_suffix-escape_each keep escape (c ∷ s) kept escaped = elim (Bool-cases (keep c)) [
    | inl k ↦ rw (k, kept c k) (find_suffix-escape_each keep escape s kept escaped)
    | inr n ↦ rw n (
        find_suffix-append (escape c) _ (escaped c n)
          (find_suffix-escape_each keep escape s kept escaped))
  ]

kept_html : (c : ℕ) → not (mem c html_chars) ≡ true → mem c (codes "\"<>") ≡ false
kept_html c h = ground arith

escaped_html : (c : ℕ) → find_suffix (λ d. mem d (codes "\"<>")) (html_escape c) ≡ none
unfolding find_suffix
escaped_html c = ground arith

-- The output of HX_quote_html, on every string, has no quotation mark and no angle bracket.
pub quote_html-strpbrk :
    (s : List ℕ)
    → (out : List ℕ) × (quote_into s html ≡ some out) × (strpbrk out (codes "\"<>") ≡ none)
unfolding quote_into quote_html strcspn strpbrk
quote_html-strpbrk s = (
  _,
  quote_loop-escape_each _ _ (length s + 1) s (omega arith),
  find_suffix-escape_each _ _ html_escape s kept_html (λ c n. escaped_html c),
)

pub uri_output : List ℕ
uri_output = b'%' ∷ uri_chars

is_uri_digit : ℕ → Bool
unfolding uri_output
is_uri_digit n = mem (hexenc n) uri_output

uri_digit : (n : ℕ) → n < 16 → not (mem (hexenc n) uri_output) ≡ false
unfolding all_below is_uri_digit
uri_digit n l = ap not (all_below-at 16 is_uri_digit n refl l)

uri_percent : not (mem b'%' uri_output) ≡ false
unfolding uri_output
uri_percent = refl

escaped_uri : (c : ℕ) → find_suffix (λ d. not (mem d uri_output)) (hex_escape b'%' c) ≡ none
unfolding find_suffix
escaped_uri c =
    let high = uri_digit (c / 16 % 16) (omega arith) in
    let low = uri_digit (c % 16) (omega arith) in rw (uri_percent, high, low)

not_or : (p q : Bool) → q ≡ true → not (p || q) ≡ false
not_or p q h = ground arith

kept_uri : (c : ℕ) → mem c uri_chars ≡ true → not (mem c uri_output) ≡ false
unfolding uri_output
kept_uri c h = not_or (c == b'%') (mem c uri_chars) h

-- The output of HX_quote_urlenc, on every string, consists of unreserved characters and `%`.
pub quote_urlenc-strchr2 :
    (s : List ℕ)
    → (out : List ℕ) × (quote_into s uriencode ≡ some out) × (strchr2 out uri_output ≡ none)
unfolding quote_into quote_urlenc strspn
quote_urlenc-strchr2 s = (
  _,
  quote_loop-escape_each _ _ (length s + 1) s (omega arith),
  strchr2-find_suffix uri_output _
      ∙ find_suffix-escape_each _ _ (hex_escape b'%') s kept_uri (λ c n. escaped_uri c),
)
