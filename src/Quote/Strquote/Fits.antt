-- ===== src/Quote/Strquote/Fits.antt =====
-- The size that HX_strquote allocates (HX_quoted_size) against what the quoting functions write.
use libhx.Bytes.{mem, count_while, find_suffix, strpbrk, strspn, strcspn}
use libhx.Prelude.{
  ℕ, suc, ◌+◌, ◌*◌, ◌/◌, ◌≡◌, refl, ap, sym, ◌∙◌, Bool, false, not, Option, some, List, [], ◌∷◌,
  length, arith,
}
use libhx.Quote.{
  QuoteType, squote, dquote, html, ldapflt, ldaprdn, base64, uriencode, base64url, base64imap,
  other, invalid, quote_rules, rule_chars, html_chars, qsize_bsr, qsize_bsa, qsize_html,
  quoted_size, quote_backslash, quote_html, quote_ldap, quote_urlenc, quote_loop, backslash_escape,
  hex_escape, html_escape, html_cost, size_loop,
}
use libhx.Quote.Base64.{alphabet, base64_loop, quote_base64}
use libhx.Quote.Loop.{
  escape_each, quote_loop-escape_each, size_loop-total_cost, length-escape_each,
  strchr2-find_suffix,
}
use libhx.Quote.Strquote.{quote_into}

-- The types with a quoting function.
abbrev pub IsQuoting : QuoteType → Type 0
IsQuoting other = ⊥
IsQuoting invalid = ⊥
IsQuoting _ = Unit

-- The loops end, and what is written has the computed size.
abbrev pub Fits : Option (List ℕ) → Option ℕ → Type 0
Fits out size = (s : List ℕ) × (out ≡ some s) × (size ≡ some (length s))

pub find_suffix-strpbrk :
    (chars s : List ℕ) → strpbrk s chars ≡ find_suffix (λ c. not (not (mem c chars))) s
unfolding strpbrk find_suffix
find_suffix-strpbrk chars [] = refl
find_suffix-strpbrk chars (c ∷ s) = ground (arith, find_suffix-strpbrk chars s)

module _ (keep : ℕ → Bool) (cost : ℕ → ℕ) (escape : ℕ → List ℕ) where
  -- a quoting loop against a size loop with the same set
  loop-Fits :
      (find : List ℕ → Option (List ℕ)) (s : List ℕ)
      → ((t : List ℕ) → find t ≡ find_suffix (λ c. not (keep c)) t)
      → ((c : ℕ) → keep c ≡ false → length (escape c) ≡ suc (cost c))
      → Fits
          (quote_loop (count_while keep) escape (length s + 1) s)
          (size_loop find cost (length s + 1) s (length s))
  loop-Fits find s same sized = (
    escape_each keep escape s,
    quote_loop-escape_each keep escape (length s + 1) s (omega arith),
    size_loop-total_cost keep cost find (length s + 1) s (length s) same (omega arith)
        ∙ ap some (sym (length-escape_each keep cost escape s sized)),
  )

html_escape-length :
    (c : ℕ) → not (mem c html_chars) ≡ false → length (html_escape c) ≡ suc (html_cost c)
html_escape-length c h = ground arith

base64_loop-length : (a s : List ℕ) → length (base64_loop a s) ≡ (length s + 2) / 3 * 4
unfolding base64_loop
base64_loop-length a [] = refl
base64_loop-length a (s0 ∷ []) = refl
base64_loop-length a (s0 ∷ s1 ∷ []) = refl
base64_loop-length a (s0 ∷ s1 ∷ s2 ∷ s) = omega (arith, base64_loop-length a s)

-- For every type with a quoting function, on every string, the function ends and writes exactly as
-- many bytes as HX_quoted_size computes, so that the buffer of HX_strquote, which has one more for
-- the NUL, is just large enough.
pub quoted_size-Fits :
    (s : List ℕ) (type : QuoteType) → IsQuoting type → Fits (quote_into s type) (quoted_size s type)
unfolding quote_into quoted_size qsize_bsr qsize_bsa qsize_html quote_backslash quote_html
    quote_ldap quote_urlenc strcspn strspn rule_chars quote_rules quote_base64
quoted_size-Fits s squote q =
    loop-Fits _ (λ _. 1) backslash_escape _ s (find_suffix-strpbrk _) (λ c k. refl)
quoted_size-Fits s dquote q =
    loop-Fits _ (λ _. 1) backslash_escape _ s (find_suffix-strpbrk _) (λ c k. refl)
quoted_size-Fits s html q =
    loop-Fits _ html_cost html_escape _ s (find_suffix-strpbrk _) html_escape-length
quoted_size-Fits s ldapflt q =
    loop-Fits _ (λ _. 2) (hex_escape _) _ s (find_suffix-strpbrk _) (λ c k. refl)
quoted_size-Fits s ldaprdn q =
    loop-Fits _ (λ _. 2) (hex_escape _) _ s (find_suffix-strpbrk _) (λ c k. refl)
quoted_size-Fits s uriencode q =
    loop-Fits _ (λ _. 2) (hex_escape _) _ s (strchr2-find_suffix (rule_chars uriencode))
      (λ c k. refl)
quoted_size-Fits s base64 q = (_, refl, ap some (sym (base64_loop-length (alphabet b'+' b'/') s)))
quoted_size-Fits s base64url q =
    (_, refl, ap some (sym (base64_loop-length (alphabet b'-' b'_') s)))
quoted_size-Fits s base64imap q =
    (_, refl, ap some (sym (base64_loop-length (alphabet b'+' b',') s)))
quoted_size-Fits s other q = elim q [ ]
quoted_size-Fits s invalid q = elim q [ ]
