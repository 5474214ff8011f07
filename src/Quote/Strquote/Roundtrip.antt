-- ===== src/Quote/Strquote/Roundtrip.antt =====
-- HX_strquote of src/string.c as a whole: what it returns, read back.
use libhx.Bytes.{find_suffix, strspn, strcspn}
use mathlib.Core.Option.{some-injective}
use libhx.Prelude.{
  ℕ, ◌+◌, ◌≡◌, refl, ap, sym, ◌∙◌, Bool, true, false, not, Option, none, some, List, length, arith,
}
use libhx.Quote.{
  QuoteType, squote, dquote, html, ldapflt, ldaprdn, base64, uriencode, base64url, base64imap,
  other, invalid, quote_rules, rule_chars, quote_backslash, quote_html, quote_ldap, quote_urlenc,
  backslash_escape, hex_escape, html_escape, quoted_size,
}
use libhx.Quote.Base64.{alphabet, quote_base64}
use libhx.Quote.Loop.{escape_each, quote_loop-escape_each, escape_each-none, strchr2-find_suffix}
use libhx.Quote.Strquote.{
  Quoted, source, copied, written, quote_into, do_quote, quote_valid, strquote,
}
use libhx.Quote.Strquote.Base64.{is_alphabet, unbase64, unbase64-base64_loop}
use libhx.Quote.Strquote.Decode.{
  IsBytes, unhex, unbackslash, unhtml, unhex-hex_escape, unbackslash-backslash_escape,
  unhtml-html_escape,
}
use libhx.Quote.Strquote.Fits.{IsQuoting, Fits, quoted_size-Fits, find_suffix-strpbrk}

-- the decoder of each type
unfoldable pub unquote : QuoteType → List ℕ → List ℕ
unfolding unbackslash unhtml unhex unbase64
unquote squote s = unbackslash s
unquote dquote s = unbackslash s
unquote html s = unhtml s
unquote ldapflt s = unhex b'\\' s
unquote ldaprdn s = unhex b'\\' s
unquote uriencode s = unhex b'%' s
unquote base64 s = unbase64 (alphabet b'+' b'/') s
unquote base64url s = unbase64 (alphabet b'-' b'_') s
unquote base64imap s = unbase64 (alphabet b'+' b',') s
unquote other s = s
unquote invalid s = s

-- a decoder reads what a quoting function writes as the string that was quoted
abbrev pub Reads : QuoteType → List ℕ → Option (List ℕ) → Type 0
Reads type s o = (out : List ℕ) × (o ≡ some out) × (unquote type out ≡ s)

-- The quoting functions lose nothing: for every type with such a function and every string of
-- bytes, the function ends and the decoder of the type gives the string back.
pub quote_into-Reads :
    (s : List ℕ) (type : QuoteType) → IsQuoting type → IsBytes s → Reads type s (quote_into s type)
unfolding quote_into unquote quote_backslash quote_html quote_ldap quote_urlenc strcspn strspn
    rule_chars quote_rules quote_base64 is_alphabet
quote_into-Reads s squote q b = (
  _,
  quote_loop-escape_each _ _ (length s + 1) s (omega arith),
  unbackslash-backslash_escape _ s refl b,
)
quote_into-Reads s dquote q b = (
  _,
  quote_loop-escape_each _ _ (length s + 1) s (omega arith),
  unbackslash-backslash_escape _ s refl b,
)
quote_into-Reads s html q b =
    (_, quote_loop-escape_each _ _ (length s + 1) s (omega arith), unhtml-html_escape s b)
quote_into-Reads s ldapflt q b =
    (_, quote_loop-escape_each _ _ (length s + 1) s (omega arith), unhex-hex_escape _ _ s refl b)
quote_into-Reads s ldaprdn q b =
    (_, quote_loop-escape_each _ _ (length s + 1) s (omega arith), unhex-hex_escape _ _ s refl b)
quote_into-Reads s uriencode q b =
    (_, quote_loop-escape_each _ _ (length s + 1) s (omega arith), unhex-hex_escape _ _ s refl b)
quote_into-Reads s base64 q b = (_, refl, unbase64-base64_loop (alphabet _ _) refl s b)
quote_into-Reads s base64url q b = (_, refl, unbase64-base64_loop (alphabet _ _) refl s b)
quote_into-Reads s base64imap q b = (_, refl, unbase64-base64_loop (alphabet _ _) refl s b)
quote_into-Reads s other q b = elim q [ ]
quote_into-Reads s invalid q b = elim q [ ]

find-none :
    (o : Option (List ℕ))
    → elim o as (λ _. Bool) [ none ↦ false | some _ ↦ true ] ≡ false
    → o ≡ none
find-none none e = refl
find-none (some a) e = cc

-- A string in which nothing is escaped is read as itself.
plain :
    (decode : List ℕ → List ℕ) (keep : ℕ → Bool) (escape : ℕ → List ℕ) (s : List ℕ)
    → find_suffix (λ c. not (keep c)) s ≡ none
    → decode (escape_each keep escape s) ≡ s
    → decode s ≡ s
plain decode keep escape s e back = ap decode (sym (escape_each-none keep escape s e)) ∙ back

unquote-plain :
    (s : List ℕ) (type : QuoteType) → IsBytes s → do_quote s type ≡ false → unquote type s ≡ s
unfolding do_quote unquote quote_rules rule_chars
unquote-plain s squote b e =
    plain (unquote squote) _ backslash_escape s (sym (find_suffix-strpbrk _ s) ∙ find-none _ e)
      (unbackslash-backslash_escape _ s refl b)
unquote-plain s dquote b e =
    plain (unquote dquote) _ backslash_escape s (sym (find_suffix-strpbrk _ s) ∙ find-none _ e)
      (unbackslash-backslash_escape _ s refl b)
unquote-plain s html b e =
    plain (unquote html) _ html_escape s (sym (find_suffix-strpbrk _ s) ∙ find-none _ e)
      (unhtml-html_escape s b)
unquote-plain s ldapflt b e =
    plain (unquote ldapflt) _ (hex_escape b'\\') s (sym (find_suffix-strpbrk _ s) ∙ find-none _ e)
      (unhex-hex_escape b'\\' _ s refl b)
unquote-plain s ldaprdn b e =
    plain (unquote ldaprdn) _ (hex_escape b'\\') s (sym (find_suffix-strpbrk _ s) ∙ find-none _ e)
      (unhex-hex_escape b'\\' _ s refl b)
unquote-plain s uriencode b e =
    plain (unquote uriencode) _ (hex_escape b'%') s (sym (strchr2-find_suffix _ s) ∙ find-none _ e)
      (unhex-hex_escape b'%' _ s refl b)
unquote-plain s base64 b e = cc
unquote-plain s base64url b e = cc
unquote-plain s base64imap b e = cc
unquote-plain s other b e = refl
unquote-plain s invalid b e = refl

-- the string that a caller of HX_strquote finds behind the returned pointer
abbrev pub text_of : List ℕ → Quoted → Option (List ℕ)
text_of src source = some src
text_of src (copied s) = some s
text_of src (written size s) = some s
text_of src _ = none

-- the string is in a buffer of its size and one byte
abbrev pub IsSized : Quoted → Type 0
IsSized (written size s) = size ≡ length s + 1
IsSized _ = Unit

-- a result whose string has room in its buffer, and reads as `src`
abbrev pub Quotes : List ℕ → QuoteType → Option Quoted → Type 0
Quotes src type o = (r : Quoted) × (o ≡ some r) × IsSized r × Reads type src (text_of src r)

quote_valid-Quotes :
    (src : List ℕ) (type : QuoteType) (wants_free : Bool)
    → IsQuoting type
    → IsBytes src
    → Quotes src type (quote_valid src type wants_free true)
unfolding quote_valid
quote_valid-Quotes src type wants_free q b =
    go (do_quote src type) refl (quoted_size src type) (quote_into src type) wants_free
      (quoted_size-Fits src type q) (quote_into-Reads src type q b)
  where
    go :
        (quoting : Bool)
        → do_quote src type ≡ quoting
        → (size : Option ℕ) (into : Option (List ℕ)) (wants : Bool) → Fits into size
        → Reads type src into
        → Quotes src type (elim quoting as (λ _. Option Quoted) [
          | false ↦ elim wants [ true ↦ some source | false ↦ some (copied src) ]
          | true ↦ elim size [
            | none ↦ none
            | some n ↦ elim into [ none ↦ none | some out ↦ some (written (n + 1) out) ]
          ]
        ])
    go false e size into true f r = (source, refl, tt, (src, refl, unquote-plain src type b e))
    go false e size into false f r = (copied src, refl, tt, (src, refl, unquote-plain src type b e))
    go true e none into wants (t, w, sized) r = cc
    go true e (some n) none wants (t, w, sized) r = cc
    go true e (some n) (some out) wants (t, w, sized) (u, same, reads) = (
      written (n + 1) out,
      refl,
      ap (λ m. m + 1) (some-injective n (length t) sized)
          ∙ ap (λ l. length l + 1) (sym (some-injective out t w)),
      (out, refl, ap (unquote type) (some-injective out u same) ∙ reads),
    )

-- HX_strquote with memory, for every type with a quoting function and every string of bytes:
-- whether it returns `src`, a copy or a new buffer, it returns a string that the decoder of the type
-- reads as `src`; a new buffer has exactly one byte more than the string, for the NUL.
pub strquote-Quotes :
    (src : List ℕ) (type : QuoteType) (wants_free : Bool)
    → IsQuoting type
    → IsBytes src
    → Quotes src type (strquote src type wants_free true)
unfolding strquote
strquote-Quotes src squote w q b = quote_valid-Quotes src squote w q b
strquote-Quotes src dquote w q b = quote_valid-Quotes src dquote w q b
strquote-Quotes src html w q b = quote_valid-Quotes src html w q b
strquote-Quotes src ldapflt w q b = quote_valid-Quotes src ldapflt w q b
strquote-Quotes src ldaprdn w q b = quote_valid-Quotes src ldaprdn w q b
strquote-Quotes src uriencode w q b = quote_valid-Quotes src uriencode w q b
strquote-Quotes src base64 w q b = quote_valid-Quotes src base64 w q b
strquote-Quotes src base64url w q b = quote_valid-Quotes src base64url w q b
strquote-Quotes src base64imap w q b = quote_valid-Quotes src base64imap w q b
strquote-Quotes src other w q b = elim q [ ]
strquote-Quotes src invalid w q b = elim q [ ]
