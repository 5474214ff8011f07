-- ===== src/Quote/Strquote.antt =====
-- HX_strquote of src/string.c: the choice to quote, the buffer, and the switch over the types.
pub mod Fits
pub mod Decode
pub mod Base64
pub mod Roundtrip
pub mod Safe
use libhx.Bytes.{strpbrk}
use libhx.Prelude.{ℕ, ◌+◌, Bool, true, false, Option, none, some, List}
use libhx.Quote.{
  QuoteType, squote, dquote, html, ldapflt, ldaprdn, base64, uriencode, base64url, base64imap,
  other, invalid, quote_rules, rule_chars, always, accept, reject, strchr2, quoted_size,
  quote_backslash, quote_html, quote_ldap, quote_urlenc,
}
use libhx.Quote.Base64.{quote_base64}

-- The last `switch`, on the buffer. `none`: the `return NULL` behind it, or a loop's fuel ran out.
unfoldable pub quote_into : List ℕ → QuoteType → Option (List ℕ)
unfolding quote_backslash quote_html quote_ldap quote_urlenc
quote_into src squote = quote_backslash src (rule_chars squote)
quote_into src dquote = quote_backslash src (rule_chars dquote)
quote_into src html = quote_html src
quote_into src ldapflt = quote_ldap src (rule_chars ldapflt)
quote_into src ldaprdn = quote_ldap src (rule_chars ldaprdn)
quote_into src base64 = some (quote_base64 src b'+' b'/')
quote_into src base64url = some (quote_base64 src b'-' b'_')
quote_into src base64imap = some (quote_base64 src b'+' b',')
quote_into src uriencode = quote_urlenc src
quote_into src other = none
quote_into src invalid = none

-- `do_quote`
unfoldable pub do_quote : List ℕ → QuoteType → Bool
unfolding quote_rules strchr2
do_quote src type = elim (quote_rules type) [
  | none ↦ true
  | some r ↦ elim (r.selector) [
    | always ↦ true
    | reject ↦ elim (strpbrk src r.chars) [ none ↦ false | some _ ↦ true ]
    | accept ↦ elim (strchr2 src r.chars) [ none ↦ false | some _ ↦ true ]
  ]
]

-- What a call returns: NULL with EINVAL, `src` itself, a copy of `src` (NULL when strdup gets no
-- memory), NULL when malloc gives none, a new buffer of a size with its bytes, or NULL with a
-- buffer of that size left in `*free_me`.
pub data Quoted : Type 0 where
  einval source no_memory null : Quoted
  copied : List ℕ → Quoted
  written : ℕ → List ℕ → Quoted

-- HX_strquote behind the test of the type, for a type with a quoting function. `wants_free` is
-- `free_me != NULL`, and `memory` is whether the allocation gets memory. `none`: a loop's fuel ran
-- out.
unfoldable pub quote_valid : List ℕ → QuoteType → Bool → Bool → Option Quoted
unfolding quote_into do_quote quoted_size
quote_valid src type wants_free memory = elim (do_quote src type) [
  | false ↦ elim wants_free [
    | true ↦ some source
    | false ↦ elim memory [ true ↦ some (copied src) | false ↦ some no_memory ]
  ]
  | true ↦ elim memory [
    | false ↦ some no_memory
    | true ↦ elim (quoted_size src type) [
      | none ↦ none
      | some size ↦ elim (quote_into src type) [
        | none ↦ none
        | some out ↦ some (written (size + 1) out)
      ]
    ]
  ]
]

-- `HX_strquote`
unfoldable pub strquote : List ℕ → QuoteType → Bool → Bool → Option Quoted
unfolding quote_valid
strquote src invalid wants_free memory = some einval
strquote src other wants_free false = some no_memory
strquote src other wants_free true = some null
strquote src type wants_free memory = quote_valid src type wants_free memory
