-- ===== src/Quote.antt =====
-- The quoting functions of src/string.c: HX_quoted_size, HX_quote_backslash, HX_quote_html,
-- HX_quote_ldap, HX_quote_urlenc, HX_quote_base64 and HX_strquote. What a function writes to
-- `dest` is the list of bytes in front of the final NUL. Sizes are numbers without an upper bound:
-- at most six times the length of a string in memory.
pub mod Loop
pub mod Base64
pub mod Strquote
pub mod Tests
use libhx.Bytes.{codes, mem, count_while, strspn, strcspn, find_suffix, strpbrk}
use libhx.Prelude.{
  ℕ, zero, suc, ◌+◌, ◌-◌, ◌*◌, ◌/◌, ◌%◌, Bool, true, false, not, Option, none, some, List, [], ◌∷◌,
  ◌++◌, length, take, drop, get_or, ◌==◌, leb, if◌then◌else◌,
}

-- `HXQUOTE_*`; `other` is 0, for which there is no quoting, and `invalid` is `_HXQUOTE_MAX` or more.
pub data QuoteType : Type 0 where
  squote dquote html ldapflt ldaprdn base64 uriencode base64url base64imap other invalid : QuoteType

-- `selector` of `struct HX_quote_rule`.
pub data Selector : Type 0 where
  always accept reject : Selector

pub record Rule : Type 0 where
  pub selector : Selector
  pub chars : List ℕ

abbrev pub html_chars : List ℕ
html_chars = codes "\"&<>"

abbrev pub uri_chars : List ℕ
uri_chars = codes "-.0123456789ABCDEFGHIJKLMNOPQRSTUVWXYZ_abcdefghijklmnopqrstuvwxyz~"

-- `HX_quote_rules`; the entries that it leaves out are zero. `none` is an index past its end.
pub quote_rules : QuoteType → Option Rule
quote_rules squote = some (record { selector = reject; chars = codes "'\\" })
quote_rules dquote = some (record { selector = reject; chars = codes "\"\\" })
quote_rules html = some (record { selector = reject; chars = html_chars })
quote_rules ldapflt = some (record { selector = reject; chars = codes "\n*()\\" })
quote_rules ldaprdn = some (record { selector = reject; chars = codes "\n \"#+,;<=>\\" })
quote_rules uriencode = some (record { selector = accept; chars = uri_chars })
quote_rules base64 = some (record { selector = always; chars = [] })
quote_rules other = some (record { selector = always; chars = [] })
quote_rules base64url = none
quote_rules base64imap = none
quote_rules invalid = none

abbrev pub rule_chars : QuoteType → List ℕ
unfolding quote_rules
rule_chars t = elim (quote_rules t) [ none ↦ [] | some r ↦ r.chars ]

-- `HX_strchr2`
pub strchr2 : List ℕ → List ℕ → Option (List ℕ)
strchr2 s accepted = elim (drop (strspn s accepted) s) [ [] ↦ none | c ∷ r ↦ some (c ∷ r) ]

-- `while ((p = find(p)) != NULL) { n += cost; ++p; }`, where the cost may depend on `*p`; `none`
-- means that the fuel ran out.
pub size_loop : (List ℕ → Option (List ℕ)) → (ℕ → ℕ) → ℕ → List ℕ → ℕ → Option ℕ
size_loop find cost zero p n = none
size_loop find cost (suc fuel) p n = elim (find p) [
  | none ↦ some n
  | some [] ↦ some n
  | some (c ∷ r) ↦ size_loop find cost fuel r (n + cost c)
]

pub qsize_bsa : List ℕ → List ℕ → ℕ → Option ℕ
unfolding size_loop strchr2
qsize_bsa s qchars cost = size_loop (λ p. strchr2 p qchars) (λ _. cost) (length s + 1) s (length s)

pub qsize_bsr : List ℕ → List ℕ → ℕ → Option ℕ
unfolding size_loop
qsize_bsr s qchars cost = size_loop (λ p. strpbrk p qchars) (λ _. cost) (length s + 1) s (length s)

-- The `switch` of `HX_qsize_html`.
abbrev pub html_cost : ℕ → ℕ
html_cost c =
    if c == b'"'
    then 5
    else if c == b'&'
    then 4
    else if c == b'<'
    then 3
    else if c == b'>'
    then 3
    else 0

pub qsize_html : List ℕ → Option ℕ
unfolding size_loop
qsize_html s = size_loop (λ p. strpbrk p html_chars) html_cost (length s + 1) s (length s)

-- `HX_quoted_size`
pub quoted_size : List ℕ → QuoteType → Option ℕ
unfolding qsize_bsr qsize_bsa qsize_html
quoted_size s squote = qsize_bsr s (rule_chars squote) 1
quoted_size s dquote = qsize_bsr s (rule_chars dquote) 1
quoted_size s html = qsize_html s
quoted_size s ldapflt = qsize_bsr s (rule_chars ldapflt) 2
quoted_size s ldaprdn = qsize_bsr s (rule_chars ldaprdn) 2
quoted_size s base64 = some ((length s + 2) / 3 * 4)
quoted_size s base64url = some ((length s + 2) / 3 * 4)
quoted_size s base64imap = some ((length s + 2) / 3 * 4)
quoted_size s uriencode = qsize_bsa s (rule_chars uriencode) 2
quoted_size s other = some (length s)
quoted_size s invalid = some (length s)

-- The loop of the quoting functions: `span` is the length of the part that is copied as it is, and
-- `escape` what is written for the byte behind it; `none` means that the fuel ran out.
pub quote_loop : (List ℕ → ℕ) → (ℕ → List ℕ) → ℕ → List ℕ → Option (List ℕ)
quote_loop span escape zero src = none
quote_loop span escape (suc fuel) [] = some []
quote_loop span escape (suc fuel) (c ∷ s) =
    let len = span (c ∷ s) in
    let copied = take len (c ∷ s) in
    elim (drop len (c ∷ s)) [
      | [] ↦ some copied
      | d ∷ rest ↦ elim (quote_loop span escape fuel rest) [
        | none ↦ none
        | some out ↦ some (copied ++ (escape d ++ out))
      ]
    ]

-- `HX_hexenc`
abbrev pub hexenc : ℕ → ℕ
hexenc n = get_or (codes "0123456789ABCDEF") n 0

abbrev pub backslash_escape : ℕ → List ℕ
backslash_escape c = b'\\' ∷ c ∷ []

-- `HX_hexenc[(*src >> 4) & 0x0F]` and `HX_hexenc[*src & 0x0F]`, behind a marker.
abbrev pub hex_escape : ℕ → ℕ → List ℕ
hex_escape marker c = marker ∷ hexenc (c / 16 % 16) ∷ hexenc (c % 16) ∷ []

abbrev pub html_escape : ℕ → List ℕ
html_escape c =
    if c == b'"'
    then codes "&quot;"
    else if c == b'&'
    then codes "&amp;"
    else if c == b'<'
    then codes "&lt;"
    else if c == b'>'
    then codes "&gt;"
    else []

pub quote_backslash : List ℕ → List ℕ → Option (List ℕ)
unfolding quote_loop
quote_backslash src qc = quote_loop (λ s. strcspn s qc) backslash_escape (length src + 1) src

pub quote_html : List ℕ → Option (List ℕ)
unfolding quote_loop
quote_html src = quote_loop (λ s. strcspn s html_chars) html_escape (length src + 1) src

pub quote_ldap : List ℕ → List ℕ → Option (List ℕ)
unfolding quote_loop
quote_ldap src qc = quote_loop (λ s. strcspn s qc) (hex_escape b'\\') (length src + 1) src

pub quote_urlenc : List ℕ → Option (List ℕ)
unfolding quote_loop
quote_urlenc src = quote_loop (λ s. strspn s uri_chars) (hex_escape b'%') (length src + 1) src
