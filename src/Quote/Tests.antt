-- ===== src/Quote/Tests.antt =====
-- Runs of the quoting functions of src/string.c, and the theorems at concrete strings.
use libhx.Bytes.{codes, strpbrk, find_suffix, strcspn, strspn, count_while}
use libhx.Prelude.{ℕ, ◌≡◌, refl, true, false, List, some, arith}
use libhx.Quote.Base64.{quote_base64}
use libhx.Quote.Strquote.Decode.{IsBytes}
use libhx.Quote.Strquote.Fits.{Fits, quoted_size-Fits}
use libhx.Quote.Strquote.Roundtrip.{Quotes, strquote-Quotes}
use libhx.Quote.Strquote.{strquote, quote_into, written, source, copied}
use libhx.Quote.{html, ldapflt, squote, uriencode, base64, quoted_size}

abbrev markup : List ℕ
markup = codes "a<\""

markup-IsBytes : IsBytes markup
markup-IsBytes = (omega arith, (omega arith, (omega arith, tt)))

run_html : strquote markup html false true ≡ some (written 12 (codes "a&lt;&quot;"))
unfolding strquote strpbrk find_suffix strcspn count_while
run_html = refl

run_ldap : strquote (codes "(x*)") ldapflt true true ≡ some (written 11 (codes "\\28x\\2A\\29"))
unfolding strquote strpbrk find_suffix strcspn count_while
run_ldap = refl

run_base64 : strquote (codes "Man+") base64 true true ≡ some (written 9 (codes "TWFuKw=="))
unfolding strquote quote_base64
run_base64 = refl

run_uriencode : strquote (codes "a b") uriencode true true ≡ some (written 6 (codes "a%20b"))
unfolding strquote strspn count_while
run_uriencode = refl

run_source : strquote (codes "plain") squote true true ≡ some source
unfolding strquote strpbrk find_suffix
run_source = refl

run_copied : strquote (codes "plain") squote false true ≡ some (copied (codes "plain"))
unfolding strquote strpbrk find_suffix
run_copied = refl

quoted_size-Fits_example : Fits (quote_into markup html) (quoted_size markup html)
quoted_size-Fits_example = quoted_size-Fits markup html tt

strquote-Quotes_example : Quotes markup html (strquote markup html true true)
strquote-Quotes_example = strquote-Quotes markup html true tt markup-IsBytes
