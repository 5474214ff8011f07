-- ===== src/Period/Scan.antt =====
-- What the number parsers of src/string.c need of <ctype.h>, strncasecmp and strtoull.
use libhx.Prelude.{
  ℕ, ◌+◌, ◌-◌, ◌*◌, ◌^◌, Bool, true, false, not, ◌&&◌, List, [], ◌∷◌, ltb, leb, ◌==◌, if◌then◌else◌,
}
use libhx.Text.{is_space}

abbrev pub ullong_max : ℕ
ullong_max = 2 ^ 64 - 1

-- `HX_isdigit`
abbrev pub is_digit : ℕ → Bool
is_digit c = leb 48 c && leb c 57

-- `tolower` and `HX_toupper`
abbrev pub tolower : ℕ → ℕ
tolower c = if leb 65 c && leb c 90 then c + 32 else c

abbrev pub toupper : ℕ → ℕ
toupper c = if leb 97 c && leb c 122 then c - 32 else c

-- the loop `while (HX_isspace(*s)) ++s;`
unfoldable pub skip_space : List ℕ → List ℕ
skip_space [] = []
skip_space (c ∷ s) = if is_space c then skip_space s else c ∷ s

-- `strncasecmp(s, name, strlen(name)) == 0` and `strncmp(s, name, strlen(name)) == 0`
abbrev pub starts_by : (ℕ → ℕ) → List ℕ → List ℕ → Bool
starts_by key s [] = true
starts_by key [] (d ∷ name) = false
starts_by key (c ∷ s) (d ∷ name) = key c == key d && starts_by key s name

-- The digits of a number in front of a string: `value` is the number before them, the result the number
-- with them and what is behind.
unfoldable pub scan_digits : List ℕ → ℕ → ℕ × List ℕ
scan_digits [] value = (value, [])
scan_digits (c ∷ s) value =
    if is_digit c then scan_digits s (value * 10 + (c - 48)) else (value, c ∷ s)

-- What strtoull has set: its result, `end`, and whether errno is ERANGE.
pub record Scanned : Type 0 where
  pub value : ℕ
  pub end : List ℕ
  pub range : Bool

-- The part of `strtoull(s, &end, 10)` behind white space and a sign; without digits `end` is `s`.
abbrev pub scan_unsigned : List ℕ → List ℕ → Scanned
scan_unsigned s [] = record { value = 0; end = s; range = false }
scan_unsigned s (c ∷ t) =
    let r = scan_digits (c ∷ t) 0 in
    if not (is_digit c)
    then record { value = 0; end = s; range = false }
    else if ltb ullong_max r.0
    then record { value = ullong_max; end = r.1; range = true }
    else record { value = r.0; end = r.1; range = false }

-- `strtoull(s, &end, 10)` on a string that starts with neither white space nor a minus sign
unfoldable pub strtoull : List ℕ → Scanned
strtoull [] = scan_unsigned [] []
strtoull (c ∷ s) = if c == b'+' then scan_unsigned (c ∷ s) s else scan_unsigned (c ∷ s) (c ∷ s)
