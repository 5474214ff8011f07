-- ===== src/Text.antt =====
-- Functions of src/string.c that cut, copy and trim strings: HX_strbchr, HX_basename,
-- HX_basename_exact, HX_dirname, HX_chomp, HX_strrtrim, HX_strltrim, HX_split_fixed, HX_strlcpy,
-- HX_strlcat, HX_strlncat, HX_substr_helper, HX_strmid, HX_strrcspn and HX_strrev. A pointer that walks
-- backwards from the end is the number of bytes up to and including it. A size_t wraps at 2 ^ 64;
-- `memory` says whether an allocation succeeds.
pub mod Trim
pub mod Bounds
pub mod Fields
pub mod Split
pub mod Basename
pub mod Tests
use libhx.Bytes.{codes, mem, count_while, find_suffix, strpbrk, strcspn}
use libhx.Prelude.{
  ℕ, zero, suc, ◌+◌, ◌-◌, ◌/◌, ◌%◌, ◌^◌, Bool, true, false, ◌&&◌, ◌||◌, Option, none, some, List,
  [], ◌∷◌, ◌++◌, length, take, drop, get_or, ◌==◌, leb, ltb, if◌then◌else◌,
}

abbrev pub is_slash : ℕ → Bool
is_slash c = c == b'/'

-- `HX_isspace`
abbrev pub is_space : ℕ → Bool
is_space c = c == 32 || (leb 9 c && leb c 13)

abbrev pub is_newline : ℕ → Bool
is_newline c = c == b'\n' || c == 13

-- `for (p = s + n - 1; p >= s && test(*p); --p);`, by the number of bytes that remain
unfoldable pub trim_end : (ℕ → Bool) → List ℕ → ℕ → ℕ
trim_end test s zero = zero
trim_end test s (suc n) = if test (get_or s n 0) then trim_end test s n else suc n

-- `HX_strbchr(s, s + n - 1, d)`, as an index
unfoldable pub strbchr : List ℕ → ℕ → ℕ → Option ℕ
strbchr s zero d = none
strbchr s (suc n) d = if get_or s n 0 == d then some n else strbchr s n d

-- `HX_basename`, as an index; `none` is the pointer before the string.
unfoldable pub basename : List ℕ → Option ℕ
unfolding trim_end strbchr
basename s =
    let n = trim_end is_slash s (length s) in
    if n == 0
    then (if length s == 0 then none else some (length s - 1))
    else elim (strbchr s n b'/') [ some i ↦ some (i + 1) | none ↦ some 0 ]

-- `HX_basename_exact`
unfoldable pub basename_exact : List ℕ → List ℕ
unfolding trim_end strbchr
basename_exact [] = codes "."
basename_exact (c ∷ s) =
    let n = trim_end is_slash (c ∷ s) (length (c ∷ s)) in
    if n == 0 then codes "/" else elim (strbchr (c ∷ s) n b'/') [
      | none ↦ take n (c ∷ s)
      | some i ↦ take (n - (i + 1)) (drop (i + 1) (c ∷ s))
    ]

-- `for (; p > s && *p == '/'; --p);` on an index
unfoldable pub back_over : List ℕ → ℕ → ℕ
back_over s zero = zero
back_over s (suc i) = if is_slash (get_or s (suc i) 0) then back_over s i else suc i

-- `HX_dirname`
unfoldable pub dirname : List ℕ → List ℕ
unfolding back_over strbchr
dirname [] = codes "."
dirname (c ∷ s) = elim (strbchr (c ∷ s) (back_over (c ∷ s) (length s) + 1) b'/') [
  | none ↦ codes "."
  | some stop ↦ take (back_over (c ∷ s) stop + 1) (c ∷ s)
]

-- `HX_chomp`
unfoldable pub chomp : List ℕ → List ℕ
unfolding trim_end
chomp s = take (trim_end is_newline s (length s)) s

-- `HX_strrtrim`: the count and the string
unfoldable pub strrtrim : List ℕ → ℕ × List ℕ
unfolding trim_end
strrtrim s = let n = trim_end is_space s (length s) in (length s - n, take n s)

-- `HX_strltrim`
unfoldable pub strltrim : List ℕ → ℕ × List ℕ
unfolding count_while
strltrim s = let diff = count_while is_space s in (diff, drop diff s)

-- `HX_strrcspn`
unfoldable pub strrcspn : List ℕ → List ℕ → ℕ
strrcspn s rej = last_in s (length s)
  where
    last_in : List ℕ → ℕ → ℕ
    last_in s zero = length s
    last_in s (suc n) = if mem (get_or s n 0) rej then n else last_in s n

-- `HX_split_fixed` with `max` fields at most, `max` at least 1; the fields
unfoldable pub split_fixed : List ℕ → List ℕ → ℕ → List (List ℕ)
unfolding strpbrk strcspn
split_fixed s delim zero = s ∷ []
split_fixed s delim (suc zero) = s ∷ []
split_fixed s delim (suc (suc max)) =
    let rest = split_fixed (drop (suc (strcspn s delim)) s) delim (suc max) in
    elim (strpbrk s delim) [ none ↦ s ∷ [] | some p ↦ take (strcspn s delim) s ∷ rest ]

-- `len - strlen(dest) - 1` in a size_t, taken for a ssize_t: whether it is positive
abbrev pub room : ℕ → ℕ → ℕ
room len used = (len + 2 ^ 64 - used - 1) % 2 ^ 64

abbrev pub is_positive : ℕ → Bool
is_positive x = ltb 0 x && ltb x (2 ^ 63)

-- `HX_strlcpy`, the string in `dest`
unfoldable pub strlcpy : List ℕ → List ℕ → ℕ → List ℕ
strlcpy dest src n = if n == 0 then dest else take (n - 1) src

-- `HX_strlcat`
unfoldable pub strlcat : List ℕ → List ℕ → ℕ → List ℕ
strlcat dest src len =
    let x = room len (length dest) in if is_positive x then dest ++ take x src else dest

-- `(ssize_t)slen < x`, for a positive `x`
abbrev pub slen_less : ℕ → ℕ → Bool
slen_less slen x = leb (2 ^ 63) slen || ltb slen x

-- `HX_strlncat`
unfoldable pub strlncat : List ℕ → List ℕ → ℕ → ℕ → List ℕ
strlncat dest src dlen slen =
    let x = room dlen (length dest) in
    if is_positive x then dest ++ take (if slen_less slen x then slen else x) src else dest

-- A `long`: itself, or the negative of a magnitude.
pub data Long : Type 0 where
  plus minus : ℕ → Long

-- the start and the end of `HX_substr_helper`, before the end is cut to the length
unfoldable pub substr_start : ℕ → Long → ℕ
substr_start z (plus n) = n
substr_start z (minus m) =
    if m == 2 ^ 63 then (z + 2 ^ 63) % 2 ^ 64 else if leb m z then z - m else z

unfoldable pub substr_end : ℕ → ℕ → Long → ℕ
substr_end z start (plus n) = if ltb start (2 ^ 64 - 1 - n) then start + n else 2 ^ 64 - 1
substr_end z start (minus m) =
    if m == 2 ^ 63 then (z + 2 ^ 63) % 2 ^ 64 else if leb m z then z - m else 0

-- `HX_substr_helper`: the start and the length
unfoldable pub substr_helper : ℕ → Long → Long → ℕ × ℕ
unfolding substr_start substr_end
substr_helper z offset len =
    let start = substr_start z offset in
    let end = substr_end z start len in
    let cut = if ltb z end then z else end in (start, if ltb start cut then cut - start else 0)

-- `HX_strmid`; `none` when malloc fails
unfoldable pub strmid : Bool → List ℕ → Long → Long → Option (List ℕ)
unfolding substr_helper
strmid memory s offset len =
    let (start, tocopy) = substr_helper (length s) offset len in
    if memory then some (take tocopy (drop start s)) else none

-- one assignment `s[i] = c`
unfoldable pub set_at : ℕ → ℕ → List ℕ → List ℕ
set_at i c [] = []
set_at zero c (d ∷ s) = c ∷ s
set_at (suc i) c (d ∷ s) = d ∷ set_at i c s

-- the loop of `HX_strrev` from `i` on, with `n` rounds left and `z` the last index
unfoldable pub swap_ends : ℕ → ℕ → ℕ → List ℕ → List ℕ
unfolding set_at
swap_ends z i zero s = s
swap_ends z i (suc n) s =
    swap_ends z (suc i) n (set_at (z - i) (get_or s i 0) (set_at i (get_or s (z - i) 0) s))

-- `HX_strrev` of a string that is not empty
unfoldable pub strrev : List ℕ → List ℕ
unfolding swap_ends
strrev s = swap_ends (length s - 1) 0 ((length s - 1) / 2) s
