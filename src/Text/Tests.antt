-- ===== src/Text/Tests.antt =====
-- Runs of the string functions of src/string.c, and the theorems at concrete strings.
use libhx.Bytes.{codes, count_while, find_suffix}
use libhx.Prelude.{
  ℕ, ◌+◌, ◌-◌, ◌^◌, ◌<◌, ◌≡◌, refl, true, some, none, List, [], ◌∷◌, ◌++◌, length, take, arith,
}
use libhx.Text.Bounds.{strlcat-lt}
use libhx.Text.Fields.Joined.{joined, split-joined}
use libhx.Text.Fields.{count_fields, cut_token, strtok_r, split_rounds, split, split_inplace}
use libhx.Text.Split.{IsSplit, split_fixed-Joined}
use libhx.Text.Trim.{IsTrimmed, trims-IsTrimmed}
use libhx.Text.{
  basename, basename_exact, dirname, chomp, strrtrim, strltrim, strrcspn, split_fixed, strlcpy,
  strlcat, strlncat, plus, minus, substr_helper, strmid, strrev, is_space, is_newline,
}

-- The pointer before the string.
run_basename_empty : basename [] ≡ none
unfolding basename
run_basename_empty = refl

run_basename : basename (codes "/usr/lib/") ≡ some 5
unfolding basename
run_basename = refl

run_basename_exact : basename_exact (codes "/usr/lib/") ≡ codes "lib"
unfolding basename_exact
run_basename_exact = refl

run_dirname : dirname (codes "/usr//lib/") ≡ codes "/usr"
unfolding dirname
run_dirname = refl

run_strrcspn : strrcspn (codes "a.b.c") (codes ".") ≡ 3
unfolding strrcspn
run_strrcspn = refl

run_strmid : strmid true (codes "substring") (minus 6) (minus 3) ≡ some (codes "str")
unfolding strmid
run_strmid = refl

-- A length of LONG_MIN stands for the end of the string, where any other length that far below the
-- start gives nothing.
run_strmid_min : substr_helper 9 (plus 0) (minus (2 ^ 63)) ≡ (0, 9)
unfolding substr_helper
run_strmid_min = refl

run_strmid_low : substr_helper 9 (plus 0) (minus 100) ≡ (0, 0)
unfolding substr_helper
run_strmid_low = refl

-- The middle pair of a string of even length stays as it is.
run_strrev_even : strrev (codes "abcd") ≡ codes "dbca"
unfolding strrev
run_strrev_even = refl

run_strrev_odd : strrev (codes "abcde") ≡ codes "edcba"
unfolding strrev
run_strrev_odd = refl

-- A limit of SIZE_MAX overruns a buffer of four bytes.
run_strlncat_max : strlncat [] (codes "abcdef") 4 (2 ^ 64 - 1) ≡ codes "abcdef"
unfolding strlncat
run_strlncat_max = refl

-- The empty field is not where it is in the string.
run_split_empty :
    split (codes "a::b") (codes ":") 0 ≡ some (codes "a") ∷ some (codes "b") ∷ some [] ∷ []
unfolding split count_fields split_rounds strtok_r cut_token count_while
run_split_empty = refl

run_split_null : split (codes "::") (codes ":") 0 ≡ none ∷ none ∷ some [] ∷ []
unfolding split count_fields split_rounds strtok_r cut_token count_while
run_split_null = refl

run_split_inplace : split_inplace (codes "a::b") (codes ":") 2 ≡ codes "a" ∷ codes ":b" ∷ []
unfolding split_inplace count_fields split_fixed find_suffix count_while
run_split_inplace = refl

abbrev line : List ℕ
line = codes "key: value\n\n"

trims-IsTrimmed_example :
    let (n, out) = strltrim line in
    IsTrimmed is_newline line (chomp line)
    × IsTrimmed is_space line ((strrtrim line).1)
    × ((strrtrim line).0 + length ((strrtrim line).1) ≡ length line)
    × (take n line ++ out ≡ line)
    × (count_while is_space (take n line) ≡ n)
    × (count_while is_space out ≡ 0)
trims-IsTrimmed_example = trims-IsTrimmed line

split_fixed-Joined_example :
    IsSplit (codes ":") 2 (split_fixed (codes "a:b:c") (codes ":") 2) (codes "a:b:c")
split_fixed-Joined_example = split_fixed-Joined (codes "a:b:c") (codes ":") 2

strlcat-lt_example :
    (length (strlcat line line 30) < 30)
    × (length (strlncat line line 30 5) < 30)
    × (length (strlcpy line line 30) < 30)
strlcat-lt_example = strlcat-lt line line 30 5 (omega arith) (omega arith) (omega arith)

split-joined_example :
    (split (joined b':' (codes "usr") (codes "bin" ∷ codes "X" ∷ [])) (codes ":;") 0
      ≡ some (codes "usr") ∷ some (codes "bin") ∷ some (codes "X") ∷ [])
    × (split_inplace (joined b':' (codes "usr") (codes "bin" ∷ codes "X" ∷ [])) (codes ":;") 0
        ≡ codes "usr" ∷ codes "bin" ∷ codes "X" ∷ [])
split-joined_example =
    split-joined (codes ":;") b':' (codes "usr") (codes "bin" ∷ codes "X" ∷ []) refl
      ((refl, (refl, (refl, tt))), ((refl, (refl, (refl, tt))), ((refl, tt), tt)))
