-- ===== src/Text/Fields.antt =====
-- HX_split and HX_split_inplace of src/string.c, for a `max` that is not negative. strtok_r is the one of glibc, which leaves
-- a pointer to the end of the string in the last argument when there is nothing more. malloc is taken
-- to succeed.
pub mod Joined
use libhx.Bytes.{mem, strspn, strcspn}
use libhx.Text.{split_fixed}
use libhx.Prelude.{
  ℕ, zero, suc, ◌+◌, ◌-◌, Bool, true, false, ◌&&◌, ◌||◌, Option, none, some, List, [], ◌∷◌, length,
  take, drop, ltb, leb, ◌==◌, if◌then◌else◌,
}

-- The loop that counts the fields, a byte at a time, with `*cp` as it is.
unfoldable pub count_fields : List ℕ → ℕ → ℕ → List ℕ → ℕ
count_fields delim max cp [] = cp
count_fields delim max cp (c ∷ s) =
    let next = count_fields delim max (suc cp) s in
    let same = count_fields delim max cp s in
    if mem c delim then (if leb max (suc cp) && ltb 0 max then max else next) else same

-- the part of strtok_r behind the delimiters in front
unfoldable pub cut_token : List ℕ → List ℕ → Option (List ℕ) × List ℕ
unfolding strcspn
cut_token delim [] = (none, [])
cut_token delim (c ∷ s) =
    (some (take (strcspn (c ∷ s) delim) (c ∷ s)), drop (suc (strcspn (c ∷ s) delim)) (c ∷ s))

-- `strtok_r(nullptr, delim, &wp)`: the result, and `wp`
unfoldable pub strtok_r : List ℕ → List ℕ → Option (List ℕ) × List ℕ
unfolding strspn cut_token
strtok_r delim wp = cut_token delim (drop (strspn wp delim) wp)

-- The second loop of HX_split, with its rounds, and the last field.
unfoldable pub split_rounds : List ℕ → ℕ → List ℕ → List (Option (List ℕ))
unfolding strtok_r
split_rounds delim zero wp = some wp ∷ []
split_rounds delim (suc n) wp = (strtok_r delim wp).0 ∷ split_rounds delim n (strtok_r delim wp).1

-- `HX_split`: the vector in front of its NULL
unfoldable pub split : List ℕ → List ℕ → ℕ → List (Option (List ℕ))
unfolding count_fields split_rounds
split str delim max =
    let cp = count_fields delim max 1 str in
    let fields = if max == 0 || ltb cp max then cp else max in split_rounds delim (fields - 1) str

-- `HX_split_inplace`
unfoldable pub split_inplace : List ℕ → List ℕ → ℕ → List (List ℕ)
unfolding count_fields split_fixed
split_inplace s delim max = split_fixed s delim (count_fields delim max 1 s)
