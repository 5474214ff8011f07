-- ===== src/Bytes.antt =====
-- C strings as lists of bytes without the NUL, and the functions of <string.h> that src/string.c
-- calls. A pointer into a string is the suffix that it points to; NULL is `none`.
use Prim.Native.Char.{code}
use Prim.Native.String.{String}
use libhx.Prelude.{
  ℕ, suc, Bool, false, not, ◌||◌, Option, none, some, List, [], ◌∷◌, ◌==◌, if◌then◌else◌,
}

-- A string literal.
abbrev pub codes : String → List ℕ
codes String.[] = []
codes (String.◌∷◌ c s) = code c ∷ codes s

-- `strchr(set, c) != NULL` for a byte `c` that is not NUL.
abbrev pub mem : ℕ → List ℕ → Bool
mem c [] = false
mem c (d ∷ set) = c == d || mem c set

-- The length of the longest prefix whose bytes pass the test.
unfoldable pub count_while : (ℕ → Bool) → List ℕ → ℕ
count_while p [] = 0
count_while p (c ∷ s) = if p c then suc (count_while p s) else 0

unfoldable pub strspn : List ℕ → List ℕ → ℕ
strspn s accept = count_while (λ c. mem c accept) s

unfoldable pub strcspn : List ℕ → List ℕ → ℕ
strcspn s reject = count_while (λ c. not (mem c reject)) s

-- The suffix from the first byte that passes the test.
unfoldable pub find_suffix : (ℕ → Bool) → List ℕ → Option (List ℕ)
find_suffix p [] = none
find_suffix p (c ∷ s) = if p c then some (c ∷ s) else find_suffix p s

unfoldable pub strpbrk : List ℕ → List ℕ → Option (List ℕ)
strpbrk s accept = find_suffix (λ c. mem c accept) s
