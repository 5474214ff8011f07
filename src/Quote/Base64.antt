-- ===== src/Quote/Base64.antt =====
-- HX_quote_base64 of src/string.c (RFC 4648).
use libhx.Bytes.{codes}
use libhx.Prelude.{ℕ, ◌+◌, ◌*◌, ◌/◌, ◌%◌, List, [], ◌∷◌, ◌++◌, get_or}

-- The table `a` with `a[62] = x1` and `a[63] = x2`.
abbrev pub alphabet : ℕ → ℕ → List ℕ
alphabet x1 x2 =
    codes "ABCDEFGHIJKLMNOPQRSTUVWXYZabcdefghijklmnopqrstuvwxyz0123456789" ++ x1 ∷ x2 ∷ []

-- The loop with the table `a`, three bytes a round. Shifts and masks are division and remainder;
-- `|` joins bits that do not overlap, and is a sum.
unfoldable pub base64_loop : List ℕ → List ℕ → List ℕ
base64_loop a (s0 ∷ s1 ∷ s2 ∷ s) =
    get_or a (s0 / 4 % 64) 0
    ∷ get_or a (s0 % 4 * 16 + s1 / 16 % 16) 0
    ∷ get_or a (s1 % 16 * 4 + s2 / 64 % 4) 0
    ∷ get_or a (s2 % 64) 0
    ∷ base64_loop a s
base64_loop a (s0 ∷ s1 ∷ []) =
    get_or a (s0 / 4 % 64) 0
    ∷ get_or a (s0 % 4 * 16 + s1 / 16 % 16) 0
    ∷ get_or a (s1 % 16 * 4) 0
    ∷ b'='
    ∷ []
base64_loop a (s0 ∷ []) = get_or a (s0 / 4 % 64) 0 ∷ get_or a (s0 % 4 * 16) 0 ∷ b'=' ∷ b'=' ∷ []
base64_loop a [] = []

unfoldable pub quote_base64 : List ℕ → ℕ → ℕ → List ℕ
unfolding base64_loop
quote_base64 s x1 x2 = base64_loop (alphabet x1 x2) s
