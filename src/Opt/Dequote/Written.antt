-- ===== src/Opt/Dequote/Written.antt =====
-- A line of assignments with values that HX_quote_backslash of src/string.c has quoted, and what
-- HX_shconf_break of src/opt.c reads in it.
use libhx.Bytes.{codes, count_while}
use libhx.Opt.Dequote.Quoted.{prefixed, dequote_int-quote_backslash, step_ends}
use libhx.Opt.Dequote.Shconf.{AllPass, count_while-append, take-length, drop-length}
use libhx.Opt.Dequote.{
  byte_kind, dequote_int, is_alpha, is_gap, is_name, value_end, value_of, name_value, break_loop,
}
use libhx.Prelude.{
  ℕ, zero, suc, ◌<◌, ◌≡◌, refl, ap, ◌∙◌, subst, true, false, not, ◌&&◌, ◌||◌, some, List, [], ◌∷◌,
  ◌++◌, append-nil, length, drop, ◌==◌, arith,
}
use libhx.Quote.{quote_backslash}

-- the bytes that HXQUOTE_DQUOTE escapes
abbrev pub dquote_chars : List ℕ
dquote_chars = codes "\"\\"

-- a letter or an underscore, and then letters, digits and underscores
abbrev pub IsKey : List ℕ → Type 0
IsKey [] = ⊥
IsKey (c ∷ s) = ((is_alpha c || c == b'_') ≡ true) × AllPass is_name (c ∷ s)

-- A line of assignments NAME="VALUE"; with each value quoted by HX_quote_backslash.
pub data Writes : List (List ℕ × List ℕ) → List ℕ → Type 0 where
  no_pair : Writes [] []
  pair :
      {more : List (List ℕ × List ℕ)} {line : List ℕ} (name value quoted : List ℕ)
      → IsKey name
      → quote_backslash value dquote_chars ≡ some quoted
      → Writes more line
      → Writes ((name, value) ∷ more) (name ++ b'=' ∷ b'"' ∷ (quoted ++ b'"' ∷ b';' ∷ line))

equal-is_name : is_name b'=' ≡ false
equal-is_name = refl

key-name_value :
    (name val : List ℕ) → IsKey name → name_value (name ++ b'=' ∷ val) ≡ some (name, val)
unfolding name_value
key-name_value [] val h = absurd h
key-name_value (c ∷ s) val h =
    let no_comment : (c == b'#') ≡ false = ground (arith, h.0) in
    let letter : (not (is_alpha c) && not (c == b'_')) ≡ false = ground (arith, h.0) in
    let size = count_while-append is_name b'=' val equal-is_name (c ∷ s) h.1 in
    rw (no_comment, letter)
      (rw size (
        ap (λ k. value_of k (drop (length s) (s ++ b'=' ∷ val)))
          (ap (λ m. c ∷ m) (take-length s (b'=' ∷ val)))
        ∙ ap (value_of (c ∷ s)) (drop-length s (b'=' ∷ val))))

key-gap :
    (name rest : List ℕ)
    → IsKey name
    → drop (count_while is_gap (name ++ rest)) (name ++ rest) ≡ name ++ rest
unfolding count_while
key-gap [] rest h = absurd h
key-gap (c ∷ s) rest h = let solid : is_gap c ≡ false = ground (arith, h.0) in rw solid refl

value-read :
    (value quoted line : List ℕ)
    → quote_backslash value dquote_chars ≡ some quoted
    → dequote_int value_end 0 (b'"' ∷ (quoted ++ b'"' ∷ b';' ∷ line)) ≡ (value, some line)
unfolding byte_kind
value-read value quoted line q =
    let (quoted', q', r) =
      dequote_int-quote_backslash value_end b'"' dquote_chars (b';' ∷ line) refl refl refl value in
    let same : quoted' ≡ quoted = ground (arith, q, q') in
    subst (λ x. dequote_int value_end 0 (b'"' ∷ (x ++ b'"' ∷ b';' ∷ line)) ≡ (value, some line))
      same
      (r
        ∙ ap (prefixed value) (step_ends value_end 0 b';' line refl)
        ∙ ap (λ m. (m, some line)) (append-nil value))

-- HX_shconf_break on such a line calls the callback with exactly the names and values that were
-- written, in order, on any fuel above their number.
pub break_loop-Writes :
    (n : ℕ) (pairs : List (List ℕ × List ℕ)) (line : List ℕ)
    → Writes pairs line
    → length pairs < n
    → break_loop n line ≡ some pairs
unfolding break_loop name_value count_while
break_loop-Writes zero pairs line w h = absurd (omega arith)
break_loop-Writes (suc n) _ _ no_pair h = refl
break_loop-Writes (suc n) _ _ (pair {more} {line} name value quoted k q w) h =
    let val = b'"' ∷ (quoted ++ b'"' ∷ b';' ∷ line) in
    let found : name_value (drop (count_while is_gap (name ++ b'=' ∷ val)) (name ++ b'=' ∷ val))
        ≡ some (name, val) =
      ap name_value (key-gap name (b'=' ∷ val) k) ∙ key-name_value name val k in
    rw (found, break_loop)
      (rw (value-read value quoted line q) (
        rw (break_loop-Writes n more line w (omega arith))
          (ap (λ r. some ((name, r.0) ∷ more)) (value-read value quoted line q))))
