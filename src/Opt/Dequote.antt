-- ===== src/Opt/Dequote.antt =====
-- The parsers of quoted text in src/opt.c: HXparse_dequote_int, HXparse_dequote_fmt, and the lines of
-- configuration files, HX_shconf_break. A pointer is the suffix it points to, `none` is NULL.
pub mod Quoted
pub mod Fate
pub mod Shconf
pub mod Written
mod Tests
use libhx.Bytes.{codes, mem, count_while}
use libhx.Prelude.{
  ℕ, zero, suc, ◌+◌, ◌-◌, Bool, true, false, not, ◌&&◌, ◌||◌, Option, none, some, List, [], ◌∷◌,
  ◌++◌, if◌then◌else◌, length, take, drop, ltb, leb, ◌==◌,
}
use libhx.Text.{is_space, chomp}

-- `end != NULL && strchr(end, *i) != NULL`
abbrev pub ends_at : Option (List ℕ) → ℕ → Bool
ends_at none c = false
ends_at (some end) c = mem c end

-- What a byte means in the loop of HXparse_dequote_int.
pub data ByteKind : Type 0 where
  opens closes escapes ends copies : ByteKind

-- `quot` is 0 outside of quotation marks
unfoldable pub byte_kind : Option (List ℕ) → ℕ → ℕ → ByteKind
byte_kind end quot c =
    if quot == 0
    then (if c == b'"' || c == b'\''
        then opens
        else if c == b'\\'
        then escapes
        else if ends_at end c
        then ends
        else copies)
    else if c == quot
    then closes
    else if c == b'\\'
    then escapes
    else copies

abbrev pub put : ℕ → List ℕ × Option (List ℕ) → List ℕ × Option (List ℕ)
put c r = (c ∷ r.0, r.1)

-- `HXparse_dequote_int`: the string that it leaves at `o`, and the pointer it returns.
unfoldable pub dequote_int : Option (List ℕ) → ℕ → List ℕ → List ℕ × Option (List ℕ)
unfolding byte_kind
dequote_int end quot [] = ([], none)
dequote_int end quot (c ∷ []) = elim (byte_kind end quot c) [
  | opens ↦ ([], none)
  | closes ↦ ([], none)
  | escapes ↦ ([], none)
  | ends ↦ ([], some [])
  | copies ↦ (c ∷ [], none)
]
dequote_int end quot (c ∷ d ∷ s) = elim (byte_kind end quot c) [
  | opens ↦ dequote_int end c (d ∷ s)
  | closes ↦ dequote_int end 0 (d ∷ s)
  | escapes ↦ put d (dequote_int end quot s)
  | ends ↦ ([], some (d ∷ s))
  | copies ↦ put c (dequote_int end quot (d ∷ s))
]

-- What a byte means in the loop of HXparse_dequote_fmt.
pub data FmtKind : Type 0 where
  f_opens f_escapes f_nests f_ends f_unnests f_skips f_closes f_quoted_escape : FmtKind

unfoldable pub fmt_kind : Option (List ℕ) → ℕ → ℕ → ℕ → FmtKind
fmt_kind end quot level c =
    if quot == 0
    then (if c == b'"' || c == b'\''
        then f_opens
        else if c == b'\\'
        then f_escapes
        else if c == b'('
        then f_nests
        else if level == 0 && ends_at end c
        then f_ends
        else if c == b')' && ltb 0 level
        then f_unnests
        else f_skips)
    else if c == quot
    then f_closes
    else if c == b'\\'
    then f_quoted_escape
    else f_skips

-- The search loop of HXparse_dequote_fmt on fuel: where it stops. A backslash at the end of the string
-- is not passed.
unfoldable pub fmt_scan : ℕ → Option (List ℕ) → (quot level : ℕ) → List ℕ → Option (List ℕ)
unfolding fmt_kind
fmt_scan zero end quot level i = none
fmt_scan (suc n) end quot level [] = some []
fmt_scan (suc n) end quot level (c ∷ s) = elim (fmt_kind end quot level c) [
  | f_opens ↦ fmt_scan n end c level s
  | f_escapes ↦ elim s [
    | [] ↦ fmt_scan n end quot level (c ∷ [])
    | d ∷ t ↦ fmt_scan n end quot level t
  ]
  | f_nests ↦ fmt_scan n end quot (suc level) s
  | f_ends ↦ some (c ∷ s)
  | f_unnests ↦ fmt_scan n end quot (level - 1) s
  | f_skips ↦ fmt_scan n end quot level s
  | f_closes ↦ fmt_scan n end 0 level s
  | f_quoted_escape ↦ elim s [
    | [] ↦ fmt_scan n end quot level []
    | d ∷ t ↦ fmt_scan n end quot level t
  ]
]

-- `HXparse_dequote_fmt` on fuel: the text, NULL without memory, and `*pptr`.
unfoldable pub dequote_fmt : ℕ → Bool → List ℕ → Option (List ℕ) → Option (Option (List ℕ) × List ℕ)
unfolding fmt_scan dequote_int
dequote_fmt n memory s end = elim (fmt_scan n end 0 0 s) [
  | none ↦ none
  | some i ↦
      some (if memory then some (dequote_int none 0 (take (length s - length i) s)).0 else none, i)
]

-- `HX_isalpha` and `HX_isalnum`
abbrev pub is_alpha : ℕ → Bool
is_alpha c = leb 65 c && leb c 90 || leb 97 c && leb c 122

abbrev pub is_alnum : ℕ → Bool
is_alnum c = is_alpha c || leb 48 c && leb c 57

abbrev pub is_gap : ℕ → Bool
is_gap c = is_space c || c == b';'

abbrev pub is_name : ℕ → Bool
is_name c = is_alnum c || c == b'_'

-- the terminating characters of HX_shconf_break
abbrev pub value_end : Option (List ℕ)
value_end = some (codes "\t\n ;")

-- The sign behind a name, and the value behind the sign.
abbrev pub value_of : List ℕ → List ℕ → Option (List ℕ × List ℕ)
value_of key [] = none
value_of key (e ∷ val) = if not (e == b'=') then none else some (key, val)

-- A name with a value at `lp`; `none` is one of the early returns of HX_shconf_break.
unfoldable pub name_value : List ℕ → Option (List ℕ × List ℕ)
unfolding count_while
name_value [] = none
name_value (c ∷ s) =
    if c == b'#'
    then none
    else if not (is_alpha c) && not (c == b'_')
    then none
    else value_of (take (count_while is_name (c ∷ s)) (c ∷ s))
        (drop (count_while is_name (c ∷ s)) (c ∷ s))

-- The loop of HX_shconf_break on fuel: the calls of the callback.
unfoldable pub break_loop : ℕ → List ℕ → Option (List (List ℕ × List ℕ))
unfolding count_while dequote_int name_value
break_loop zero line = none
break_loop (suc n) line = elim (name_value (drop (count_while is_gap line) line)) [
  | none ↦ some []
  | some kv ↦
      let r = dequote_int value_end 0 kv.1 in
      elim r.1 [
        | none ↦ some ((kv.0, r.0) ∷ [])
        | some rest ↦ elim (break_loop n rest) [
          | none ↦ none
          | some more ↦ some ((kv.0, r.0) ∷ more)
        ]
      ]
]

-- `HX_shconf_break`
unfoldable pub shconf_break : List ℕ → Option (List (List ℕ × List ℕ))
unfolding break_loop chomp
shconf_break line = break_loop (suc (length (chomp line))) (chomp line)
