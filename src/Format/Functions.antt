-- ===== src/Format/Functions.antt =====
-- The built-in functions of src/format.c: HXformat2_echo, HXformat2_env, HXformat2_exec with
-- HXformat2_exec1, HXformat2_if, HXformat2_lower, HXformat2_shell, HXformat2_snl, HXformat2_substr and
-- HXformat2_upper.
use libhx.Bytes.{codes}
use libhx.Format.Entries.{
  Expansion, nexp, text, Func, f_echo, f_env, f_exec, f_if, f_lower, f_shell, f_snl, f_substr,
  f_upper, FormatMap, entry_ops,
}
use libhx.Map.{map_find}
use libhx.Period.{tolower, toupper}
use libhx.Prelude.{
  ℕ, ◌-◌, ◌^◌, ◌&&◌, Option, none, some, List, [], ◌∷◌, ◌++◌, length, take, drop, ◌==◌,
  if◌then◌else◌,
}
use libhx.Text.{Long, plus, chomp, substr_helper}

-- What the functions need from elsewhere: getenv, strtol with base 0, and a process, which
-- HXproc_run_async cannot start, or from which read gives some pieces of output.
pub record World : Type 0 where
  pub getenv : List ℕ → Option (List ℕ)
  pub strtol : List ℕ → Long × List ℕ
  pub run : List (List ℕ) → Option (List (List ℕ))

abbrev pub map_bytes : (ℕ → ℕ) → List ℕ → List ℕ
map_bytes f [] = []
map_bytes f (c ∷ s) = f c ∷ map_bytes f s

-- `*s != '\0'`, and the copy of a string or nothing
abbrev pub text_or_nexp : List ℕ → Expansion
text_or_nexp [] = nexp
text_or_nexp (c ∷ s) = text (c ∷ s)

abbrev pub echo_args : List (List ℕ) → List ℕ
echo_args [] = []
echo_args (a ∷ argv) = codes " [" ++ (a ++ (codes "]" ++ echo_args argv))

-- `HXformat2_if`
unfoldable pub format_if : List (List ℕ) → Expansion
format_if [] = nexp
format_if (a ∷ []) = nexp
format_if ([] ∷ b ∷ []) = nexp
format_if ([] ∷ b ∷ c ∷ argv) = text_or_nexp c
format_if ((x ∷ a) ∷ b ∷ argv) = text_or_nexp b

-- `HXformat2_snl`
unfoldable pub format_snl : List ℕ → Expansion
unfolding chomp
format_snl s = text (map_bytes (λ c. if c == b'\n' then 32 else c) (chomp s))

abbrev pub long_max : Long
long_max = plus (2 ^ 63 - 1)

-- the part of HXformat2_substr behind the numbers
abbrev pub cut_text : List ℕ → ℕ × ℕ → Expansion
cut_text s (start, tocopy) = if tocopy == 0 then nexp else text (take tocopy (drop start s))

-- `HXformat2_substr`
unfoldable pub format_substr : (List ℕ → Long × List ℕ) → List (List ℕ) → Expansion
unfolding substr_helper
format_substr strtol [] = nexp
format_substr strtol (s ∷ []) = nexp
format_substr strtol (s ∷ v ∷ []) =
    if length (strtol v).1 == 0
    then cut_text s (substr_helper (length s) (strtol v).0 long_max)
    else nexp
format_substr strtol (s ∷ v ∷ w ∷ argv) =
    if length (strtol v).1 == 0 && length (strtol w).1 == 0
    then cut_text s (substr_helper (length s) (strtol v).0 (strtol w).0)
    else nexp

-- the pieces of output, one behind the other
abbrev pub slurped : List (List ℕ) → List ℕ
slurped [] = []
slurped (piece ∷ pieces) = piece ++ slurped pieces

-- `HXformat2_exec1`: processes are not started without a variable of this name
unfoldable pub exec1 : World → FormatMap → List (List ℕ) → Expansion
unfolding entry_ops
exec1 w blk argv = elim (map_find entry_ops blk.vars (codes "/libhx/exec")) [
  | none ↦ nexp
  | some e ↦ elim (w.run argv) [ none ↦ nexp | some pieces ↦ text (slurped pieces) ]
]

-- `entry->proc(argc, argv, blk)`
unfoldable pub call_func : World → FormatMap → Func → List (List ℕ) → Expansion
unfolding exec1 format_if format_snl format_substr
call_func w blk f_echo argv = text (codes "<echo" ++ (echo_args argv ++ codes ">"))
call_func w blk f_env [] = nexp
call_func w blk f_env (a ∷ argv) = elim (w.getenv a) [ none ↦ nexp | some s ↦ text s ]
call_func w blk f_exec [] = nexp
call_func w blk f_exec (a ∷ argv) = exec1 w blk (a ∷ argv)
call_func w blk f_if argv = format_if argv
call_func w blk f_lower [] = nexp
call_func w blk f_lower (a ∷ argv) = text (map_bytes tolower a)
call_func w blk f_shell [] = nexp
call_func w blk f_shell (a ∷ argv) = exec1 w blk (codes "/bin/sh" ∷ codes "-c" ∷ a ∷ [])
call_func w blk f_snl [] = nexp
call_func w blk f_snl (a ∷ argv) = format_snl a
call_func w blk f_substr argv = format_substr w.strtol argv
call_func w blk f_upper [] = nexp
call_func w blk f_upper (a ∷ argv) = text (map_bytes toupper a)
