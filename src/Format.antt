-- ===== src/Format.antt =====
-- The placeholder expansion of src/format.c: HXformat_aprintf with HXformat2_xany, HXformat2_xcall and
-- HXformat2_xvar. Format/Functions.antt has the built-in functions, Format/Table.antt HXformat_init and
-- HXformat_add. A pointer into a string is the suffix it points to. malloc is taken to succeed.
pub mod Entries
pub mod Functions
pub mod Table
pub mod Dequoted
pub mod Fuel
pub mod Plain
pub mod Rounds
pub mod Template
pub mod Tests
unfoldable pub use libhx.Format.Entries.{entry_ops}
pub use libhx.Format.Entries.{
  Expansion, null, nexp, text, FmtEntry, string, mcstr, bool, byte, number, illegal, Func, f_echo,
  f_env, f_exec, f_if, f_lower, f_shell, f_snl, f_substr, f_upper, FuncEntry, FormatMap,
}
unfoldable pub use libhx.Format.Functions.{
  map_bytes, format_if, format_snl, format_substr, exec1, call_func,
}
pub use libhx.Format.Functions.{World}
use libhx.Bytes.{codes, mem, strcspn}
use libhx.Map.{HxMap, map_get}
use libhx.Ops.ByString.{strcmp}
use libhx.Ops.{MapOps}
use libhx.Hash.{djb2}
use libhx.Opt.Dequote.{dequote_fmt}
use libhx.Period.{tolower, toupper, skip_space}
use libhx.Prelude.{
  ℕ, zero, suc, ◌+◌, ◌-◌, ◌^◌, Bool, true, false, not, ◌&&◌, ◌||◌, Option, none, some, List, [],
  ◌∷◌, ◌++◌, length, take, drop, get_or, ltb, ◌==◌, if◌then◌else◌,
}
use libhx.Text.{Long, plus, minus, is_space, chomp, substr_helper}

-- `HXformat2_xvar`; a byte 0 is no text, so that NULL is returned
unfoldable pub xvar : FmtEntry → Expansion
xvar (string none) = null
xvar (string (some s)) = text s
xvar (mcstr s) = text s
xvar (bool b) = text (if b then codes "true" else codes "false")
xvar (byte c) = if c == 0 then null else text (c ∷ [])
xvar (number s) = text s
xvar illegal = nexp

-- How a run ends: with a result, with a negative errno, by reading behind the NUL of a string, in the
-- search of HXparse_dequote_fmt that does not end, or without fuel.
pub data Run {ℓ} (A : Type ℓ) : Type ℓ where
  done : A → Run A
  failed overrun hangs no_fuel : Run A

infixl 5 ◌>>=◌
abbrev pub ◌>>=◌ {ℓ κ} : {A : Type ℓ} {B : Type κ} → Run A → (A → Run B) → Run B
done a >>= f = f a
failed >>= f = failed
overrun >>= f = overrun
hangs >>= f = hangs
no_fuel >>= f = no_fuel

-- `HXparse_dequote_fmt(s, end, &ptr)`, with a round for each byte and one for the end
unfoldable pub dequote : List ℕ → List ℕ → Run (List ℕ × List ℕ)
unfolding dequote_fmt
dequote s end = elim (dequote_fmt (suc (length s)) true s (some end)) [
  | none ↦ hangs
  | some r ↦ elim r.0 [ none ↦ failed | some name ↦ done (name, r.1) ]
]

-- `strstr(s, "%(") != NULL`
unfoldable pub has_opener : List ℕ → Bool
has_opener [] = false
has_opener (c ∷ s) = (c == b'%' && get_or s 0 0 == b'(') || has_opener s

-- a pointer that is advanced, over the NUL if it is at the end
abbrev pub step_over : List ℕ → Run (List ℕ)
step_over [] = overrun
step_over (c ∷ s) = done s

-- the delimiters of a function's arguments
abbrev pub delim_of : Option FuncEntry → List ℕ
delim_of none = codes ")"
delim_of (some e) = e.delim

abbrev pub call_entry : World → FormatMap → Option FuncEntry → List (List ℕ) → Expansion
call_entry w blk none argv = nexp
call_entry w blk (some e) argv = call_func w blk e.proc argv

-- what HXformat2_xany makes of the expanded name of a variable
unfoldable pub lookup_var : FormatMap → List ℕ → Expansion
unfolding entry_ops xvar
lookup_var blk [] = null
lookup_var blk (c ∷ name) = elim (map_get entry_ops blk.vars (c ∷ name)) [
  | none ↦ nexp
  | some e ↦ xvar e
]

-- the delimiters of a name
abbrev pub name_end : List ℕ
name_end = b')' ∷ 32 ∷ 9 ∷ 10 ∷ 12 ∷ 11 ∷ 13 ∷ []

-- a failure of an inner HXformat_aprintf is NULL
abbrev pub or_null : Run (List ℕ) → (List ℕ → Expansion) → Run Expansion
or_null (done s) f = done (f s)
or_null failed f = done null
or_null overrun f = overrun
or_null hangs f = hangs
or_null no_fuel f = no_fuel

module _ (w : World) (blk : FormatMap) where
  -- The loop of `HXformat2_xcall` over the arguments on fuel: the arguments behind those in `dq`, and
  -- `*pptr`. `expand` is the inner HXformat_aprintf.
  unfoldable pub args_loop :
      (List ℕ → Run (List ℕ))
      → ℕ
      → (delim : List ℕ) → List ℕ
      → List (List ℕ)
      → Run (List (List ℕ) × List ℕ)
  unfolding dequote skip_space has_opener
  args_loop expand zero delim s dq = no_fuel
  args_loop expand (suc n) delim [] dq = done (dq, [])
  args_loop expand (suc n) delim (c ∷ s) dq = dequote (skip_space (c ∷ s)) delim >>= λ r.
      (if has_opener r.0 then expand r.0 else done r.0) >>= λ ret. elim r.1 [
        | [] ↦ done (dq ++ ret ∷ [], [])
        | e ∷ t ↦
            let more = args_loop expand n delim t (dq ++ ret ∷ []) in
            if e == b')' then done (dq ++ ret ∷ [], t) else more
      ]

  -- the arguments of a call
  unfoldable pub gather : (List ℕ → Run (List ℕ)) → List ℕ → List ℕ → Run (List (List ℕ) × List ℕ)
  unfolding args_loop
  gather expand delim s =
      if get_or s 0 0 == b')'
      then done ([], drop 1 s)
      else args_loop expand (suc (length s)) delim s []

  -- `HXformat2_xcall` with the function that was found, if any: the expansion and `*pptr`
  unfoldable pub xcall_entry :
      (List ℕ → Run (List ℕ)) → Option FuncEntry → List ℕ → Run (Expansion × List ℕ)
  unfolding gather call_func
  xcall_entry expand entry s = elim (gather expand (delim_of entry) s) [
    | done r ↦ done (call_entry w blk entry r.0, r.1)
    | failed ↦ done (null, s)
    | overrun ↦ overrun
    | hangs ↦ hangs
    | no_fuel ↦ no_fuel
  ]

  -- `HXformat2_xcall`
  unfoldable pub xcall : (List ℕ → Run (List ℕ)) → List ℕ → List ℕ → Run (Expansion × List ℕ)
  unfolding xcall_entry
  xcall expand name s = xcall_entry expand (map_get entry_ops blk.funcs name) s

  -- what follows a name: the end, a closing parenthesis or white space
  unfoldable pub behind_name : (List ℕ → Run (List ℕ)) → List ℕ → List ℕ → Run (Expansion × List ℕ)
  unfolding xcall lookup_var skip_space
  behind_name expand name [] = done (null, [])
  behind_name expand name (c ∷ s) =
      if c == b')'
      then (or_null (expand name) (lookup_var blk) >>= λ ex. done (ex, s))
      else xcall expand name (skip_space (c ∷ s))

  -- `HXformat2_xany`: the expansion and `*pptr`
  unfoldable pub xany : (List ℕ → Run (List ℕ)) → List ℕ → Run (Expansion × List ℕ)
  unfolding behind_name dequote skip_space
  xany expand [] = dequote [] name_end >>= λ r. behind_name expand r.0 r.1
  xany expand (c ∷ s) =
      if c == b')'
      then done (nexp, s)
      else if is_space c
      then (dequote (skip_space (c ∷ s)) (codes ")") >>= λ r.
          step_over r.1 >>= λ rest. done (nexp, rest))
      else dequote (c ∷ s) name_end >>= λ r. behind_name expand r.0 r.1

  -- an expansion is appended to `out`; `again` is the rest of the loop
  abbrev pub appended :
      (List ℕ → List ℕ → Run (List ℕ)) → List ℕ → Expansion × List ℕ → Run (List ℕ)
  appended again out (null, rest) = failed
  appended again out (nexp, rest) = again rest out
  appended again out (text t, rest) = again rest (out ++ t)

  -- The part of a round of `HXformat_aprintf` from `current` on. Two bytes are copied where no opener
  -- follows, the second of which is the NUL at the end of the string.
  unfoldable pub at_percent :
      (List ℕ → Run (Expansion × List ℕ))
      → (List ℕ → List ℕ → Run (List ℕ))
      → (current out : List ℕ) → Run (List ℕ)
  at_percent any again [] out = done out
  at_percent any again (p ∷ []) out = overrun
  at_percent any again (p ∷ c ∷ s) out =
      if c == b'(' then any s >>= appended again out else again s (out ++ p ∷ c ∷ [])

  -- The loop of `HXformat_aprintf` on fuel, with what `out` holds.
  unfoldable pub aprintf_loop : ℕ → List ℕ → List ℕ → Run (List ℕ)
  unfolding at_percent xany strcspn
  aprintf_loop zero fmt out = no_fuel
  aprintf_loop (suc n) fmt out =
      let k = strcspn fmt (b'%' ∷ []) in
      at_percent (xany (λ f. aprintf_loop n f [])) (aprintf_loop n) (drop k fmt) (out ++ take k fmt)

  -- `HXformat_aprintf`
  unfoldable pub aprintf : List ℕ → Run (List ℕ)
  unfolding aprintf_loop
  aprintf fmt = aprintf_loop (suc (length fmt)) fmt []

  -- `HXformat_sprintf`: the text in `dest`, of `size` bytes. strncpy writes no NUL where the text is not
  -- shorter, and strlen reads on.
  unfoldable pub sprintf : ℕ → List ℕ → Run (List ℕ)
  unfolding aprintf
  sprintf size fmt = aprintf fmt >>= λ s.
      if length s == 0 then done [] else if ltb (length s) size then done s else overrun
