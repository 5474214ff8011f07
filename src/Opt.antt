-- ===== src/Opt.antt =====
-- The option parser of src/opt.c: the table of struct HXoption (include/libHX/option.h), the lookup of
-- options and the assignment of numbers. A table is the list of its entries without the end mark.
pub mod Lookup
pub mod Dequote
pub mod Shconfig
pub mod Getopt
pub mod Result
mod Tests
use Prim.Native.Nat.{bit_and, bit_or, bit_xor}
use libhx.Bytes.{mem}
use libhx.Prelude.{
  ℕ, zero, suc, ◌+◌, ◌-◌, ◌/◌, ◌%◌, ◌^◌, Bool, true, false, not, ◌&&◌, ◌||◌, Option, none, some,
  List, [], ◌∷◌, if◌then◌else◌, ◌==◌,
}

-- `struct HXoption`, the members that the parser reads: `ln` (or NULL), `sh` and `type` with its flags.
pub record HxOption : Type 0 where
  pub ln : Option (List ℕ)
  pub sh : ℕ
  pub typ : ℕ

-- `t & flag` for a flag of one bit
abbrev pub has_flag : ℕ → ℕ → Bool
has_flag t flag = t / flag % 2 == 1

-- `HXOPT_OPTIONAL`, and the logical operations
abbrev pub opt_optional : ℕ
opt_optional = 2 ^ 6

abbrev pub opt_inc : ℕ
opt_inc = 2 ^ 7

abbrev pub opt_dec : ℕ
opt_dec = 2 ^ 8

abbrev pub opt_not : ℕ
opt_not = 2 ^ 9

abbrev pub opt_or : ℕ
opt_or = 2 ^ 10

abbrev pub opt_and : ℕ
opt_and = 2 ^ 11

abbrev pub opt_xor : ℕ
opt_xor = 2 ^ 12

-- `takes_void`: HXTYPE_NONE, HXTYPE_VAL, HXTYPE_SVAL, HXTYPE_XSNTMARK and HXTYPE_XHELP
unfoldable pub takes_void : ℕ → Bool
takes_void t = let u = t % 32 in u == 0 || u == 1 || u == 2 || u == 29 || u == 30

-- What remains of a string behind a prefix, `none` when `strncmp` does not return 0.
unfoldable pub after_prefix : List ℕ → List ℕ → Option (List ℕ)
after_prefix [] s = some s
after_prefix (c ∷ key) [] = none
after_prefix (c ∷ key) (d ∷ s) = if c == d then after_prefix key s else none

-- `lookup_short`
unfoldable pub lookup_short : List HxOption → ℕ → Option HxOption
lookup_short [] opt = none
lookup_short (d ∷ table) opt = if d.sh == opt then some d else lookup_short table opt

-- The pointers that `lookup_long_pfx` returns: NULL, `&HXopt_ambig_prefix`, or an entry.
pub data LongMatch : Type 0 where
  no_match ambig_prefix : LongMatch
  match_ : HxOption → LongMatch

abbrev pub of_cand : Option HxOption → LongMatch
of_cand none = no_match
of_cand (some d) = match_ d

-- What an entry's name is for a key: no match, a longer name, or the name itself.
pub data Prefix : Type 0 where
  unlike longer exact : Prefix

abbrev pub prefix_of_rest : Option (List ℕ) → Prefix
prefix_of_rest none = unlike
prefix_of_rest (some []) = exact
prefix_of_rest (some (c ∷ s)) = longer

unfoldable pub prefix_kind : List ℕ → Option (List ℕ) → Prefix
unfolding after_prefix
prefix_kind key none = unlike
prefix_kind key (some ln) = prefix_of_rest (after_prefix key ln)

-- `lookup_long_pfx`, with the candidate found so far
unfoldable pub pfx_loop : List HxOption → List ℕ → Option HxOption → LongMatch
unfolding prefix_kind
pfx_loop [] key cand = of_cand cand
pfx_loop (d ∷ table) key cand = elim (prefix_kind key d.ln) [
  | unlike ↦ pfx_loop table key cand
  | exact ↦ match_ d
  | longer ↦
      let rest = pfx_loop table key (some d) in elim cand [ none ↦ rest | some c ↦ ambig_prefix ]
]

unfoldable pub lookup_long_pfx : List HxOption → List ℕ → LongMatch
unfolding pfx_loop
lookup_long_pfx table key = pfx_loop table key none

-- `lookup_long`
unfoldable pub lookup_long : List HxOption → List ℕ → Option HxOption
unfolding prefix_kind
lookup_long [] key = none
lookup_long (d ∷ table) key = elim (prefix_kind key d.ln) [
  | unlike ↦ lookup_long table key
  | exact ↦ some d
  | longer ↦ lookup_long table key
]

-- The error codes of HX_getopt_error, and what HX_getopt6 returns for each.
pub data OptError : Type 0 where
  long_unknown long_takesvoid long_missing short_unknown short_missing e_ambig_prefix : OptError

abbrev pub getopt_error : OptError → ℕ
getopt_error long_unknown = 1
getopt_error long_takesvoid = 2
getopt_error long_missing = 3
getopt_error short_unknown = 1
getopt_error short_missing = 3
getopt_error e_ambig_prefix = 4

-- The case HXTYPE_NONE of `do_assign`: `*p` afterwards, in an int given by its 32 bits.
unfoldable pub assign_none : ℕ → ℕ → ℕ
assign_none t old =
    if has_flag t opt_inc
    then (old + 1) % 2 ^ 32
    else if has_flag t opt_dec
    then (old + (2 ^ 32 - 1)) % 2 ^ 32
    else 1

-- `NTYPE`: `*p` and `v` afterwards, for a type of `w` bits; `value` is what `func` returned, by its bits.
unfoldable pub ntype : (w t old value : ℕ) → ℕ × ℕ
ntype w t old value =
    let v = if has_flag t opt_not then 2 ^ w - 1 - value % 2 ^ w else value % 2 ^ w in
    let o = has_flag t opt_or in
    let a = has_flag t opt_and in
    let x = has_flag t opt_xor in
    (
      if o
          then (if a || x then old else bit_or old v)
          else if a
          then (if x then old else bit_and old v)
          else if x
          then bit_xor old v
          else v,
      v,
    )
