-- ===== src/Opt/Result.antt =====
-- HX_getopt6 of src/opt.c around its loop, HX_getopt6_clean, and the vectors that the deques are
-- written to at the end. The text that goes to stderr is not modelled.
pub mod Clean
pub mod Written
use libhx.Ops.{Errno, einval, enomem}
use libhx.Opt.Getopt.{Vars, s_normal, Parsed, parsed, bad_option, failed, getopt_loop}
use libhx.Opt.{HxOption, has_flag, getopt_error}
use libhx.Prelude.{
  ℕ, zero, suc, ◌+◌, ◌-◌, ◌^◌, Bool, true, false, not, ◌&&◌, ◌||◌, Option, none, some, List, [],
  ◌∷◌, if◌then◌else◌, length, ltb, ◌==◌,
}

-- The flags of HX_getopt6.
abbrev pub rq_order_flag : ℕ
rq_order_flag = 2 ^ 5

abbrev pub any_order : ℕ
any_order = 2 ^ 7

abbrev pub iter_opts : ℕ
iter_opts = 2 ^ 9

abbrev pub iter_args : ℕ
iter_args = 2 ^ 10

abbrev pub dup_args : ℕ
dup_args = 2 ^ 11

-- What HX_getopt6 returns: HXOPT_ERR_SUCCESS, another HXOPT_ERR code, or a negative errno.
pub data Ret6 : Type 0 where
  success : Ret6
  opt_error : ℕ → Ret6
  negative : Errno → Ret6

-- `struct HXopt6_result`; `none` is NULL
pub record Result6 : Type 0 where
  pub desc : Option (List HxOption)
  pub oarg : Option (List (Option (List ℕ)))
  pub uarg : Option (List (List ℕ))
  pub dup_argv : Option (List (List ℕ))
  pub nopts : ℕ
  pub nargs : ℕ
  pub dup_argc : ℕ

-- `memset(result, 0, sizeof(*result))`
abbrev pub zeroed : Result6
zeroed = record {
  desc = none;
  oarg = none;
  uarg = none;
  dup_argv = none;
  nopts = 0;
  nargs = 0;
  dup_argc = 0;
}

-- `HX_getopt6_clean`
unfoldable pub getopt6_clean : Result6 → Result6
getopt6_clean r = record r { desc = none; oarg = none; uarg = none; dup_argv = none }

-- `posix_me_harder`: the value of POSIXLY_CORRECT, and strtol with base 0, which gives the bits of the
-- number as an int, or `none` for a string without a number.
unfoldable pub posix_me_harder : (List ℕ → Option ℕ) → Option (List ℕ) → Bool
posix_me_harder strtol none = false
posix_me_harder strtol (some []) = false
posix_me_harder strtol (some (c ∷ s)) = elim (strtol (c ∷ s)) [
  | none ↦ true
  | some res ↦ not (res == 0)
]

-- `nelem < INT_MAX ? nelem : INT_MAX`
abbrev pub clip : ℕ → ℕ
clip n = if ltb n (2 ^ 31 - 1) then n else 2 ^ 31 - 1

-- `n` mallocs in a row, from the one with the given number
unfoldable pub all_memory : (ℕ → Bool) → ℕ → ℕ → Bool
all_memory memory a zero = true
all_memory memory a (suc n) = memory a && all_memory memory (suc a) n

-- The bytes of the arguments and two for each, which bounds the rounds of the loop.
abbrev pub argv_size : List (List ℕ) → ℕ
argv_size [] = 0
argv_size (a ∷ args) = length a + 2 + argv_size args

-- The label `out` for a failure: `result` is cleaned.
unfoldable pub out_failed : Ret6 → Option Result6 → Ret6 × Option Result6
unfolding getopt6_clean
out_failed ret none = (ret, none)
out_failed ret (some r) = (ret, some (getopt6_clean r))

unfoldable pub given : Bool × Result6 → Ret6 × Option Result6
unfolding out_failed
given (ok, r) = if ok then (success, some r) else out_failed (negative enomem) (some r)

-- The vars after the three calls of HXdeque_init.
abbrev pub start : Vars
start = record { desc = []; oarg = []; uarg = []; calls = []; allocs = 3 }

-- `result` after memset, and whether it is NULL
abbrev pub cleared : Option Result6 → Option Result6
cleared none = none
cleared (some r) = some zeroed

abbrev pub is_null : Option Result6 → Bool
is_null none = true
is_null (some r) = false

module _ (memory : ℕ → Bool) where
  -- HXOPT_DUP_ARGS: HXdeque_unshift of `arg0` and HXdeque_to_vec_strdup. The Boolean says whether all
  -- went well.
  unfoldable pub give_dup : Option (List ℕ) → Vars → Result6 → Bool × Result6
  unfolding all_memory
  give_dup none v r =
      if all_memory memory v.allocs (suc (length v.uarg))
      then (true, record r { dup_argv = some v.uarg; dup_argc = clip (length v.uarg) })
      else (false, r)
  give_dup (some arg0) v r =
      let uarg = arg0 ∷ v.uarg in
      if memory v.allocs && all_memory memory (suc v.allocs) (suc (length uarg))
      then (true, record r { dup_argv = some uarg; dup_argc = clip (length uarg) })
      else (false, r)

  unfoldable pub give_dup_if : ℕ → Option (List ℕ) → Vars → Result6 → Bool × Result6
  unfolding give_dup
  give_dup_if flags arg0 v r = if has_flag flags dup_args then give_dup arg0 v r else (true, r)

  -- HXOPT_ITER_ARGS, and what follows
  unfoldable pub give_args : ℕ → Option (List ℕ) → Vars → Result6 → Bool × Result6
  unfolding give_dup_if
  give_args flags arg0 v r =
      if has_flag flags iter_args
      then (if memory v.allocs
          then give_dup_if flags arg0 (record v { allocs = suc v.allocs })
              (record r { uarg = some v.uarg; nargs = clip (length v.uarg) })
          else (false, r))
      else give_dup_if flags arg0 v r

  -- HXOPT_ITER_OPTS, and what follows
  unfoldable pub give_results : ℕ → Option (List ℕ) → Vars → Result6 → Bool × Result6
  unfolding give_args
  give_results flags arg0 v r =
      if has_flag flags iter_opts
      then (if memory v.allocs && memory (suc v.allocs)
          then give_args flags arg0 (record v { allocs = suc (suc v.allocs) })
              (record r { desc = some v.desc; oarg = some v.oarg; nopts = clip (length v.oarg) })
          else (false, r))
      else give_args flags arg0 v r

  -- After the loop. Without `result` none of the three flags is set.
  unfoldable pub finish : ℕ → Option (List ℕ) → Option Result6 → Parsed → Ret6 × Option Result6
  unfolding give_results given out_failed
  finish flags arg0 result (bad_option e) = out_failed (opt_error (getopt_error e)) result
  finish flags arg0 result failed = out_failed (negative enomem) result
  finish flags arg0 none (parsed v) = (success, none)
  finish flags arg0 (some r) (parsed v) = given (give_results flags arg0 v r)

  -- The loop over the arguments behind `arg0`.
  unfoldable pub parse_args : List HxOption → Bool → List (List ℕ) → Option Parsed
  unfolding getopt_loop
  parse_args table rq_order [] = some (parsed start)
  parse_args table rq_order (op ∷ args) =
      getopt_loop memory table (argv_size (op ∷ args) + 2) rq_order s_normal op args start

  -- `HX_getopt6` from the deques on; `none` is a loop that ran out of fuel
  unfoldable pub getopt6_run :
      List HxOption → Bool → List (List ℕ) → Option Result6 → ℕ → Option (Ret6 × Option Result6)
  unfolding parse_args finish
  getopt6_run table posix [] result flags = some (finish flags none result (parsed start))
  getopt6_run table posix (arg0 ∷ args) result flags =
      let rq_order = has_flag flags rq_order_flag || (not (has_flag flags any_order) && posix) in
      elim (parse_args table rq_order args) [
        | none ↦ none
        | some p ↦ some (finish flags (some arg0) result p)
      ]

  -- `HX_getopt6`; `posix` is what posix_me_harder returns, and `argv` the arguments up to NULL
  unfoldable pub getopt6 :
      List HxOption → Bool → List (List ℕ) → Option Result6 → ℕ → Option (Ret6 × Option Result6)
  unfolding getopt6_run out_failed
  getopt6 table posix argv result flags =
      if has_flag flags rq_order_flag && has_flag flags any_order
      then some (negative einval, result)
      else if is_null result
          && (has_flag flags iter_opts || has_flag flags iter_args || has_flag flags dup_args)
      then some (negative einval, result)
      else if not (memory 0 && memory 1 && memory 2)
      then some (out_failed (negative enomem) (cleared result))
      else getopt6_run table posix argv (cleared result) flags
