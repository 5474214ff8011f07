-- ===== src/Opt/Getopt.antt =====
-- The state machine of HX_getopt6 in src/opt.c: HX_getopt_twolong, HX_getopt_long, HX_getopt_short,
-- HX_getopt_term, HX_getopt_normal, and the loop over the arguments.
--
-- A pointer into an argument is the suffix it points to; `none` is NULL. Each malloc asks an oracle by
-- its number. The callbacks and variables that do_assign writes are the list of its calls.
pub mod Fuel
pub mod Items
use libhx.Opt.{
  HxOption, opt_optional, has_flag, takes_void, lookup_short, lookup_long_pfx, LongMatch, no_match,
  ambig_prefix, match_, OptError, long_unknown, long_takesvoid, long_missing, short_unknown,
  short_missing, e_ambig_prefix,
}
use libhx.Bytes.{mem}
use libhx.Prelude.{
  ℕ, zero, suc, ◌+◌, Bool, true, false, not, ◌&&◌, ◌||◌, Option, none, some, List, [], ◌∷◌, ◌++◌,
  if◌then◌else◌, ◌==◌,
}

-- `enum HX_getopt_state`
pub data State : Type 0 where
  s_normal s_short s_twolong s_long s_terminated : State

-- `HXOPT_I_ADVARG`, `HXOPT_I_ADVARG2`, `HXOPT_I_ADVCHAR`, or none of them
pub data Advance : Type 0 where
  stay adv_arg adv_arg2 adv_char : Advance

-- `HXOPTCB_BY_LONG` and `HXOPTCB_BY_SHORT`
pub data By : Type 0 where
  by_long by_short : By

-- `cbi.current`, `cbi.data` and `cbi.flags` in a call of `do_assign`
pub record Call : Type 0 where
  pub current : HxOption
  pub value : Option (List ℕ)
  pub by : By

-- `struct HX_getopt_vars`: the deques as lists, the calls of `do_assign`, and the mallocs so far.
pub record Vars : Type 0 where
  pub desc : List HxOption
  pub oarg : List (Option (List ℕ))
  pub uarg : List (List ℕ)
  pub calls : List Call
  pub allocs : ℕ

-- What a handler returns: a state with `HXOPT_I_ASSIGN` (the call) and an advance, `HXOPT_I_ERROR` with
-- a code, or a negated errno.
pub data Outcome : Type 0 where
  go : State → Option Call → Advance → Vars → Outcome
  error : OptError → Outcome
  no_memory : Outcome

abbrev pub dash : ℕ
dash = 45

abbrev pub equal_sign : ℕ
equal_sign = 61

module _ (memory : ℕ → Bool) where
  -- `HXdeque_push(par->uarg, cur)`
  unfoldable pub push_uarg : Vars → List ℕ → Option Vars
  push_uarg v cur =
      if memory v.allocs
      then some (record v { uarg = v.uarg ++ cur ∷ []; allocs = suc v.allocs })
      else none

  -- `do_assign_front`
  unfoldable pub do_assign_front : Vars → Call → Option Vars
  do_assign_front v c =
      if not (memory v.allocs)
      then none
      else if not (memory (suc v.allocs))
      then none
      else some (record v {
        desc = v.desc ++ c.current ∷ [];
        oarg = v.oarg ++ c.value ∷ [];
        calls = v.calls ++ c ∷ [];
        allocs = suc (suc v.allocs);
      })

-- `value == NULL || *value != '-' || (value[0] == '-' && value[1] == '\0')`
unfoldable pub may_be_argument : Option (List ℕ) → Bool
may_be_argument none = true
may_be_argument (some []) = true
may_be_argument (some (c ∷ [])) = true
may_be_argument (some (c ∷ d ∷ s)) = not (c == dash)

-- `key + 2`; the callers have seen two dashes
abbrev pub skip_dashes : List ℕ → List ℕ
skip_dashes [] = []
skip_dashes (c ∷ []) = []
skip_dashes (c ∷ d ∷ s) = s

-- The end of HX_getopt_twolong and HX_getopt_short for an option whose argument is optional.
unfoldable pub optional_argument : HxOption → By → Option (List ℕ) → Vars → Outcome
unfolding may_be_argument
optional_argument d by value v =
    if may_be_argument value
    then go s_normal (some (record { current = d; value = value; by = by })) adv_arg2 v
    else go s_normal (some (record { current = d; value = none; by = by })) adv_arg v

-- The same for an option whose argument is required.
unfoldable pub required_argument : HxOption → By → OptError → Option (List ℕ) → Vars → Outcome
required_argument d by missing none v = error missing
required_argument d by missing (some value) v =
    go s_normal (some (record { current = d; value = some value; by = by })) adv_arg2 v

-- `HX_getopt_twolong` with the option found
unfoldable pub twolong_option : HxOption → Option (List ℕ) → Vars → Outcome
unfolding takes_void optional_argument required_argument
twolong_option d value v =
    if takes_void d.typ
    then go s_normal (some (record { current = d; value = none; by = by_long })) adv_arg v
    else if has_flag d.typ opt_optional
    then optional_argument d by_long value v
    else required_argument d by_long long_missing value v

-- `HX_getopt_twolong`
unfoldable pub getopt_twolong : List HxOption → List ℕ → Option (List ℕ) → Vars → Outcome
unfolding twolong_option
getopt_twolong table key value v = elim (lookup_long_pfx table (skip_dashes key)) [
  | ambig_prefix ↦ error e_ambig_prefix
  | no_match ↦ error long_unknown
  | match_ d ↦ twolong_option d value v
]

-- `strchr(s, '=')`: what stands before the sign and behind it
unfoldable pub split_equal : List ℕ → Option (List ℕ × List ℕ)
split_equal [] = none
split_equal (c ∷ s) =
    let rest = split_equal s in
    if c == equal_sign
    then some ([], s)
    else elim rest [ none ↦ none | some r ↦ some (c ∷ r.0, r.1) ]

-- an argument for `uarg`, if there is memory
abbrev pub pushed : State → Option Vars → Outcome
pushed s none = no_memory
pushed s (some v) = go s none adv_arg v

-- the vars after a push whose result is not looked at
abbrev pub or_same : Vars → Option Vars → Vars
or_same v none = v
or_same v (some v') = v'

-- `argc > 1 ? opt[1] : NULL`
abbrev pub next_argument : List (List ℕ) → Option (List ℕ)
next_argument [] = none
next_argument (a ∷ args) = some a

-- how the loop ends
pub data Parsed : Type 0 where
  parsed : Vars → Parsed
  bad_option : OptError → Parsed
  failed : Parsed

-- `op0` and the arguments behind it after an advance; `none` is `argc <= 0`
unfoldable pub advanced : Advance → List ℕ → List (List ℕ) → Option (List ℕ × List (List ℕ))
advanced stay op args = some (op, args)
advanced adv_arg op [] = none
advanced adv_arg op (a ∷ args) = some (a, args)
advanced adv_arg2 op [] = none
advanced adv_arg2 op (a ∷ []) = none
advanced adv_arg2 op (a ∷ b ∷ args) = some (b, args)
advanced adv_char [] args = some ([], args)
advanced adv_char (c ∷ op) args = some (op, args)

module _ (memory : ℕ → Bool) (table : List HxOption) where
  -- `HX_getopt_long` with the option found, and `*value` behind the sign
  unfoldable pub long_option : HxOption → List ℕ → Vars → Outcome
  unfolding takes_void do_assign_front
  long_option d value v =
      if takes_void d.typ
      then error long_takesvoid
      else elim (do_assign_front memory v
          (record { current = d; value = some value; by = by_long })) [
            | none ↦ no_memory
            | some v' ↦ go s_normal none adv_arg v'
          ]

  -- The two parts of `HX_getopt_long` around the sign; without a sign (not met) it returns EINVAL.
  unfoldable pub long_parts : Option (List ℕ × List ℕ) → Vars → Outcome
  unfolding long_option
  long_parts none v = no_memory
  long_parts (some (key, value)) v = elim (lookup_long_pfx table (skip_dashes key)) [
    | ambig_prefix ↦ error e_ambig_prefix
    | no_match ↦ error long_unknown
    | match_ d ↦ long_option d value v
  ]

  -- `HX_getopt_long`; the first malloc is that of HX_strdup
  unfoldable pub getopt_long : List ℕ → Vars → Outcome
  unfolding long_parts split_equal
  getopt_long cur v =
      if not (memory v.allocs)
      then no_memory
      else long_parts (split_equal cur) (record v { allocs = suc v.allocs })

  -- `HX_getopt_short` with the option found; `rest` is `key + 1`
  unfoldable pub short_option : HxOption → List ℕ → Option (List ℕ) → Vars → Outcome
  unfolding takes_void optional_argument required_argument
  short_option d rest value v =
      if takes_void d.typ
      then go s_short (some (record { current = d; value = none; by = by_short })) adv_char v
      else elim rest [
        | c ∷ s ↦
            go s_normal (some (record { current = d; value = some (c ∷ s); by = by_short })) adv_arg
              v
        | [] ↦
            if has_flag d.typ opt_optional
            then optional_argument d by_short value v
            else required_argument d by_short short_missing value v
      ]

  -- `HX_getopt_short`
  unfoldable pub getopt_short : List ℕ → Option (List ℕ) → Vars → Outcome
  unfolding short_option lookup_short
  getopt_short [] value v = go s_normal none adv_arg v
  getopt_short (op ∷ rest) value v = elim (lookup_short table op) [
    | none ↦ error short_unknown
    | some d ↦ short_option d rest value v
  ]

  -- `HX_getopt_term`
  unfoldable pub getopt_term : List ℕ → Vars → Outcome
  unfolding push_uarg
  getopt_term cur v = pushed s_terminated (push_uarg memory v cur)

  -- The end of `HX_getopt_normal`, for an argument that does not start with a dash.
  unfoldable pub normal_other : Bool → List ℕ → Vars → Outcome
  unfolding push_uarg
  normal_other rq_order cur v =
      if rq_order then go s_terminated none stay v else pushed s_normal (push_uarg memory v cur)

  -- `HX_getopt_normal`; the Boolean is `par->flags & HXOPT_RQ_ORDER`
  unfoldable pub getopt_normal : Bool → List ℕ → Vars → Outcome
  unfolding normal_other push_uarg
  getopt_normal rq_order [] v = normal_other rq_order [] v
  getopt_normal rq_order (c ∷ []) v =
      if c == dash
      then go s_normal none adv_arg (or_same v (push_uarg memory v (c ∷ [])))
      else normal_other rq_order (c ∷ []) v
  getopt_normal rq_order (c ∷ d ∷ []) v =
      if c == dash
      then (if d == dash then go s_terminated none adv_arg v else go s_short none adv_char v)
      else normal_other rq_order (c ∷ d ∷ []) v
  getopt_normal rq_order (c ∷ d ∷ e ∷ s) v =
      if c == dash
      then (if d == dash
          then (if not (mem equal_sign (e ∷ s))
              then go s_twolong none stay v
              else go s_long none stay v)
          else go s_short none adv_char v)
      else normal_other rq_order (c ∷ d ∷ e ∷ s) v

  -- The handler of a state.
  unfoldable pub handle : Bool → State → List ℕ → List (List ℕ) → Vars → Outcome
  unfolding getopt_twolong getopt_long getopt_short getopt_term getopt_normal
  handle rq_order s_twolong op args v = getopt_twolong table op (next_argument args) v
  handle rq_order s_long op args v = getopt_long op v
  handle rq_order s_short op args v = getopt_short op (next_argument args) v
  handle rq_order s_terminated op args v = getopt_term op v
  handle rq_order s_normal op args v = getopt_normal rq_order op v

  -- `HXOPT_I_ASSIGN`
  unfoldable pub assigned : Option Call → Vars → Option Vars
  unfolding do_assign_front
  assigned none v = some v
  assigned (some c) v = do_assign_front memory v c

  -- The loop on fuel: `op` is `op0`, `args` are the arguments behind it.
  unfoldable pub getopt_loop : ℕ → Bool → State → List ℕ → List (List ℕ) → Vars → Option Parsed
  unfolding handle assigned advanced
  getopt_loop zero rq_order s op args v = none
  getopt_loop (suc n) rq_order s op args v = elim (handle rq_order s op args v) [
    | error e ↦ some (bad_option e)
    | no_memory ↦ some failed
    | go s' c a v' ↦ elim (assigned c v') [
      | none ↦ some failed
      | some w ↦ elim (advanced a op args) [
        | none ↦ some (parsed w)
        | some r ↦ getopt_loop n rq_order s' r.0 r.1 w
      ]
    ]
  ]
