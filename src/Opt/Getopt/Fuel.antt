-- ===== src/Opt/Getopt/Fuel.antt =====
-- The loop of HX_getopt6 in src/opt.c ends: each round takes a byte, an argument or a step between
-- states.
use libhx.Bytes.{mem}
use libhx.Opt.Getopt.{
  State, s_normal, s_short, s_twolong, s_long, s_terminated, stay, adv_arg, adv_arg2, adv_char,
  Advance, Call, Vars, Outcome, go, error, no_memory, Parsed, parsed, bad_option, failed, By,
  by_long, by_short, getopt_twolong, twolong_option, optional_argument, required_argument,
  getopt_long, long_parts, long_option, split_equal, getopt_short, short_option, getopt_term,
  pushed, push_uarg, normal_other, getopt_normal, handle, assigned, advanced, getopt_loop,
  do_assign_front, may_be_argument, dash, equal_sign, next_argument,
}
use libhx.Opt.{
  HxOption, LongMatch, no_match, ambig_prefix, match_, OptError, long_unknown, long_missing,
  short_unknown, short_missing, e_ambig_prefix, takes_void, has_flag, opt_optional, lookup_short,
  lookup_long_pfx,
}
use libhx.Prelude.{
  ℕ, zero, suc, ◌+◌, ◌<◌, ◌≤◌, ◌≡◌, refl, Bool, not, if_both, ◌==◌, Option, none, some, List, [],
  ◌∷◌, length, arith,
}

-- a step away from `s_normal` counts
abbrev pub weight : State → ℕ
weight s_normal = 1
weight s_short = 0
weight s_twolong = 0
weight s_long = 0
weight s_terminated = 0

-- the bytes of the arguments, and two for each argument
abbrev pub sizes : List (List ℕ) → ℕ
sizes [] = 0
sizes (a ∷ args) = length a + 2 + sizes args

abbrev pub measure : State → List ℕ → List (List ℕ) → ℕ
measure s op args = weight s + (length op + 2 + sizes args)

-- What makes a round count: without an advance the state leaves `s_normal`, and an advance by a byte
-- needs a byte.
abbrev Progress : State → List ℕ → Outcome → Type 0
Progress s op (go s' c stay v) = weight s' < weight s
Progress s op (go s' c adv_arg v) = Unit
Progress s op (go s' c adv_arg2 v) = Unit
Progress s op (go s' c adv_char v) = (weight s' ≡ 0) × (0 < length op)
Progress s op (error e) = Unit
Progress s op no_memory = Unit

optional_argument-Progress :
    (s : State) (op : List ℕ) (d : HxOption) (by : By) (value : Option (List ℕ)) (v : Vars)
    → Progress s op (optional_argument d by value v)
unfolding optional_argument
optional_argument-Progress s op d by value v =
    if_both (Progress s op) (may_be_argument value) (λ h. tt) (λ h. tt)

required_argument-Progress :
    (s : State) (op : List ℕ) (d : HxOption) (by : By) (e : OptError) (value : Option (List ℕ))
    (v : Vars)
    → Progress s op (required_argument d by e value v)
unfolding required_argument
required_argument-Progress s op d by e none v = tt
required_argument-Progress s op d by e (some value) v = tt

module _ (table : List HxOption) where
  twolong-Progress :
      (s : State) (op key : List ℕ) (value : Option (List ℕ)) (v : Vars)
      → Progress s op (getopt_twolong table key value v)
  unfolding getopt_twolong twolong_option
  twolong-Progress s op key value v = found (lookup_long_pfx table _)
    where
      found :
          (r : LongMatch)
          → Progress s op (elim r as (λ _. Outcome) [
            | ambig_prefix ↦ error e_ambig_prefix
            | no_match ↦ error long_unknown
            | match_ d ↦ twolong_option d value v
          ])
      found ambig_prefix = tt
      found no_match = tt
      found (match_ d) =
          if_both (Progress s op) (takes_void d.typ) (λ h. tt)
            (λ h.
              if_both (Progress s op) (has_flag d.typ opt_optional)
                (λ g. optional_argument-Progress s op d by_long value v)
                (λ g. required_argument-Progress s op d by_long long_missing value v))

module _ (memory : ℕ → Bool) (table : List HxOption) where
  long_option-Progress :
      (s : State) (op : List ℕ) (d : HxOption) (value : List ℕ) (v : Vars)
      → Progress s op (long_option memory table d value v)
  unfolding long_option
  long_option-Progress s op d value v =
      if_both (Progress s op) (takes_void d.typ) (λ h. tt)
        (λ h. called (do_assign_front memory v _))
    where
      called :
          (r : Option Vars)
          → Progress s op (elim r as (λ _. Outcome) [
            | none ↦ no_memory
            | some v' ↦ go s_normal none adv_arg v'
          ])
      called none = tt
      called (some v') = tt

  long_parts-Progress :
      (s : State) (op : List ℕ) (parts : Option (List ℕ × List ℕ)) (v : Vars)
      → Progress s op (long_parts memory table parts v)
  unfolding long_parts
  long_parts-Progress s op none v = tt
  long_parts-Progress s op (some (key, value)) v = found (lookup_long_pfx table _)
    where
      found :
          (r : LongMatch)
          → Progress s op (elim r as (λ _. Outcome) [
            | ambig_prefix ↦ error e_ambig_prefix
            | no_match ↦ error long_unknown
            | match_ d ↦ long_option memory table d value v
          ])
      found ambig_prefix = tt
      found no_match = tt
      found (match_ d) = long_option-Progress s op d value v

  short_option-Progress :
      (op : ℕ) (rest : List ℕ) (d : HxOption) (value : Option (List ℕ)) (v : Vars)
      → Progress s_short (op ∷ rest) (short_option memory table d rest value v)
  unfolding short_option
  short_option-Progress op [] d value v =
      if_both (Progress s_short (op ∷ [])) (takes_void d.typ) (λ h. (refl, omega arith))
        (λ h.
          if_both (Progress s_short (op ∷ [])) (has_flag d.typ opt_optional)
            (λ g. optional_argument-Progress s_short (op ∷ []) d by_short value v)
            (λ g. required_argument-Progress s_short (op ∷ []) d by_short short_missing value v))
  short_option-Progress op (c ∷ s) d value v =
      if_both (Progress s_short (op ∷ c ∷ s)) (takes_void d.typ) (λ h. (refl, omega arith))
        (λ h. tt)

  short-Progress :
      (op : List ℕ) (value : Option (List ℕ)) (v : Vars)
      → Progress s_short op (getopt_short memory table op value v)
  unfolding getopt_short
  short-Progress [] value v = tt
  short-Progress (op ∷ rest) value v = found (lookup_short table op)
    where
      found :
          (r : Option HxOption)
          → Progress s_short (op ∷ rest) (elim r as (λ _. Outcome) [
            | none ↦ error short_unknown
            | some d ↦ short_option memory table d rest value v
          ])
      found none = tt
      found (some d) = short_option-Progress op rest d value v

  pushed-Progress : (s s' : State) (op : List ℕ) (r : Option Vars) → Progress s op (pushed s' r)
  pushed-Progress s s' op none = tt
  pushed-Progress s s' op (some v) = tt

  other-Progress :
      (rq_order : Bool) (op : List ℕ) (v : Vars)
      → Progress s_normal op (normal_other memory table rq_order op v)
  unfolding normal_other
  other-Progress rq_order op v =
      if_both (Progress s_normal op) rq_order (λ h. omega arith)
        (λ h. pushed-Progress s_normal s_normal op (push_uarg memory v op))

  normal-Progress :
      (rq_order : Bool) (op : List ℕ) (v : Vars)
      → Progress s_normal op (getopt_normal memory table rq_order op v)
  unfolding getopt_normal
  normal-Progress rq_order [] v = other-Progress rq_order [] v
  normal-Progress rq_order (c ∷ []) v =
      if_both (Progress s_normal (c ∷ [])) (c == dash) (λ h. tt)
        (λ h. other-Progress rq_order (c ∷ []) v)
  normal-Progress rq_order (c ∷ d ∷ []) v =
      if_both (Progress s_normal (c ∷ d ∷ [])) (c == dash)
        (λ h.
          if_both (Progress s_normal (c ∷ d ∷ [])) (d == dash) (λ g. tt) (λ g. (refl, omega arith)))
        (λ h. other-Progress rq_order (c ∷ d ∷ []) v)
  normal-Progress rq_order (c ∷ d ∷ e ∷ s) v =
      if_both (Progress s_normal (c ∷ d ∷ e ∷ s)) (c == dash)
        (λ h.
          if_both (Progress s_normal (c ∷ d ∷ e ∷ s)) (d == dash)
            (λ g.
              if_both (Progress s_normal (c ∷ d ∷ e ∷ s)) (not (mem equal_sign (e ∷ s)))
                (λ k. omega arith) (λ k. omega arith))
            (λ g. (refl, omega arith)))
        (λ h. other-Progress rq_order (c ∷ d ∷ e ∷ s) v)

  handle-Progress :
      (rq_order : Bool) (s : State) (op : List ℕ) (args : List (List ℕ)) (v : Vars)
      → Progress s op (handle memory table rq_order s op args v)
  unfolding handle getopt_long getopt_term
  handle-Progress rq_order s_twolong op args v =
      twolong-Progress table s_twolong op op (next_argument args) v
  handle-Progress rq_order s_long op args v =
      if_both (Progress s_long op) (not (memory v.allocs)) (λ h. tt)
        (λ h. long_parts-Progress s_long op (split_equal op) (record v { allocs = suc v.allocs }))
  handle-Progress rq_order s_short op args v = short-Progress op (next_argument args) v
  handle-Progress rq_order s_terminated op args v =
      pushed-Progress s_terminated s_terminated op (push_uarg memory v op)
  handle-Progress rq_order s_normal op args v = normal-Progress rq_order op v

  weight-le : (s : State) → weight s ≤ 1
  weight-le s_normal = omega arith
  weight-le s_short = omega arith
  weight-le s_twolong = omega arith
  weight-le s_long = omega arith
  weight-le s_terminated = omega arith

  abbrev Below : ℕ → State → Option (List ℕ × List (List ℕ)) → Type 0
  Below n s none = Unit
  Below n s (some r) = measure s r.0 r.1 < n

  advanced-Below :
      (s s' : State) (op : List ℕ) (args : List (List ℕ)) (a : Advance) (c : Option Call) (v : Vars)
      → Progress s op (go s' c a v)
      → Below (measure s op args) s' (advanced a op args)
  unfolding advanced
  advanced-Below s s' op args stay c v p = omega (arith, p)
  advanced-Below s s' op [] adv_arg c v p = tt
  advanced-Below s s' op (b ∷ args) adv_arg c v p = omega (arith, weight-le s')
  advanced-Below s s' op [] adv_arg2 c v p = tt
  advanced-Below s s' op (b ∷ []) adv_arg2 c v p = tt
  advanced-Below s s' op (b ∷ d ∷ args) adv_arg2 c v p = omega (arith, weight-le s')
  advanced-Below s s' [] args adv_char c v p = absurd (omega (arith, p.1))
  advanced-Below s s' (b ∷ op) args adv_char c v p = omega (arith, p.0)

  abbrev Ends : Option Parsed → Type 0
  Ends r = (x : Parsed) × (r ≡ some x)

  -- a round ends, if the loop does from any smaller measure
  module _ (n : ℕ) (rq_order : Bool) (s : State) (op : List ℕ) (args : List (List ℕ))
      (h : measure s op args < suc n)
      (again : (s' : State) (op' : List ℕ) (args' : List (List ℕ)) (w : Vars)
        → measure s' op' args' < n
        → Ends (getopt_loop memory table n rq_order s' op' args' w)) where
    moved-Ends :
        (s' : State) (w : Vars) (r : Option (List ℕ × List (List ℕ)))
        → Below (measure s op args) s' r
        → Ends (elim r as (λ _. Option Parsed) [
          | none ↦ some (parsed w)
          | some q ↦ getopt_loop memory table n rq_order s' q.0 q.1 w
        ])
    moved-Ends s' w none b = (parsed w, refl)
    moved-Ends s' w (some q) b = again s' q.0 q.1 w (omega (arith, b, h))

    called-Ends :
        (s' : State) (a : Advance) (m : Option Vars)
        → Below (measure s op args) s' (advanced a op args)
        → Ends (elim m as (λ _. Option Parsed) [
          | none ↦ some failed
          | some w ↦ elim (advanced a op args) as (λ _. Option Parsed) [
            | none ↦ some (parsed w)
            | some q ↦ getopt_loop memory table n rq_order s' q.0 q.1 w
          ]
        ])
    called-Ends s' a none b = (failed, refl)
    called-Ends s' a (some w) b = moved-Ends s' w (advanced a op args) b

    handled-Ends :
        (o : Outcome)
        → Progress s op o
        → Ends (elim o as (λ _. Option Parsed) [
          | error e ↦ some (bad_option e)
          | no_memory ↦ some failed
          | go s' c a v' ↦ elim (assigned memory table c v') as (λ _. Option Parsed) [
            | none ↦ some failed
            | some w ↦ elim (advanced a op args) as (λ _. Option Parsed) [
              | none ↦ some (parsed w)
              | some q ↦ getopt_loop memory table n rq_order s' q.0 q.1 w
            ]
          ]
        ])
    handled-Ends (error e) p = (bad_option e, refl)
    handled-Ends no_memory p = (failed, refl)
    handled-Ends (go s' c a v') p =
        called-Ends s' a (assigned memory table c v') (advanced-Below s s' op args a c v' p)

  -- The loop of HX_getopt6 ends for any table, flags, arguments and memory: in a round fewer than the
  -- bytes of the arguments and two for each of them, it has parsed them all, met a bad option, or
  -- failed for want of memory.
  pub getopt_loop-measure :
      (n : ℕ) (rq_order : Bool) (s : State) (op : List ℕ) (args : List (List ℕ)) (v : Vars)
      → measure s op args < n
      → (r : Parsed) × (getopt_loop memory table n rq_order s op args v ≡ some r)
  unfolding getopt_loop
  getopt_loop-measure zero rq_order s op args v h = absurd (omega arith)
  getopt_loop-measure (suc n) rq_order s op args v h =
      handled-Ends n rq_order s op args h (getopt_loop-measure n rq_order)
        (handle memory table rq_order s op args v) (handle-Progress rq_order s op args v)
