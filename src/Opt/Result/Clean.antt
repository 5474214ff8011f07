-- ===== src/Opt/Result/Clean.antt =====
-- HX_getopt6 of src/opt.c returns, and what it leaves in `result`.
use libhx.Ops.{einval, enomem}
use libhx.Opt.Getopt.Fuel.{sizes, getopt_loop-measure}
use libhx.Opt.Getopt.{Vars, s_normal, Parsed, parsed, bad_option, failed}
use libhx.Opt.Result.{
  rq_order_flag, any_order, iter_opts, iter_args, dup_args, Ret6, success, opt_error, negative,
  Result6, zeroed, getopt6_clean, argv_size, give_dup, give_dup_if, give_args, give_results,
  out_failed, given, finish, start, parse_args, getopt6_run, cleared, getopt6,
}
use libhx.Opt.{HxOption, has_flag}
use libhx.Prelude.{
  ℕ, suc, ◌+◌, ◌≡◌, refl, ap, sym, ◌∙◌, Bool, true, false, not, ◌&&◌, ◌||◌, if_both, Option, none,
  some, List, [], ◌∷◌, if◌then◌else◌, arith,
}

abbrev pub is_set {ℓ} : {A : Type ℓ} → Option A → Bool
is_set none = false
is_set (some a) = true

-- the vectors in `result` are those that the flags ask for
pub record Asked (flags : ℕ) (r : Result6) : Type 0 where
  pub desc : is_set r.desc ≡ has_flag flags iter_opts
  pub oarg : is_set r.oarg ≡ has_flag flags iter_opts
  pub uarg : is_set r.uarg ≡ has_flag flags iter_args
  pub dup_argv : is_set r.dup_argv ≡ has_flag flags dup_args

pub record NoVectors (r : Result6) : Type 0 where
  pub desc : r.desc ≡ none
  pub oarg : r.oarg ≡ none
  pub uarg : r.uarg ≡ none
  pub dup_argv : r.dup_argv ≡ none

-- What HX_getopt6 leaves of `result`, with each thing that it returns: for EINVAL (a misuse of the
-- flags) what was there before; for any other failure no vector; and on success the vectors that the
-- flags ask for.
abbrev pub Returned : Option Result6 → ℕ → Ret6 × Option Result6 → Type 0
Returned result flags (negative einval, r) = r ≡ result
Returned result flags (negative e, none) = result ≡ none
Returned result flags (negative e, some r) = NoVectors r
Returned result flags (opt_error c, none) = result ≡ none
Returned result flags (opt_error c, some r) = NoVectors r
Returned result flags (success, none) = result ≡ none
Returned result flags (success, some r) = Asked flags r

getopt6_clean-NoVectors : (r : Result6) → NoVectors (getopt6_clean r)
unfolding getopt6_clean
getopt6_clean-NoVectors r = record { desc = refl; oarg = refl; uarg = refl; dup_argv = refl }

abbrev AskedIf : ℕ → Bool × Result6 → Type 0
AskedIf flags x = x.0 ≡ true → Asked flags x.1

module _ (memory : ℕ → Bool) (flags : ℕ) (arg0 : Option (List ℕ)) where
  give_dup_if-Asked :
      (v : Vars) (r : Result6)
      → is_set r.desc ≡ has_flag flags iter_opts
      → is_set r.oarg ≡ has_flag flags iter_opts
      → is_set r.uarg ≡ has_flag flags iter_args
      → r.dup_argv ≡ none
      → AskedIf flags (give_dup_if memory flags arg0 v r)
  unfolding give_dup_if
  give_dup_if-Asked v r d o u n =
      if_both (AskedIf flags) (has_flag flags dup_args) (λ t. dup arg0 t)
        (λ f e. record { desc = d; oarg = o; uarg = u; dup_argv = ap is_set n ∙ sym f })
    where
      asked :
          (b : Bool) (x : Result6)
          → has_flag flags dup_args ≡ true
          → is_set x.desc ≡ has_flag flags iter_opts
          → is_set x.oarg ≡ has_flag flags iter_opts
          → is_set x.uarg ≡ has_flag flags iter_args
          → is_set x.dup_argv ≡ true
          → AskedIf flags (if b then (true, x) else (false, r))
      asked b x t d' o' u' s =
          if_both (AskedIf flags) b
            (λ h e. record { desc = d'; oarg = o'; uarg = u'; dup_argv = s ∙ sym t })
            (λ h e. absurd (ground (arith, e)))

      dup :
          (a : Option (List ℕ))
          → has_flag flags dup_args ≡ true
          → AskedIf flags (give_dup memory a v r)
      dup none t = asked _ _ t d o u refl
      dup (some a) t = asked _ _ t d o u refl

  give_args-Asked :
      (v : Vars) (r : Result6)
      → is_set r.desc ≡ has_flag flags iter_opts
      → is_set r.oarg ≡ has_flag flags iter_opts
      → r.uarg ≡ none
      → r.dup_argv ≡ none
      → AskedIf flags (give_args memory flags arg0 v r)
  unfolding give_args
  give_args-Asked v r d o u n =
      if_both (AskedIf flags) (has_flag flags iter_args)
        (λ t.
          if_both (AskedIf flags) (memory v.allocs) (λ m. give_dup_if-Asked _ _ d o (sym t) n)
            (λ m e. absurd (ground (arith, e))))
        (λ f. give_dup_if-Asked v r d o (ap is_set u ∙ sym f) n)

  give_results-Asked : (v : Vars) → AskedIf flags (give_results memory flags arg0 v zeroed)
  unfolding give_results
  give_results-Asked v =
      if_both (AskedIf flags) (has_flag flags iter_opts)
        (λ t.
          if_both (AskedIf flags) (memory v.allocs && memory (suc v.allocs))
            (λ m. give_args-Asked _ _ (sym t) (sym t) refl refl)
            (λ m e. absurd (ground (arith, e))))
        (λ f. give_args-Asked v zeroed (sym f) (sym f) refl refl)

  given-Returned :
      (result : Option Result6) (x : Bool × Result6)
      → AskedIf flags x
      → Returned result flags (given x)
  unfolding given out_failed
  given-Returned result (true, r) h = h refl
  given-Returned result (false, r) h = getopt6_clean-NoVectors r

  finish-Returned :
      (result : Option Result6) (p : Parsed)
      → Returned result flags (finish memory flags arg0 (cleared result) p)
  unfolding finish out_failed
  finish-Returned none (bad_option e) = refl
  finish-Returned (some r) (bad_option e) = getopt6_clean-NoVectors zeroed
  finish-Returned none failed = refl
  finish-Returned (some r) failed = getopt6_clean-NoVectors zeroed
  finish-Returned none (parsed v) = refl
  finish-Returned (some r) (parsed v) =
      given-Returned (some r) (give_results memory flags arg0 v zeroed) (give_results-Asked v)

module _ (memory : ℕ → Bool) (table : List HxOption) where
  sizes-argv_size : (args : List (List ℕ)) → sizes args ≡ argv_size args
  sizes-argv_size [] = refl
  sizes-argv_size (a ∷ args) = omega (arith, sizes-argv_size args)

  pub parse_args-ends :
      (rq_order : Bool) (args : List (List ℕ))
      → (p : Parsed) × (parse_args memory table rq_order args ≡ some p)
  unfolding parse_args
  parse_args-ends rq_order [] = (parsed start, refl)
  parse_args-ends rq_order (op ∷ args) =
      getopt_loop-measure memory table (argv_size (op ∷ args) + 2) rq_order s_normal op args start
        (omega (arith, sizes-argv_size args))

  abbrev Finishes : Option Result6 → ℕ → Option (Ret6 × Option Result6) → Type 0
  Finishes result flags o = (x : Ret6 × Option Result6) × (o ≡ some x) × Returned result flags x

  run-Returned :
      (posix : Bool) (argv : List (List ℕ)) (result : Option Result6) (flags : ℕ)
      → Finishes result flags (getopt6_run memory table posix argv (cleared result) flags)
  unfolding getopt6_run
  run-Returned posix [] result flags =
      (_, refl, finish-Returned memory flags none result (parsed start))
  run-Returned posix (arg0 ∷ args) result flags =
      let rq_order = has_flag flags rq_order_flag || (not (has_flag flags any_order) && posix) in
      let (p, e) = parse_args-ends rq_order args in
      (
        finish memory flags (some arg0) (cleared result) p,
        ap
            (λ (o : Option Parsed). elim o as (λ _. Option (Ret6 × Option Result6)) [
              | none ↦ none
              | some q ↦ some (finish memory flags (some arg0) (cleared result) q)
            ])
            e,
        finish-Returned memory flags (some arg0) result p,
      )

  short-Returned :
      (result : Option Result6) (flags : ℕ)
      → Returned result flags (out_failed (negative enomem) (cleared result))
  unfolding out_failed
  short-Returned none flags = refl
  short-Returned (some r) flags = getopt6_clean-NoVectors zeroed

  -- HX_getopt6 returns for any table, arguments, flags and memory. After a misuse of the flags
  -- (EINVAL) `result` is as it was; after a bad option or without memory it has no vectors; and on
  -- success it has the vectors that the flags ask for and no other ones.
  pub getopt6-Returned :
      (posix : Bool) (argv : List (List ℕ)) (result : Option Result6) (flags : ℕ)
      → (x : Ret6 × Option Result6) × (getopt6 memory table posix argv result flags ≡ some x)
        × Returned result flags x
  unfolding getopt6
  getopt6-Returned posix argv result flags =
      let P = Finishes result flags in
      if_both P (has_flag flags rq_order_flag && has_flag flags any_order)
        (λ t. ((negative einval, result), refl, refl))
        (λ f.
          if_both P _ (λ t. ((negative einval, result), refl, refl))
            (λ g.
              if_both P (not (memory 0 && memory 1 && memory 2))
                (λ t. (_, refl, short-Returned result flags))
                (λ h. run-Returned posix argv result flags)))
