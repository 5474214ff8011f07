-- ===== src/Opt/Getopt/Items/Strings.antt =====
-- The handlers of HX_getopt6 in src/opt.c on written items: which state and advance each word gives.
use libhx.Bytes.{mem}
use libhx.Opt.Getopt.Items.{IsLetter, IsName, StartsPlain, call}
use libhx.Opt.Getopt.{
  s_normal, s_short, s_twolong, s_long, s_terminated, getopt_term, adv_arg, adv_arg2, adv_char,
  stay, Call, by_long, by_short, Vars, go, getopt_twolong, twolong_option, required_argument,
  getopt_long, long_parts, long_option, split_equal, getopt_short, short_option, normal_other,
  getopt_normal, pushed, or_same, handle, push_uarg, do_assign_front, dash, equal_sign,
}
use libhx.Opt.{HxOption, has_flag, opt_optional}
use libhx.Prelude.{
  ℕ, suc, ◌≡◌, refl, ap, Bool, true, false, none, some, List, [], ◌∷◌, ◌++◌, ◌==◌, arith,
}

-- the vars after `do_assign_front`, and after HXdeque_push to `uarg`, with memory
abbrev pub called : Vars → Call → Vars
called v c = record v {
  desc = v.desc ++ c.current ∷ [];
  oarg = v.oarg ++ c.value ∷ [];
  calls = v.calls ++ c ∷ [];
  allocs = suc (suc v.allocs);
}

abbrev pub with_arg : Vars → List ℕ → Vars
with_arg v a = record v { uarg = v.uarg ++ a ∷ []; allocs = suc v.allocs }

mem-append : (name value : List ℕ) → mem equal_sign (name ++ equal_sign ∷ value) ≡ true
mem-append [] value = refl
mem-append (c ∷ name) value = ground (arith, mem-append name value)

split_equal-append :
    (name value : List ℕ)
    → mem equal_sign name ≡ false
    → split_equal (name ++ equal_sign ∷ value) ≡ some (name, value)
unfolding split_equal
split_equal-append [] value h = refl
split_equal-append (c ∷ name) value h =
    let here : (c == equal_sign) ≡ false = ground arith in
    let there : mem equal_sign name ≡ false = ground arith in
    rw (here, split_equal-append name value there)

module _ (memory : ℕ → Bool) (table : List HxOption) (all : (i : ℕ) → memory i ≡ true) where
  pub do_assign_front-memory :
      (v : Vars) (c : Call) → do_assign_front memory v c ≡ some (called v c)
  unfolding do_assign_front
  do_assign_front-memory v c = rw (all v.allocs, all (suc v.allocs))

  push_uarg-memory : (v : Vars) (a : List ℕ) → push_uarg memory v a ≡ some (with_arg v a)
  unfolding push_uarg
  push_uarg-memory v a = rw (all v.allocs)

  -- an argument that does not start with a dash
  other-pushed :
      (a : List ℕ) (v : Vars)
      → normal_other memory table false a v ≡ go s_normal none adv_arg (with_arg v a)
  unfolding normal_other
  other-pushed a v = ap (pushed s_normal) (push_uarg-memory v a)

  pub normal-plain :
      (a : List ℕ) (args : List (List ℕ)) (v : Vars)
      → StartsPlain a
      → handle memory table false s_normal a args v ≡ go s_normal none adv_arg (with_arg v a)
  unfolding handle getopt_normal
  normal-plain [] args v h = other-pushed [] v
  normal-plain (c ∷ []) args v h = rw h (other-pushed (c ∷ []) v)
  normal-plain (c ∷ d ∷ []) args v h = rw h (other-pushed (c ∷ d ∷ []) v)
  normal-plain (c ∷ d ∷ e ∷ s) args v h = rw h (other-pushed (c ∷ d ∷ e ∷ s) v)

  pub normal-dash :
      (args : List (List ℕ)) (v : Vars)
      → handle memory table false s_normal (dash ∷ []) args v
        ≡ go s_normal none adv_arg (with_arg v (dash ∷ []))
  unfolding handle getopt_normal
  normal-dash args v =
      ap (λ w. go s_normal none adv_arg (or_same v w)) (push_uarg-memory v (dash ∷ []))

  pub normal-short :
      (op : ℕ) (s : List ℕ) (args : List (List ℕ)) (v : Vars)
      → (op == dash) ≡ false
      → handle memory table false s_normal (dash ∷ op ∷ s) args v ≡ go s_short none adv_char v
  unfolding handle getopt_normal
  normal-short op [] args v h = rw h
  normal-short op (c ∷ s) args v h = rw h

  pub normal-twolong :
      (c : ℕ) (s : List ℕ) (args : List (List ℕ)) (v : Vars)
      → mem equal_sign (c ∷ s) ≡ false
      → handle memory table false s_normal (dash ∷ dash ∷ c ∷ s) args v ≡ go s_twolong none stay v
  unfolding handle getopt_normal
  normal-twolong c s args v h = rw h

  pub normal-long :
      (c : ℕ) (s value : List ℕ) (args : List (List ℕ)) (v : Vars)
      → handle memory table false s_normal (dash ∷ dash ∷ c ∷ (s ++ equal_sign ∷ value)) args v
        ≡ go s_long none stay v
  unfolding handle getopt_normal
  normal-long c s value args v = rw (mem-append (c ∷ s) value)

  pub twolong-flag :
      (d : HxOption) (c : ℕ) (s : List ℕ) (args : List (List ℕ)) (v : Vars)
      → IsName table true (c ∷ s) d
      → handle memory table false s_twolong (dash ∷ dash ∷ c ∷ s) args v
        ≡ go s_normal (some (call by_long d none)) adv_arg v
  unfolding handle getopt_twolong twolong_option
  twolong-flag d c s args v (plain, found, void) = rw (found, handle, getopt_twolong) (rw void)

  pub twolong-value :
      (d : HxOption) (c : ℕ) (s value : List ℕ) (args : List (List ℕ)) (v : Vars)
      → IsName table false (c ∷ s) d
      → has_flag d.typ opt_optional ≡ false
      → handle memory table false s_twolong (dash ∷ dash ∷ c ∷ s) (value ∷ args) v
        ≡ go s_normal (some (call by_long d (some value))) adv_arg2 v
  unfolding handle getopt_twolong twolong_option required_argument
  twolong-value d c s value args v (plain, found, void) required =
      rw (found, handle, getopt_twolong) (rw (void, required))

  pub long-value :
      (d : HxOption) (c : ℕ) (s value : List ℕ) (args : List (List ℕ)) (v : Vars)
      → IsName table false (c ∷ s) d
      → handle memory table false s_long (dash ∷ dash ∷ c ∷ (s ++ equal_sign ∷ value)) args v
        ≡ go s_normal none adv_arg
            (called (record v { allocs = suc v.allocs }) (call by_long d (some value)))
  unfolding handle getopt_long long_parts long_option
  long-value d c s value args v (plain, found, void) =
      rw (all v.allocs, split_equal-append (dash ∷ dash ∷ c ∷ s) value plain)
        (rw (found, long_parts)
          (rw (
            void,
            do_assign_front-memory (record v { allocs = suc v.allocs })
                (call by_long d (some value)),
          )))

  pub short-end :
      (args : List (List ℕ)) (v : Vars)
      → handle memory table false s_short [] args v ≡ go s_normal none adv_arg v
  unfolding handle getopt_short
  short-end args v = refl

  pub short-flag :
      (op : ℕ) (d : HxOption) (s : List ℕ) (args : List (List ℕ)) (v : Vars)
      → IsLetter table true op d
      → handle memory table false s_short (op ∷ s) args v
        ≡ go s_short (some (call by_short d none)) adv_char v
  unfolding handle getopt_short short_option
  short-flag op d s args v (plain, found, void) = rw (found, handle, getopt_short) (rw void)

  pub short-attached :
      (op : ℕ) (d : HxOption) (c : ℕ) (s : List ℕ) (args : List (List ℕ)) (v : Vars)
      → IsLetter table false op d
      → handle memory table false s_short (op ∷ c ∷ s) args v
        ≡ go s_normal (some (call by_short d (some (c ∷ s)))) adv_arg v
  unfolding handle getopt_short short_option
  short-attached op d c s args v (plain, found, void) = rw (found, handle, getopt_short) (rw void)

  pub short-separate :
      (op : ℕ) (d : HxOption) (value : List ℕ) (args : List (List ℕ)) (v : Vars)
      → IsLetter table false op d
      → has_flag d.typ opt_optional ≡ false
      → handle memory table false s_short (op ∷ []) (value ∷ args) v
        ≡ go s_normal (some (call by_short d (some value))) adv_arg2 v
  unfolding handle getopt_short short_option required_argument
  short-separate op d value args v (plain, found, void) required =
      rw (found, handle, getopt_short) (rw (void, required))

  pub normal-dashes :
      (args : List (List ℕ)) (v : Vars)
      → handle memory table false s_normal (dash ∷ dash ∷ []) args v
        ≡ go s_terminated none adv_arg v
  unfolding handle getopt_normal
  normal-dashes args v = refl

  pub term-pushed :
      (a : List ℕ) (args : List (List ℕ)) (v : Vars)
      → handle memory table false s_terminated a args v
        ≡ go s_terminated none adv_arg (with_arg v a)
  unfolding handle getopt_term
  term-pushed a args v = ap (pushed s_terminated) (push_uarg-memory v a)
