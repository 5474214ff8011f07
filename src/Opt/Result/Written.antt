-- ===== src/Opt/Result/Written.antt =====
-- HX_getopt6 of src/opt.c on a command line that is written from items: a round trip.
use libhx.Opt.Getopt.Items.{
  Item, words, all_calls, all_args, AllItems, Leads, last, round, getopt_loop-Leads,
}
use libhx.Opt.Getopt.Items.Rounds.{
  descs, values, Plus, Plus-nothing, Plus-with_arg, Plus-trans, Parses, assigned-none,
}
use libhx.Opt.Getopt.Items.Roundtrip.{items-Gets}
use libhx.Opt.Getopt.Items.Strings.{with_arg, normal-dashes, term-pushed}
use libhx.Opt.Getopt.{s_normal, s_terminated, adv_arg, Vars, parsed, advanced, dash}
use libhx.Opt.Result.{
  success, Result6, zeroed, iter_opts, iter_args, any_order, give_results, give_args, give_dup_if,
  given, finish, start, parse_args, getopt6_run, getopt6, argv_size, clip,
}
use libhx.Opt.Result.Clean.{parse_args-ends}
use libhx.Opt.{HxOption}
use libhx.Prelude.{
  ℕ, suc, ◌+◌, ◌≡◌, refl, ap, sym, subst, Bool, true, false, Option, none, some, List, [], ◌∷◌,
  ◌++◌, append-nil, length,
}

-- The end of the command line: nothing, or -- and the arguments behind it.
abbrev pub tail_words : Option (List (List ℕ)) → List (List ℕ)
tail_words none = []
tail_words (some rest) = (dash ∷ dash ∷ []) ∷ rest

abbrev pub tail_args : Option (List (List ℕ)) → List (List ℕ)
tail_args none = []
tail_args (some rest) = rest

-- HXOPT_ANY_ORDER, HXOPT_ITER_OPTS and HXOPT_ITER_ARGS
abbrev pub all_flags : ℕ
all_flags = any_order + (iter_opts + iter_args)

module _ (table : List HxOption) (memory : ℕ → Bool) (all : (i : ℕ) → memory i ≡ true) where
  term-Leads :
      (a : List ℕ) (rest : List (List ℕ)) (v : Vars)
      → (w : Vars) × Plus v [] (a ∷ rest) w
        × Leads table memory false s_terminated a rest v (parsed w)
  unfolding advanced
  term-Leads a [] v =
      let w = with_arg v a in
      (
        w,
        Plus-with_arg v a,
        last s_terminated none adv_arg w w (term-pushed memory table all a [] v)
            (assigned-none table memory all w) refl,
      )
  term-Leads a (b ∷ rest) v =
      let u = with_arg v a in
      let (w, p, more) = term-Leads b rest u in
      (
        w,
        Plus-trans v u w [] [] (a ∷ []) (b ∷ rest) (Plus-with_arg v a) p,
        round s_terminated none adv_arg u u b rest (term-pushed memory table all a (b ∷ rest) v)
            (assigned-none table memory all u) refl more,
      )

  tail-Parses :
      (tail : Option (List (List ℕ))) (v : Vars)
      → (w : Vars) × Plus v [] (tail_args tail) w
        × Parses table memory all (tail_words tail) v (parsed w)
  unfolding advanced
  tail-Parses none v = (v, Plus-nothing v, refl)
  tail-Parses (some []) v = (
    v,
    Plus-nothing v,
    last s_terminated none adv_arg v v (normal-dashes memory table all [] v)
        (assigned-none table memory all v) refl,
  )
  tail-Parses (some (a ∷ rest)) v =
      let (w, p, more) = term-Leads a rest v in
      (
        w,
        p,
        round s_terminated none adv_arg v v a rest (normal-dashes memory table all (a ∷ rest) v)
            (assigned-none table memory all v) refl more,
      )

  parse_args-Parses :
      (args : List (List ℕ)) (w : Vars)
      → Parses table memory all args start (parsed w)
      → parse_args memory table false args ≡ some (parsed w)
  unfolding parse_args
  parse_args-Parses [] w p = ap some (sym p)
  parse_args-Parses (op ∷ args) w p =
      let (x, e) = parse_args-ends memory table false (op ∷ args) in
      getopt_loop-Leads table memory false (argv_size (op ∷ args) + 2) s_normal op args start
        (parsed w) x p e

  parse_args-words :
      (items : List Item) (tail : Option (List (List ℕ)))
      → AllItems table items
      → (w : Vars) × (parse_args memory table false (words items ++ tail_words tail)
          ≡ some (parsed w))
        × Plus start (all_calls items) (all_args items ++ tail_args tail) w
  parse_args-words items tail h =
      let (u, p, more) = items-Gets table memory all items (tail_words tail) start h in
      let (w, q, ends) = tail-Parses tail u in
      (
        w,
        parse_args-Parses (words items ++ tail_words tail) w (more (parsed w) ends),
        subst (λ cs. Plus start cs (all_args items ++ tail_args tail) w)
            (append-nil (all_calls items))
            (Plus-trans start u w (all_calls items) [] (all_args items) (tail_args tail) p q),
      )

  -- HX_getopt6 with HXOPT_ANY_ORDER, HXOPT_ITER_OPTS, HXOPT_ITER_ARGS and memory, on a command line
  -- that is written from items (and perhaps -- and more arguments): it succeeds, and `result` has
  -- exactly the items' options in order, each with its value, and the arguments in order, those behind
  -- -- included. The items' options are those that the table gives for their names and letters.
  pub getopt6-words :
      (posix : Bool) (arg0 : List ℕ) (items : List Item) (tail : Option (List (List ℕ)))
      (r : Result6)
      → AllItems table items
      → (r' : Result6) × (getopt6 memory table posix
            (arg0 ∷ (words items ++ tail_words tail))
            (some r)
            all_flags
          ≡ some (success, some r'))
        × (r'.desc ≡ some (descs (all_calls items)))
        × (r'.oarg ≡ some (values (all_calls items)))
        × (r'.uarg ≡ some (all_args items ++ tail_args tail))
        × (r'.dup_argv ≡ none)
  unfolding getopt6 getopt6_run finish give_results give_args give_dup_if given
  getopt6-words posix arg0 items tail r h =
      let (w, run, p) = parse_args-words items tail h in
      let r' : Result6 = record zeroed {
        desc = some w.desc;
        oarg = some w.oarg;
        uarg = some w.uarg;
        nopts = clip (length w.oarg);
        nargs = clip (length w.uarg);
      } in
      let given_all : finish memory all_flags (some arg0) (some zeroed) (parsed w)
          ≡ (success, some r') =
        rw (all w.allocs, all (suc w.allocs)) (rw (all (suc (suc w.allocs))) refl) in
      (
        r',
        rw (all 0, all 1, all 2) (rw (run, getopt6_run) (ap some given_all)),
        ap some p.desc,
        ap some p.oarg,
        ap some p.uarg,
        refl,
      )
