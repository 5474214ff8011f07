-- ===== src/Opt/Tests.antt =====
-- Runs of HX_getopt6 of src/opt.c, and its theorems at concrete command lines.
use libhx.Bytes.{codes}
use libhx.Opt.Getopt.Fuel.{getopt_loop-measure}
use libhx.Opt.Getopt.Items.Rounds.{descs, values}
use libhx.Opt.Getopt.Items.{
  Item, positional, lone_dash, long_flag, long_equal, short_flags, separate, words, all_calls,
  all_args,
}
use libhx.Opt.Getopt.{s_normal, Parsed, getopt_loop}
use libhx.Opt.Lookup.{Candidates, choose, lookup_long_pfx-choose}
use libhx.Opt.Result.Clean.{Returned, getopt6-Returned}
use libhx.Opt.Result.Written.{tail_words, all_flags, getopt6-words}
use libhx.Opt.Result.{Ret6, success, Result6, zeroed, start, getopt6}
use libhx.Opt.{
  HxOption, takes_void, lookup_short, lookup_long_pfx, ambig_prefix, prefix_kind, after_prefix,
  pfx_loop,
}
use libhx.Prelude.{ℕ, ◌≡◌, refl, Bool, true, false, Option, none, some, List, [], ◌∷◌, ◌++◌, arith}

abbrev verbose : HxOption
verbose = record { ln = some (codes "verbose"); sh = 118; typ = 0 }

abbrev output : HxOption
output = record { ln = some (codes "output"); sh = 111; typ = 17 }

abbrev table : List HxOption
table = verbose ∷ output ∷ []

abbrev enough : ℕ → Bool
enough n = true

-- an exact name behind two longer ones is not found
abbrev named : List ℕ → HxOption
named ln = record { ln = some ln; sh = 0; typ = 0 }

exact_is_ambiguous :
    lookup_long_pfx
      (named (codes "abc") ∷ named (codes "abd") ∷ named (codes "ab") ∷ [])
      (codes "ab")
    ≡ ambig_prefix
unfolding lookup_long_pfx pfx_loop prefix_kind after_prefix
exact_is_ambiguous = refl

lookup_long_pfx-choose_example :
    (cs : List (HxOption × Bool)) × Candidates (codes "out") table cs
    × (lookup_long_pfx table (codes "out") ≡ choose cs)
lookup_long_pfx-choose_example = lookup_long_pfx-choose table (codes "out")

abbrev items : List Item
items =
    positional (codes "in")
    ∷ long_flag verbose 118 (codes "erb")
    ∷ short_flags 118 verbose ((118, verbose) ∷ []) (separate 111 output (codes "-x"))
    ∷ long_equal output 111 (codes "ut") (codes "a=b")
    ∷ lone_dash
    ∷ []

run_words :
    words items
    ≡ codes "in" ∷ codes "--verb" ∷ codes "-vvo" ∷ codes "-x" ∷ codes "--out=a=b" ∷ codes "-" ∷ []
unfolding words
run_words = refl

getopt6-words_example :
    (r' : Result6) × (getopt6 enough table false
        (codes "prog" ∷ (words items ++ tail_words (some (codes "-v" ∷ []))))
        (some zeroed)
        all_flags
      ≡ some (success, some r'))
    × (r'.desc ≡ some (descs (all_calls items)))
    × (r'.oarg ≡ some (values (all_calls items)))
    × (r'.uarg ≡ some (all_args items ++ (codes "-v" ∷ [])))
    × (r'.dup_argv ≡ none)
unfolding takes_void lookup_short lookup_long_pfx pfx_loop prefix_kind after_prefix
getopt6-words_example =
    getopt6-words table enough (λ i. refl) false (codes "prog") items (some (codes "-v" ∷ []))
      zeroed
      (
        refl,
        (
          (refl, refl, refl),
          (
            ((refl, refl, refl), ((refl, refl, refl), tt), ((refl, refl, refl), refl)),
            ((refl, refl, refl), (tt, tt)),
          ),
        ),
      )

getopt6-Returned_example :
    (x : Ret6 × Option Result6) × (getopt6 enough table true
        (codes "prog" ∷ codes "-x" ∷ [])
        (some zeroed)
        0
      ≡ some x)
    × Returned (some zeroed) 0 x
getopt6-Returned_example =
    getopt6-Returned enough table true (codes "prog" ∷ codes "-x" ∷ []) (some zeroed) 0

getopt_loop-measure_example :
    (r : Parsed) × (getopt_loop enough table 40 false s_normal
        (codes "-vv")
        (codes "--output" ∷ [])
        start
      ≡ some r)
getopt_loop-measure_example =
    getopt_loop-measure enough table 40 false s_normal (codes "-vv") (codes "--output" ∷ []) start
      (omega arith)
