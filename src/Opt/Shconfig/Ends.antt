-- ===== src/Opt/Shconfig/Ends.antt =====
-- The readers of configuration files of src/opt.c end.
use libhx.Opt.Dequote.Shconf.{break_loop-length}
use libhx.Opt.Dequote.{shconf_break}
use libhx.Opt.Shconfig.{shconf_pairs}
use libhx.Prelude.{ℕ, suc, ◌≡◌, refl, some, List, [], ◌∷◌, ◌++◌, length, arith}
use libhx.Text.{chomp}

shconf_break-ends : (line : List ℕ) → (r : List (List ℕ × List ℕ)) × (shconf_break line ≡ some r)
unfolding shconf_break
shconf_break-ends line = break_loop-length (suc (length (chomp line))) (chomp line) (omega arith)

pub shconf_pairs-ends :
    (lines : List (List ℕ)) → (r : List (List ℕ × List ℕ)) × (shconf_pairs lines ≡ some r)
unfolding shconf_pairs
shconf_pairs-ends [] = ([], refl)
shconf_pairs-ends (ln ∷ lines) =
    let (pairs, e) = shconf_break-ends ln in
    let (more, f) = shconf_pairs-ends lines in (pairs ++ more, rw (e, shconf_pairs) (rw f refl))
