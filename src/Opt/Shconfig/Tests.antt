-- ===== src/Opt/Shconfig/Tests.antt =====
-- HX_shconfig_map and HX_shconfig_pv of src/opt.c at concrete files.
use libhx.Bytes.{codes, count_while}
use libhx.Map.{hash}
use libhx.Opt.Dequote.{shconf_break, break_loop, name_value, dequote_int, byte_kind}
use libhx.Opt.Shconfig.Contents.{Pair, Assigned, shconfig_map-Assigned}
use libhx.Opt.Shconfig.{shconf_pairs, shconf_assign, shconfig, shconfig_pv, shconfig_map}
use libhx.Opt.{HxOption, lookup_long, prefix_kind, after_prefix}
use libhx.Prelude.{ℕ, ◌≡◌, refl, Bool, true, false, not, ◌==◌, some, none, List, [], ◌∷◌}
use libhx.Text.{chomp, trim_end}
use libhx.Umap.{Umap}

abbrev lines : List (List ℕ)
lines = codes "A=1 B=2\n" ∷ codes "# comment\n" ∷ codes "A='x y'\n" ∷ []

-- no memory for the node of the second pair
abbrev second_fails : ℕ → Bool × Bool
second_fails n = (true, not (n == 1))

shconfig_map-Assigned_example :
    (shconfig_map second_fails false (some lines) ≡ some none)
    × (pairs : List Pair) × (m' : Umap (List ℕ) (List ℕ)) × (shconf_pairs lines ≡ some pairs)
    × (shconfig_map second_fails true (some lines) ≡ some (some (hash m')))
    × Assigned second_fails 0 pairs (λ q. none) m'
shconfig_map-Assigned_example = shconfig_map-Assigned second_fails lines

abbrev option_a : HxOption
option_a = record { ln = some (codes "A"); sh = 0; typ = 17 }

-- with SHCONF_ONE, only the first file that can be opened is read
run_shconfig_pv :
    shconfig_pv (option_a ∷ []) true 0 (none ∷ some lines ∷ some lines ∷ [])
    ≡ some (1, (option_a, codes "1") ∷ (option_a, codes "x y") ∷ [])
unfolding shconfig_pv shconfig shconf_pairs shconf_assign shconf_break break_loop name_value
    dequote_int byte_kind count_while chomp trim_end lookup_long prefix_kind after_prefix
run_shconfig_pv = refl
