-- ===== src/Opt/Shconfig.antt =====
-- The readers of configuration files in src/opt.c: HX_shconf_assign, HX_shconfig, HX_shconfig_map and
-- HX_shconfig_pv. A file is the list of its lines as HX_getl gives them, or `none` if fopen fails.
pub mod Ends
pub mod Contents
mod Tests
use libhx.Map.Init.{
  type_hash, made, init_failed, map_init, map_skey, map_ckey, map_sdata, map_cdata,
}
use libhx.Map.{HxMap, hash, map_add}
use libhx.Ops.ByString.{by_string}
use libhx.Umap.{init}
use libhx.Opt.Dequote.{shconf_break}
use libhx.Opt.{HxOption, lookup_long}
use libhx.Prelude.{
  ℕ, zero, suc, ◌+◌, Bool, true, false, Option, none, some, List, [], ◌∷◌, ◌++◌, if◌then◌else◌,
  ◌==◌,
}

-- The pairs of all lines; `none` is a loop that ran out of fuel.
unfoldable pub shconf_pairs : List (List ℕ) → Option (List (List ℕ × List ℕ))
unfolding shconf_break
shconf_pairs [] = some []
shconf_pairs (ln ∷ lines) = elim (shconf_break ln) [
  | none ↦ none
  | some pairs ↦ elim (shconf_pairs lines) [ none ↦ none | some more ↦ some (pairs ++ more) ]
]

-- `HX_shconf_assign` for each pair: the calls of do_assign.
unfoldable pub shconf_assign : List HxOption → List (List ℕ × List ℕ) → List (HxOption × List ℕ)
unfolding lookup_long
shconf_assign table [] = []
shconf_assign table ((key, value) ∷ pairs) =
    let rest = shconf_assign table pairs in
    elim (lookup_long table key) [ none ↦ rest | some d ↦ (d, value) ∷ rest ]

-- `HX_shconfig`: whether it returns 1 or a negative errno, and the calls of do_assign.
unfoldable pub shconfig :
    List HxOption → Option (List (List ℕ)) → Option (Bool × List (HxOption × List ℕ))
unfolding shconf_pairs shconf_assign
shconfig table none = some (false, [])
shconfig table (some lines) = elim (shconf_pairs lines) [
  | none ↦ none
  | some pairs ↦ some (true, shconf_assign table pairs)
]

-- `HX_shconfig_pv` over the files at the paths: its result, and the calls of do_assign. The Boolean is
-- SHCONF_ONE.
unfoldable pub shconfig_pv :
    List HxOption → Bool → ℕ → List (Option (List (List ℕ))) → Option (ℕ × List (HxOption × List ℕ))
unfolding shconfig
shconfig_pv table one ret [] = some (ret, [])
shconfig_pv table one ret (file ∷ files) = elim (shconfig table file) [
  | none ↦ none
  | some v ↦
      if v.0
      then (if one then some (suc ret, v.1) else elim (shconfig_pv table one (suc ret) files) [
        | none ↦ none
        | some r ↦ some (r.0, v.1 ++ r.1)
      ])
      else shconfig_pv table one ret files
]

-- HXMAP_SCKEY | HXMAP_SCDATA
abbrev pub string_flags : ℕ
string_flags = map_skey + map_ckey + map_sdata + map_cdata

-- `memory` says for each call of HXmap_add whether malloc succeeds for a new layout and for a node; the
-- copies that HX_strdup makes of keys and data succeed.
module _ (memory : ℕ → Bool × Bool) where
  -- `HX_shconf_assignmp` for each pair, from the call `n` on; the result of HXmap_add is not looked at.
  unfoldable pub assign_pairs :
      ℕ → HxMap (List ℕ) (List ℕ) → List (List ℕ × List ℕ) → HxMap (List ℕ) (List ℕ)
  unfolding map_add
  assign_pairs n m [] = m
  assign_pairs n m ((key, value) ∷ pairs) =
      assign_pairs (suc n) (map_add by_string (memory n).0 (memory n).1 m key value).1 pairs

  -- the part of `HX_shconfig_map` behind HXmap_init; `some none` is NULL
  unfoldable pub read_map :
      HxMap (List ℕ) (List ℕ) → Option (List (List ℕ)) → Option (Option (HxMap (List ℕ) (List ℕ)))
  unfolding shconf_pairs assign_pairs
  read_map m none = some none
  read_map m (some lines) = elim (shconf_pairs lines) [
    | none ↦ none
    | some pairs ↦ some (some (assign_pairs 0 m pairs))
  ]

  -- `HX_shconfig_map`; the Boolean is the memory for the map. HXMAPT_DEFAULT is a hash map, and its
  -- operations for these flags are those on strings.
  unfoldable pub shconfig_map :
      Bool → Option (List (List ℕ)) → Option (Option (HxMap (List ℕ) (List ℕ)))
  unfolding read_map map_init init
  shconfig_map init_memory file = elim (map_init init_memory type_hash string_flags) [
    | init_failed e ↦ some none
    | made new ↦ read_map (hash (init by_string new.flags)) file
  ]
