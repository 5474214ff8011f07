-- ===== src/Map/Init/Tests.antt =====
-- HXmap_init of src/map.c at concrete flags.
use libhx.Map.Init.Owned.{IsUsable, map_init-IsUsable}
use libhx.Map.Init.{
  fn_strcmp, fn_strdup, fn_free, fn_djb2, type_hash, made, init_failed, init_einval, map_init,
  map_init5, init4, ops_setup, default_ops,
}
use libhx.Prelude.{◌≡◌, refl, true}

-- HXMAP_SCKEY and HXMAP_SCDATA
run_map_init :
    map_init true type_hash 60
    ≡ made (record {
      type = type_hash;
      flags = 60;
      ops = record {
        k_compare = fn_strcmp;
        k_clone = fn_strdup;
        k_free = fn_free;
        d_clone = fn_strdup;
        d_free = fn_free;
        k_hash = fn_djb2;
      };
      items = 0;
      tid = 1;
    })
unfolding map_init map_init5 init4 ops_setup default_ops
run_map_init = refl

-- HXMAP_CKEY without HXMAP_SKEY is refused
run_map_init_ckey : map_init true type_hash 8 ≡ init_failed init_einval
unfolding map_init
run_map_init_ckey = refl

map_init-IsUsable_example : IsUsable (map_init true type_hash 60)
map_init-IsUsable_example = map_init-IsUsable true type_hash 60
