-- ===== src/Map/Tests.antt =====
-- Runs of the map functions of src/map.c that choose by type, and the theorems at concrete maps.
use libhx.Map.{HxMap, hash, map_add}
use libhx.Ops.{fail, einval}
use libhx.Ops.ByValue.{by_value}
use libhx.Prelude.{ℕ, ◌≡◌, refl, true}
use libhx.Umap.{init}

-- a map, and a set
abbrev empty : HxMap ℕ ℕ
unfolding init
empty = hash (init by_value 0)

abbrev empty_set : HxMap ℕ ℕ
unfolding init
empty_set = hash (init by_value 2)

one : HxMap ℕ ℕ
unfolding map_add
one = (map_add by_value true true empty 25 7).1

run_set : (map_add by_value true true empty_set 25 7).0 ≡ fail einval
unfolding map_add empty_set init
run_set = refl
