-- ===== src/Map/Traverse/Tests.antt =====
-- The loop over HXmap_traverse of src/map.c at a concrete map.
use libhx.Map.Traverse.Free.{all_releases, map_free-perm}
use libhx.Map.Traverse.{map_free}
use mathlib.Core.List.{Perm}
use libhx.Ops.ByString.{by_string}
use libhx.Bytes.{codes}
use libhx.Rbtree.{red, black, leaf, node}
use libhx.Map.{HxMap, hash, rbtree, map_add, map_keysvalues}
use libhx.Ops.ByValue.{by_value}
use libhx.Prelude.{ℕ, refl, List, true}
use libhx.Umap.{init}

abbrev empty : HxMap ℕ ℕ
unfolding init
empty = hash (init by_value 0)

one : HxMap ℕ ℕ
unfolding map_add
one = (map_add by_value true true empty 25 7).1

abbrev words : HxMap (List ℕ) (List ℕ)
words = rbtree (record {
  root = node black (node red leaf (codes "a") (codes "1") leaf) (codes "b") (codes "2") leaf;
  items = 2;
  flags = 60;
  tid = 1;
})

map_free-perm_example :
    Perm (map_free by_string words) (all_releases by_string (map_keysvalues words))
unfolding by_string
map_free-perm_example = map_free-perm by_string words refl refl
