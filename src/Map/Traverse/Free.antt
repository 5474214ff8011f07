-- ===== src/Map/Traverse/Free.antt =====
-- HXmap_free of src/map.c: what it releases, for maps of both types.
use mathlib.Core.List.{Perm, flat_map}
use mathlib.Core.List.Perm
use libhx.Map.Traverse.{map_free}
use libhx.Map.{HxMap, hash, rbtree, unknown, map_keysvalues}
use libhx.Ops.{MapOps, Release}
use libhx.Prelude.{◌≡◌, sym, subst, true, Option, none, some, List, []}
use libhx.Rbtree.Foreach.{releases, free_dive-perm}
use libhx.Umap
use libhx.Umap.Foreach.{free_buckets-flat_map}

module _ {ℓ} {K V : Type ℓ} (o : MapOps K V) where
  -- what the entries of an array hold, and nothing without an array
  abbrev pub all_releases : Option (List (K × V)) → List (Release K V)
  all_releases none = []
  all_releases (some es) = flat_map releases es

  -- HXmap_free with both free functions set releases the key and the datum of every entry of
  -- HXmap_keysvalues exactly once and nothing else, for a map of either type; for an unknown type it
  -- releases nothing.
  pub map_free-perm :
      (m : HxMap K V)
      → o.k_free ≡ true
      → o.d_free ≡ true
      → Perm (map_free o m) (all_releases (map_keysvalues m))
  unfolding map_free map_keysvalues
  map_free-perm (hash m) k d =
      rw (k, d)
        (subst (λ r. Perm r (flat_map releases (Umap.keysvalues m.buckets)))
          (sym (free_buckets-flat_map m.buckets)) (Perm.refl _))
  map_free-perm (rbtree t) k d = rw (k, d) (free_dive-perm t.root)
  map_free-perm (unknown f) k d = Perm.refl []
