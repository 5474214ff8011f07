-- ===== src/Map/View.antt =====
-- The map functions of src/map.c for maps of both types at once.
use libhx.Map.{HxMap, hash, rbtree, unknown, map_add}
use libhx.Ops.{MapOps, IsLawful, Ret, singular}
use libhx.Prelude.{Bool, not, ◌&&◌, if_both, Option, none, some, List}
use libhx.Rbtree
use libhx.Rbtree.Sorted.{lookup}
use libhx.Rbtree.Valid as TreeValid
use libhx.Umap
use libhx.Umap.Refine.{add-AddRefines}
use libhx.Umap.Valid as TableValid

module _ {ℓ} {K V : Type ℓ} (o : MapOps K V) where
  -- the invariant of the map's type
  abbrev pub IsMap : HxMap K V → Type ℓ
  IsMap (hash m) = TableValid.IsValid o m
  IsMap (rbtree t) = TreeValid.IsValid o t
  IsMap (unknown flags) = Unit

  abbrev Keeps : Ret × HxMap K V → Type ℓ
  Keeps r = IsMap (r.1)

  -- the datum of a key in a list of entries
  abbrev pub datum_in : Option (List (K × V)) → K → Option V
  datum_in none key = none
  datum_in (some es) key = elim (lookup o es key) [ none ↦ none | some e ↦ some e.1 ]

  -- HXmap_add keeps the invariant of a map of either type, whatever it returns: refused for a set,
  -- refused or failed in the type's own function, or done.
  pub map_add-IsMap :
      (law : IsLawful o) (memory node_memory : Bool) (m : HxMap K V) (key : K) (value : V)
      → IsMap m
      → IsMap ((map_add o memory node_memory m key value).1)
  unfolding map_add
  map_add-IsMap law memory node_memory (hash m) key value v =
      if_both Keeps (singular m.flags && not (o.d_is_null value)) (λ t. v)
        (λ f. (add-AddRefines o law memory node_memory m key value v).valid)
  map_add-IsMap law memory node_memory (rbtree t) key value v =
      if_both Keeps (singular t.flags && not (o.d_is_null value)) (λ s. v)
        (λ f. TreeValid.add-IsValid o law node_memory t key value v)
  map_add-IsMap law memory node_memory (unknown flags) key value v =
      if_both Keeps (singular flags && not (o.d_is_null value)) (λ s. tt) (λ f. tt)
