-- ===== src/Map/Traverse/Visit.antt =====
-- A loop of calls of HXmap_traverse of src/map.c, for maps of both types.
use libhx.Map.Traverse.{HxTrav, map_visit}
use libhx.Ops.{MapOps}
use libhx.Prelude.{suc, ◌≡◌, Option, none, some, List, length}
use libhx.Rbtree
use libhx.Rbtree.Traverse as TreeTraverse
use libhx.Rbtree.{Rbtree}
use libhx.Umap
use libhx.Umap.Traverse as TableTraverse
use libhx.Umap.Traverse.{Found}
use libhx.Umap.{Umap}

module _ {ℓ} {K V : Type ℓ} (o : MapOps K V) where
  -- A loop over the traverser sees the entries and ends; or there is no traverser, and there are no
  -- entries either.
  pub data VisitsAll : Option (HxTrav K V) → Option (List (K × V)) → Type ℓ where
    visits :
        {t : HxTrav K V} {es : List (K × V)}
        → map_visit o (suc (length es)) (some t) ≡ some es
        → VisitsAll (some t) (some es)
    neither : VisitsAll none none
