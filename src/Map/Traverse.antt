-- ===== src/Map/Traverse.antt =====
-- The functions of src/map.c that choose by the type of a traverser: HXmap_travinit, HXmap_traverse
-- and HXmap_travfree; and HXmap_qfe and HXmap_free, which choose by the type of the map.
pub mod Visit
pub mod Free
mod Tests
use libhx.Map.{HxMap, hash, rbtree, unknown}
use libhx.Ops.{MapOps, Release}
use libhx.Prelude.{ℕ, zero, suc, Bool, Option, none, some, List, [], ◌∷◌}
use libhx.Rbtree
use libhx.Rbtree.Traverse as TreeTraverse
use libhx.Rbtree.{Rbtree}
use libhx.Umap
use libhx.Umap.Traverse as TableTraverse
use libhx.Umap.Traverse.{Found, no_entry, entry, wild}
use libhx.Umap.{Umap}

-- `struct HXmap_trav` by `type`, with the map that the pointer `hmap` or `tree` leads to
pub data HxTrav {ℓ} (K V : Type ℓ) : Type ℓ where
  hash_trav : Umap K V → TableTraverse.Trav → HxTrav K V
  tree_trav : Rbtree K V → TreeTraverse.Trav K → HxTrav K V
  other_trav : HxTrav K V

module _ {ℓ} {K V : Type ℓ} where
  -- `HXmap_travinit`, when malloc succeeds; `none` is NULL with EINVAL
  unfoldable pub map_travinit : HxMap K V → ℕ → Option (HxTrav K V)
  unfolding TableTraverse.trav_init TreeTraverse.trav_init
  map_travinit (hash m) flags = some (hash_trav m (TableTraverse.trav_init m flags))
  map_travinit (rbtree t) flags = some (tree_trav t (TreeTraverse.trav_init flags))
  map_travinit (unknown f) flags = none

  -- the node that HXrbtree_traverse returns, or NULL
  abbrev pub tree_node : Option (K × V) → Found K V
  tree_node none = no_entry
  tree_node (some e) = entry e

  -- what becomes of a call of HXrbtree_traverse; a read of freed memory is `wild`
  abbrev pub tree_step :
      Rbtree K V
      → TreeTraverse.Trav K
      → Option (Option (K × V) × TreeTraverse.Trav K)
      → Found K V × Option (HxTrav K V)
  tree_step m t none = (wild, some (tree_trav m t))
  tree_step m t (some r) = (tree_node r.0, some (tree_trav m r.1))

  -- `HXmap_qfe`, where `fn` is given with the state that it changes
  unfoldable pub map_qfe {κ} : {S : Type κ} → HxMap K V → (S → K × V → S × Bool) → S → S
  unfolding Umap.qfe_buckets
  map_qfe (hash m) fn s = (Umap.qfe_buckets fn s m.buckets).0
  map_qfe (rbtree t) fn s = Rbtree.qfe (λ e u. let (u', go) = fn u e in (go, u')) t.root s
  map_qfe (unknown f) fn s = s

module _ {ℓ} {K V : Type ℓ} (o : MapOps K V) where
  -- `HXmap_traverse`; the first clause is a NULL traverser
  unfoldable pub map_traverse : Option (HxTrav K V) → Found K V × Option (HxTrav K V)
  unfolding TableTraverse.traverse TreeTraverse.traverse
  map_traverse none = (no_entry, none)
  map_traverse (some (hash_trav m t)) =
      let r = TableTraverse.traverse m t in (r.0, some (hash_trav m r.1))
  map_traverse (some (tree_trav m t)) = tree_step m t (TreeTraverse.traverse o m t)
  map_traverse (some other_trav) = (no_entry, some other_trav)

  -- `HXmap_travfree`: the calls of `k_free`
  unfoldable pub map_travfree : Option (HxTrav K V) → List (Option K)
  unfolding TreeTraverse.trav_free
  map_travfree none = []
  map_travfree (some (hash_trav m t)) = []
  map_travfree (some (tree_trav m t)) = TreeTraverse.trav_free o m t
  map_travfree (some other_trav) = []

  -- `HXmap_free`: the calls of `k_free` and `d_free`
  unfoldable pub map_free : HxMap K V → List (Release K V)
  unfolding Umap.free_buckets
  map_free (hash m) = Umap.free_buckets o.k_free o.d_free m.buckets
  map_free (rbtree t) = Rbtree.free_dive o.k_free o.d_free t.root
  map_free (unknown f) = []

  -- the loop `while ((node = HXmap_traverse(trav)) != NULL)`, on fuel
  unfoldable pub map_visit : ℕ → Option (HxTrav K V) → Option (List (K × V))
  unfolding map_traverse
  map_visit zero t = none
  map_visit (suc n) t =
      let rest = map_visit n (map_traverse t).1 in
      elim (map_traverse t).0 [
        | no_entry ↦ some []
        | entry e ↦ elim rest [ none ↦ none | some es ↦ some (e ∷ es) ]
        | wild ↦ none
      ]
