-- ===== src/Map.antt =====
-- The functions of src/map.c that choose by the type of the map: HXmap_find, HXmap_get, HXmap_add,
-- HXmap_del and HXmap_keysvalues, for the two types that HXmap_init5 makes. The fallback of each switch, for a type
-- that no map has, is `unknown`.
pub mod View
pub mod Traverse
pub mod Init
pub mod Tests
use libhx.Ops.{MapOps, Ret, fail, einval, singular}
use libhx.Prelude.{ℕ, Bool, not, ◌&&◌, Option, none, some, List, if◌then◌else◌}
use libhx.Rbtree
use libhx.Rbtree.Remove
use libhx.Rbtree.{Rbtree}
use libhx.Umap
use libhx.Umap.{Umap}

-- `struct HXmap`, by `type`
pub data HxMap {ℓ} (K V : Type ℓ) : Type ℓ where
  hash : Umap K V → HxMap K V
  rbtree : Rbtree K V → HxMap K V
  unknown : ℕ → HxMap K V

-- The flags of the private part.
abbrev pub flags_of {ℓ} : {K V : Type ℓ} → HxMap K V → ℕ
flags_of (hash m) = m.flags
flags_of (rbtree t) = t.flags
flags_of (unknown flags) = flags

-- `HXmap_keysvalues`, when malloc succeeds; `none` is NULL.
unfoldable pub map_keysvalues {ℓ} : {K V : Type ℓ} → HxMap K V → Option (List (K × V))
unfolding Umap.keysvalues
map_keysvalues (hash m) = some (Umap.keysvalues m.buckets)
map_keysvalues (rbtree t) = some (Rbtree.keysvalues t.root)
map_keysvalues (unknown flags) = none

module _ {ℓ} {K V : Type ℓ} (o : MapOps K V) where
  -- `HXmap_find`
  unfoldable pub map_find : HxMap K V → K → Option (K × V)
  unfolding Umap.find
  map_find (hash m) key = Umap.find o m key
  map_find (rbtree t) key = Rbtree.find o t.root key
  map_find (unknown flags) key = none

  -- `HXmap_get`; `none` is NULL with ENOENT.
  unfoldable pub map_get : HxMap K V → K → Option V
  unfolding map_find
  map_get m key = elim (map_find m key) [ none ↦ none | some e ↦ some e.1 ]

  -- `HXmap_add`: the result and the map. The Booleans are the memory for a new layout and for a node.
  unfoldable pub map_add : Bool → Bool → HxMap K V → K → V → Ret × HxMap K V
  unfolding Umap.add
  map_add memory node_memory m key value =
      if singular (flags_of m) && not (o.d_is_null value) then (fail einval, m) else elim m [
        | hash u ↦ (let a = Umap.add o memory node_memory u key value in (a.ret, hash a.map))
        | rbtree t ↦ (let a = Rbtree.add o node_memory t key value in (a.ret, rbtree a.tree))
        | unknown flags ↦ (fail einval, unknown flags)
      ]

  -- `HXmap_del`: the datum (`none` is NULL) and the map; `none` for both is a loop of the tree that ran
  -- out of fuel. The Boolean is the memory for a smaller layout.
  unfoldable pub map_del : Bool → HxMap K V → K → Option (Option V × HxMap K V)
  unfolding Umap.del
  map_del memory (hash u) key = let d = Umap.del o memory u key in some (d.value, hash d.map)
  map_del memory (rbtree t) key = elim (Remove.del o t key) [
    | none ↦ none
    | some d ↦ some (d.value, rbtree d.tree)
  ]
  map_del memory (unknown flags) key = some (none, unknown flags)
