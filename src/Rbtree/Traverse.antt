-- ===== src/Rbtree/Traverse.antt =====
-- The traverser of the tree in src/map.c (struct HXrbtrav): HXrbtrav_init, HXrbtrav_next,
-- HXrbtrav_rewalk, HXrbtrav_checkpoint, HXrbtree_traverse and HXrbtrav_free.
--
-- A pointer to a node is the way to it from the root, last turn first. Such a pointer is followed in
-- the tree as it is at the time of the call, and only while the transaction ID is unchanged. The
-- arrays `path` and `dir` up to `depth` are one list of pairs, last entry first.
pub mod Order
pub mod Next
pub mod Rewalk
pub mod Visit
pub mod Change
mod Tests
use Prim.Native.Nat.{Ordering}
use Prim.Native.Nat.Ordering.{lt, eq, gt}
use libhx.Ops.{MapOps}
use libhx.Prelude.{
  ℕ, zero, suc, ◌%◌, Bool, true, false, not, ◌&&◌, ◌||◌, Option, none, some, List, [], ◌∷◌,
  if◌then◌else◌, ◌==◌,
}
use libhx.Rbtree.{Dir, left, right, Tree, leaf, node, Rbtree, sub, find}

-- `HXMAP_DTRAV`, tested in a word of flags. HXrbtrav_checkpoint and HXrbtrav_free test it in the flags
-- of the tree, where that bit is HXMAP_NOREPLACE.
abbrev pub dtrav : ℕ → Bool
dtrav flags = flags % 2 == 1

-- `struct HXrbtrav`, without the pointer to the tree. `checkpoint` is the key that the pointer leads to:
-- a copy, or the key of a node itself. `dangling` says that this key was freed with its node, so that
-- the pointer may not be followed any more. `freed` lists the calls of `k_free` so far.
pub record Trav {ℓ} (K : Type ℓ) : Type ℓ where
  pub flags : ℕ
  pub tid : ℕ
  pub current : Option (List Dir)
  pub checkpoint : Option K
  pub dangling : Bool
  pub path : List (Dir × List Dir)
  pub freed : List (Option K)

-- `HXrbtrav_init`, when calloc succeeds
unfoldable pub trav_init {ℓ} : {K : Type ℓ} → ℕ → Trav K
trav_init flags = record {
  flags = flags;
  tid = 0;
  current = none;
  checkpoint = none;
  dangling = false;
  path = [];
  freed = [];
}

-- `res == 0`
abbrev pub is_eq : Ordering → Bool
is_eq lt = false
is_eq eq = true
is_eq gt = false

-- `trav->current == NULL`
abbrev pub is_null : Option (List Dir) → Bool
is_null none = true
is_null (some way) = false

module _ {ℓ} {K V : Type ℓ} where
  -- the node that a pointer leads to
  unfoldable pub at : Tree K V → List Dir → Tree K V
  at root [] = root
  at root (d ∷ way) = sub (at root way) d

  -- `&node->key` as a struct HXmap_node
  abbrev pub entry_of : Tree K V → Option (K × V)
  entry_of leaf = none
  entry_of (node c l k v r) = some (k, v)

  -- the loop down to the left that fills `path`
  unfoldable pub dive : Tree K V → List Dir → List (Dir × List Dir) → List (Dir × List Dir)
  dive leaf way path = path
  dive (node c l k v r) way path = dive l (left ∷ way) ((left, way) ∷ path)

module _ {ℓ} {K V : Type ℓ} (o : MapOps K V) where
  -- `HXrbtrav_checkpoint` for a node with the given key, in a tree with the given flags: a copy of the
  -- key, or a pointer to the node's own
  unfoldable pub set_checkpoint : ℕ → Trav K → K → Trav K
  set_checkpoint tree_flags trav key =
      if dtrav tree_flags
      then record trav {
        checkpoint = some (o.k_clone key);
        dangling = false;
        freed = if o.k_free then trav.checkpoint ∷ trav.freed else trav.freed;
      }
      else record trav { checkpoint = some key; dangling = false }

  -- `HXrbtrav_checkpoint(trav, trav->current)`; no entry of `path` is NULL
  abbrev pub checkpoint_node : ℕ → Trav K → Tree K V → Trav K
  checkpoint_node tree_flags trav leaf = trav
  checkpoint_node tree_flags trav (node c l k v r) = set_checkpoint tree_flags trav k

  -- `depth == 0 ? NULL : path[--depth]`, and the checkpoint
  unfoldable pub arrive : Rbtree K V → Trav K → List (Dir × List Dir) → Trav K
  unfolding at
  arrive t trav [] = record trav { current = none; path = [] }
  arrive t trav ((d, way) ∷ path) =
      checkpoint_node t.flags (record trav { current = some way; path = path }) (at t.root way)

  -- the part of `HXrbtrav_next` for a node without a right child
  unfoldable pub climb : Rbtree K V → Trav K → List (Dir × List Dir) → Trav K
  unfolding arrive
  climb t trav [] = record trav { current = none; path = [] }
  climb t trav ((left, way) ∷ path) = arrive t trav ((left, way) ∷ path)
  climb t trav ((right, way) ∷ path) = climb t trav path

  -- `HXrbtrav_next` at the node `way`
  unfoldable pub next_from : Rbtree K V → Trav K → List Dir → Tree K V → Trav K
  unfolding arrive climb dive
  next_from t trav way leaf = climb t trav trav.path
  next_from t trav way (node c l k v r) =
      arrive t trav (dive (node c l k v r) (right ∷ way) ((right, way) ∷ trav.path))

  -- `HXrbtrav_next`, which is not called without a current node
  unfoldable pub next : Rbtree K V → Trav K → Trav K
  unfolding next_from at
  next t trav = elim trav.current [
    | none ↦ trav
    | some way ↦ next_from t trav way (sub (at t.root way) right)
  ]

  -- the search loop of `HXrbtrav_rewalk`: whether it found the node, and `path` or `newpath`
  unfoldable pub seek :
      K
      → Tree K V
      → List Dir
      → (path newpath : List (Dir × List Dir)) → Bool × List (Dir × List Dir)
  seek key leaf way path newpath = (false, newpath)
  seek key (node c l k v r) way path newpath = elim (o.k_compare key k) [
    | lt ↦ seek key l (left ∷ way) ((left, way) ∷ path) ((left, way) ∷ newpath)
    | eq ↦ (true, (left, way) ∷ path)
    | gt ↦ seek key r (right ∷ way) ((right, way) ∷ path) newpath
  ]

  -- what `HXrbtrav_rewalk` does after its loop
  unfoldable pub resume : Rbtree K V → Trav K → Bool × List (Dir × List Dir) → Trav K
  unfolding arrive next
  resume t trav (go_next, path) =
      let trav' = record (arrive t trav path) { tid = t.tid } in
      if go_next then next t trav' else trav'

  -- The search of `HXrbtrav_rewalk`. A traverser that has a current node has a checkpoint.
  unfoldable pub search_from : Rbtree K V → Option K → Bool × List (Dir × List Dir)
  unfolding seek
  search_from t none = (false, [])
  search_from t (some key) = seek key t.root [] [] []

  -- `HXrbtrav_rewalk`
  unfoldable pub rewalk : Rbtree K V → Trav K → Trav K
  unfolding resume dive search_from
  rewalk t trav = elim trav.current [
    | none ↦ resume t trav (false, dive t.root [] [])
    | some way ↦ resume t trav (search_from t trav.checkpoint)
  ]

  -- the node that a traverser is at
  unfoldable pub current_entry : Rbtree K V → Trav K → Option (K × V)
  unfolding at
  current_entry t trav = elim trav.current [ none ↦ none | some way ↦ entry_of (at t.root way) ]

  -- `HXrbtree_traverse`: the traverser, at the node that is returned
  unfoldable pub advance : Rbtree K V → Trav K → Trav K
  unfolding rewalk next
  advance t trav =
      if not (trav.tid == t.tid) || is_null trav.current then rewalk t trav else next t trav

  -- HXrbtrav_rewalk compares the keys with a checkpoint that has been freed.
  abbrev pub reads_freed : Rbtree K V → Trav K → Bool
  reads_freed t trav = not (trav.tid == t.tid) && (not (is_null trav.current) && trav.dangling)

  -- `none` is a read of freed memory
  unfoldable pub traverse : Rbtree K V → Trav K → Option (Option (K × V) × Trav K)
  unfolding advance current_entry
  traverse t trav =
      if reads_freed t trav then none else some (current_entry t (advance t trav), advance t trav)

  -- What HXrbtree_del of the key `gone` in the tree `t` does to a traverser: `k_free` is called for the
  -- key of the node, which may be the checkpoint.
  unfoldable pub after_del : Rbtree K V → K → Trav K → Trav K
  unfolding find
  after_del t gone trav = elim (find o t.root gone) [
    | none ↦ trav
    | some e ↦ elim trav.checkpoint [
      | none ↦ trav
      | some key ↦
          if o.k_free && (not (dtrav t.flags) && is_eq (o.k_compare key gone))
          then record trav { dangling = true }
          else trav
    ]
  ]

  -- `HXrbtrav_free`: the calls of `k_free`
  unfoldable pub trav_free : Rbtree K V → Trav K → List (Option K)
  trav_free t trav = if dtrav t.flags then (if o.k_free then trav.checkpoint ∷ [] else []) else []

  -- a loop of calls of HXmap_traverse up to NULL, on fuel
  unfoldable pub visit : ℕ → Rbtree K V → Trav K → Option (List (K × V))
  unfolding traverse
  visit zero t trav = none
  visit (suc n) t trav = elim (traverse t trav) [
    | none ↦ none
    | some r ↦ elim r.0 [
      | none ↦ some []
      | some e ↦ elim (visit n t r.1) [ none ↦ none | some es ↦ some (e ∷ es) ]
    ]
  ]
