-- ===== src/Rbtree.antt =====
-- The red-black tree of src/map.c (struct HXrbtree, src/map_int.h): its nodes, the recorded path,
-- lookup, insertion with rebalancing, and the walks in key order.
--
-- The arrays `path` and `dir` are a list of frames, innermost first: the frame of a node on the
-- path holds its direction, its own fields and the subtree that the path does not enter. The
-- pseudo node `path[0]` (the address of `root`) is the empty list, so `depth` is one more than the
-- list's length, and a write through `path[i]->sub[dir[i]]` fills the hole of that frame.
pub mod Sorted
pub mod Erase
pub mod Inorder
pub mod Balance
pub mod Walks
pub mod Shape
pub mod Depth
pub mod Descend
pub mod Insert
pub mod Valid
pub mod Remove
pub mod Foreach
pub mod Traverse
mod Tests
use Prim.Native.Nat.Ordering.{lt, eq, gt}
use libhx.Ops.{
  MapOps, Errno, eexist, enomem, einval, clone_errno, Ret, done, fail, Release, free_key, free_data,
  free_data_key, noreplace, singular, uint_mod, key_failed, data_failed,
}
use libhx.Prelude.{
  ℕ, zero, suc, ◌+◌, ◌%◌, ◌≡◌, Bool, true, false, not, ◌&&◌, Option, none, some, List, [], ◌∷◌,
  ◌++◌, if◌then◌else◌, ltb, length,
}

-- `RBT_LEFT` and `RBT_RIGHT`, the indices of `sub`.
pub data Dir : Type 0 where
  left right : Dir

abbrev pub other : Dir → Dir
other left = right
other right = left

-- `dir[depth-1] != LR`
abbrev pub differ : Dir → Dir → Bool
differ left left = false
differ left right = true
differ right left = true
differ right right = false

-- `RBT_RED` and `RBT_BLACK`.
pub data Color : Type 0 where
  red black : Color

-- `struct HXrbnode *`: `leaf` is NULL; a node has `color`, `sub[0]`, `key`, `data` and `sub[1]`.
pub data Tree {ℓ} (K V : Type ℓ) : Type ℓ where
  leaf : Tree K V
  node : Color → Tree K V → K → V → Tree K V → Tree K V

-- A node on the path: the direction taken, `color`, `key`, `data` and the subtree not entered.
pub data Frame {ℓ} (K V : Type ℓ) : Type ℓ where
  frame : Dir → Color → K → V → Tree K V → Frame K V

-- What the search loops of `HXrbtree_add` and `HXrbtree_del` end with: the path, and the node if
-- the key was found.
pub data Walk {ℓ} (K V : Type ℓ) : Type ℓ where
  absent : List (Frame K V) → Walk K V
  present : List (Frame K V) → Color → Tree K V → K → V → Tree K V → Walk K V

-- `struct HXrbtree`.
pub record Rbtree {ℓ} (K V : Type ℓ) : Type ℓ where
  pub root : Tree K V
  pub items : ℕ
  pub flags : ℕ
  pub tid : ℕ

-- What an insertion returns, leaves, and passes to `k_free` and `d_free`.
pub record Added {ℓ} (K V : Type ℓ) : Type ℓ where
  pub ret : Ret
  pub tree : Rbtree K V
  pub released : List (Release K V)

module _ {ℓ} {K V : Type ℓ} where
  -- `node->sub[d]`, and the writes `node->sub[d] = s` and `node->color = c`. NULL has no fields.
  abbrev pub sub : Tree K V → Dir → Tree K V
  sub leaf d = leaf
  sub (node c l k v r) left = l
  sub (node c l k v r) right = r

  abbrev pub set_sub : Tree K V → Dir → Tree K V → Tree K V
  set_sub leaf d s = leaf
  set_sub (node c l k v r) left s = node c s k v r
  set_sub (node c l k v r) right s = node c l k v s

  abbrev pub set_color : Tree K V → Color → Tree K V
  set_color leaf c = leaf
  set_color (node _ l k v r) c = node c l k v r

  -- `node != NULL && node->color == RBT_RED`
  abbrev pub is_red : Tree K V → Bool
  is_red leaf = false
  is_red (node red l k v r) = true
  is_red (node black l k v r) = false

  -- `node->sub[dir] = t` for a node on the path, as the node that results.
  abbrev pub plug : Frame K V → Tree K V → Tree K V
  plug (frame left c k v s) t = node c t k v s
  plug (frame right c k v s) t = node c s k v t

  -- The whole tree, with `t` at the end of the path.
  pub zip : List (Frame K V) → Tree K V → Tree K V
  zip [] t = t
  zip (f ∷ path) t = zip path (plug f t)

  -- `depth >= 3 && path[depth-1]->color == RBT_RED`
  abbrev pub red_parent : List (Frame K V) → Bool
  red_parent [] = false
  red_parent (f ∷ []) = false
  red_parent (frame d red k v s ∷ g ∷ path) = true
  red_parent (frame d black k v s ∷ g ∷ path) = false

  -- Case 3 of `HXrbtree_amov`: only colors change.
  abbrev pub amov_case3 : Frame K V → Frame K V → Tree K V → Tree K V
  amov_case3 (frame pd pc pk pv ps) (frame gd gc gk gv gs) x =
      plug (frame gd red gk gv (set_color gs black)) (plug (frame pd black pk pv ps) x)

  -- Case 4: what hangs below `grandp` after the rotate at the parent; `lr` is `LR`.
  abbrev pub amov_case4 : Dir → Frame K V → Tree K V → Tree K V
  amov_case4 lr (frame pd pc pk pv ps) newnode =
      let parent = plug (frame pd pc pk pv ps) newnode in
      if differ pd lr
      then set_sub newnode lr (set_sub parent (other lr) (sub newnode lr))
      else parent

  -- Case 5: the rotation at `grandp` and the two colors.
  abbrev pub amov_case5 : Frame K V → Tree K V → Tree K V
  amov_case5 (frame lr gc gk gv gs) parent =
      let grandp = set_color (plug (frame lr gc gk gv gs) (sub parent (other lr))) red in
      set_color (set_sub parent (other lr) grandp) black

  -- `HXrbtree_amov`: the tree that results and `*tid`. `x` is the node at `path[depth]`. The loop
  -- is entered with a parent and a grandparent on the path, so the first two clauses are not met.
  pub amov : List (Frame K V) → Tree K V → ℕ → Tree K V × ℕ
  amov [] x tid = (x, tid)
  amov (parent ∷ []) x tid = (plug parent x, tid)
  amov (parent ∷ frame lr gc gk gv uncle ∷ path) x tid =
      let grandp : Frame K V = frame lr gc gk gv uncle in
      let x' = amov_case3 parent grandp x in
      let rest = amov path x' tid in
      if is_red uncle
      then (if red_parent path then rest else (zip path x', tid))
      else (zip path (amov_case5 grandp (amov_case4 lr parent x)), (tid + 1) % uint_mod)

  -- `HXrbtree_free_dive`: the calls of `k_free` and `d_free`, given whether they are set.
  pub free_dive : (k_free d_free : Bool) → Tree K V → List (Release K V)
  free_dive kf df leaf = []
  free_dive kf df (node c l k v r) =
      free_dive kf df l
      ++ (free_dive kf df r
          ++ ((if kf then free_key k ∷ [] else []) ++ (if df then free_data v ∷ [] else [])))

  -- Linking the new red node in at the end of the path, and the rebalancing.
  pub link : List (Frame K V) → Tree K V → ℕ → Tree K V × ℕ
  link path x tid = if red_parent path then amov path x tid else (zip path x, tid)

  -- `HXrbtree_keysvalues`: the entries it writes to the array, in order.
  pub keysvalues : Tree K V → List (K × V)
  keysvalues leaf = []
  keysvalues (node c l k v r) = keysvalues l ++ (k, v) ∷ keysvalues r

  -- `HXrbtree_qfe`, where `fn` is given with the state that it changes. It returns nothing, so a
  -- caller does not learn that `fn` asked to stop.
  pub qfe {κ} : {S : Type κ} → (K × V → S → Bool × S) → Tree K V → S → S
  qfe fn leaf s = s
  qfe fn (node c l k v r) s =
      let s' = qfe fn l s in
      let (go, s'') = fn (k, v) s' in let s''' = qfe fn r s'' in if go then s''' else s''

module _ {ℓ} {K V : Type ℓ} (o : MapOps K V) where
  -- `HXrbtree_find`
  pub find : Tree K V → K → Option (K × V)
  find leaf key = none
  find (node c l k v r) key = elim (o.k_compare key k) [
    | lt ↦ find l key
    | eq ↦ some (k, v)
    | gt ↦ find r key
  ]

  -- The search loop of `HXrbtree_add` and `HXrbtree_del`.
  pub descend : K → List (Frame K V) → Tree K V → Walk K V
  descend key path leaf = absent path
  descend key path (node c l k v r) = elim (o.k_compare key k) [
    | lt ↦ descend key (frame left c k v r ∷ path) l
    | eq ↦ present path c l k v r
    | gt ↦ descend key (frame right c k v l ∷ path) r
  ]

  -- `HXrbtree_replace` on the node at the end of the path.
  pub replace : Rbtree K V → List (Frame K V) → Color → Tree K V → K → V → Tree K V → V → Added K V
  replace t path c l k v r value =
      if not (noreplace t.flags)
      then record { ret = fail eexist; tree = t; released = [] }
      else if data_failed o value
      then record { ret = fail clone_errno; tree = t; released = [] }
      else record {
        ret = done;
        tree = record t { root = zip path (node c l k (o.d_clone value) r) };
        released = if o.d_free then free_data v ∷ [] else [];
      }

  -- The label `out` of `HXrbtree_add`.
  pub add_undo : Rbtree K V → K → Added K V
  add_undo t key = record {
    ret = fail clone_errno;
    tree = t;
    released =
        (if o.k_free then free_key (o.k_clone key) ∷ [] else [])
        ++ (if o.d_free then free_data_key (o.k_clone key) ∷ [] else []);
  }

  -- The part of `HXrbtree_add` for a key that is not there; `memory` says whether malloc succeeds.
  pub add_new : Bool → Rbtree K V → List (Frame K V) → K → V → Added K V
  add_new memory t path key value =
      if not memory
      then record { ret = fail enomem; tree = t; released = [] }
      else if key_failed o key
      then add_undo t key
      else if data_failed o value
      then add_undo t key
      else (let (root, tid) =
            link path (node red leaf (o.k_clone key) (o.d_clone value) leaf) t.tid in
          record {
            ret = done;
            tree = record t { root = set_color root black; items = t.items + 1; tid = tid };
            released = [];
          })

  -- `HXrbtree_add` after its search loop.
  pub add_at : Bool → Rbtree K V → K → V → Walk K V → Added K V
  add_at memory t key value (absent path) = add_new memory t path key value
  add_at memory t key value (present path c l k v r) = replace t path c l k v r value

  -- `HXrbtree_add`
  pub add : Bool → Rbtree K V → K → V → Added K V
  unfolding add_at
  add memory t key value = add_at memory t key value (descend key [] t.root)
