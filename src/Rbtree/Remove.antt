-- ===== src/Rbtree/Remove.antt =====
-- Deletion from the red-black tree of src/map.c: HXrbtree_del, HXrbtree_del_mm and
-- HXrbtree_dmov. The path is the list of frames of Rbtree.antt, with what hangs at its end beside
-- it.
pub mod Entries
pub mod Shape
pub mod Detach
pub mod Refine
use libhx.Ops.{MapOps, Errno, enoent, Release, free_key, free_data, uint_mod}
use libhx.Prelude.{
  ℕ, zero, suc, ◌+◌, ◌-◌, ◌%◌, Bool, not, ◌&&◌, Option, none, some, List, [], ◌∷◌, ◌++◌,
  if◌then◌else◌, length,
}
use libhx.Rbtree.{
  Dir, left, right, other, Color, red, black, Tree, leaf, node, Frame, frame, Walk, absent, present,
  Rbtree, sub, set_sub, set_color, is_red, plug, zip, descend,
}

-- What a call does to errno.
pub data ErrnoUse : Type 0 where
  kept cleared : ErrnoUse
  set_errno : Errno → ErrnoUse

-- What a deletion returns (`none` is NULL), leaves, and passes to `k_free` and `d_free`.
pub record Deleted {ℓ} (K V : Type ℓ) : Type ℓ where
  pub value : Option V
  pub errno : ErrnoUse
  pub tree : Rbtree K V
  pub released : List (Release K V)

-- The place of a node that is taken out: the path to it, its color, and what replaces it.
pub record Gap {ℓ} (K V : Type ℓ) : Type ℓ where
  pub path : List (Frame K V)
  pub color : Color
  pub below : Tree K V

-- A leftmost node: the left turns down to it, and its fields (it has no left child).
pub record Leftmost {ℓ} (K V : Type ℓ) : Type ℓ where
  pub turns : List (Frame K V)
  pub color : Color
  pub key : K
  pub datum : V
  pub right_sub : Tree K V

-- One round of the loop in `HXrbtree_dmov`: it breaks with a tree, or goes on.
pub data Round {ℓ} (K V : Type ℓ) : Type ℓ where
  stop : Tree K V → Round K V
  next : List (Frame K V) → Tree K V → Round K V

module _ {ℓ} {K V : Type ℓ} where
  -- The walk of `HXrbtree_del_mm` to the leftmost node below the node with the given fields.
  pub leftmost : List (Frame K V) → Color → Tree K V → K → V → Tree K V → Leftmost K V
  leftmost turns c leaf k v r = record {
    turns = turns;
    color = c;
    key = k;
    datum = v;
    right_sub = r;
  }
  leftmost turns c (node lc ll lk lv lr) k v r =
      leftmost (frame left c k v r ∷ turns) lc ll lk lv lr

  -- Taking out the node at the end of the path. With both subtrees there it is the in-order
  -- successor that leaves its place, and moves up with the color of the node; the color of the gap
  -- is that of the place left.
  pub detach : List (Frame K V) → Color → Tree K V → K → V → Tree K V → Gap K V
  unfolding leftmost
  detach path c l k v leaf = record { path = path; color = c; below = l }
  detach path c leaf k v (node rc rl rk rv rr) = record {
    path = path;
    color = c;
    below = node rc rl rk rv rr;
  }
  detach path c (node lc ll lk lv lr) k v (node rc rl rk rv rr) =
      let io = leftmost [] rc rl rk rv rr in
      record {
        path = io.turns ++ frame right c io.key io.datum (node lc ll lk lv lr) ∷ path;
        color = io.color;
        below = io.right_sub;
      }

  -- `w->sub[d] == NULL || w->sub[d]->color == RBT_BLACK`
  abbrev pub black_sub : Tree K V → Dir → Bool
  black_sub w d = not (is_red (sub w d))

  -- Case 5 of `HXrbtree_dmov`: the new `w`.
  abbrev pub dmov_case5 : Dir → Tree K V → Tree K V
  dmov_case5 lr w =
      if black_sub w (other lr)
      then (let y = set_color (sub w lr) black in
          let w' = set_sub (set_color w red) lr (sub y (other lr)) in set_sub y (other lr) w')
      else w

  -- Case 6, where `x` hangs at the parent on the side `lr`: the subtree that takes its place.
  abbrev pub dmov_case6 : Dir → Color → K → V → Tree K V → Tree K V → Tree K V
  dmov_case6 lr c k v w x =
      let w' = set_sub (set_color w c) (other lr) (set_color (sub w (other lr)) black) in
      set_sub w' lr (plug (frame lr black k v (sub w lr)) x)

  -- From the test for cases 3 and 4 on, with `w` the black sibling.
  pub dmov_black : Dir → Color → K → V → Tree K V → List (Frame K V) → Tree K V → Round K V
  dmov_black lr c k v w path x =
      if black_sub w lr && black_sub w (other lr)
      then next path (plug (frame lr c k v (set_color w red)) x)
      else stop (zip path (dmov_case6 lr c k v (dmov_case5 lr w) x))

  -- Case 2: a red sibling is rotated up, and the path gets one longer.
  pub dmov_sibling : Dir → Color → K → V → Tree K V → List (Frame K V) → Tree K V → Round K V
  unfolding dmov_black
  dmov_sibling lr c k v leaf path x = dmov_black lr c k v leaf path x
  dmov_sibling lr c k v (node black wl wk wv wr) path x =
      dmov_black lr c k v (node black wl wk wv wr) path x
  dmov_sibling lr c k v (node red wl wk wv wr) path x =
      let w : Tree K V = node red wl wk wv wr in
      dmov_black lr red k v (sub w lr) (frame lr black wk wv (sub w (other lr)) ∷ path) x

  -- One round of `HXrbtree_dmov`, with `x` at the end of the path.
  pub dmov_round : List (Frame K V) → Tree K V → Round K V
  unfolding dmov_sibling
  dmov_round [] x = stop (if is_red x then set_color x black else x)
  dmov_round (frame lr c k v w ∷ path) x =
      if is_red x
      then stop (zip (frame lr c k v w ∷ path) (set_color x black))
      else dmov_sibling lr c k v w path x

  -- `HXrbtree_dmov` on fuel; `none` means that it ran out.
  pub dmov : ℕ → List (Frame K V) → Tree K V → Option (Tree K V)
  dmov zero path x = none
  dmov (suc fuel) path x = elim (dmov_round path x) [
    | stop t ↦ some t
    | next path' x' ↦ dmov fuel path' x'
  ]

  -- Taking out a node and rebalancing where a black one left its place.
  unfoldable pub unlink : List (Frame K V) → Color → Tree K V → K → V → Tree K V → Option (Tree K V)
  unfolding detach dmov
  unlink path c l k v r =
      let gap = detach path c l k v r in
      elim gap.color [
        | red ↦ some (zip gap.path gap.below)
        | black ↦ dmov (length gap.path + 2) gap.path gap.below
      ]

module _ {ℓ} {K V : Type ℓ} (o : MapOps K V) where
  -- The end of `HXrbtree_del`, with the node out of the tree.
  abbrev pub del_done : Rbtree K V → K → V → Tree K V → Deleted K V
  del_done t k v root = record {
    value = some v;
    errno = cleared;
    tree = record t { root = root; items = t.items - 1; tid = (t.tid + 1) % uint_mod };
    released =
        (if o.k_free then free_key k ∷ [] else []) ++ (if o.d_free then free_data v ∷ [] else []);
  }

  -- `HXrbtree_del` after its search loop.
  unfoldable pub del_at : Rbtree K V → Walk K V → Option (Deleted K V)
  del_at t (absent path) =
      some (record { value = none; errno = set_errno enoent; tree = t; released = [] })
  del_at t (present path c l k v r) = elim (unlink path c l k v r) [
    | none ↦ none
    | some root ↦ some (del_done t k v root)
  ]

  -- `HXrbtree_del`; `none` means that its loop ran out of fuel.
  unfoldable pub del : Rbtree K V → K → Option (Deleted K V)
  unfolding del_at
  del t key = elim t.root [
    | leaf ↦ some (record { value = none; errno = kept; tree = t; released = [] })
    | node c l k v r ↦ del_at t (descend o key [] t.root)
  ]
