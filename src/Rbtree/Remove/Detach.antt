-- ===== src/Rbtree/Remove/Detach.antt =====
-- Taking a node out of the tree of src/map.c leaves a gap that HXrbtree_dmov can close.
use libhx.Prelude.{false, suc, ◌+◌, ◌≡◌, refl, List, [], ◌∷◌, ◌++◌, Option, some, arith, length}
use libhx.Rbtree.Balance.{
  black_height, IsBalanced, IsColored, IsRedBlack, PathOk, Shaped, zip-IsRedBlack,
}
use libhx.Rbtree.Remove.Shape.{dmov-IsRedBlack}
use libhx.Rbtree.Remove.{leftmost, detach, dmov, unlink}
use libhx.Rbtree.{
  left, right, Color, red, black, Tree, leaf, node, Frame, frame, present, is_red, zip, set_color,
}

module _ {ℓ} {K V : Type ℓ} where
  -- what is left below the place of a removed node, which was red or black
  abbrev pub GapOk : Color → List (Frame K V) → Tree K V → Type 0
  GapOk red path t = IsBalanced t × IsColored t × PathOk (black_height t) path × (is_red t ≡ false)
  GapOk black path t = IsBalanced t × IsColored t × PathOk (suc (black_height t)) path

  GapOk-left :
      (path : List (Frame K V)) (c : Color) (l : Tree K V) (k : K) (v : V)
      → Shaped (present path c l k v leaf)
      → GapOk c path l
  GapOk-left path red l k v s = ground arith
  GapOk-left path black l k v s = ground arith

  GapOk-right :
      (path : List (Frame K V)) (c : Color) (r : Tree K V) (k : K) (v : V)
      → Shaped (present path c leaf k v r)
      → GapOk c path r
  GapOk-right path red r k v s = ground arith
  GapOk-right path black r k v s = ground arith

  left_child-Shaped :
      (path : List (Frame K V)) (c d : Color) (l : Tree K V) (k : K) (v : V) (r : Tree K V) (k' : K)
      (v' : V) (s : Tree K V)
      → Shaped (present path c (node d l k v r) k' v' s)
      → Shaped (present (frame left c k' v' s ∷ path) d l k v r)
  left_child-Shaped path red red l k v r k' v' s h = ground arith
  left_child-Shaped path red black l k v r k' v' s h = ground arith
  left_child-Shaped path black red l k v r k' v' s h = ground arith
  left_child-Shaped path black black l k v r k' v' s h = ground arith

  -- whatever key and datum the frame gets
  right_child-Shaped :
      (path : List (Frame K V)) (c d : Color) (l : Tree K V) (k : K) (v : V) (r : Tree K V)
      (k' m : K) (v' w : V) (s : Tree K V)
      → Shaped (present path c s k' v' (node d l k v r))
      → Shaped (present (frame right c m w s ∷ path) d l k v r)
  right_child-Shaped path red red l k v r k' m v' w s h = ground arith
  right_child-Shaped path red black l k v r k' m v' w s h = ground arith
  right_child-Shaped path black red l k v r k' m v' w s h = ground arith
  right_child-Shaped path black black l k v r k' m v' w s h = ground arith

  -- the walk to the leftmost node ends at a node of the tree
  leftmost-Shaped :
      (rest turns : List (Frame K V)) (c : Color) (l : Tree K V) (k : K) (v : V) (r : Tree K V)
      → Shaped (present (turns ++ rest) c l k v r)
      → let io = leftmost turns c l k v r in
        Shaped (present (io.turns ++ rest) io.color leaf io.key io.datum io.right_sub)
  unfolding leftmost
  leftmost-Shaped rest turns c leaf k v r s = s
  leftmost-Shaped rest turns c (node lc ll lk lv lr) k v r s =
      leftmost-Shaped rest (frame left c k v r ∷ turns) lc ll lk lv lr
        (left_child-Shaped (turns ++ rest) c lc ll lk lv lr k v r s)

  pub detach-GapOk :
      (path : List (Frame K V)) (c : Color) (l : Tree K V) (k : K) (v : V) (r : Tree K V)
      → Shaped (present path c l k v r)
      → let gap = detach path c l k v r in GapOk gap.color gap.path gap.below
  unfolding detach
  detach-GapOk path c l k v leaf s = GapOk-left path c l k v s
  detach-GapOk path c leaf k v (node rc rl rk rv rr) s =
      GapOk-right path c (node rc rl rk rv rr) k v s
  detach-GapOk path c (node lc ll lk lv lr) k v (node rc rl rk rv rr) s =
      let io = leftmost [] rc rl rk rv rr in
      let l' : Tree K V = node lc ll lk lv lr in
      let rest : List (Frame K V) = frame right c io.key io.datum l' ∷ path in
      GapOk-right (io.turns ++ rest) io.color io.right_sub io.key io.datum (
        leftmost-Shaped rest [] rc rl rk rv rr
          (right_child-Shaped path c rc rl rk rv rr k io.key v io.datum l' s))

  blacken : (t : Tree K V) → IsColored t → IsColored (set_color t black)
  blacken leaf c = tt
  blacken (node red l k v r) c = (c.0, c.1)
  blacken (node black l k v r) c = c

  mend-IsRedBlack :
      (c : Color) (path : List (Frame K V)) (t : Tree K V)
      → GapOk c path t
      → (u : Tree K V) × (elim c as (λ _. Option (Tree K V)) [
        | red ↦ some (zip path t)
        | black ↦ dmov (length path + 2) path t
      ]
          ≡ some u)
        × IsRedBlack u
  mend-IsRedBlack red path t g =
      (zip path t, refl, zip-IsRedBlack path t g.0 g.1 g.2 (ground arith))
  mend-IsRedBlack black path t g =
      dmov-IsRedBlack (length path + 2) path t (g.0, blacken t g.1, g.2) (ground arith)

  -- a node is always taken out, and leaves a red-black tree
  pub unlink-IsRedBlack :
      (path : List (Frame K V)) (c : Color) (l : Tree K V) (k : K) (v : V) (r : Tree K V)
      → Shaped (present path c l k v r)
      → (u : Tree K V) × (unlink path c l k v r ≡ some u) × IsRedBlack u
  unfolding unlink
  unlink-IsRedBlack path c l k v r s =
      let gap = detach path c l k v r in
      mend-IsRedBlack gap.color gap.path gap.below (detach-GapOk path c l k v r s)
