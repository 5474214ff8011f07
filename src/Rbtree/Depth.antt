-- ===== src/Rbtree/Depth.antt =====
-- The arrays `path` and `dir` of src/map.c have RBT_MAXDEP entries (src/map_int.h). How long the
-- recorded path can get in a red-black tree.
use native.Mathlib.Nat.{pow-suc, pow-le-pow_right}
use native.Mathlib.Decide.{dec_lt}
use libhx.Ops.{MapOps}
use libhx.Prelude.{
  ℕ, ◌+◌, ◌*◌, ◌^◌, ◌≤◌, ◌<◌, ◌≡◌, refl, ap, List, [], ◌∷◌, length, length-append, arith,
}
use libhx.Rbtree.{
  left, right, red, black, Tree, leaf, node, Frame, frame, Walk, absent, present, zip, descend,
  keysvalues,
}
use libhx.Rbtree.Balance.{black_height, IsBalanced, IsRedBlack, PathOk, Shaped, descend-Shaped}
use libhx.Rbtree.Walks.{descend_step}

-- `RBT_MAXDEP`
abbrev pub rbt_maxdep : ℕ
rbt_maxdep = 48

black_height-lt : (n m : ℕ) → 2 ^ n ≤ m → m < 2 ^ 24 → n < 24
black_height-lt n m h k = elim (dec_lt n 24) [
  | yes p ↦ p
  | no p ↦
      let big : 2 ^ 24 ≤ 2 ^ n = pow-le-pow_right (omega arith) {i = 24} {j = n} (omega arith) in
      absurd (omega arith)
]

module _ {ℓ} {K V : Type ℓ} where
  abbrev size : Tree K V → ℕ
  size leaf = 0
  size (node c l k v r) = size l + size r + 1

  size-keysvalues : (t : Tree K V) → length (keysvalues t) ≡ size t
  unfolding keysvalues
  size-keysvalues leaf = refl
  size-keysvalues (node c l k v r) = omega (
    arith,
    length-append {ℓ} (keysvalues l) ((k, v) ∷ keysvalues r),
    size-keysvalues l,
    size-keysvalues r,
  )

  -- a tree of black height `n` has at least `2 ^ n - 1` nodes
  pow-black_height-le : (t : Tree K V) → IsBalanced t → 2 ^ black_height t ≤ size t + 1
  pow-black_height-le leaf b = omega arith
  pow-black_height-le (node red l k v r) b = omega (arith, pow-black_height-le l b.0)
  pow-black_height-le (node black l k v r) b = omega (
    arith,
    pow-black_height-le l b.0,
    pow-black_height-le r b.1,
    pow-suc 2 (black_height l),
    ap (λ n. 2 ^ n) b.2,
  )

  -- at most every other node of a path is red
  length-path :
      (path : List (Frame K V)) (t : Tree K V)
      → PathOk (black_height t) path
      → length path + 2 * black_height t ≤ 2 * black_height (zip path t)
  unfolding zip
  length-path [] t p = omega arith
  length-path (frame left black k v s ∷ path) t p =
      omega (arith, length-path path (node black t k v s) p.3)
  length-path (frame right black k v s ∷ path) t p =
      omega (arith, p.0, length-path path (node black s k v t) (rw p.0 p.3))
  length-path (frame left red k v s ∷ frame left black k' v' s' ∷ path) t p =
      omega (arith, length-path path (node black (node red t k v s) k' v' s') p.5.3)
  length-path (frame left red k v s ∷ frame right black k' v' s' ∷ path) t p =
      omega
        (arith, length-path path (node black s' k' v' (node red t k v s)) (rw p.5.0 p.5.3), p.5.0)
  length-path (frame right red k v s ∷ frame left black k' v' s' ∷ path) t p =
      omega (arith, length-path path (node black (node red s k v t) k' v' s') (rw p.0 p.5.3), p.0)
  length-path (frame right red k v s ∷ frame right black k' v' s' ∷ path) t p =
      omega
        (arith, length-path path (node black s' k' v' (node red s k v t)) (rw p.5.0 p.5.3), p.5.0)
  length-path (frame d red k v s ∷ []) t p = absurd p.4
  length-path (frame d red k v s ∷ frame e red k' v' s' ∷ path) t p = absurd p.4

module _ {ℓ} {K V : Type ℓ} where
  -- the recorded path, and what hangs at its end
  abbrev pub path_of : Walk K V → List (Frame K V)
  path_of (absent path) = path
  path_of (present path c l k v r) = path

  abbrev hole_of : Walk K V → Tree K V
  hole_of (absent path) = leaf
  hole_of (present path c l k v r) = node c l k v r

  zip-descend :
      (o : MapOps K V) (key : K) (path : List (Frame K V)) (t : Tree K V)
      → zip (path_of (descend o key path t)) (hole_of (descend o key path t)) ≡ zip path t
  unfolding descend zip
  zip-descend o key path leaf = refl
  zip-descend o key path (node c l k v r) =
      descend_step o key path c l k v r
        (λ w. zip (path_of w) (hole_of w) ≡ zip path (node c l k v r))
        (λ h. zip-descend o key (frame left c k v r ∷ path) l) (λ h. refl)
        (λ h. zip-descend o key (frame right c k v l ∷ path) r)

  Shaped-PathOk : (w : Walk K V) → Shaped w → PathOk (black_height (hole_of w)) (path_of w)
  Shaped-PathOk (absent path) s = s
  Shaped-PathOk (present path c l k v r) s = s.0

  -- the path to any key of a red-black tree of fewer than 16 million nodes leaves the last entry of
  -- the arrays free
  pub descend-depth :
      (o : MapOps K V) (key : K) (t : Tree K V)
      → IsRedBlack t
      → length (keysvalues t) + 1 < 2 ^ 24
      → length (path_of (descend o key [] t)) + 1 < rbt_maxdep
  unfolding zip
  descend-depth o key t h small =
      let w = descend o key [] t in
      let p = Shaped-PathOk w (descend-Shaped o key [] t h.balanced h.colored tt (ground arith)) in
      let e : zip (path_of w) (hole_of w) ≡ t = zip-descend o key [] t in
      let b =
        black_height-lt (black_height t) (size t + 1) (pow-black_height-le t h.balanced)
          (omega (arith, size-keysvalues t)) in
      omega (arith, length-path (path_of w) (hole_of w) p, ap black_height e)
