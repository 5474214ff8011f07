-- ===== src/Rbtree/Balance.antt =====
-- The red-black rules of the tree of src/map.c: equal black heights and no red child of a red
-- node, for trees and along the recorded path, and that HXrbtree_add keeps them.
use libhx.Ops.{MapOps}
use libhx.Prelude.{ℕ, suc, ◌≡◌, refl, true, false, inl, inr, Bool-cases, List, [], ◌∷◌, arith}
use libhx.Rbtree.{
  Dir, left, right, red, black, Tree, leaf, node, Frame, frame, Walk, absent, present, zip, is_red,
  red_parent, set_color, amov_case3, amov_case4, amov_case5, amov, link, descend,
}
use libhx.Rbtree.Walks.{descend_step}

module _ {ℓ} {K V : Type ℓ} where
  -- the black nodes on the leftmost way down
  abbrev pub black_height : Tree K V → ℕ
  black_height leaf = 0
  black_height (node red l k v r) = black_height l
  black_height (node black l k v r) = suc (black_height l)

  -- rule 2: each way down has as many black nodes
  abbrev pub IsBalanced : Tree K V → Type 0
  IsBalanced leaf = Unit
  IsBalanced (node c l k v r) = IsBalanced l × IsBalanced r × (black_height l ≡ black_height r)

  -- rule 1: a red node has no red child
  abbrev pub IsColored : Tree K V → Type 0
  IsColored leaf = Unit
  IsColored (node red l k v r) = IsColored l × IsColored r × (is_red l ≡ false) × (is_red r ≡ false)
  IsColored (node black l k v r) = IsColored l × IsColored r

  pub record IsRedBlack (t : Tree K V) : Type 0 where
    pub balanced : IsBalanced t
    pub colored : IsColored t
    pub root_black : is_red t ≡ false

  -- the innermost node of the path is black; a red node may hang below it
  abbrev pub BlackTop : List (Frame K V) → Type 0
  BlackTop [] = ⊥
  BlackTop (frame d red k v s ∷ path) = ⊥
  BlackTop (frame d black k v s ∷ path) = Unit

  -- both rules around a hole of black height `n`; the outermost node is black
  abbrev pub PathOk : ℕ → List (Frame K V) → Type 0
  PathOk n [] = Unit
  PathOk n (frame d red k v s ∷ path) =
      (black_height s ≡ n)
      × IsBalanced s
      × IsColored s
      × (is_red s ≡ false)
      × BlackTop path
      × PathOk n path
  PathOk n (frame d black k v s ∷ path) =
      (black_height s ≡ n) × IsBalanced s × IsColored s × PathOk (suc n) path

  pub zip-IsRedBlack :
      (path : List (Frame K V)) (t : Tree K V)
      → IsBalanced t
      → IsColored t
      → PathOk (black_height t) path
      → (is_red t ≡ true → BlackTop path)
      → IsRedBlack (zip path t)
  unfolding zip
  zip-IsRedBlack [] t b c p top = ground arith
  zip-IsRedBlack (frame left red k v s ∷ path) t b c p top =
      zip-IsRedBlack path (node red t k v s) (ground arith) (ground arith) (ground arith)
        (ground arith)
  zip-IsRedBlack (frame left black k v s ∷ path) t b c p top =
      zip-IsRedBlack path (node black t k v s) (ground arith) (ground arith) (ground arith)
        (ground arith)
  zip-IsRedBlack (frame right red k v s ∷ path) t b c p top =
      zip-IsRedBlack path (node red s k v t) (ground arith) (ground arith) (ground arith)
        (ground arith)
  zip-IsRedBlack (frame right black k v s ∷ path) t b c p top =
      zip-IsRedBlack path (node black s k v t) (ground arith) (ground arith) (ground arith)
        (ground arith)

  -- a tree that meets the rules but for the color of its root
  abbrev pub Almost : ℕ → Tree K V → Type 0
  Almost n t = IsBalanced t × IsColored t × (black_height t ≡ n)

  set_color-IsRedBlack :
      (t : Tree K V) → IsBalanced t → IsColored t → IsRedBlack (set_color t black)
  set_color-IsRedBlack leaf b c = ground arith
  set_color-IsRedBlack (node red l k v r) b c = ground arith
  set_color-IsRedBlack (node black l k v r) b c = ground arith

  set_color-Almost :
      (t : Tree K V)
      → IsBalanced t
      → IsColored t
      → is_red t ≡ true
      → Almost (suc (black_height t)) (set_color t black)
  set_color-Almost leaf b c h = cc
  set_color-Almost (node red l k v r) b c h = ground arith
  set_color-Almost (node black l k v r) b c h = cc

  -- case 3 moves the red node two levels up and keeps the black heights
  case3-Almost :
      (d : Dir) (pk : K) (pv : V) (ps : Tree K V) (e : Dir) (gk : K) (gv : V) (gs x : Tree K V)
      → PathOk (black_height x) (frame d red pk pv ps ∷ frame e black gk gv gs ∷ [])
      → IsBalanced x
      → IsColored x
      → is_red gs ≡ true
      → Almost (suc (black_height x)) (amov_case3 (frame d red pk pv ps) (frame e black gk gv gs) x)
        × (is_red (amov_case3 (frame d red pk pv ps) (frame e black gk gv gs) x) ≡ true)
  case3-Almost left pk pv ps left gk gv gs x p b c u = ground (arith, set_color-Almost gs)
  case3-Almost left pk pv ps right gk gv gs x p b c u = ground (arith, set_color-Almost gs)
  case3-Almost right pk pv ps left gk gv gs x p b c u = ground (arith, set_color-Almost gs)
  case3-Almost right pk pv ps right gk gv gs x p b c u = ground (arith, set_color-Almost gs)

  -- cases 4 and 5 put a black node with two red children in the place of the grandparent
  case5-Almost :
      (d : Dir) (pk : K) (pv : V) (ps : Tree K V) (e : Dir) (gk : K) (gv : V) (gs x : Tree K V)
      → PathOk (black_height x) (frame d red pk pv ps ∷ frame e black gk gv gs ∷ [])
      → IsBalanced x
      → IsColored x
      → is_red gs ≡ false
      → is_red x ≡ true
      → let t = amov_case5 (frame e black gk gv gs) (amov_case4 e (frame d red pk pv ps) x) in
        Almost (suc (black_height x)) t × (is_red t ≡ false)
  case5-Almost d pk pv ps e gk gv gs leaf p b c u h = cc
  case5-Almost d pk pv ps e gk gv gs (node black l k v r) p b c u h = cc
  case5-Almost left pk pv ps left gk gv gs (node red l k v r) p b c u h = ground arith
  case5-Almost left pk pv ps right gk gv gs (node red l k v r) p b c u h = ground arith
  case5-Almost right pk pv ps left gk gv gs (node red l k v r) p b c u h = ground arith
  case5-Almost right pk pv ps right gk gv gs (node red l k v r) p b c u h = ground arith

  reset-IsRedBlack : (t : Tree K V) → IsRedBlack t → IsRedBlack (set_color t black)
  reset-IsRedBlack t h = set_color-IsRedBlack t h.balanced h.colored

  -- where the loop stops, a red node at the hole is the root or has a black parent
  stop-IsRedBlack :
      (path : List (Frame K V)) (t : Tree K V)
      → IsBalanced t
      → IsColored t
      → PathOk (black_height t) path
      → red_parent path ≡ false
      → IsRedBlack (set_color (zip path t) black)
  unfolding zip
  stop-IsRedBlack [] t b c p stop = set_color-IsRedBlack t b c
  stop-IsRedBlack (frame d red k v s ∷ []) t b c p stop = absurd p.4
  stop-IsRedBlack (frame d red k v s ∷ f ∷ path) t b c p stop = cc
  stop-IsRedBlack (frame d black k v s ∷ path) t b c p stop =
      reset-IsRedBlack _ (zip-IsRedBlack (frame d black k v s ∷ path) t b c p (λ _. tt))

  pub amov-IsRedBlack :
      (path : List (Frame K V)) (x : Tree K V) (tid : ℕ)
      → IsBalanced x
      → IsColored x
      → is_red x ≡ true
      → PathOk (black_height x) path
      → red_parent path ≡ true
      → IsRedBlack (set_color (amov path x tid).0 black)
  unfolding amov
  amov-IsRedBlack [] x tid b c h p up = cc
  amov-IsRedBlack (f ∷ []) x tid b c h p up = cc
  amov-IsRedBlack (frame d black pk pv ps ∷ g ∷ path) x tid b c h p up = cc
  amov-IsRedBlack (frame d red pk pv ps ∷ frame e red gk gv gs ∷ path) x tid b c h p up = absurd p.4
  amov-IsRedBlack (frame d red pk pv ps ∷ frame e black gk gv gs ∷ path) x tid b c h p up =
      let near : PathOk (black_height x) (frame d red pk pv ps ∷ frame e black gk gv gs ∷ []) =
        ground arith in
      let x' = amov_case3 (frame d red pk pv ps) (frame e black gk gv gs) x in
      let t' = amov_case5 (frame e black gk gv gs) (amov_case4 e (frame d red pk pv ps) x) in
      elim (Bool-cases (is_red gs)) [
        | inl uncle ↦
            let ((b', c', n'), h') = case3-Almost d pk pv ps e gk gv gs x near b c uncle in
            let p' : PathOk (black_height x') path = rw n' p.5.3 in
            elim (Bool-cases (red_parent path)) [
              | inl again ↦ rw (uncle, again) (amov-IsRedBlack path x' tid b' c' h' p' again)
              | inr stop ↦ rw (uncle, stop) (stop-IsRedBlack path x' b' c' p' stop)
            ]
        | inr uncle ↦
            let ((b', c', n'), h') = case5-Almost d pk pv ps e gk gv gs x near b c uncle h in
            rw uncle
              (reset-IsRedBlack _ (zip-IsRedBlack path t' b' c' (rw n' p.5.3) (λ r. ground arith)))
      ]

  -- linking in a red leaf and rebalancing gives a red-black tree
  pub link-IsRedBlack :
      (path : List (Frame K V)) (k : K) (v : V) (tid : ℕ)
      → PathOk 0 path
      → IsRedBlack (set_color (link path (node red leaf k v leaf) tid).0 black)
  unfolding link
  link-IsRedBlack path k v tid p = elim (Bool-cases (red_parent path)) [
    | inl fix ↦
        rw fix (
          amov-IsRedBlack path (node red leaf k v leaf) tid (ground arith) (ground arith) refl p
            fix)
    | inr keep ↦
        rw keep (stop-IsRedBlack path (node red leaf k v leaf) (ground arith) (ground arith) p keep)
  ]

  -- what the search loop ends with in a red-black tree
  abbrev pub Shaped : Walk K V → Type 0
  Shaped (absent path) = PathOk 0 path
  Shaped (present path c l k v r) =
      PathOk (black_height (node c l k v r)) path
      × IsBalanced (node c l k v r)
      × IsColored (node c l k v r)
      × (c ≡ red → BlackTop path)

  pub descend-Shaped :
      (o : MapOps K V) (key : K) (path : List (Frame K V)) (t : Tree K V)
      → IsBalanced t
      → IsColored t
      → PathOk (black_height t) path
      → (is_red t ≡ true → BlackTop path)
      → Shaped (descend o key path t)
  unfolding descend
  descend-Shaped o key path leaf b c p top = p
  descend-Shaped o key path (node red l k v r) b c p top =
      descend_step o key path red l k v r Shaped
        (λ h.
          descend-Shaped o key (frame left red k v r ∷ path) l b.0 c.0 (ground arith)
            (ground arith))
        (λ h. ground arith)
        (λ h.
          descend-Shaped o key (frame right red k v l ∷ path) r b.1 c.1 (ground arith)
            (ground arith))
  descend-Shaped o key path (node black l k v r) b c p top =
      descend_step o key path black l k v r Shaped
        (λ h.
          descend-Shaped o key (frame left black k v r ∷ path) l b.0 c.0 (ground arith) (λ e. tt))
        (λ h. ground arith)
        (λ h.
          descend-Shaped o key (frame right black k v l ∷ path) r b.1 c.1 (ground arith) (λ e. tt))
