-- ===== src/Rbtree/Inorder.antt =====
-- The entries of a tree in key order: what stands left and right of a hole in it, and that
-- rebalancing keeps them.
use libhx.Prelude.{
  ℕ, ◌≡◌, refl, ap, ◌∙◌, Bool, true, false, inl, inr, Bool-cases, List, [], ◌∷◌, ◌++◌, append_assoc,
  append-nil, arith,
}
use libhx.Rbtree.{
  Dir, left, right, Color, red, black, Tree, leaf, node, Frame, frame, plug, zip, amov, keysvalues,
  amov_case3, amov_case4, amov_case5, link, set_color, red_parent, is_red,
}

module _ {ℓ} {K V : Type ℓ} where
  -- the entries that a path puts left and right of its hole
  unfoldable pub before : List (Frame K V) → List (K × V)
  before [] = []
  before (frame left c k v s ∷ path) = before path
  before (frame right c k v s ∷ path) = before path ++ (keysvalues s ++ (k, v) ∷ [])

  unfoldable pub after : List (Frame K V) → List (K × V)
  after [] = []
  after (frame left c k v s ∷ path) = (k, v) ∷ keysvalues s ++ after path
  after (frame right c k v s ∷ path) = after path

  pub ruleset lists = (append_assoc, append-nil)

  pub keysvalues-zip :
      (path : List (Frame K V)) (t : Tree K V)
      → keysvalues (zip path t) ≡ before path ++ (keysvalues t ++ after path)
  unfolding zip before after keysvalues
  keysvalues-zip [] t = simp lists
  keysvalues-zip (frame left c k v s ∷ path) t = rw (keysvalues-zip path) (simp lists)
  keysvalues-zip (frame right c k v s ∷ path) t = rw (keysvalues-zip path) (simp lists)

  pub keysvalues-set_color : (t : Tree K V) (c : Color) → keysvalues (set_color t c) ≡ keysvalues t
  unfolding keysvalues
  keysvalues-set_color leaf c = refl
  keysvalues-set_color (node _ l k v r) c = refl

  -- the rotations keep the entries in their order
  keysvalues-rotate :
      (p : Frame K V) (e : Dir) (gc : Color) (gk : K) (gv : V) (gs : Tree K V) (c : Color)
      (l : Tree K V) (k : K) (v : V) (r : Tree K V)
      → keysvalues (amov_case5 (frame e gc gk gv gs) (amov_case4 e p (node c l k v r)))
        ≡ keysvalues (plug (frame e gc gk gv gs) (plug p (node c l k v r)))
  unfolding keysvalues
  keysvalues-rotate (frame left pc pk pv ps) left gc gk gv gs c l k v r = simp lists
  keysvalues-rotate (frame left pc pk pv ps) right gc gk gv gs c l k v r = simp lists
  keysvalues-rotate (frame right pc pk pv ps) left gc gk gv gs c l k v r = simp lists
  keysvalues-rotate (frame right pc pk pv ps) right gc gk gv gs c l k v r = simp lists

  keysvalues-recolor :
      (p g : Frame K V) (x : Tree K V)
      → keysvalues (amov_case3 p g x) ≡ keysvalues (plug g (plug p x))
  unfolding keysvalues
  keysvalues-recolor (frame left pc pk pv ps) (frame left gc gk gv gs) x =
      rw (keysvalues-set_color gs black)
  keysvalues-recolor (frame left pc pk pv ps) (frame right gc gk gv gs) x =
      rw (keysvalues-set_color gs black)
  keysvalues-recolor (frame right pc pk pv ps) (frame left gc gk gv gs) x =
      rw (keysvalues-set_color gs black)
  keysvalues-recolor (frame right pc pk pv ps) (frame right gc gk gv gs) x =
      rw (keysvalues-set_color gs black)

  -- two trees with the same entries give the same entries at the end of a path
  pub zip_congr :
      (path : List (Frame K V)) (s t : Tree K V)
      → keysvalues s ≡ keysvalues t
      → keysvalues (zip path s) ≡ keysvalues (zip path t)
  zip_congr path s t e = rw (keysvalues-zip path s, keysvalues-zip path t, e)

  -- not NULL
  abbrev pub IsNode : Tree K V → Type 0
  IsNode leaf = ⊥
  IsNode (node c l k v r) = Unit

  pub plug-IsNode : (f : Frame K V) (t : Tree K V) → IsNode (plug f t)
  plug-IsNode (frame left c k v s) t = tt
  plug-IsNode (frame right c k v s) t = tt

  pub amov_case3-IsNode : (p g : Frame K V) (x : Tree K V) → IsNode (amov_case3 p g x)
  amov_case3-IsNode (frame pd pc pk pv ps) (frame gd gc gk gv gs) x =
      plug-IsNode (frame gd red gk gv (set_color gs black)) (plug (frame pd black pk pv ps) x)

  rotate_lem :
      (p : Frame K V) (e : Dir) (gc : Color) (gk : K) (gv : V) (gs x : Tree K V)
      → IsNode x
      → keysvalues (amov_case5 (frame e gc gk gv gs) (amov_case4 e p x))
        ≡ keysvalues (plug (frame e gc gk gv gs) (plug p x))
  rotate_lem p e gc gk gv gs leaf h = absurd h
  rotate_lem p e gc gk gv gs (node c l k v r) h = keysvalues-rotate p e gc gk gv gs c l k v r

  -- `HXrbtree_amov` keeps the entries in their order
  pub keysvalues-amov :
      (path : List (Frame K V)) (x : Tree K V) (tid : ℕ)
      → IsNode x
      → keysvalues (amov path x tid).0 ≡ keysvalues (zip path x)
  unfolding amov zip
  keysvalues-amov [] x tid h = refl
  keysvalues-amov (p ∷ []) x tid h = refl
  keysvalues-amov (p ∷ frame e gc gk gv gs ∷ path) x tid h =
      let g : Frame K V = frame e gc gk gv gs in
      let recolored =
        zip_congr path (amov_case3 p g x) (plug g (plug p x)) (keysvalues-recolor p g x) in
      elim (Bool-cases (is_red gs)) [
        | inl uncle ↦ elim (Bool-cases (red_parent path)) [
          | inl again ↦
              rw (uncle, again)
                (keysvalues-amov path (amov_case3 p g x) tid (amov_case3-IsNode p g x) ∙ recolored)
          | inr stop ↦ rw (uncle, stop) recolored
        ]
        | inr uncle ↦ rw uncle (zip_congr path _ _ (rotate_lem p e gc gk gv gs x h))
      ]

  pub keysvalues-link :
      (path : List (Frame K V)) (x : Tree K V) (tid : ℕ)
      → IsNode x
      → keysvalues (link path x tid).0 ≡ before path ++ (keysvalues x ++ after path)
  unfolding link
  keysvalues-link path x tid h = elim (Bool-cases (red_parent path)) [
    | inl fix ↦ rw fix (keysvalues-amov path x tid h ∙ keysvalues-zip path x)
    | inr keep ↦ rw keep (keysvalues-zip path x)
  ]
