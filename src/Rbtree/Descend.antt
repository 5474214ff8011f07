-- ===== src/Rbtree/Descend.antt =====
-- HXrbtree_find of src/map.c against the sorted entries, and where the search loop of
-- HXrbtree_add and HXrbtree_del ends.
use libhx.Ops.{MapOps, IsLawful, Ordering-cases}
use libhx.Prelude.{◌≡◌, refl, sym, subst, inl, inr, List, [], ◌∷◌, ◌++◌, append-nil, arith}
use libhx.Rbtree.{
  left, right, Color, Tree, leaf, node, Frame, frame, Walk, absent, present, zip, keysvalues, find,
  descend,
}
use libhx.Rbtree.Inorder.{before, after, lists}
use libhx.Rbtree.Sorted.{
  All-append, All-imp, Less, Below, Above, IsSorted, lookup, IsSorted-split, lookup_left,
  lookup_mid, lookup_right,
}
use libhx.Rbtree.Walks.{descend_left, descend_here, descend_right}

module _ {ℓ} {K V : Type ℓ} (o : MapOps K V) (law : IsLawful o) where
  -- a node's subtrees are sorted, and lie on the two sides of its key
  node-IsSorted :
      (c : Color) (l : Tree K V) (k : K) (v : V) (r : Tree K V)
      → IsSorted o (keysvalues (node c l k v r))
      → IsSorted o (keysvalues l)
        × Below o k (keysvalues l)
        × Above o k (keysvalues r)
        × IsSorted o (keysvalues r)
  unfolding keysvalues
  node-IsSorted c l k v r s = IsSorted-split o law (keysvalues l) k v (keysvalues r) s

  Below-trans : (a b : K) (m : List (K × V)) → Less o a b → Below o a m → Below o b m
  Below-trans a b m h = All-imp (λ z p. law.lt_trans z a b p h) m

  Above-trans : (a b : K) (m : List (K × V)) → Less o a b → Above o b m → Above o a m
  Above-trans a b m h = All-imp (λ z p. law.lt_trans a b z h p) m

  -- the descent is the lookup in the sorted entries
  pub find-lookup :
      (t : Tree K V) (key : K)
      → IsSorted o (keysvalues t)
      → find o t key ≡ lookup o (keysvalues t) key
  unfolding find keysvalues lookup
  find-lookup leaf key s = refl
  find-lookup (node c l k v r) key s =
      let (sl, bl, ar, sr) = node-IsSorted c l k v r s in
      ground (
        arith,
        find-lookup l key sl,
        find-lookup r key sr,
        lookup_left o law key (keysvalues l) k v (keysvalues r) ar,
        lookup_mid o law key (keysvalues l) k v (keysvalues r) bl,
        lookup_right o law key (keysvalues l) k v (keysvalues r) bl,
      )

  -- where the search loop ends, in a tree with root `t` and entries `m`
  abbrev pub Landed : K → Tree K V → List (K × V) → Walk K V → Type ℓ
  Landed key t m (absent path) =
      (before path ++ after path ≡ m) × Below o key (before path) × Above o key (after path)
  Landed key t m (present path c l k v r) =
      (zip path (node c l k v r) ≡ t)
      × (k ≡ key)
      × Below o key (before path ++ keysvalues l)
      × Above o key (keysvalues r ++ after path)

  Landed-subst :
      (key : K) (t : Tree K V) {m m' : List (K × V)} {w w' : Walk K V}
      → m ≡ m'
      → w ≡ w'
      → Landed key t m w
      → Landed key t m' w'
  Landed-subst key t {m} {w'} e f h =
      subst (λ n. Landed key t n w') e (subst (λ u. Landed key t m u) f h)

  pub descend-Landed :
      (key : K) (path : List (Frame K V)) (t : Tree K V)
      → IsSorted o (keysvalues t)
      → Below o key (before path)
      → Above o key (after path)
      → Landed key (zip path t) (before path ++ (keysvalues t ++ after path)) (descend o key path t)
  unfolding descend keysvalues before after zip
  descend-Landed key path leaf s b a = (refl, b, a)
  descend-Landed key path (node c l k v r) s b a =
      let (sl, bl, ar, sr) = node-IsSorted c l k v r s in
      elim (Ordering-cases (o.k_compare key k)) [
        | inl less ↦ Landed-subst key _ (simp lists) (descend_left o key path c l k v r less) (
            descend-Landed key (frame left c k v r ∷ path) l sl b
              (less, All-append _ (keysvalues r) (after path) (Above-trans key k _ less ar) a))
        | inr (inl same) ↦
            let e = law.eq_of_compare key k same in
            Landed-subst key _ refl (descend_here o key path c l k v r same) (
              refl,
              sym e,
              All-append _ (before path) (keysvalues l) b (rw e bl),
              All-append _ (keysvalues r) (after path) (rw e ar) a,
            )
        | inr (inr greater) ↦
            let less = law.lt_of_gt key k greater in
            Landed-subst key _ (simp lists) (descend_right o key path c l k v r greater) (
              descend-Landed key (frame right c k v l ∷ path) r sr
                (All-append _ (before path) _ b
                  (All-append _ (keysvalues l) _ (Below-trans k key _ less bl) (less, tt)))
                a)
      ]

  -- the search from the root
  pub Landed-start :
      (key : K) (t : Tree K V)
      → IsSorted o (keysvalues t)
      → Landed key t (keysvalues t) (descend o key [] t)
  unfolding before after zip
  Landed-start key t s =
      subst (λ m. Landed key t m (descend o key [] t)) (append-nil (keysvalues t))
        (descend-Landed key [] t s tt tt)
