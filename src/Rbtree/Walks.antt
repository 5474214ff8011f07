-- ===== src/Rbtree/Walks.antt =====
-- The steps of the search loop of HXrbtree_add and HXrbtree_del in src/map.c, as equations and as
-- a rule for predicates of what it ends with.
use Prim.Native.Nat.Ordering.{lt, eq, gt}
use libhx.Ops.{MapOps, Ordering-cases}
use libhx.Prelude.{◌≡◌, subst, inl, inr, List, ◌∷◌}
use libhx.Rbtree.{left, right, Color, Tree, node, Frame, frame, Walk, present, descend}

module _ {ℓ} {K V : Type ℓ} (o : MapOps K V) (key : K) (path : List (Frame K V)) (c : Color)
    (l : Tree K V) (k : K) (v : V) (r : Tree K V) where
  pub descend_left :
      o.k_compare key k ≡ lt
      → descend o key (frame left c k v r ∷ path) l ≡ descend o key path (node c l k v r)
  unfolding descend
  descend_left h = rw (h, descend)

  pub descend_here :
      o.k_compare key k ≡ eq → present path c l k v r ≡ descend o key path (node c l k v r)
  unfolding descend
  descend_here h = rw (h, descend)

  pub descend_right :
      o.k_compare key k ≡ gt
      → descend o key (frame right c k v l ∷ path) r ≡ descend o key path (node c l k v r)
  unfolding descend
  descend_right h = rw (h, descend)

  pub descend_step {μ} :
      (P : Walk K V → Type μ)
      → (o.k_compare key k ≡ lt → P (descend o key (frame left c k v r ∷ path) l))
      → (o.k_compare key k ≡ eq → P (present path c l k v r))
      → (o.k_compare key k ≡ gt → P (descend o key (frame right c k v l ∷ path) r))
      → P (descend o key path (node c l k v r))
  descend_step P less same greater = elim (Ordering-cases (o.k_compare key k)) [
    | inl h ↦ subst P (descend_left h) (less h)
    | inr (inl h) ↦ subst P (descend_here h) (same h)
    | inr (inr h) ↦ subst P (descend_right h) (greater h)
  ]
