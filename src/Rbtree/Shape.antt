-- ===== src/Rbtree/Shape.antt =====
-- HXrbtree_add of src/map.c keeps the red-black rules, whatever it returns.
use libhx.Ops.{MapOps}
use libhx.Prelude.{refl, Bool, List, [], arith}
use libhx.Rbtree.{
  Color, red, black, Tree, node, Frame, Walk, absent, present, Rbtree, zip, descend, replace,
  add_undo, add_new, add_at, add,
}
use libhx.Rbtree.Balance.{
  IsRedBlack, PathOk, Shaped, zip-IsRedBlack, link-IsRedBlack, descend-Shaped,
}

module _ {ℓ} {K V : Type ℓ} (o : MapOps K V) where
  -- another datum leaves the shape as it is
  zip-red-black :
      (path : List (Frame K V)) (c : Color) (l : Tree K V) (k : K) (v w : V) (r : Tree K V)
      → Shaped (present path c l k v r)
      → IsRedBlack (zip path (node c l k w r))
  zip-red-black path red l k v w r (p, b, c, top) =
      zip-IsRedBlack path (node red l k w r) b c p (λ _. top refl)
  zip-red-black path black l k v w r (p, b, c, top) =
      zip-IsRedBlack path (node black l k w r) b c p (ground arith)

  replace-IsRedBlack :
      (t : Rbtree K V) (path : List (Frame K V)) (c : Color) (l : Tree K V) (k : K) (v : V)
      (r : Tree K V) (value : V)
      → IsRedBlack t.root
      → Shaped (present path c l k v r)
      → IsRedBlack (replace o t path c l k v r value).tree.root
  unfolding replace
  replace-IsRedBlack t path c l k v r value h s =
      ground (arith, zip-red-black path c l k v (o.d_clone value) r s)

  add_new-IsRedBlack :
      (memory : Bool) (t : Rbtree K V) (path : List (Frame K V)) (key : K) (value : V)
      → IsRedBlack t.root
      → PathOk 0 path
      → IsRedBlack (add_new o memory t path key value).tree.root
  unfolding add_new add_undo
  add_new-IsRedBlack memory t path key value h p =
      ground (arith, link-IsRedBlack path (o.k_clone key) (o.d_clone value) t.tid p)

  -- an insertion keeps the red-black rules on every branch, failures included
  pub add-IsRedBlack :
      (memory : Bool) (t : Rbtree K V) (key : K) (value : V)
      → IsRedBlack t.root
      → IsRedBlack (add o memory t key value).tree.root
  unfolding add add_at
  add-IsRedBlack memory t key value h =
      go (descend o key [] t.root)
        (descend-Shaped o key [] t.root h.balanced h.colored tt (ground arith))
    where
      go : (w : Walk K V) → Shaped w → IsRedBlack (add_at o memory t key value w).tree.root
      go (absent path) s = add_new-IsRedBlack memory t path key value h s
      go (present path c l k v r) s = replace-IsRedBlack t path c l k v r value h s
