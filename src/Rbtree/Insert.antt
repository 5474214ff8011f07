-- ===== src/Rbtree/Insert.antt =====
-- Insertion against the abstract view: HXrbtree_replace and HXrbtree_add of src/map.c.
use libhx.Ops.{MapOps, IsLawful, Ret, noreplace}
use libhx.Prelude.{
  ℕ, ◌+◌, ◌≡◌, sym, ap, ◌∙◌, subst, Bool, not, none, some, List, [], ◌∷◌, ◌++◌, length,
  length-append, arith,
}
use libhx.Rbtree.{
  Color, red, black, Tree, leaf, node, Frame, Walk, absent, present, Rbtree, Added, zip, set_color,
  keysvalues, link, descend, replace, add_undo, add_new, add_at, add,
}
use libhx.Rbtree.Inorder.{
  before, after, keysvalues-zip, keysvalues-set_color, keysvalues-link, lists,
}
use libhx.Rbtree.Sorted.{
  Below, Above, IsSorted, lookup, insert, add_entries, lookup_mid, lookup-Below, lookup-Above,
  insert-Below, insert-Above, insert_mid,
}
use libhx.Rbtree.Descend.{Landed, Landed-start}

module _ {ℓ} {K V : Type ℓ} (o : MapOps K V) (law : IsLawful o) where
  lookup_around :
      (key : K) (a b : List (K × V)) → Below o key a → Above o key b → lookup o (a ++ b) key ≡ none
  lookup_around key a b p q = lookup-Below o law key a b p ∙ lookup-Above o law key b q

  insert_around :
      (key : K) (v : V) (a b : List (K × V))
      → Below o key a
      → Above o key b
      → insert o (a ++ b) key v ≡ a ++ (key, v) ∷ b
  insert_around key v a b p q =
      insert-Below o law key v a b p ∙ ap (λ m. a ++ m) (insert-Above o law key v b q)

  keysvalues_present :
      (path : List (Frame K V)) (c : Color) (l : Tree K V) (k : K) (v : V) (r : Tree K V)
      → keysvalues (zip path (node c l k v r))
        ≡ (before path ++ keysvalues l) ++ (k, v) ∷ (keysvalues r ++ after path)
  unfolding keysvalues
  keysvalues_present path c l k v r = keysvalues-zip path (node c l k v r) ∙ simp lists

  keysvalues_new :
      (path : List (Frame K V)) (k : K) (v : V) (tid : ℕ)
      → keysvalues (set_color (link path (node red leaf k v leaf) tid).0 black)
        ≡ before path ++ (k, v) ∷ after path
  unfolding keysvalues
  keysvalues_new path k v tid =
      keysvalues-set_color (link path (node red leaf k v leaf) tid).0 black
      ∙ keysvalues-link path (node red leaf k v leaf) tid tt

  -- the outcome of an insertion: what it returns, the entries that it leaves, and their number
  pub record Refines (m : Ret × List (K × V)) (t : Rbtree K V) (a : Added K V) : Type ℓ where
    pub ret : a.ret ≡ m.0
    pub entries : keysvalues a.tree.root ≡ m.1
    pub counted : a.tree.items + length (keysvalues t.root) ≡ t.items + length m.1
    pub flags : a.tree.flags ≡ t.flags

  -- a key that the search found: the entries as they are, and with another datum
  module _ (t : Rbtree K V) (path : List (Frame K V)) (c : Color) (l : Tree K V) (k : K) (v : V)
      (r : Tree K V)
      (landed : Landed o law k t.root (keysvalues t.root) (present path c l k v r)) where
    pub entries_split :
        keysvalues t.root ≡ (before path ++ keysvalues l) ++ (k, v) ∷ (keysvalues r ++ after path)
    entries_split = ap keysvalues (sym landed.0) ∙ keysvalues_present path c l k v r

    pub lookup_present : lookup o (keysvalues t.root) k ≡ some (k, v)
    lookup_present = rw entries_split (
        lookup_mid o law k (before path ++ keysvalues l) k v (keysvalues r ++ after path) landed.2
          (law.compare_refl k))

    insert_present :
        (w : V) → keysvalues (zip path (node c l k w r)) ≡ insert o (keysvalues t.root) k w
    insert_present w =
        keysvalues_present path c l k w r
        ∙ rw entries_split (
            sym (
              insert_mid o law (before path ++ keysvalues l) k v w (keysvalues r ++ after path)
                landed.2))

    length_present :
        (w : V) → length (insert o (keysvalues t.root) k w) ≡ length (keysvalues t.root)
    length_present w =
        ap length (sym (insert_present w) ∙ keysvalues_present path c l k w r)
        ∙ omega (
          arith,
          ap length entries_split,
          length-append {ℓ} (before path ++ keysvalues l) ((k, v) ∷ (keysvalues r ++ after path)),
          length-append {ℓ} (before path ++ keysvalues l) ((k, w) ∷ (keysvalues r ++ after path)),
        )

    replace-Refines :
        (memory : Bool) (value : V)
        → Refines
            (add_entries o memory (not (noreplace t.flags)) (keysvalues t.root) k value)
            t
            (replace o t path c l k v r value)
    unfolding replace add_entries
    replace-Refines memory value =
        let w = o.d_clone value in
        record {
          ret = ground (arith, lookup_present);
          entries = ground (arith, lookup_present, insert_present w);
          counted = ground (arith, lookup_present, length_present w);
          flags = ground arith;
        }

  -- a key that the search did not find
  module _ (t : Rbtree K V) (path : List (Frame K V)) (key : K)
      (landed : Landed o law key t.root (keysvalues t.root) (absent path)) where
    pub lookup_absent : lookup o (keysvalues t.root) key ≡ none
    lookup_absent = rw (← landed.0) (lookup_around key (before path) (after path) landed.1 landed.2)

    insert_absent :
        (w : V) → insert o (keysvalues t.root) key w ≡ before path ++ (key, w) ∷ after path
    insert_absent w =
        rw (← landed.0) (insert_around key w (before path) (after path) landed.1 landed.2)

    length_absent :
        (w : V) → length (insert o (keysvalues t.root) key w) ≡ length (keysvalues t.root) + 1
    length_absent w =
        ap length (insert_absent w)
        ∙ omega (
          arith,
          ap length landed.0,
          length-append {ℓ} (before path) (after path),
          length-append {ℓ} (before path) ((key, w) ∷ after path),
        )

    add_new-Refines :
        (memory : Bool) (value : V)
        → Refines
            (add_entries o memory (not (noreplace t.flags)) (keysvalues t.root) key value)
            t
            (add_new o memory t path key value)
    unfolding add_new add_entries add_undo
    add_new-Refines memory value =
        let w = o.d_clone value in
        let k = o.k_clone key in
        record {
          ret = ground (arith, lookup_absent);
          entries = ground (
            arith,
            lookup_absent,
            insert_absent w,
            keysvalues_new path k w t.tid,
            law.clone_key key,
          );
          counted = ground (arith, lookup_absent, length_absent w);
          flags = ground (arith, lookup_absent);
        }

  -- `HXrbtree_add` is the insertion into the sorted entries: it returns what that returns, leaves
  -- its entries, and counts them
  pub add-Refines :
      (memory : Bool) (t : Rbtree K V) (key : K) (value : V)
      → IsSorted o (keysvalues t.root)
      → Refines
          (add_entries o memory (not (noreplace t.flags)) (keysvalues t.root) key value)
          t
          (add o memory t key value)
  unfolding add add_at
  add-Refines memory t key value s = go (descend o key [] t.root) (Landed-start o law key t.root s)
    where
      go :
          (w : Walk K V)
          → Landed o law key t.root (keysvalues t.root) w
          → Refines
              (add_entries o memory (not (noreplace t.flags)) (keysvalues t.root) key value)
              t
              (add_at o memory t key value w)
      go (absent path) h = add_new-Refines t path key h memory value
      go (present path c l k v r) h =
          let same = h.1 in
          subst
            (λ x.
              Refines (add_entries o memory (not (noreplace t.flags)) (keysvalues t.root) x value) t
                (replace o t path c l k v r value))
            same
            (replace-Refines t path c l k v r
              (subst (λ x. Landed o law x t.root (keysvalues t.root) (present path c l k v r))
                (sym same) h)
              memory value)
