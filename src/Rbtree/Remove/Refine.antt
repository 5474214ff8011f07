-- ===== src/Rbtree/Remove/Refine.antt =====
-- HXrbtree_del of src/map.c against the abstract view: it always ends, returns the datum, drops
-- the entry alone and keeps the invariant.
use libhx.Ops.{MapOps, IsLawful}
use libhx.Prelude.{
  ◌≡◌, refl, sym, ap, ◌∙◌, subst, Option, none, some, List, [], ◌++◌, length, arith,
}
use libhx.Rbtree.Balance.{IsRedBlack, Shaped, descend-Shaped}
use libhx.Rbtree.Descend.{Landed, Landed-start}
use libhx.Rbtree.Erase.{erase_mid, erase_around, erase-IsSorted, length-erase}
use libhx.Rbtree.Inorder.{before, after}
use libhx.Rbtree.Insert.{entries_split, lookup_present, lookup_absent}
use libhx.Rbtree.Remove.Detach.{unlink-IsRedBlack}
use libhx.Rbtree.Remove.Entries.{unlink-keysvalues}
use libhx.Rbtree.Remove.{Deleted, kept, del_done, del, del_at}
use libhx.Rbtree.Sorted.{IsSorted, lookup, erase}
use libhx.Rbtree.Valid.{IsValid}
use libhx.Rbtree.{
  Color, Tree, leaf, node, Frame, Walk, absent, present, Rbtree, keysvalues, descend,
}

module _ {ℓ} {K V : Type ℓ} (o : MapOps K V) where
  abbrev pub datum_of : Option (K × V) → Option V
  datum_of none = none
  datum_of (some e) = some e.1

  -- the outcome of a deletion: the datum, the entries left, and the invariant
  pub record Deletes (t : Rbtree K V) (key : K) (d : Deleted K V) : Type ℓ where
    pub value : d.value ≡ datum_of (lookup o (keysvalues t.root) key)
    pub entries : keysvalues d.tree.root ≡ erase o (keysvalues t.root) key
    pub valid : IsValid o d.tree
    pub flags : d.tree.flags ≡ t.flags

  module _ (law : IsLawful o) where
    -- the removed node's entry is dropped, and the rest stays
    removed-Deletes :
        (t : Rbtree K V) (path : List (Frame K V)) (c : Color) (l : Tree K V) (k : K) (v : V)
        (r u : Tree K V)
        → IsValid o t
        → Landed o law k t.root (keysvalues t.root) (present path c l k v r)
        → keysvalues u ≡ (before path ++ keysvalues l) ++ (keysvalues r ++ after path)
        → IsRedBlack u
        → Deletes t k (del_done o t k v u)
    removed-Deletes t path c l k v r u h landed left shape =
        let a = before path ++ keysvalues l in
        let b = keysvalues r ++ after path in
        let split = entries_split o law t path c l k v r landed in
        let found = lookup_present o law t path c l k v r landed in
        let e : keysvalues u ≡ erase o (keysvalues t.root) k =
          left ∙ sym (ap (λ m. erase o m k) split ∙ erase_mid o law a k v b landed.2) in
        record {
          value = ap datum_of (sym found);
          entries = e;
          valid = record {
            sorted =
                subst (IsSorted o) (sym e) (erase-IsSorted o law (keysvalues t.root) k h.sorted);
            shape = shape;
            counted = omega (
              arith,
              h.counted,
              ap length e,
              length-erase o law (keysvalues t.root) k (k, v) found,
            );
          };
          flags = refl;
        }

    del_at-Deletes :
        (t : Rbtree K V) (key : K) (w : Walk K V)
        → IsValid o t
        → Shaped w
        → Landed o law key t.root (keysvalues t.root) w
        → (d : Deleted K V) × (del_at o t w ≡ some d) × Deletes t key d
    unfolding del_at
    del_at-Deletes t key (absent path) h s l = (
      _,
      refl,
      record {
        value = ap datum_of (sym (lookup_absent o law t path key l));
        entries = sym (
            ap (λ m. erase o m key) (sym l.0)
            ∙ erase_around o law key (before path) (after path) l.1 l.2
            ∙ l.0);
        valid = h;
        flags = refl;
      },
    )
    del_at-Deletes t key (present path c l k v r) h s landed =
        let (u, run, shape) = unlink-IsRedBlack path c l k v r s in
        let landed' : Landed o law k t.root (keysvalues t.root) (present path c l k v r) =
          subst (λ x. Landed o law x t.root (keysvalues t.root) (present path c l k v r))
            (sym landed.1) landed in
        (
          del_done o t k v u,
          rw (run, del_at),
          subst (λ x. Deletes t x (del_done o t k v u)) landed.1
              (removed-Deletes t path c l k v r u h landed' (unlink-keysvalues path c l k v r u run)
                shape),
        )

    del_from :
        (t : Rbtree K V) (key : K) (root : Tree K V)
        → IsValid o t
        → t.root ≡ root
        → (d : Deleted K V) × (elim root as (λ _. Option (Deleted K V)) [
          | leaf ↦ some (record { value = none; errno = kept; tree = t; released = [] })
          | node c l k v r ↦ del_at o t (descend o key [] t.root)
        ]
            ≡ some d)
          × Deletes t key d
    unfolding keysvalues lookup erase
    del_from t key leaf h e =
        (_, refl, record { value = rw e; entries = rw e; valid = h; flags = refl })
    del_from t key (node c l k v r) h e =
        del_at-Deletes t key (descend o key [] t.root) h
          (descend-Shaped o key [] t.root h.shape.balanced h.shape.colored tt (λ r. ground arith))
          (Landed-start o law key t.root h.sorted)

    -- a deletion always ends, returns the datum of the key, drops its entry alone, and keeps the
    -- invariant
    pub del-Deletes :
        (t : Rbtree K V) (key : K)
        → IsValid o t
        → (d : Deleted K V) × (del o t key ≡ some d) × Deletes t key d
    unfolding del
    del-Deletes t key h = del_from t key t.root h refl
