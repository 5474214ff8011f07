-- ===== src/Rbtree/Valid.antt =====
-- The invariant of struct HXrbtree in src/map.c, and that HXrbtree_add keeps it.
use libhx.Ops.{MapOps, IsLawful, noreplace}
use libhx.Prelude.{◌≡◌, subst, sym, ap, Bool, not, List, length, arith}
use libhx.Rbtree.Balance.{IsRedBlack}
use libhx.Rbtree.Insert.{add-Refines}
use libhx.Rbtree.Shape.{add-IsRedBlack}
use libhx.Rbtree.Sorted.{IsSorted, add_entries, insert-IsSorted}
use libhx.Rbtree.{Rbtree, add, keysvalues}

module _ {ℓ} {K V : Type ℓ} (o : MapOps K V) where
  -- the keys ascend, the red-black rules hold, and `items` counts the nodes
  pub record IsValid (t : Rbtree K V) : Type ℓ where
    pub sorted : IsSorted o (keysvalues t.root)
    pub shape : IsRedBlack t.root
    pub counted : t.items ≡ length (keysvalues t.root)

  module _ (law : IsLawful o) where
    add_entries-IsSorted :
        (memory refuse : Bool) (m : List (K × V)) (key : K) (value : V)
        → IsSorted o m
        → IsSorted o (add_entries o memory refuse m key value).1
    unfolding add_entries
    add_entries-IsSorted memory refuse m key value s =
        ground (arith, insert-IsSorted o law m key (o.d_clone value) s)

    -- an insertion keeps the invariant, whatever it returns
    pub add-IsValid :
        (memory : Bool) (t : Rbtree K V) (key : K) (value : V)
        → IsValid t
        → IsValid (add o memory t key value).tree
    add-IsValid memory t key value h =
        let r = add-Refines o law memory t key value h.sorted in
        let refuse = not (noreplace t.flags) in
        record {
          sorted =
              subst (IsSorted o) (sym r.entries)
                (add_entries-IsSorted memory refuse (keysvalues t.root) key value h.sorted);
          shape = add-IsRedBlack o memory t key value h.shape;
          counted = omega (arith, h.counted, r.counted, ap length r.entries);
        }
