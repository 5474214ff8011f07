-- ===== src/Rbtree/Tests.antt =====
-- Runs of the tree of src/map.c, and the theorems at concrete trees.
use libhx.Ops.{fail, eexist, noreplace}
use libhx.Ops.ByValue.{by_value, by_value-IsLawful}
use libhx.Prelude.{ℕ, ◌+◌, ◌*◌, ◌^◌, ◌<◌, ◌≡◌, refl, true, not, some, List, [], ◌∷◌, length, arith}
use libhx.Rbtree.Depth.{descend-depth, path_of, rbt_maxdep}
use libhx.Rbtree.Insert.{Refines, add-Refines}
use libhx.Rbtree.Remove.Refine.{Deletes, del-Deletes}
use libhx.Rbtree.Remove.{Deleted, del, cleared, unlink}
use libhx.Rbtree.Sorted.{add_entries}
use libhx.Rbtree.Valid.{IsValid, add-IsValid}
use libhx.Rbtree.{
  Color, red, black, Tree, leaf, node, Rbtree, add, amov, descend, keysvalues, link, zip, replace,
  add_new,
}

abbrev tip : Color → ℕ → Tree ℕ ℕ
tip c k = node c leaf k (10 * k) leaf

-- The keys 1 to 5 after insertion in that order.
abbrev five : Rbtree ℕ ℕ
five = record {
  root = node black (tip black 1) 2 20 (node black (tip red 3) 4 40 (tip red 5));
  items = 5;
  flags = 0;
  tid = 3;
}

abbrev insert_all : List ℕ → Rbtree ℕ ℕ → Rbtree ℕ ℕ
insert_all [] t = t
insert_all (k ∷ ks) t = insert_all ks (add by_value true t k (10 * k)).tree

abbrev empty : Rbtree ℕ ℕ
empty = record { root = leaf; items = 0; flags = 0; tid = 1 }

insert_five : insert_all (1 ∷ 2 ∷ 3 ∷ 4 ∷ 5 ∷ []) empty ≡ five
unfolding add add_new link amov zip descend
insert_five = refl

five-IsValid : IsValid by_value five
unfolding keysvalues
five-IsValid = record {
  sorted = ground arith;
  shape = record { balanced = ground arith; colored = ground arith; root_black = refl };
  counted = refl;
}

five-small : length (keysvalues five.root) + 1 < 2 ^ 24
unfolding keysvalues
five-small = omega arith

delete_four :
    del by_value five 4
    ≡ some (record {
      value = some 40;
      errno = cleared;
      tree = record {
        root = node black (tip black 1) 2 20 (node black (tip red 3) 5 50 leaf);
        items = 4;
        flags = 0;
        tid = 4;
      };
      released = [];
    })
unfolding del descend unlink zip
delete_four = refl

-- An existing key cannot be replaced unless HXMAP_NOREPLACE is set.
replace_refused : (add by_value true five 3 99).ret ≡ fail eexist
unfolding add descend replace
replace_refused = refl

del-Deletes_example : (d : Deleted ℕ ℕ) × (del by_value five 2 ≡ some d) × Deletes by_value five 2 d
del-Deletes_example = del-Deletes by_value by_value-IsLawful five 2 five-IsValid

add-Refines_example :
    Refines by_value by_value-IsLawful
      (add_entries by_value true (not (noreplace five.flags)) (keysvalues five.root) 6 60)
      five
      (add by_value true five 6 60)
add-Refines_example = add-Refines by_value by_value-IsLawful true five 6 60 five-IsValid.sorted

add-IsValid_example : IsValid by_value (add by_value true five 6 60).tree
add-IsValid_example = add-IsValid by_value by_value-IsLawful true five 6 60 five-IsValid

descend-depth_example : length (path_of (descend by_value 6 [] five.root)) + 1 < rbt_maxdep
descend-depth_example = descend-depth by_value 6 five.root five-IsValid.shape five-small
