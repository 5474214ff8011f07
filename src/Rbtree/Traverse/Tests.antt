-- ===== src/Rbtree/Traverse/Tests.antt =====
-- Runs of the traverser of the tree of src/map.c, and its theorems at a concrete tree.
use libhx.Ops.{MapOps, key_failed}
use libhx.Ops.ByValue.{by_value, by_value-IsLawful}
use libhx.Prelude.{ℕ, suc, ◌*◌, ◌≡◌, refl, true, false, none, some, [], ◌∷◌, length, arith}
use libhx.Rbtree.Remove.{Deleted, del}
use libhx.Rbtree.Sorted.{erase}
use libhx.Rbtree.Traverse.Next.{arrived}
use libhx.Rbtree.Traverse.Order.{pending, later}
use libhx.Rbtree.Traverse.Visit.{Follows, Delivers, traverse-later, visit-keysvalues}
use libhx.Rbtree.Traverse.Change.{not_freed, traverse-del}
use libhx.Rbtree.Traverse.{
  Trav, trav_init, at, dive, seek, set_checkpoint, arrive, climb, next_from, next, resume,
  search_from, rewalk, current_entry, advance, after_del, traverse, visit,
}
use libhx.Rbtree.Valid.{IsValid}
use libhx.Rbtree.{Color, red, black, left, right, Tree, leaf, node, Rbtree, find, keysvalues}

abbrev tip : Color → ℕ → Tree ℕ ℕ
tip c k = node c leaf k (10 * k) leaf

copies : (k : ℕ) → key_failed by_value k ≡ false
copies = ground arith

-- the keys 1 to 5
abbrev five : Rbtree ℕ ℕ
five = record {
  root = node black (tip black 1) 2 20 (node black (tip red 3) 4 40 (tip red 5));
  items = 5;
  flags = 0;
  tid = 3;
}

five-IsValid : IsValid by_value five
unfolding keysvalues
five-IsValid = record {
  sorted = ground arith;
  shape = record { balanced = ground arith; colored = ground arith; root_black = refl };
  counted = refl;
}

-- a traverser that has returned the entries 1, 2 and 3, and now has the node 3
abbrev at_three : Trav ℕ
at_three = record {
  flags = 0;
  tid = 3;
  current = some (left ∷ right ∷ []);
  checkpoint = some 3;
  dangling = false;
  path = (left, right ∷ []) ∷ (right, []) ∷ [];
  freed = [];
}

run_first :
    traverse by_value five (trav_init 0)
    ≡ some (
      some (1, 10),
      record at_three { current = some (left ∷ []); checkpoint = some 1; path = (left, []) ∷ [] },
    )
unfolding trav_init dive seek set_checkpoint arrive climb next_from next resume search_from rewalk
    current_entry advance traverse at
run_first = refl

-- after the end, the next call starts over
starts_over :
    visit by_value 6 five (record at_three { current = none }) ≡ some (keysvalues five.root)
unfolding dive seek set_checkpoint arrive climb next_from next resume search_from rewalk
    current_entry advance traverse visit at keysvalues
starts_over = refl

-- In a tree that frees its keys, the checkpoint is freed with the entry that was returned last.
freeing : MapOps ℕ ℕ
freeing = record by_value { k_free = true }

run_freed : traverse freeing (record five { tid = 4 }) (after_del freeing five 3 at_three) ≡ none
unfolding freeing find after_del traverse
run_freed = refl

at_three-Follows : Follows by_value five at_three 3
unfolding at pending keysvalues
at_three-Follows = record {
  way = left ∷ right ∷ [];
  current = refl;
  mark = refl;
  live = refl;
  synced = λ e. (
    30,
    (4, 40) ∷ (5, 50) ∷ [],
    arrived (left ∷ right ∷ []) refl refl refl (record {
      done = (1, 10) ∷ (2, 20) ∷ [];
      behind = leaf;
      entry = refl;
      subtree = refl;
      nodes = (tt, tt);
      rest = refl;
      split = refl;
    }),
  );
}

visit-keysvalues_example :
    visit by_value (suc (length (keysvalues five.root))) five (trav_init 0)
    ≡ some (keysvalues five.root)
visit-keysvalues_example = visit-keysvalues by_value by_value-IsLawful copies five 0

traverse-later_example :
    Delivers by_value five
      (later by_value 3 (keysvalues five.root))
      (traverse by_value five at_three)
traverse-later_example =
    traverse-later by_value by_value-IsLawful copies five at_three 3 five-IsValid.sorted
      at_three-Follows

traverse-del_example :
    (d : Deleted ℕ ℕ) × (del by_value five 3 ≡ some d)
    × Delivers by_value d.tree
        (later by_value 3 (erase by_value (keysvalues five.root) 3))
        (traverse by_value d.tree (after_del by_value five 3 at_three))
traverse-del_example =
    traverse-del by_value by_value-IsLawful copies five at_three 3 3 five-IsValid (omega arith) refl
      at_three-Follows (not_freed refl)
